-- ===== src/Csv.antt =====
-- Python's `csv.DictWriter` with its default dialect, as `write_csv` of the scripts uses it: a field is
-- quoted if it has to be, a quote in it is doubled, and a row ends with a carriage return and a
-- newline.
pub mod Reading
pub mod RoundTrip
use cs4730_collaborative_tex.Base.{
  ℕ, Bool, true, false, List, [], ◌∷◌, ◌++◌, nat_beq, if◌then◌else◌,
}
use cs4730_collaborative_tex.Text.{Text}

-- The characters that the format gives a meaning.
pub data Special : Type 0 where
  comma quote return newline other : Special

unfoldable pub special : ℕ → Special
special c =
    if nat_beq c 0x2c
    then comma
    else if nat_beq c 0x22
    then quote
    else if nat_beq c 0xd
    then return
    else if nat_beq c 0xa
    then newline
    else other

unfoldable pub needs_quotes : Text → Bool
unfolding special
needs_quotes [] = false
needs_quotes (c ∷ s) = elim (special c) [ other ↦ needs_quotes s | _ ↦ true ]

unfoldable pub double_quotes : Text → Text
unfolding special
double_quotes [] = []
double_quotes (c ∷ s) = elim (special c) [
  | quote ↦ 0x22 ∷ 0x22 ∷ double_quotes s
  | _ ↦ c ∷ double_quotes s
]

abbrev pub quoted_field : Text → Text
quoted_field s = 0x22 ∷ (double_quotes s ++ 0x22 ∷ [])

unfoldable pub write_field : Text → Text
unfolding needs_quotes double_quotes
write_field s = if needs_quotes s then quoted_field s else s

unfoldable pub write_fields : List Text → Text
unfolding write_field
write_fields [] = []
write_fields (f ∷ []) = write_field f
write_fields (f ∷ g ∷ fs) = write_field f ++ 0x2c ∷ write_fields (g ∷ fs)

-- A row of a single empty field is quoted, since it would be read as no row.
unfoldable pub write_row : List Text → Text
unfolding write_fields
write_row ([] ∷ []) = 0x22 ∷ 0x22 ∷ []
write_row fs = write_fields fs

unfoldable pub write_rows : List (List Text) → Text
unfolding write_row
write_rows [] = []
write_rows (r ∷ rs) = write_row r ++ 0xd ∷ 0xa ∷ write_rows rs
