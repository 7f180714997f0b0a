-- ===== src/Csv/RoundTrip.antt =====
-- What the reader reads of written rows.
use cs4730_collaborative_tex.Base.{
  ℕ, ◌≡◌, ◌≢◌, refl, sym, ap, ◌∙◌, ◌⊎◌, inl, inr, false, List, [], ◌∷◌, ◌++◌, arith, append_assoc,
  append-nil, All, Bool-cases,
}
use cs4730_collaborative_tex.Text.{Text}
use cs4730_collaborative_tex.Csv.{
  comma, return, special, needs_quotes, double_quotes, quoted_field, write_field, write_fields,
  write_row, write_rows,
}
use cs4730_collaborative_tex.Csv.Reading.{
  at_row, at_field, in_field, in_quotes, at_quote, push, end_field, read_from, read_rows,
}

read_from-opened : (s : Text) → read_from at_field (0x22 ∷ s) ≡ read_from in_quotes s
unfolding read_from special
read_from-opened s = refl

push_all : Text → List (List Text) → List (List Text)
push_all [] rows = rows
push_all (c ∷ f) rows = push c (push_all f rows)

push_all-field :
    (f g : Text) (fs : List Text) (rows : List (List Text))
    → push_all f ((g ∷ fs) ∷ rows) ≡ ((f ++ g) ∷ fs) ∷ rows
unfolding push_all push
push_all-field [] g fs rows = refl
push_all-field (c ∷ f) g fs rows = ap (push c) (push_all-field f g fs rows)

read_from-plain :
    (f s : Text)
    → needs_quotes f ≡ false
    → read_from in_field (f ++ s) ≡ push_all f (read_from in_field s)
unfolding read_from needs_quotes push_all
read_from-plain [] s h = refl
read_from-plain (c ∷ f) s h = ground (arith, read_from-plain f s)

read_from-quoted :
    (f s : Text)
    → read_from in_quotes (double_quotes f ++ 0x22 ∷ s) ≡ push_all f (read_from at_quote s)
unfolding read_from double_quotes push_all special
read_from-quoted [] s = refl
read_from-quoted (c ∷ f) s = ground (arith, read_from-quoted f s)

-- What ends a field that is written.
abbrev IsEnd : ℕ → Type 0
IsEnd c = (special c ≡ comma) ⊎ (special c ≡ return)

read_from-unquoted :
    (f : Text) (c : ℕ) (s : Text)
    → needs_quotes f ≡ false
    → IsEnd c
    → read_from at_field (f ++ c ∷ s) ≡ read_from in_field (f ++ c ∷ s)
unfolding read_from needs_quotes
read_from-unquoted [] c s plain (inl end) = ground (arith, end)
read_from-unquoted [] c s plain (inr end) = ground (arith, end)
read_from-unquoted (d ∷ f) c s plain end = ground (arith, plain)

read_from-closed :
    (c : ℕ) (s : Text) → IsEnd c → read_from at_quote (c ∷ s) ≡ read_from in_field (c ∷ s)
unfolding read_from
read_from-closed c s (inl end) = ground (arith, end)
read_from-closed c s (inr end) = ground (arith, end)

quoted_field_eq : (f t : Text) → quoted_field f ++ t ≡ 0x22 ∷ (double_quotes f ++ 0x22 ∷ t)
quoted_field_eq f t = ap (λ x. 0x22 ∷ x) (append_assoc (double_quotes f) (0x22 ∷ []) t)

read_from-write_field :
    (f : Text) (c : ℕ) (s : Text)
    → IsEnd c
    → read_from at_field (write_field f ++ c ∷ s) ≡ push_all f (read_from in_field (c ∷ s))
unfolding write_field
read_from-write_field f c s end = elim (Bool-cases (needs_quotes f)) [
  | inl quoted ↦ rw quoted (
      ap (read_from at_field) (quoted_field_eq f (c ∷ s))
      ∙ read_from-opened (double_quotes f ++ 0x22 ∷ c ∷ s)
      ∙ read_from-quoted f (c ∷ s)
      ∙ ap (push_all f) (read_from-closed c s end))
  | inr plain ↦ rw plain (read_from-unquoted f c s plain end ∙ read_from-plain f (c ∷ s) plain)
]

read_from_end : (s : Text) → read_from in_field (0xd ∷ 0xa ∷ s) ≡ ([] ∷ []) ∷ read_from at_row s
unfolding read_from special
read_from_end s = refl

read_from_next :
    (s : Text) (f : Text) (fs : List Text) (rows : List (List Text))
    → read_from at_field s ≡ (f ∷ fs) ∷ rows
    → read_from in_field (0x2c ∷ s) ≡ ([] ∷ f ∷ fs) ∷ rows
unfolding read_from special end_field
read_from_next s f fs rows h = ap end_field h

IsEnd-comma : IsEnd 0x2c
unfolding special
IsEnd-comma = inl refl

IsEnd-return : IsEnd 0xd
unfolding special
IsEnd-return = inr refl

push_all-last :
    (f : Text) (fs : List Text) (rows : List (List Text))
    → push_all f (([] ∷ fs) ∷ rows) ≡ (f ∷ fs) ∷ rows
push_all-last f fs rows = push_all-field f [] fs rows ∙ ap (λ x. (x ∷ fs) ∷ rows) (append-nil f)

read_from-write_fields :
    (f : Text) (fs : List Text) (s : Text)
    → read_from at_field (write_fields (f ∷ fs) ++ 0xd ∷ 0xa ∷ s) ≡ (f ∷ fs) ∷ read_from at_row s
unfolding write_fields
read_from-write_fields f [] s =
    read_from-write_field f 0xd (0xa ∷ s) IsEnd-return
    ∙ ap (push_all f) (read_from_end s)
    ∙ push_all-last f [] (read_from at_row s)
read_from-write_fields f (g ∷ fs) s =
    let rest = write_fields (g ∷ fs) ++ 0xd ∷ 0xa ∷ s in
    ap (read_from at_field)
      (append_assoc (write_field f) (0x2c ∷ write_fields (g ∷ fs)) (0xd ∷ 0xa ∷ s))
    ∙ read_from-write_field f 0x2c rest IsEnd-comma
    ∙ ap (push_all f)
        (read_from_next rest g fs (read_from at_row s) (read_from-write_fields g fs s))
    ∙ push_all-last f (g ∷ fs) (read_from at_row s)

-- At the start of a row a field is read like anywhere, unless it is empty and the row ends with it.
read_from-start :
    (d : ℕ) (f t : Text)
    → read_from at_row (write_field (d ∷ f) ++ t) ≡ read_from at_field (write_field (d ∷ f) ++ t)
unfolding write_field
read_from-start d f t = elim (Bool-cases (needs_quotes (d ∷ f))) [
  | inl quoted ↦ rw quoted (starts_quoted ((double_quotes (d ∷ f) ++ 0x22 ∷ []) ++ t))
  | inr plain ↦ rw plain (starts_plain d f t plain)
]
  where
    starts_quoted : (s : Text) → read_from at_row (0x22 ∷ s) ≡ read_from at_field (0x22 ∷ s)
    starts_quoted s = unfold read_from in unfold special in refl

    starts_plain :
        (d : ℕ) (f t : Text)
        → needs_quotes (d ∷ f) ≡ false
        → read_from at_row (d ∷ (f ++ t)) ≡ read_from at_field (d ∷ (f ++ t))
    starts_plain d f t plain = unfold read_from in unfold needs_quotes in ground (arith, plain)

read_from-write_row :
    (f : Text) (fs : List Text) (s : Text)
    → read_from at_row (write_row (f ∷ fs) ++ 0xd ∷ 0xa ∷ s) ≡ (f ∷ fs) ∷ read_from at_row s
unfolding write_row
read_from-write_row [] [] s = unfold read_from in unfold special in refl
read_from-write_row (d ∷ f) [] s =
    read_from-start d f (0xd ∷ 0xa ∷ s) ∙ read_from-write_fields (d ∷ f) [] s
read_from-write_row (d ∷ f) (g ∷ fs) s =
    let last = 0xd ∷ 0xa ∷ s in
    let split = append_assoc (write_field (d ∷ f)) (0x2c ∷ write_fields (g ∷ fs)) last in
    ap (read_from at_row) split
    ∙ read_from-start d f (0x2c ∷ write_fields (g ∷ fs) ++ last)
    ∙ sym (ap (read_from at_field) split)
    ∙ read_from-write_fields (d ∷ f) (g ∷ fs) s
read_from-write_row [] (g ∷ fs) s =
    comma_first (write_fields (g ∷ fs) ++ 0xd ∷ 0xa ∷ s) ∙ read_from-write_fields [] (g ∷ fs) s
  where
    comma_first : (t : Text) → read_from at_row (0x2c ∷ t) ≡ read_from at_field (0x2c ∷ t)
    comma_first t = unfold read_from in unfold special in refl

-- A row has a field.
abbrev pub IsRow : List Text → Type 0
IsRow fs = fs ≢ []

-- Rows that are written are read back, whatever their fields hold.
pub read_rows-write_rows :
    (rows : List (List Text)) → All IsRow rows → read_rows (write_rows rows) ≡ rows
unfolding read_rows write_rows
read_rows-write_rows [] h = unfold read_from in refl
read_rows-write_rows ([] ∷ rows) h = absurd (h.0 refl)
read_rows-write_rows ((f ∷ fs) ∷ rows) h =
    read_from-write_row f fs (write_rows rows)
    ∙ ap (λ rest. (f ∷ fs) ∷ rest) (read_rows-write_rows rows h.1)
