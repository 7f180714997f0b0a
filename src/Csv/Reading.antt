-- ===== src/Csv/Reading.antt =====
-- A reader of the format, independent of the writer.
use cs4730_collaborative_tex.Base.{ℕ, List, [], ◌∷◌}
use cs4730_collaborative_tex.Text.{Text}
use cs4730_collaborative_tex.Csv.{comma, quote, return, newline, other, special}

-- Where the reader is: at the start of a row or of a field, in a field, in quotes, behind a quote that
-- closes them unless another one follows, or behind a carriage return.
pub data Mode : Type 0 where
  at_row at_field in_field in_quotes at_quote after_return : Mode

-- A character of the field that comes next.
unfoldable pub push : ℕ → List (List Text) → List (List Text)
push c [] = ((c ∷ []) ∷ []) ∷ []
push c ([] ∷ rows) = ((c ∷ []) ∷ []) ∷ rows
push c ((f ∷ fs) ∷ rows) = ((c ∷ f) ∷ fs) ∷ rows

-- An end of a field in front of the fields that come next.
unfoldable pub end_field : List (List Text) → List (List Text)
end_field [] = ([] ∷ []) ∷ []
end_field (fs ∷ rows) = ([] ∷ fs) ∷ rows

-- What stands behind the place: the rest of the field, of the row, and the rows.
unfoldable pub read_from : Mode → Text → List (List Text)
unfolding push end_field special
read_from at_row [] = []
read_from at_row (c ∷ s) = elim (special c) [
  | comma ↦ end_field (read_from at_field s)
  | quote ↦ read_from in_quotes s
  | return ↦ [] ∷ read_from after_return s
  | newline ↦ [] ∷ read_from at_row s
  | other ↦ push c (read_from in_field s)
]
read_from at_field [] = ([] ∷ []) ∷ []
read_from at_field (c ∷ s) = elim (special c) [
  | comma ↦ end_field (read_from at_field s)
  | quote ↦ read_from in_quotes s
  | return ↦ ([] ∷ []) ∷ read_from after_return s
  | newline ↦ ([] ∷ []) ∷ read_from at_row s
  | other ↦ push c (read_from in_field s)
]
read_from in_field [] = ([] ∷ []) ∷ []
read_from in_field (c ∷ s) = elim (special c) [
  | comma ↦ end_field (read_from at_field s)
  | quote ↦ push c (read_from in_field s)
  | return ↦ ([] ∷ []) ∷ read_from after_return s
  | newline ↦ ([] ∷ []) ∷ read_from at_row s
  | other ↦ push c (read_from in_field s)
]
read_from in_quotes [] = ([] ∷ []) ∷ []
read_from in_quotes (c ∷ s) = elim (special c) [
  | quote ↦ read_from at_quote s
  | _ ↦ push c (read_from in_quotes s)
]
read_from at_quote [] = ([] ∷ []) ∷ []
read_from at_quote (c ∷ s) = elim (special c) [
  | comma ↦ end_field (read_from at_field s)
  | quote ↦ push c (read_from in_quotes s)
  | return ↦ ([] ∷ []) ∷ read_from after_return s
  | newline ↦ ([] ∷ []) ∷ read_from at_row s
  | other ↦ push c (read_from in_field s)
]
read_from after_return [] = []
read_from after_return (c ∷ s) = elim (special c) [
  | comma ↦ end_field (read_from at_field s)
  | quote ↦ read_from in_quotes s
  | return ↦ [] ∷ read_from after_return s
  | newline ↦ read_from at_row s
  | other ↦ push c (read_from in_field s)
]

unfoldable pub read_rows : Text → List (List Text)
unfolding read_from
read_rows s = read_from at_row s
