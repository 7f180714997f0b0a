-- ===== src/Files.antt =====
-- What scripts/*.py ask of the operating system: `os.listdir`, `os.path.isdir`, `open(...).read()`,
-- as an interface over a directory tree that does not change while a script runs. `os.path.join`
-- and the sorted order of entries are Python's own and are defined.
use cs4730_collaborative_tex.Base.{
  ℕ, Bool, true, false, List, [], ◌∷◌, ◌++◌, Option, ltb, nat_beq, if◌then◌else◌,
}
use cs4730_collaborative_tex.Text.{Text, codes, ends_with, starts_with}

-- `content` is the decoded text with its line ends translated; `missing` is `FileNotFoundError`,
-- `failed` any other `OSError`.
pub data Contents : Type 0 where
  content : Text → Contents
  missing failed : Contents

pub record FileSystem : Type 0 where
  pub listdir : Text → Option (List Text)
  pub is_dir : Text → Bool
  pub read : Text → Contents

-- `os.path.join(a, b)`
unfoldable pub join : Text → Text → Text
join a b = if starts_with b (codes "/") then b else elim a [
  | [] ↦ b
  | c ∷ r ↦ if ends_with (c ∷ r) (codes "/") then c ∷ r ++ b else (c ∷ r ++ codes "/") ++ b
]

-- Texts compare by code points: `a <= b`.
abbrev pub text_leb : Text → Text → Bool
text_leb [] t = true
text_leb (c ∷ s) [] = false
text_leb (c ∷ s) (d ∷ t) = if nat_beq c d then text_leb s t else ltb c d

push_char : ℕ → List Text → List Text
push_char c [] = (c ∷ []) ∷ []
push_char c (l ∷ ls) = (c ∷ l) ∷ ls

-- `for line in fh`: the lines of a text, each with its line end.
unfoldable pub split_lines : Text → List Text
unfolding push_char
split_lines [] = []
split_lines (c ∷ s) =
    if nat_beq c 0xa then (c ∷ []) ∷ split_lines s else push_char c (split_lines s)
