-- ===== src/Headless.antt =====
-- The headless mode of src/p2p-editor.cpp: `runHeadless`, which reads an editing script and applies it to
-- the pipeline. A text is a list of bytes. What the C++ library's `>>` does to a stream of one line is
-- defined as the standard says.
pub mod Parsing
pub mod Lines
pub mod Running
pub mod Replaying
pub mod Generated
use cs4730_collaborative_tex.Base.{
  ℕ, ◌+◌, ◌-◌, ◌*◌, ◌^◌, Bool, true, false, ◌||◌, ◌&&◌, List, [], ◌∷◌, ◌++◌, none, some, ltb, leb,
  nat_beq, if◌then◌else◌,
}
use cs4730_collaborative_tex.Base.Eq.{text_eq, ◌==◌}
use cs4730_collaborative_tex.Base.Int.{ℤ, pos, negsuc, sub_ℕ}
use cs4730_collaborative_tex.Text.{Text, codes}
use cs4730_collaborative_tex.Rga.{local_delete, document}
use cs4730_collaborative_tex.Pipeline.{Pipeline, enqueue_insert, enqueue_delete}

-- `std::isspace` in the C locale.
abbrev pub is_blank : ℕ → Bool
is_blank c = nat_beq c 0x20 || (leb 9 c && leb c 13)

abbrev pub is_digit : ℕ → Bool
is_digit c = leb 0x30 c && leb c 0x39

-- `std::ws`
unfoldable pub skip_blanks : Text → Text
skip_blanks [] = []
skip_blanks (c ∷ s) = if is_blank c then skip_blanks s else c ∷ s

-- The characters up to a blank, and what follows them.
unfoldable pub take_word : Text → Text × Text
take_word [] = ([], [])
take_word (c ∷ s) =
    let (word, rest) = take_word s in if is_blank c then ([], c ∷ s) else (c ∷ word, rest)

-- What `ss >> n` does to an `int`: nothing at the end of the stream; it sets a value and fails where
-- there is no number (0) or where it does not fit (the bound); or it sets the number.
pub data Extracted : Type 0 where
  unset : Extracted
  failed : ℤ → Extracted
  read : ℤ → Text → Extracted

-- The digits, behind some that make `n`.
unfoldable pub take_digits : ℕ → Text → ℕ × Text
take_digits n [] = (n, [])
take_digits n (c ∷ s) =
    let rest = take_digits (n * 10 + (c - 0x30)) s in if is_digit c then rest else (n, c ∷ s)

-- A number of 32 bits, from its sign and its digits.
abbrev pub in_int : Bool → ℕ × Text → Extracted
in_int false (n, rest) = if ltb n (2 ^ 31) then read (pos n) rest else failed (pos (2 ^ 31 - 1))
in_int true (n, rest) =
    if leb n (2 ^ 31) then read (sub_ℕ 0 n) rest else failed (negsuc (2 ^ 31 - 1))

-- The digits behind the sign.
unfoldable pub extract_digits : Bool → Text → Extracted
unfolding take_digits
extract_digits negative [] = failed (pos 0)
extract_digits negative (c ∷ s) =
    if is_digit c then in_int negative (take_digits 0 (c ∷ s)) else failed (pos 0)

-- `ss >> n`
unfoldable pub extract_int : Text → Extracted
unfolding skip_blanks extract_digits
extract_int s = elim (skip_blanks s) [
  | [] ↦ unset
  | c ∷ r ↦
      if nat_beq c b'-'
      then extract_digits true r
      else if nat_beq c b'+'
      then extract_digits false r
      else extract_digits false (c ∷ r)
]

-- What a line says; `garbled` is one whose variable is used without a value, which C++ leaves
-- undefined.
pub data Line : Type 0 where
  ignored garbled : Line
  insert : ℤ → ℕ → Line
  delete sleep : ℤ → Line
  dump quit : Line

-- `ss >> pos >> c`
unfoldable pub insert_line : Extracted → Line
unfolding skip_blanks
insert_line unset = garbled
insert_line (failed _) = garbled
insert_line (read at rest) = elim (skip_blanks rest) [ [] ↦ garbled | c ∷ _ ↦ insert at c ]

abbrev pub number_line : (ℤ → Line) → Extracted → Line
number_line line unset = garbled
number_line line (failed n) = line n
number_line line (read n _) = line n

abbrev pub line_of : Text → Text → Line
line_of cmd rest =
    if cmd == codes "INSERT"
    then insert_line (extract_int rest)
    else if cmd == codes "DELETE"
    then number_line delete (extract_int rest)
    else if cmd == codes "SLEEP"
    then number_line sleep (extract_int rest)
    else if cmd == codes "DUMP"
    then dump
    else if cmd == codes "QUIT"
    then quit
    else ignored

-- The body of the loop, up to what it does to the pipeline.
unfoldable pub parse_line : Text → Line
unfolding skip_blanks take_word insert_line extract_int
parse_line [] = ignored
parse_line (c ∷ s) =
    if nat_beq c b'#'
    then ignored
    else let (cmd, rest) = take_word (skip_blanks (c ∷ s)) in line_of cmd rest

push_byte : ℕ → List Text → List Text
push_byte c [] = (c ∷ []) ∷ []
push_byte c (l ∷ ls) = (c ∷ l) ∷ ls

-- The lines that `std::getline` returns.
unfoldable pub get_lines : Text → List Text
unfolding push_byte
get_lines [] = []
get_lines (c ∷ s) = if nat_beq c 0xa then [] ∷ get_lines s else push_byte c (get_lines s)

-- How a run ends, with the pipeline and what was printed; or with an exception, or undefined.
pub data Ran : Type 0 where
  ended : Pipeline → Text → Ran
  threw undefined : Ran

-- The loop over the lines, while no other thread changes the pipeline; `out` was printed before.
unfoldable pub run_lines : List Text → Pipeline → Text → Ran
unfolding parse_line
run_lines [] p out = ended p out
run_lines (line ∷ lines) p out = elim (parse_line line) [
  | ignored ↦ run_lines lines p out
  | garbled ↦ undefined
  | insert at c ↦ elim (enqueue_insert at c p) [ none ↦ threw | some p' ↦ run_lines lines p' out ]
  | delete at ↦ elim ((local_delete at p.engine).1) [
    | none ↦ threw
    | some _ ↦ run_lines lines (enqueue_delete at p) out
  ]
  | sleep _ ↦ run_lines lines p out
  | dump ↦ run_lines lines p (out ++ document p.engine.seq)
  | quit ↦ ended p out
]

-- `runHeadless` for the text of a script.
unfoldable pub run_headless : Text → Pipeline → Ran
unfolding get_lines run_lines
run_headless script p = run_lines (get_lines script) p []
