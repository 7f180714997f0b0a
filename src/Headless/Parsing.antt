-- ===== src/Headless/Parsing.antt =====
-- `runHeadless` reads the commands that scripts/gen_convergence_script.py prints.
use cs4730_collaborative_tex.Base.{
  ℕ, zero, suc, ◌+◌, ◌/◌, ◌%◌, ◌^◌, ◌<◌, ◌≡◌, refl, sym, ap, subst, ◌∙◌, inl, inr, Bool, true,
  false, Bool-cases, [], ◌∷◌, ◌++◌, append-nil, arith, ltb, nat_beq,
}
use cs4730_collaborative_tex.Base.Int.{ℤ, pos, negsuc}
use cs4730_collaborative_tex.Text.{Text}
use cs4730_collaborative_tex.Text.Decimal.{print, print_from, print_int}
use cs4730_collaborative_tex.Serializer.RoundTrip.{IsInt32}
use cs4730_collaborative_tex.Script.{Command, command_line}
use cs4730_collaborative_tex.Headless.{
  is_blank, is_digit, skip_blanks, take_word, read, take_digits, in_int, extract_digits,
  extract_int, Line, insert_line, number_line, parse_line,
}

-- The next character is no digit.
abbrev NoDigit : Text → Type 0
NoDigit [] = Unit
NoDigit (c ∷ _) = is_digit c ≡ false

take_digits-print_from :
    (f n : ℕ) (out : Text) → n < f → take_digits 0 (print_from f n out) ≡ take_digits n out
unfolding take_digits print_from
take_digits-print_from zero n out h = absurd (omega (arith, h))
take_digits-print_from (suc f) n out h =
    ground (arith, take_digits-print_from f (n / 10) ((0x30 + n % 10) ∷ out))

print_from-append :
    (f n : ℕ) (out rest : Text) → print_from f n out ++ rest ≡ print_from f n (out ++ rest)
unfolding print_from
print_from-append zero n out rest = refl
print_from-append (suc f) n out rest =
    ground (arith, print_from-append f (n / 10) ((0x30 + n % 10) ∷ out) rest)

take_digits-rest : (n : ℕ) (rest : Text) → NoDigit rest → take_digits n rest ≡ (n, rest)
unfolding take_digits
take_digits-rest n [] h = refl
take_digits-rest n (c ∷ s) h = ground (arith, h)

take_digits-print :
    (n : ℕ) (rest : Text) → NoDigit rest → take_digits 0 (print n ++ rest) ≡ (n, rest)
unfolding print
take_digits-print n rest h =
    ap (take_digits 0) (print_from-append (suc n) n [] rest)
    ∙ take_digits-print_from (suc n) n rest (omega arith)
    ∙ take_digits-rest n rest h

-- A number starts with a digit.
abbrev StartsDigit : Text → Type 0
StartsDigit s = (c : ℕ) × (t : Text) × (s ≡ c ∷ t) × (is_digit c ≡ true)

print_from-StartsDigit : (f n : ℕ) (out : Text) → n < f → StartsDigit (print_from f n out)
unfolding print_from
print_from-StartsDigit zero n out h = absurd (omega (arith, h))
print_from-StartsDigit (suc f) n out h = elim (Bool-cases (ltb n 10)) [
  | inl small ↦ rw small (0x30 + n % 10, out, refl, ground arith)
  | inr big ↦
      rw big (print_from-StartsDigit f (n / 10) ((0x30 + n % 10) ∷ out) (ground (arith, big, h)))
]

print-StartsDigit : (n : ℕ) (rest : Text) → StartsDigit (print n ++ rest)
unfolding print
print-StartsDigit n rest =
    subst StartsDigit (sym (print_from-append (suc n) n [] rest))
      (print_from-StartsDigit (suc n) n rest (omega arith))

extract_digits-print :
    (negative : Bool) (n : ℕ) (rest : Text)
    → NoDigit rest
    → extract_digits negative (print n ++ rest) ≡ in_int negative (n, rest)
unfolding extract_digits
extract_digits-print negative n rest h =
    let (c, t, same, digit) = print-StartsDigit n rest in
    ap (extract_digits negative) same
    ∙ digits_first c t digit
    ∙ ap (λ s. in_int negative (take_digits 0 s)) (sym same)
    ∙ ap (in_int negative) (take_digits-print n rest h)
  where
    digits_first :
        (c : ℕ) (t : Text)
        → is_digit c ≡ true
        → extract_digits negative (c ∷ t) ≡ in_int negative (take_digits 0 (c ∷ t))
    digits_first c t digit = rw (extract_digits, digit) refl

extract_int-digit :
    (c : ℕ) (t : Text)
    → is_digit c ≡ true
    → extract_int (0x20 ∷ c ∷ t) ≡ extract_digits false (c ∷ t)
unfolding extract_int skip_blanks
extract_int-digit c t digit =
    let filled : is_blank c ≡ false = ground (arith, digit) in
    let no_minus : nat_beq c b'-' ≡ false = ground (arith, digit) in
    let no_plus : nat_beq c b'+' ≡ false = ground (arith, digit) in
    ground (arith, filled, no_minus, no_plus)

extract_int-print :
    (n : ℕ) (rest : Text)
    → NoDigit rest
    → extract_int (0x20 ∷ (print n ++ rest)) ≡ in_int false (n, rest)
extract_int-print n rest h =
    let (c, t, same, digit) = print-StartsDigit n rest in
    ap (λ s. extract_int (0x20 ∷ s)) same
    ∙ extract_int-digit c t digit
    ∙ ap (extract_digits false) (sym same)
    ∙ extract_digits-print false n rest h

in_int-fits : (n : ℕ) (rest : Text) → n < 2 ^ 31 → in_int false (n, rest) ≡ read (pos n) rest
in_int-fits n rest h = ground (arith, h)

extract_int-minus : (s : Text) → extract_int (0x20 ∷ b'-' ∷ s) ≡ extract_digits true s
unfolding extract_int skip_blanks
extract_int-minus s = refl

in_int-minus : (n : ℕ) → n < 2 ^ 31 → in_int true (suc n, []) ≡ read (negsuc n) []
in_int-minus n h = ground (arith, h)

extract_int-print_int : (n : ℤ) → IsInt32 n → extract_int (0x20 ∷ print_int n) ≡ read n []
unfolding print_int
extract_int-print_int (pos n) h =
    ap (λ s. extract_int (0x20 ∷ s)) (sym (append-nil (print n)))
    ∙ extract_int-print n [] tt
    ∙ in_int-fits n [] h
extract_int-print_int (negsuc n) h =
    extract_int-minus (print (suc n))
    ∙ ap (extract_digits true) (sym (append-nil (print (suc n))))
    ∙ extract_digits-print true (suc n) [] tt
    ∙ in_int-minus n h

insert_line-char :
    (at : ℤ) (c : ℕ) → is_blank c ≡ false → insert_line (read at (0x20 ∷ c ∷ [])) ≡ Line.insert at c
unfolding insert_line skip_blanks
insert_line-char at c h = ground (arith, h)

-- What a command of a script says.
abbrev pub line_for : Command → Line
line_for (Command.sleep n) = Line.sleep n
line_for (Command.insert p c) = Line.insert (pos p) c
line_for (Command.delete p) = Line.delete (pos p)
line_for Command.dump = Line.dump
line_for Command.quit = Line.quit

-- Its numbers fit in 32 bits, and a blank is no character to insert.
abbrev pub IsReadable : Command → Type 0
IsReadable (Command.sleep n) = IsInt32 n
IsReadable (Command.insert p c) = (p < 2 ^ 31) × (is_blank c ≡ false)
IsReadable (Command.delete p) = p < 2 ^ 31
IsReadable Command.dump = Unit
IsReadable Command.quit = Unit

pub parse_line-command_line :
    (c : Command) → IsReadable c → parse_line (command_line c) ≡ line_for c
unfolding parse_line command_line take_word skip_blanks
parse_line-command_line (Command.sleep n) h =
    ap (number_line Line.sleep) (extract_int-print_int n h)
parse_line-command_line (Command.insert p c) (small, filled) =
    ap insert_line (extract_int-print p (0x20 ∷ c ∷ []) refl ∙ in_int-fits p (0x20 ∷ c ∷ []) small)
    ∙ insert_line-char (pos p) c filled
parse_line-command_line (Command.delete p) h =
    ap (λ s. number_line Line.delete (extract_int (0x20 ∷ s))) (sym (append-nil (print p)))
    ∙ ap (number_line Line.delete) (extract_int-print p [] tt ∙ in_int-fits p [] h)
parse_line-command_line Command.dump h = refl
parse_line-command_line Command.quit h = refl
