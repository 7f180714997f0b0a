-- ===== src/Text/Decimal.antt =====
-- Decimal numbers: `int()` on the digits that `\d+` captures, and how numbers are printed (Python's
-- f-strings and `std::to_string`).
use mathlib.Core.Option
use cs4730_collaborative_tex.Base.{
  ℕ, zero, suc, ◌+◌, ◌*◌, ◌/◌, ◌%◌, ◌<◌, ◌≡◌, ◌≢◌, Bool, true, false, ◌&&◌, List, [], ◌∷◌, Option,
  none, some, arith, ltb, nat_beq, All, or_else, is_some, if◌then◌else◌, Bool-cases, inl, inr,
}
use cs4730_collaborative_tex.Base.Int.{ℤ, pos, negsuc, sub_ℕ}
use cs4730_collaborative_tex.Text.{Text, strip, digit_value, digit_from, other_zeros}

-- `int(text)`, where `text` is one or more decimal digits.
int_from : ℕ → Text → ℕ
int_from n [] = n
int_from n (c ∷ s) = int_from (n * 10 + or_else (digit_value c) 0) s

unfoldable pub int : Text → ℕ
unfolding int_from
int s = int_from 0 s

-- The digits of `n` in front of `out`; the fuel is above `n`.
unfoldable pub print_from : ℕ → ℕ → Text → Text
print_from zero n out = out
print_from (suc f) n out =
    let rest = print_from f (n / 10) ((0x30 + n % 10) ∷ out) in
    if ltb n 10 then (0x30 + n % 10) ∷ out else rest

unfoldable pub print : ℕ → Text
unfolding print_from
print n = print_from (suc n) n []

abbrev pub IsDigit : ℕ → Type 0
IsDigit c = is_some (digit_value c) ≡ true

digit_from-head : (zs : List ℕ) (d : ℕ) → d < 10 → digit_from (0x30 ∷ zs) (0x30 + d) ≡ some d
unfolding digit_from
digit_from-head zs d h = ground arith

pub digit_value-print : (n : ℕ) → digit_value (0x30 + n % 10) ≡ some (n % 10)
unfolding digit_value
digit_value-print n = digit_from-head other_zeros (n % 10) (omega arith)

int_from-print_from :
    (f n : ℕ) (out : Text) → n < f → int_from 0 (print_from f n out) ≡ int_from n out
unfolding int_from print_from
int_from-print_from zero n out h = elim h [ ]
int_from-print_from (suc f) n out h =
    ground (arith, digit_value-print n, int_from-print_from f (n / 10) ((0x30 + n % 10) ∷ out))

pub int-print : (n : ℕ) → int (print n) ≡ n
unfolding int print
int-print n = int_from-print_from (suc n) n [] (omega arith)

print_from-IsDigit : (f n : ℕ) (out : Text) → All IsDigit out → All IsDigit (print_from f n out)
unfolding print_from
print_from-IsDigit zero n out h = h
print_from-IsDigit (suc f) n out h =
    let front : All IsDigit ((0x30 + n % 10) ∷ out) = (rw (digit_value-print n), h) in
    elim (Bool-cases (ltb n 10)) [
      | inl small ↦ rw small front
      | inr big ↦ rw big (print_from-IsDigit f (n / 10) ((0x30 + n % 10) ∷ out) front)
    ]

pub print-IsDigit : (n : ℕ) → All IsDigit (print n)
unfolding print
print-IsDigit n = print_from-IsDigit (suc n) n [] tt

print_from-ne-nil : (f n : ℕ) (out : Text) → n < f → print_from f n out ≢ []
unfolding print_from
print_from-ne-nil zero n out h = elim h [ ]
print_from-ne-nil (suc f) n out h = elim (Bool-cases (ltb n 10)) [
  | inl small ↦ rw small (λ e. cc)
  | inr big ↦ rw big (print_from-ne-nil f (n / 10) ((0x30 + n % 10) ∷ out) (ground arith))
]

pub print-ne-nil : (n : ℕ) → print n ≢ []
unfolding print
print-ne-nil n = print_from-ne-nil (suc n) n [] (omega arith)

-- The digits of `int(text)`: a `_` may stand between two digits. `after` says that a digit came
-- just before.
read_digits : ℕ → Bool → Text → Option ℕ
read_digits n after [] = if after then some n else none
read_digits n after (c ∷ s) = elim (digit_value c) [
  | some d ↦ read_digits (n * 10 + d) true s
  | none ↦ if nat_beq c b'_' && after then read_digits n false s else none
]

read_signed : Text → Option ℤ
unfolding read_digits
read_signed [] = none
read_signed (c ∷ s) =
    if nat_beq c b'-'
    then Option.map (λ n. sub_ℕ 0 n) (read_digits 0 false s)
    else Option.map pos (read_digits 0 false (if nat_beq c b'+' then s else c ∷ s))

-- `int(text)` of any text: spaces round it and a sign are allowed; `none` is a `ValueError`. (Python
-- refuses texts of more than 4,300 digits as well.)
unfoldable pub parse_int : Text → Option ℤ
unfolding read_signed strip
parse_int s = read_signed (strip s)

-- An int in an f-string.
unfoldable pub print_int : ℤ → Text
unfolding print
print_int (pos n) = print n
print_int (negsuc n) = b'-' ∷ print (suc n)
