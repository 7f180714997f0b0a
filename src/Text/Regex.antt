-- ===== src/Text/Regex.antt =====
-- The pieces of the regular expressions in scripts/*.py. Every repeated class in them (`\s+`,
-- `\d+`) is followed by a character outside the class or ends the expression, so taking as many
-- characters as possible is the only way to match, and no backtracking is left out.
use cs4730_collaborative_tex.Base.{
  ◌≡◌, refl, ap, ◌≢◌, false, [], ◌∷◌, ◌++◌, Option, none, some, arith, All, is_some, ◌>>=◌,
  if◌then◌else◌,
}
use cs4730_collaborative_tex.Text.{Text, is_space, digit_value, lstrip, strip_prefix}
use cs4730_collaborative_tex.Text.Decimal.{IsDigit}

-- `\s+`: what follows the spaces.
unfoldable pub spaces : Text → Option Text
unfolding is_space lstrip
spaces [] = none
spaces (c ∷ s) = if is_space c then some (lstrip s) else none

-- `\s+` and the literal behind it.
unfoldable pub gap : Text → Text → Option Text
unfolding spaces
gap literal s = do s ← spaces s; strip_prefix literal s

-- The longest run of digits in front, and what follows it.
unfoldable pub span_digits : Text → Text × Text
span_digits [] = ([], [])
span_digits (c ∷ s) =
    if is_some (digit_value c) then (c ∷ (span_digits s).0, (span_digits s).1) else ([], c ∷ s)

-- `+` asks for one character at least.
unfoldable pub some_group : Text × Text → Option (Text × Text)
some_group ([], r) = none
some_group (c ∷ ds, r) = some (c ∷ ds, r)

-- `(\d+)`: the captured group, and what follows it.
unfoldable pub digits : Text → Option (Text × Text)
unfolding span_digits some_group
digits s = some_group (span_digits s)

module _ {ℓ} {A : Type ℓ} where
  -- `re.search`: the first position where the expression matches.
  unfoldable pub search : (Text → Option A) → Text → Option A
  search m [] = m []
  search m (c ∷ s) = let later = search m s in elim (m (c ∷ s)) [ some a ↦ some a | none ↦ later ]

  pub search_skip :
      (m : Text → Option A) (p s : Text)
      → All (λ c. (r : Text) → m (c ∷ r) ≡ none) p
      → search m (p ++ s) ≡ search m s
  unfolding search
  search_skip m [] s h = refl
  search_skip m (c ∷ p) s (here, h) = ground (arith, here (p ++ s), search_skip m p s h)

  pub search_hit : (m : Text → Option A) (s : Text) {a : A} → m s ≡ some a → search m s ≡ some a
  unfolding search
  search_hit m [] e = e
  search_hit m (c ∷ s) e = ground arith

-- A text that does not begin with a digit.
abbrev pub NoDigitFirst : Text → Type 0
NoDigitFirst [] = Unit
NoDigitFirst (c ∷ s) = is_some (digit_value c) ≡ false

span_digits-append :
    (ds r : Text) → All IsDigit ds → NoDigitFirst r → span_digits (ds ++ r) ≡ (ds, r)
unfolding span_digits
span_digits-append [] [] _ _ = refl
span_digits-append [] (c ∷ r) _ h = rw h
span_digits-append (c ∷ ds) r (here, h) stop = rw (here, span_digits-append ds r h stop)

pub digits-append :
    (ds r : Text) → ds ≢ [] → All IsDigit ds → NoDigitFirst r → digits (ds ++ r) ≡ some (ds, r)
unfolding digits
digits-append [] r ne _ _ = absurd (ne refl)
digits-append (c ∷ ds) r _ h stop = ap some_group (span_digits-append (c ∷ ds) r h stop)

pub strip_prefix-append : (p s : Text) → strip_prefix p (p ++ s) ≡ some s
strip_prefix-append [] s = refl
strip_prefix-append (c ∷ p) s = ground (arith, strip_prefix-append p s)
