-- ===== src/Stats/Percentile.antt =====
-- What a percentile is.
use mathlib.Core.Option
use cs4730_collaborative_tex.Base.{
  ℕ, zero, suc, ◌+◌, ◌-◌, ◌*◌, ◌/◌, ◌≤◌, ◌<◌, ◌≡◌, ◌≢◌, refl, ap, List, [], ◌∷◌, some, arith, leb,
  nat_beq, length, get_elem?, get_elem?_inside,
}
use cs4730_collaborative_tex.Sort.{sorted}
use cs4730_collaborative_tex.Sort.Laws.{
  count_if, count_if-sorted, length-sorted, sorted-IsSorted, get_elem?_mono, count_if-le-get_elem?,
  count_if-ge-get_elem?,
}
use cs4730_collaborative_tex.Stats.{number, percentile}

index-lt-length : (n p : ℕ) → 0 < n → p ≤ 100 → n * p / 100 - 1 < n
index-lt-length n p h le = let m : n * p ≤ n * 100 = grind arith in omega arith

index_mono : (n p q : ℕ) → p ≤ q → n * p / 100 - 1 ≤ n * q / 100 - 1
index_mono n p q le = let m : n * p ≤ n * q = grind arith in omega arith

get_elem?-count_if :
    (xs : List ℕ) (i : ℕ) {v : ℕ} → get_elem? xs i ≡ some v → 1 ≤ count_if (nat_beq v) xs
get_elem?-count_if [] i e = cc
get_elem?-count_if (x ∷ xs) zero e = ground arith
get_elem?-count_if (x ∷ xs) (suc i) e = ground (arith, get_elem?-count_if xs i e)

-- What `percentile` looks up, when there is a sample.
percentile_place :
    (xs : List ℕ) (p : ℕ)
    → xs ≢ []
    → p ≤ 100
    → (v : ℕ) × (get_elem? (sorted leb xs) (length xs * p / 100 - 1) ≡ some v)
      × (percentile xs p ≡ some (number v))
unfolding percentile
percentile_place [] p ne le = absurd (ne refl)
percentile_place (x ∷ xs) p ne le =
    let (v, found) =
      get_elem?_inside (sorted leb (x ∷ xs)) (length (x ∷ xs) * p / 100 - 1)
        (rw (length-sorted leb (x ∷ xs)) (index-lt-length (length (x ∷ xs)) p (omega arith) le)) in
    (v, found, ap (Option.map number) found)

-- `v` is one of the samples; at least `p` percent of them (rounded down) and at least one are no
-- greater; and all but `n * p / 100 - 1` of them are no less.
pub record IsPercentile (xs : List ℕ) (p v : ℕ) : Type 0 where
  pub is_sample : 1 ≤ count_if (nat_beq v) xs
  pub reached : length xs * p / 100 ≤ count_if (λ x. leb x v) xs
  pub some_reached : 1 ≤ count_if (λ x. leb x v) xs
  pub rest_above : length xs ≤ (length xs * p / 100 - 1) + count_if (λ x. leb v x) xs

place-IsPercentile :
    (xs : List ℕ) (p v : ℕ)
    → get_elem? (sorted leb xs) (length xs * p / 100 - 1) ≡ some v
    → IsPercentile xs p v
place-IsPercentile xs p v found =
    let i = length xs * p / 100 - 1 in
    let s = sorted leb xs in
    let order = sorted-IsSorted xs in
    let low = count_if-le-get_elem? s i order found in
    record {
      is_sample = omega (arith, get_elem?-count_if s i found, count_if-sorted leb (nat_beq v) xs);
      reached = omega (arith, low, count_if-sorted leb (λ x. leb x v) xs);
      some_reached = omega (arith, low, count_if-sorted leb (λ x. leb x v) xs);
      rest_above = omega (
        arith,
        count_if-ge-get_elem? s i order found,
        count_if-sorted leb (λ x. leb v x) xs,
        length-sorted leb xs,
      );
    }

-- A percentile from 0 to 100 of at least one sample never raises an `IndexError` and is no `nan`: it
-- is a sample with the share of samples below and above it that the percentile asks for.
pub percentile-IsPercentile :
    (xs : List ℕ) (p : ℕ)
    → xs ≢ []
    → p ≤ 100
    → (v : ℕ) × (percentile xs p ≡ some (number v)) × IsPercentile xs p v
percentile-IsPercentile xs p ne le =
    let (v, found, value) = percentile_place xs p ne le in
    (v, value, place-IsPercentile xs p v found)

-- A greater percentile of the same samples is no smaller.
pub percentile_mono :
    (xs : List ℕ) (p q : ℕ) {v w : ℕ}
    → p ≤ q
    → q ≤ 100
    → percentile xs p ≡ some (number v)
    → percentile xs q ≡ some (number w)
    → v ≤ w
percentile_mono [] p q le top e f = unfold percentile in cc
percentile_mono (x ∷ xs) p q {v} {w} le top e f =
    let (a, found_a, value_a) = percentile_place (x ∷ xs) p (λ h. cc) (omega arith) in
    let (b, found_b, value_b) = percentile_place (x ∷ xs) q (λ h. cc) top in
    let below : a ≤ b =
      get_elem?_mono (sorted leb (x ∷ xs)) _ _ (sorted-IsSorted (x ∷ xs))
        (index_mono (length (x ∷ xs)) p q le) found_a found_b in
    let va : a ≡ v = cc in let wb : b ≡ w = cc in omega arith
