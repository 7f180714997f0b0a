-- ===== src/Stats/Summary.antt =====
-- The least, greatest and mean sample, and how they frame the percentiles.
use cs4730_collaborative_tex.Base.{
  ℕ, ◌+◌, ◌*◌, ◌≤◌, ◌<◌, ◌≡◌, ◌≢◌, refl, List, [], ◌∷◌, some, arith, ltb, nat_beq, length, All,
  if◌then◌else◌,
}
use cs4730_collaborative_tex.Sort.Laws.{count_if}
use cs4730_collaborative_tex.Stats.{
  Ratio, ratio, number, percentile, min_from, min_of, max_from, max_of, sum_from, sum, average,
}
use cs4730_collaborative_tex.Stats.Percentile.{percentile-IsPercentile}

pub min_from-le : (m : ℕ) (xs : List ℕ) → min_from m xs ≤ m
unfolding min_from
min_from-le m [] = omega arith
min_from-le m (x ∷ xs) = ground (arith, min_from-le (if ltb x m then x else m) xs)

pub max_from-ge : (m : ℕ) (xs : List ℕ) → m ≤ max_from m xs
unfolding max_from
max_from-ge m [] = omega arith
max_from-ge m (x ∷ xs) = ground (arith, max_from-ge (if ltb m x then x else m) xs)

-- A sample lies between the least and the greatest.
min_from-le_sample : (m v : ℕ) (xs : List ℕ) → 1 ≤ count_if (nat_beq v) xs → min_from m xs ≤ v
unfolding min_from
min_from-le_sample m v [] h = absurd (omega arith)
min_from-le_sample m v (x ∷ xs) h = ground (
  arith,
  min_from-le (if ltb x m then x else m) xs,
  min_from-le_sample (if ltb x m then x else m) v xs,
)

max_from-ge_sample : (m v : ℕ) (xs : List ℕ) → 1 ≤ count_if (nat_beq v) xs → v ≤ max_from m xs
unfolding max_from
max_from-ge_sample m v [] h = absurd (omega arith)
max_from-ge_sample m v (x ∷ xs) h = ground (
  arith,
  max_from-ge (if ltb m x then x else m) xs,
  max_from-ge_sample (if ltb m x then x else m) v xs,
)

min_sample : (x v : ℕ) (xs : List ℕ) → 1 ≤ count_if (nat_beq v) (x ∷ xs) → min_from x xs ≤ v
min_sample x v xs h = ground (arith, min_from-le x xs, min_from-le_sample x v xs)

max_sample : (x v : ℕ) (xs : List ℕ) → 1 ≤ count_if (nat_beq v) (x ∷ xs) → v ≤ max_from x xs
max_sample x v xs h = ground (arith, max_from-ge x xs, max_from-ge_sample x v xs)

-- A percentile of some samples lies between `min` and `max` of them.
pub percentile_between :
    (xs : List ℕ) (p : ℕ)
    → xs ≢ []
    → p ≤ 100
    → (low v high : ℕ) × (min_of xs ≡ number low)
      × (percentile xs p ≡ some (number v))
      × (max_of xs ≡ number high)
      × (low ≤ v)
      × (v ≤ high)
unfolding min_of max_of
percentile_between [] p ne le = absurd (ne refl)
percentile_between (x ∷ xs) p ne le =
    let (v, value, is) = percentile-IsPercentile (x ∷ xs) p ne le in
    (
      min_from x xs,
      v,
      max_from x xs,
      refl,
      value,
      refl,
      min_sample x v xs is.is_sample,
      max_sample x v xs is.is_sample,
    )

sum_from-ge :
    (acc low : ℕ) (xs : List ℕ) → All (λ x. low ≤ x) xs → acc + low * length xs ≤ sum_from acc xs
unfolding sum_from
sum_from-ge acc low [] h = omega arith
sum_from-ge acc low (x ∷ xs) h = omega (arith, sum_from-ge (acc + x) low xs h.1, h.0)

sum_from-le :
    (acc high : ℕ) (xs : List ℕ) → All (λ x. x ≤ high) xs → sum_from acc xs ≤ acc + high * length xs
unfolding sum_from
sum_from-le acc high [] h = omega arith
sum_from-le acc high (x ∷ xs) h = omega (arith, sum_from-le (acc + x) high xs h.1, h.0)

pub min_from-All : (m : ℕ) (xs : List ℕ) → All (λ y. min_from m xs ≤ y) xs
unfolding min_from
min_from-All m [] = tt
min_from-All m (x ∷ xs) = (
  ground (arith, min_from-le (if ltb x m then x else m) xs),
  min_from-All (if ltb x m then x else m) xs,
)

pub max_from-All : (m : ℕ) (xs : List ℕ) → All (λ y. y ≤ max_from m xs) xs
unfolding max_from
max_from-All m [] = tt
max_from-All m (x ∷ xs) = (
  ground (arith, max_from-ge (if ltb m x then x else m) xs),
  max_from-All (if ltb m x then x else m) xs,
)

-- The mean of some samples, a fraction, lies between `min` and `max` of them.
pub average_between :
    (xs : List ℕ)
    → xs ≢ []
    → (low : ℕ) × (mean : Ratio) × (high : ℕ) × (min_of xs ≡ number low)
      × (average xs ≡ number mean)
      × (max_of xs ≡ number high)
      × (0 < mean.den)
      × (low * mean.den ≤ mean.num)
      × (mean.num ≤ high * mean.den)
unfolding min_of max_of average sum
average_between [] ne = absurd (ne refl)
average_between (x ∷ xs) ne =
    let n = length (x ∷ xs) in
    (
      min_from x xs,
      ratio (sum_from 0 (x ∷ xs)) n,
      max_from x xs,
      refl,
      refl,
      refl,
      omega arith,
      omega (arith, sum_from-ge 0 (min_from x xs) (x ∷ xs) (min_from-le x xs, min_from-All x xs)),
      omega (arith, sum_from-le 0 (max_from x xs) (x ∷ xs) (max_from-ge x xs, max_from-All x xs)),
    )
