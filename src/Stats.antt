-- ===== src/Stats.antt =====
-- The statistics of scripts/analyze_results.py and scripts/analyze_latency.py. Latencies are whole
-- microseconds, which Python holds as floats: `nan` is kept, and a quotient is an exact fraction,
-- where Python rounds it to 53 bits.
pub mod Percentile
pub mod Summary
use mathlib.Core.Option
use cs4730_collaborative_tex.Base.{
  ℕ, ◌+◌, ◌-◌, ◌*◌, ◌/◌, List, [], ◌∷◌, Option, some, leb, ltb, length, get_elem?, if◌then◌else◌,
}
use cs4730_collaborative_tex.Sort.{sorted}

-- `num / den`; `den` is positive wherever the scripts divide.
pub record Ratio : Type 0 where
  pub num : ℕ
  pub den : ℕ

abbrev pub ratio : ℕ → ℕ → Ratio
ratio n d = record { num = n; den = d }

-- A float that may be `nan`.
pub data Number (A : Type 0) : Type 0 where
  nan : Number A
  number : A → Number A

-- `s[max(0, int(len(s) * p / 100.0) - 1)]`; `none` is an `IndexError`.
unfoldable pub percentile : List ℕ → ℕ → Option (Number ℕ)
unfolding sorted
percentile [] p = some nan
percentile (x ∷ xs) p =
    Option.map number (get_elem? (sorted leb (x ∷ xs)) (length (x ∷ xs) * p / 100 - 1))

unfoldable pub min_from : ℕ → List ℕ → ℕ
min_from m [] = m
min_from m (x ∷ xs) = min_from (if ltb x m then x else m) xs

-- `min(data) if data else nan`
unfoldable pub min_of : List ℕ → Number ℕ
unfolding min_from
min_of [] = nan
min_of (x ∷ xs) = number (min_from x xs)

unfoldable pub max_from : ℕ → List ℕ → ℕ
max_from m [] = m
max_from m (x ∷ xs) = max_from (if ltb m x then x else m) xs

-- `max(data) if data else nan`
unfoldable pub max_of : List ℕ → Number ℕ
unfolding max_from
max_of [] = nan
max_of (x ∷ xs) = number (max_from x xs)

sum_from : ℕ → List ℕ → ℕ
sum_from acc [] = acc
sum_from acc (x ∷ xs) = sum_from (acc + x) xs

unfoldable pub sum : List ℕ → ℕ
unfolding sum_from
sum xs = sum_from 0 xs

-- `sum(data) / len(data) if data else nan`
unfoldable pub average : List ℕ → Number Ratio
unfolding sum
average [] = nan
average (x ∷ xs) = number (ratio (sum (x ∷ xs)) (length (x ∷ xs)))

-- `100.0 * part / total if total > 0 else 0.0`
unfoldable pub percent_of : ℕ → ℕ → Ratio
percent_of part total = if ltb 0 total then ratio (100 * part) total else ratio 0 1
