-- ===== src/Convergence/Rows.antt =====
-- The rows of `write_csv` of scripts/analyze_convergence.py, which `print_report` shows too. The texts
-- of the cells are left out: a rate is an exact fraction.
use cs4730_collaborative_tex.Base.{
  ℕ, ◌+◌, ◌≡◌, refl, ◌∙◌, Bool, List, [], ◌∷◌, map, none, arith, length,
}
use cs4730_collaborative_tex.Base.Eq.{int_eq, int_beq_iff}
use cs4730_collaborative_tex.Base.Int.{ℤ, pos, leb_ℤ}
use cs4730_collaborative_tex.Dict.{Dict, keys, values, lookup, insert}
use cs4730_collaborative_tex.Dict.Laws.{IsDict, insert-IsDict}
use cs4730_collaborative_tex.Sort.{sorted, insert_sorted}
use cs4730_collaborative_tex.Stats.{Ratio, percent_of}
use cs4730_collaborative_tex.Convergence.{
  TrialMeta, Bucket, Results, no_results, judge, bucket_of, count_in, add_trial, add_trials,
}
use cs4730_collaborative_tex.Convergence.Counting.{Trial, add_trials_counts}
use cs4730_collaborative_tex.Text.{Text}

-- `n_peers` of a row is "3-5" in the summary.
pub data Peers : Type 0 where
  all_peers : Peers
  peers : ℤ → Peers

pub record Row : Type 0 where
  pub n_peers : Peers
  pub trials : ℕ
  pub passed : ℕ
  pub failed : ℕ
  pub pass_rate : Ratio

abbrev summary_row : Results → Row
summary_row r = record {
  n_peers = all_peers;
  trials = r.passed + r.failed;
  passed = r.passed;
  failed = r.failed;
  pass_rate = percent_of r.passed (r.passed + r.failed);
}

-- `b = results["by_peers"][n]` and its row.
abbrev pub bucket_row : Dict ℤ Bucket → ℤ → Row
bucket_row d n =
    let b = bucket_of n d in
    record {
      n_peers = peers n;
      trials = b.passed + b.failed;
      passed = b.passed;
      failed = b.failed;
      pass_rate = percent_of b.passed (b.passed + b.failed);
    }

unfoldable pub rows : Results → List Row
rows r = summary_row r ∷ map (bucket_row r.by_peers) (sorted leb_ℤ (keys r.by_peers))

module _ {A : Type 0} (f : A → ℕ) where
  abbrev pub sum_of : List A → ℕ
  sum_of [] = 0
  sum_of (x ∷ xs) = f x + sum_of xs

sum_of-map :
    {A B : Type 0} (f : B → ℕ) (g : A → B) (xs : List A)
    → sum_of f (map g xs) ≡ sum_of (λ x. f (g x)) xs
sum_of-map f g [] = refl
sum_of-map f g (x ∷ xs) = omega (arith, sum_of-map f g xs)

module _ {A : Type 0} (leb : A → A → Bool) (f : A → ℕ) where
  sum_of-insert_sorted :
      (x : A) (ys : List A) → sum_of f (insert_sorted leb x ys) ≡ f x + sum_of f ys
  unfolding insert_sorted
  sum_of-insert_sorted x [] = refl
  sum_of-insert_sorted x (y ∷ ys) = ground (arith, sum_of-insert_sorted x ys)

  sum_of-sorted : (xs : List A) → sum_of f (sorted leb xs) ≡ sum_of f xs
  unfolding sorted
  sum_of-sorted [] = refl
  sum_of-sorted (x ∷ xs) = omega (arith, sum_of-insert_sorted x (sorted leb xs), sum_of-sorted xs)

module _ (g : Bucket → ℕ) where
  -- Of a dict without the key, the buckets are the same with another entry in front.
  sum_of-other :
      (k : ℤ) (b : Bucket) (d rest : Dict ℤ Bucket)
      → lookup k rest ≡ none
      → sum_of (λ n. g (bucket_of n ((k, b) ∷ d))) (keys rest)
        ≡ sum_of (λ n. g (bucket_of n d)) (keys rest)
  unfolding bucket_of lookup
  sum_of-other k b d [] h = refl
  sum_of-other k b d ((j, c) ∷ rest) h =
      ground (arith, int_beq_iff j k, int_beq_iff k j, sum_of-other k b d rest)

  sum_of-keys :
      (d : Dict ℤ Bucket)
      → IsDict d
      → sum_of (λ n. g (bucket_of n d)) (keys d) ≡ sum_of g (values d)
  unfolding bucket_of lookup
  sum_of-keys [] h = refl
  sum_of-keys ((k, b) ∷ d) h =
      let here : g (bucket_of k ((k, b) ∷ d)) ≡ g b = ground (arith, int_beq_iff k k) in
      omega (arith, here, sum_of-other k b d d h.0, sum_of-keys d h.1)

  sum_of-insert :
      (k : ℤ) (b : Bucket) (d : Dict ℤ Bucket)
      → g (record { passed = 0; failed = 0 }) ≡ 0
      → sum_of g (values (insert k b d)) + g (bucket_of k d) ≡ sum_of g (values d) + g b
  unfolding bucket_of lookup insert
  sum_of-insert k b [] zero_bucket = omega (arith, zero_bucket)
  sum_of-insert k b ((j, c) ∷ d) zero_bucket = ground (arith, sum_of-insert k b d zero_bucket)

-- The buckets add up to the totals.
record AddsUp (r : Results) : Type 0 where
  is_dict : IsDict r.by_peers
  all_passed : sum_of (λ b. b.passed) (values r.by_peers) ≡ r.passed
  all_failed : sum_of (λ b. b.failed) (values r.by_peers) ≡ r.failed

add_trial-AddsUp :
    (r : Results) (m : TrialMeta) (dumps : Dict ℕ Text) → AddsUp r → AddsUp (add_trial r m dumps)
unfolding add_trial count_in
add_trial-AddsUp r m dumps a =
    let j = judge dumps in
    let b = count_in j (bucket_of m.n_peers r.by_peers) in
    let p = sum_of-insert (λ x. x.passed) m.n_peers b r.by_peers refl in
    let f = sum_of-insert (λ x. x.failed) m.n_peers b r.by_peers refl in
    record {
      is_dict = insert-IsDict m.n_peers b r.by_peers a.is_dict;
      all_passed = ground (arith, p, a.all_passed);
      all_failed = ground (arith, f, a.all_failed);
    }

add_trials-AddsUp : (r : Results) (ts : List Trial) → AddsUp r → AddsUp (add_trials r ts)
unfolding add_trials
add_trials-AddsUp r [] a = a
add_trials-AddsUp r ((m, dumps) ∷ ts) a =
    add_trials-AddsUp (add_trial r m dumps) ts (add_trial-AddsUp r m dumps a)

sum_of-rows :
    (g : Bucket → ℕ) (f : Row → ℕ) (d : Dict ℤ Bucket)
    → ((n : ℤ) → f (bucket_row d n) ≡ g (bucket_of n d))
    → IsDict d
    → sum_of f (map (bucket_row d) (sorted leb_ℤ (keys d))) ≡ sum_of g (values d)
sum_of-rows g f d same h =
    sum_of-map f (bucket_row d) (sorted leb_ℤ (keys d))
    ∙ sum_of-sorted leb_ℤ (λ n. f (bucket_row d n)) (keys d)
    ∙ sum_of-same (keys d)
    ∙ sum_of-keys g d h
  where
    sum_of-same :
        (ns : List ℤ) → sum_of (λ n. f (bucket_row d n)) ns ≡ sum_of (λ n. g (bucket_of n d)) ns
    sum_of-same [] = refl
    sum_of-same (n ∷ ns) = omega (arith, same n, sum_of-same ns)

trials_split :
    (d : Dict ℤ Bucket) (ns : List ℤ)
    → let list = map (bucket_row d) ns in
      sum_of (λ w. w.trials) list ≡ sum_of (λ w. w.passed) list + sum_of (λ w. w.failed) list
trials_split d [] = omega arith
trials_split d (n ∷ ns) = omega (arith, trials_split d ns)

-- The table of a set of trials adds up: its first row counts all trials, and the rows of the numbers
-- of peers add up to it, in the trials, in those that passed and in those that failed.
pub rows_add_up :
    (ts : List Trial)
    → (first : Row) × (rest : List Row) × (rows (add_trials no_results ts) ≡ first ∷ rest)
      × (first.trials ≡ length ts)
      × (sum_of (λ w. w.passed) rest ≡ first.passed)
      × (sum_of (λ w. w.failed) rest ≡ first.failed)
      × (sum_of (λ w. w.trials) rest ≡ first.trials)
unfolding rows
rows_add_up ts =
    let r = add_trials no_results ts in
    let a =
      add_trials-AddsUp no_results ts
        (record { is_dict = tt; all_passed = refl; all_failed = refl }) in
    let list = map (bucket_row r.by_peers) (sorted leb_ℤ (keys r.by_peers)) in
    let p =
      sum_of-rows (λ b. b.passed) (λ w. w.passed) r.by_peers (λ n. refl) a.is_dict ∙ a.all_passed in
    let f =
      sum_of-rows (λ b. b.failed) (λ w. w.failed) r.by_peers (λ n. refl) a.is_dict ∙ a.all_failed in
    let (_, _, counted, _, _, _) = add_trials_counts ts (pos 0) in
    (
      summary_row r,
      list,
      refl,
      counted,
      p,
      f,
      omega (arith, trials_split r.by_peers (sorted leb_ℤ (keys r.by_peers)), p, f),
    )
