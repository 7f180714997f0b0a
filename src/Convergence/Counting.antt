-- ===== src/Convergence/Counting.antt =====
-- Every trial is counted once, in the totals and in the bucket of its number of peers.
use cs4730_collaborative_tex.Base.{
  ℕ, ◌+◌, ◌≡◌, refl, Bool, true, false, ◌&&◌, List, [], ◌∷◌, arith, length, length-append,
  if◌then◌else◌, ◌++◌, append-nil,
}
use cs4730_collaborative_tex.Base.Eq.{int_eq, int_beq_iff, ◌==◌}
use cs4730_collaborative_tex.Base.Int.{ℤ}
use cs4730_collaborative_tex.Text.{Text, codes}
use cs4730_collaborative_tex.Dict.{Dict, lookup, insert}
use cs4730_collaborative_tex.Dict.Laws.{lookup-insert}
use cs4730_collaborative_tex.Sort.Laws.{count_if}
use cs4730_collaborative_tex.Convergence.{
  Judgement, too_few, converged, apart, judge, failure_of, TrialMeta, Bucket, Results, no_results,
  is_pass, bucket_of, count_in, add_trial, add_trials, Totals, count_trial, min_entry,
}

abbrev pub Trial : Type 0
Trial = TrialMeta × Dict ℕ Text

abbrev pub passes : Trial → Bool
passes (m, dumps) = is_pass (judge dumps)

abbrev pub fails : Trial → Bool
fails (m, dumps) = if is_pass (judge dumps) then false else true

-- The trial has `n` peers and passes.
abbrev pub passes_with : ℤ → Trial → Bool
passes_with n (m, dumps) = (m.n_peers == n) && is_pass (judge dumps)

abbrev pub fails_with : ℤ → Trial → Bool
fails_with n (m, dumps) = (m.n_peers == n) && (if is_pass (judge dumps) then false else true)

pub length-failure_of :
    (verb : Text) (m : TrialMeta) (j : Judgement)
    → length (failure_of verb m j) ≡ (if is_pass j then 0 else 1)
unfolding failure_of
length-failure_of verb m (too_few n) = refl
length-failure_of verb m converged = refl
length-failure_of verb m (apart first diffs) = refl

add_trials-totals :
    (r : Results) (ts : List Trial)
    → ((add_trials r ts).passed ≡ r.passed + count_if passes ts)
      × ((add_trials r ts).failed ≡ r.failed + count_if fails ts)
      × (length (add_trials r ts).divergent ≡ length r.divergent + count_if fails ts)
unfolding add_trials add_trial
add_trials-totals r [] = (omega arith, omega arith, omega arith)
add_trials-totals r ((m, dumps) ∷ ts) =
    let verb = codes " dump(s) (expected " in
    ground (
      arith,
      add_trials-totals (add_trial r m dumps) ts,
      length-append r.divergent (failure_of verb m (judge dumps)),
      length-failure_of verb m (judge dumps),
    )

passes-fails : (ts : List Trial) → count_if passes ts + count_if fails ts ≡ length ts
passes-fails [] = omega arith
passes-fails (t ∷ ts) = ground (arith, passes-fails ts)

bucket_of-insert :
    (n k : ℤ) (b : Bucket) (d : Dict ℤ Bucket)
    → bucket_of n (insert k b d) ≡ (if k == n then b else bucket_of n d)
unfolding bucket_of
bucket_of-insert n k b d = ground (arith, lookup-insert n k b d)

add_trials-bucket :
    (n : ℤ) (r : Results) (ts : List Trial)
    → let b = bucket_of n (add_trials r ts).by_peers in
      let b' = bucket_of n r.by_peers in
      (b.passed ≡ b'.passed + count_if (passes_with n) ts)
      × (b.failed ≡ b'.failed + count_if (fails_with n) ts)
unfolding add_trials add_trial count_in
add_trials-bucket n r [] = (omega arith, omega arith)
add_trials-bucket n r ((m, dumps) ∷ ts) = ground (
  arith,
  add_trials-bucket n (add_trial r m dumps) ts,
  bucket_of-insert n m.n_peers (count_in (judge dumps) (bucket_of m.n_peers r.by_peers)) r.by_peers,
  int_beq_iff m.n_peers n,
)

-- The report of a set of trials: `passed` and `failed` count the trials that pass and that fail, and
-- add up to their number; each failure has one entry in `divergent`; and the bucket of each number of
-- peers counts the trials that have it.
pub add_trials_counts :
    (ts : List Trial) (n : ℤ)
    → let r = add_trials no_results ts in
      (r.passed ≡ count_if passes ts)
      × (r.failed ≡ count_if fails ts)
      × (r.passed + r.failed ≡ length ts)
      × (length r.divergent ≡ r.failed)
      × ((bucket_of n r.by_peers).passed ≡ count_if (passes_with n) ts)
      × ((bucket_of n r.by_peers).failed ≡ count_if (fails_with n) ts)
add_trials_counts ts n =
    let (p, f, d) = add_trials-totals no_results ts in
    let (bp, bf) = add_trials-bucket n no_results ts in
    (
      omega (arith, p),
      omega (arith, f),
      omega (arith, p, f, passes-fails ts),
      omega (arith, d, f),
      unfold bucket_of lookup in omega (arith, bp),
      unfold bucket_of lookup in omega (arith, bf),
    )

-- What the loop of analyze_results.py makes of one trial, by the judgement of analyze_convergence.py.
pub count_trial-judge :
    (r : Totals) (m : TrialMeta) (dumps : Dict ℕ Text)
    → let j = judge dumps in
      count_trial r m dumps ≡ record {
        trials_passed = if is_pass j then r.trials_passed + 1 else r.trials_passed;
        trials_failed = if is_pass j then r.trials_failed else r.trials_failed + 1;
        divergent = r.divergent ++ failure_of (codes " dump(s) collected (expected ") m j;
      }
unfolding count_trial judge failure_of
count_trial-judge r m [] = refl
count_trial-judge r m (e ∷ []) = refl
count_trial-judge r m (e ∷ f ∷ d) =
    let (first, reference) = min_entry e (f ∷ d) in ground (arith, append-nil r.divergent)
