-- ===== src/Convergence.antt =====
-- Convergence trials: scripts/analyze_convergence.py (`analyze_trials`) and the same analysis in
-- scripts/analyze_results.py (`analyze_convergence_trials`).
pub mod Meta
pub mod Trial
pub mod Counting
pub mod Judging
pub mod Agreement
pub mod Rows
use cs4730_collaborative_tex.Base.{
  ℕ, ◌+◌, Bool, true, false, ◌&&◌, not, List, [], ◌∷◌, ◌++◌, none, some, length, ltb, map,
  if◌then◌else◌,
}
use cs4730_collaborative_tex.Base.Eq.{nat_eq, text_eq, int_eq, ◌==◌}
use cs4730_collaborative_tex.Base.Int.{ℤ}
use cs4730_collaborative_tex.Text.{Text, codes}
use cs4730_collaborative_tex.Text.Decimal.{print, print_int}
use cs4730_collaborative_tex.Dict.{Dict, lookup, insert}

-- `min(dumps)`, with `dumps[min(dumps)]`: the entry with the least key, among an entry and others.
unfoldable pub min_entry : ℕ × Text → Dict ℕ Text → ℕ × Text
min_entry e [] = e
min_entry e (f ∷ d) = min_entry (if ltb f.0 e.0 then f else e) d

-- The peers whose dump differs from the reference.
unfoldable pub differing : Text → ℕ → Dict ℕ Text → List ℕ
differing ref first [] = []
differing ref first ((i, c) ∷ d) =
    if not (c == ref) && not (i == first) then i ∷ differing ref first d else differing ref first d

-- How a trial ended.
pub data Judgement : Type 0 where
  too_few : ℕ → Judgement
  converged : Judgement
  apart : ℕ → List ℕ → Judgement

judge_diffs : ℕ → List ℕ → Judgement
judge_diffs first [] = converged
judge_diffs first (i ∷ is) = apart first (i ∷ is)

-- The body of the loop over trials, from `if len(dumps) < 2` on.
unfoldable pub judge : Dict ℕ Text → Judgement
unfolding min_entry differing judge_diffs
judge [] = too_few 0
judge (e ∷ []) = too_few 1
judge (e ∷ f ∷ d) =
    let (first, ref) = min_entry e (f ∷ d) in judge_diffs first (differing ref first (e ∷ f ∷ d))

-- An entry of `divergent`.
pub record Failure : Type 0 where
  pub trial : ℤ
  pub n_peers : ℤ
  pub seed : Text
  pub ops : Text
  pub reason : Text
  pub diffs : List Text

-- What `meta.txt` says of a trial.
pub record TrialMeta : Type 0 where
  pub trial : ℤ
  pub n_peers : ℤ
  pub seed : Text
  pub ops : Text

pub record Bucket : Type 0 where
  pub passed : ℕ
  pub failed : ℕ

-- The loop's variables.
pub record Results : Type 0 where
  pub passed : ℕ
  pub failed : ℕ
  pub divergent : List Failure
  pub by_peers : Dict ℤ Bucket

abbrev pub no_results : Results
no_results = record { passed = 0; failed = 0; divergent = []; by_peers = [] }

failure : TrialMeta → Text → List Text → Failure
failure m reason diffs = record {
  trial = m.trial;
  n_peers = m.n_peers;
  seed = m.seed;
  ops = m.ops;
  reason = reason;
  diffs = diffs;
}

-- `f"peer_{i} differs from peer_{first}"`
diff_text : ℕ → ℕ → Text
diff_text first i = codes "peer_" ++ (print i ++ (codes " differs from peer_" ++ print first))

too_few_text : Text → ℕ → ℤ → Text
too_few_text verb n expected =
    codes "only " ++ (print n ++ (verb ++ (print_int expected ++ codes ")")))

apart_text : List ℕ → Text
apart_text diffs = print (length diffs) ++ codes " peer(s) diverged"

-- The failure that a trial adds to `divergent`.
unfoldable pub failure_of : Text → TrialMeta → Judgement → List Failure
unfolding failure diff_text too_few_text apart_text
failure_of verb m (too_few n) = failure m (too_few_text verb n m.n_peers) [] ∷ []
failure_of verb m converged = []
failure_of verb m (apart first diffs) =
    failure m (apart_text diffs) (map (diff_text first) diffs) ∷ []

abbrev pub is_pass : Judgement → Bool
is_pass (too_few _) = false
is_pass converged = true
is_pass (apart _ _) = false

-- `by_peers.setdefault(n_peers, {"passed": 0, "failed": 0})`
unfoldable pub bucket_of : ℤ → Dict ℤ Bucket → Bucket
bucket_of n by_peers = elim (lookup n by_peers) [
  | none ↦ record { passed = 0; failed = 0 }
  | some b ↦ b
]

count_in : Judgement → Bucket → Bucket
count_in j b =
    if is_pass j then record b { passed = b.passed + 1 } else record b { failed = b.failed + 1 }

-- One trial in `analyze_trials` of analyze_convergence.py.
unfoldable pub add_trial : Results → TrialMeta → Dict ℕ Text → Results
unfolding judge failure_of bucket_of count_in insert
add_trial r m dumps =
    let j = judge dumps in
    record {
      passed = if is_pass j then r.passed + 1 else r.passed;
      failed = if is_pass j then r.failed else r.failed + 1;
      divergent = r.divergent ++ failure_of (codes " dump(s) (expected ") m j;
      by_peers = insert m.n_peers (count_in j (bucket_of m.n_peers r.by_peers)) r.by_peers;
    }

-- The loop over the trials.
unfoldable pub add_trials : Results → List (TrialMeta × Dict ℕ Text) → Results
unfolding add_trial
add_trials r [] = r
add_trials r ((m, dumps) ∷ ts) = add_trials (add_trial r m dumps) ts

-- The same in `analyze_convergence_trials` of analyze_results.py, which keeps no buckets.
pub record Totals : Type 0 where
  pub trials_passed : ℕ
  pub trials_failed : ℕ
  pub divergent : List Failure

-- `trials_failed += 1` and the entry of `divergent`.
count_failed : Totals → Failure → Totals
count_failed r f = record r {
  trials_failed = r.trials_failed + 1;
  divergent = r.divergent ++ f ∷ [];
}

-- One trial there, from `if len(dumps) < 2` on; `min(dumps)` is a key as there are two entries then.
unfoldable pub count_trial : Totals → TrialMeta → Dict ℕ Text → Totals
unfolding count_failed failure too_few_text apart_text diff_text min_entry differing
count_trial r m [] =
    count_failed r (failure m (too_few_text (codes " dump(s) collected (expected ") 0 m.n_peers) [])
count_trial r m (e ∷ []) =
    count_failed r (failure m (too_few_text (codes " dump(s) collected (expected ") 1 m.n_peers) [])
count_trial r m (e ∷ f ∷ d) =
    let (first, reference) = min_entry e (f ∷ d) in
    elim (differing reference first (e ∷ f ∷ d)) [
      | [] ↦ record r { trials_passed = r.trials_passed + 1 }
      | i ∷ is ↦ count_failed r (failure m (apart_text (i ∷ is)) (map (diff_text first) (i ∷ is)))
    ]

unfoldable pub count_trials : Totals → List (TrialMeta × Dict ℕ Text) → Totals
unfolding count_trial
count_trials r [] = r
count_trials r ((m, dumps) ∷ ts) = count_trials (count_trial r m dumps) ts
