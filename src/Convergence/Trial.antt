-- ===== src/Convergence/Trial.antt =====
-- From directories to trials: `analyze_trials` and `analyze_convergence_trials` whole.
use cs4730_collaborative_tex.Base.{
  ℕ, Bool, ◌||◌, List, [], ◌∷◌, Option, none, some, keep, or_else, map, is_some, if◌then◌else◌,
  ◌>>=◌,
}
use cs4730_collaborative_tex.Base.Eq.{nat_eq, text_eq, ◌==◌}
use cs4730_collaborative_tex.Text.{Text, codes, strip_prefix}
use cs4730_collaborative_tex.Text.Decimal.{int}
use cs4730_collaborative_tex.Text.Regex.{digits}
use cs4730_collaborative_tex.Dict.{Dict, insert}
use cs4730_collaborative_tex.Files.{FileSystem, join, text_leb}
use cs4730_collaborative_tex.Sort.{sorted}
use cs4730_collaborative_tex.Latency.{read_dump, is_dump}
use cs4730_collaborative_tex.Convergence.{
  TrialMeta, Results, no_results, add_trials, Totals, count_trials,
}
use cs4730_collaborative_tex.Convergence.Meta.{read_meta, trial_meta}

-- `$`: the end, or the line end before it.
unfoldable pub at_end : Text → Bool
at_end s = s == [] || s == codes "\n"

-- `^trial_(\d+)$`
unfoldable pub is_trial : Text → Bool
unfolding digits at_end
is_trial name = is_some (do
  s ← strip_prefix (codes "trial_") name
  (n, s) ← digits s
  if at_end s then some n else none)

-- `peer_(\d+)_dump\.txt$` at the front of a name: the peer.
unfoldable pub dump_peer : Text → Option ℕ
unfolding digits at_end int
dump_peer name = do
  s ← strip_prefix (codes "peer_") name
  (n, s) ← digits s
  s ← strip_prefix (codes "_dump.txt") s
  if at_end s then some (int n) else none

-- The loop over a trial's files: the dumps that hold a text.
unfoldable pub read_dumps : FileSystem → Text → Dict ℕ Text → List Text → Dict ℕ Text
unfolding dump_peer read_dump insert join
read_dumps fs tdir dumps [] = dumps
read_dumps fs tdir dumps (name ∷ names) = elim (dump_peer name) [
  | none ↦ read_dumps fs tdir dumps names
  | some i ↦ elim (read_dump fs (join tdir name)) [
    | none ↦ read_dumps fs tdir dumps names
    | some text ↦ read_dumps fs tdir (insert i text dumps) names
  ]
]

module _ (wide_word : ℕ → Bool) (fs : FileSystem) where
  -- What a trial's directory holds; `none` is an exception: an `int` that cannot be read, or a
  -- directory that cannot be listed.
  unfoldable pub read_trial : Text → Option (TrialMeta × Dict ℕ Text)
  unfolding read_meta trial_meta read_dumps sorted
  read_trial tdir = do
    m ← trial_meta (read_meta wide_word fs tdir)
    names ← fs.listdir tdir
    some (m, read_dumps fs tdir [] (keep is_dump (sorted text_leb names)))

  unfoldable pub read_trials : List Text → Option (List (TrialMeta × Dict ℕ Text))
  unfolding read_trial
  read_trials [] = some []
  read_trials (tdir ∷ tdirs) = do t ← read_trial tdir; ts ← read_trials tdirs; some (t ∷ ts)

  -- The trials' directories, in sorted order.
  unfoldable pub trial_dirs : Text → List Text
  unfolding is_trial sorted join
  trial_dirs dir = map (join dir) (keep is_trial (sorted text_leb (or_else (fs.listdir dir) [])))

  -- `analyze_trials` of analyze_convergence.py: `some none` is the `None` for a directory with no
  -- trial.
  unfoldable pub analyze_trials : Text → Option (Option Results)
  unfolding trial_dirs read_trials add_trials
  analyze_trials dir = elim (trial_dirs dir) [
    | [] ↦ some none
    | d ∷ ds ↦ do ts ← read_trials (d ∷ ds); some (some (add_trials no_results ts))
  ]

  -- `analyze_convergence_trials` of analyze_results.py.
  unfoldable pub analyze_convergence_trials : Text → Option (Option Totals)
  unfolding trial_dirs read_trials count_trials
  analyze_convergence_trials dir = elim (trial_dirs dir) [
    | [] ↦ some none
    | d ∷ ds ↦ do
      ts ← read_trials (d ∷ ds)
      some
          (some (count_trials (record { trials_passed = 0; trials_failed = 0; divergent = [] }) ts))
  ]
