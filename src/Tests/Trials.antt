-- ===== src/Tests/Trials.antt =====
-- Concrete runs of the theorems about trials, configurations and scripts.
use cs4730_collaborative_tex.Base.{ℕ, ◌≡◌, refl, List, [], ◌∷◌, none, some, length, if◌then◌else◌}
use cs4730_collaborative_tex.Base.Eq.{text_eq, ◌==◌}
use cs4730_collaborative_tex.Base.Int.{ℤ, pos}
use cs4730_collaborative_tex.Text.{Text, codes}
use cs4730_collaborative_tex.Dict.{Dict, lookup}
use cs4730_collaborative_tex.Files.{FileSystem, content, missing}
use cs4730_collaborative_tex.Stats.{ratio, nan, percent_of, min_from, average, max_from}
use cs4730_collaborative_tex.Logs.Parse.{Log}
use cs4730_collaborative_tex.Convergence.Rows.{Row, rows, sum_of, rows_add_up}
use cs4730_collaborative_tex.Convergence.{no_results, TrialMeta, add_trials}
use cs4730_collaborative_tex.Convergence.Counting.{Trial}
use cs4730_collaborative_tex.Scalability.{Figures, metrics}

abbrev dumps : Dict ℕ Text
dumps = (2, codes "hello") ∷ (1, codes "hello") ∷ []

abbrev trial_of : ℤ → TrialMeta
trial_of n = record { trial = pos 1; n_peers = n; seed = codes "?"; ops = codes "?" }

abbrev two_trials : List Trial
two_trials =
    (trial_of (pos 2), dumps) ∷ (trial_of (pos 3), (1, codes "a") ∷ (2, codes "b") ∷ []) ∷ []

rows_add_up_example :
    (first : Row) × (rest : List Row) × (rows (add_trials no_results two_trials) ≡ first ∷ rest)
    × (first.trials ≡ length two_trials)
    × (sum_of (λ w. w.passed) rest ≡ first.passed)
    × (sum_of (λ w. w.failed) rest ≡ first.failed)
    × (sum_of (λ w. w.trials) rest ≡ first.trials)
rows_add_up_example = rows_add_up two_trials

-- One trial, with the dumps of two peers.
abbrev trial_tree : FileSystem
trial_tree = record {
  listdir = λ d.
      if d == codes "run"
      then some (codes "trial_1" ∷ [])
      else if d == codes "run/trial_1"
      then some (codes "peer_1_dump.txt" ∷ codes "peer_2_dump.txt" ∷ codes "meta.txt" ∷ [])
      else none;
  is_dir = λ d. d == codes "run";
  read = λ p.
      if p == codes "run/trial_1/meta.txt"
      then content (codes "trial=1 n_peers=2 seed=5 ops=9\n")
      else if p == codes "run/trial_1/peer_1_dump.txt"
      then content (codes "hello\n")
      else if p == codes "run/trial_1/peer_2_dump.txt"
      then content (codes "hello\n")
      else missing;
}

abbrev log : Log
log = record { sends = ((1, 1), 100) ∷ ((1, 2), 200) ∷ []; applies = ((1, 1), 150) ∷ [] }

metrics-log :
    metrics 2 log []
    ≡ some (record {
      n_peers = 2;
      total_sent = 2;
      delivered = 1;
      dropped = 1;
      drop_pct = ratio 100 2;
      convergence_us = pos 50;
      sys_throughput = ratio 1000000 50;
      per_peer_tput = ratio 1000000 100;
      avg_cpu_pct = nan;
      n_cpu_samples = 0;
    })
unfolding metrics lookup percent_of min_from average max_from
metrics-log = refl

abbrev one_config : Figures
one_config = record {
  n_peers = 2;
  total_sent = 2;
  delivered = 1;
  dropped = 1;
  drop_pct = ratio 100 2;
  convergence_us = pos 50;
  sys_throughput = ratio 1000000 50;
  per_peer_tput = ratio 1000000 100;
  avg_cpu_pct = nan;
  n_cpu_samples = 0;
}
