-- ===== src/Scalability.antt =====
-- Scalability: `compute_metrics` and `detect_bottleneck` of scripts/analyze_scalability.py, and
-- `_compute_scalability_metrics` and `_detect_bottleneck` of scripts/analyze_results.py. Python's
-- quotients are exact fractions here; its floats round them to 53 bits.
pub mod Metrics
pub mod Directories
pub mod Report
pub mod Bottleneck
use mathlib.Core.Option
use cs4730_collaborative_tex.Base.{
  ℕ, ◌-◌, ◌*◌, Bool, ◌&&◌, List, [], ◌∷◌, Option, none, some, ltb, length, or_else, keep, map,
  if◌then◌else◌, ◌>>=◌,
}
use cs4730_collaborative_tex.Base.Eq.{pair_eq}
use cs4730_collaborative_tex.Base.Int.{ℤ, sub_ℕ, pos_part}
use cs4730_collaborative_tex.Text.{Text, codes, strip_prefix, starts_with, ends_with}
use cs4730_collaborative_tex.Text.Decimal.{int}
use cs4730_collaborative_tex.Text.Regex.{digits, search}
use cs4730_collaborative_tex.Dict.{Dict, lookup, values}
use cs4730_collaborative_tex.Files.{FileSystem, content, missing, failed, join, text_leb}
use cs4730_collaborative_tex.Sort.{sorted}
use cs4730_collaborative_tex.Stats.{Ratio, ratio, Number, min_from, max_from, average, percent_of}
use cs4730_collaborative_tex.Logs.{Key}
use cs4730_collaborative_tex.Logs.Parse.{Log}
use cs4730_collaborative_tex.Logs.Merge.{load_scalability_subdir, load_subdir_scalability}

-- `cpu_pct=(\d+)%`
cpu_at : Text → Option ℕ
cpu_at s = do
  s ← strip_prefix (codes "cpu_pct=") s
  (n, s) ← digits s
  _ ← strip_prefix (codes "%") s
  some (int n)

is_cpu : Text → Bool
is_cpu name = starts_with name (codes "cpu_") && ends_with name (codes ".txt")

-- The percentage that one file names.
cpu_of : FileSystem → Text → Option ℕ
cpu_of fs path = elim (fs.read path) [
  | content s ↦ search cpu_at s
  | missing ↦ none
  | failed ↦ none
]

cpu_values : FileSystem → List Text → List ℕ
cpu_values fs [] = []
cpu_values fs (p ∷ ps) = elim (cpu_of fs p) [
  | none ↦ cpu_values fs ps
  | some n ↦ n ∷ cpu_values fs ps
]

-- `_parse_cpu(subdir)`, the same in both scripts.
unfoldable pub parse_cpu : FileSystem → Text → List ℕ
unfolding cpu_values cpu_of cpu_at digits search int sorted join is_cpu
parse_cpu fs subdir =
    cpu_values fs
      (map (join subdir) (keep is_cpu (sorted text_leb (or_else (fs.listdir subdir) []))))

-- `[max_applies[k] for k in sends if k in max_applies]`
unfoldable pub matched : Dict Key ℕ → Dict Key ℕ → List ℕ
matched applies [] = []
matched applies ((k, _) ∷ sends) = elim (lookup k applies) [
  | none ↦ matched applies sends
  | some ts ↦ ts ∷ matched applies sends
]

-- The dict of metrics. `convergence_us` is 1,000 times `convergence_ms`; the throughputs are in
-- operations per second.
pub record Figures : Type 0 where
  pub n_peers : ℕ
  pub total_sent : ℕ
  pub delivered : ℕ
  pub dropped : ℕ
  pub drop_pct : Ratio
  pub convergence_us : ℤ
  pub sys_throughput : Ratio
  pub per_peer_tput : Ratio
  pub avg_cpu_pct : Number Ratio
  pub n_cpu_samples : ℕ

-- `delivered / convergence_sec if convergence_sec > 0 else 0.0`
throughput : ℕ → ℤ → Ratio
throughput delivered us =
    if ltb 0 (pos_part us) then ratio (delivered * 1000000) (pos_part us) else ratio 0 1

-- `sys_throughput / n_peers if n_peers > 0 else 0.0`
per_peer : Ratio → ℕ → Ratio
per_peer r n = if ltb 0 n then ratio r.num (r.den * n) else ratio 0 1

-- The figures, from the first send, the other sends and the matched apply times.
pub metrics_of : ℕ → List ℕ → Dict Key ℕ → List ℕ → Option Figures
metrics_of n_peers cpu [] _ = none
metrics_of n_peers cpu (s ∷ sends) [] = none
metrics_of n_peers cpu (s ∷ sends) (t ∷ ts) =
    let total = length (s ∷ sends) in
    let delivered = length (t ∷ ts) in
    let us = sub_ℕ (max_from t ts) (min_from s.1 (values sends)) in
    some (record {
      n_peers = n_peers;
      total_sent = total;
      delivered = delivered;
      dropped = total - delivered;
      drop_pct = percent_of (total - delivered) total;
      convergence_us = us;
      sys_throughput = throughput delivered us;
      per_peer_tput = per_peer (throughput delivered us) n_peers;
      avg_cpu_pct = average cpu;
      n_cpu_samples = length cpu;
    })

-- What both scripts compute from loaded logs; `none` where no operation was sent or none applied.
unfoldable pub metrics : ℕ → Log → List ℕ → Option Figures
unfolding metrics_of matched throughput per_peer
metrics n_peers log cpu = metrics_of n_peers cpu log.sends (matched log.applies log.sends)

-- `compute_metrics` of analyze_scalability.py.
unfoldable pub compute_metrics : FileSystem → Text → ℕ → Option Figures
unfolding metrics parse_cpu load_subdir_scalability
compute_metrics fs subdir n_peers =
    metrics n_peers (load_subdir_scalability fs subdir) (parse_cpu fs subdir)

-- `_compute_scalability_metrics` of analyze_results.py; the outer `none` is an `OSError`.
unfoldable pub compute_scalability_metrics : FileSystem → Text → ℕ → Option (Option Figures)
unfolding metrics parse_cpu load_scalability_subdir
compute_scalability_metrics fs subdir n_peers = do
  log ← load_scalability_subdir fs subdir
  some (metrics n_peers log (parse_cpu fs subdir))
