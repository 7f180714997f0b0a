-- ===== src/Tests.antt =====
-- Concrete runs of the theorems about the scripts.
mod Trials
mod Reports
mod Documents
mod Converging
mod Wire
mod Mains
mod Outputs
mod Network
mod Printed
mod Scripts
mod Pipelines
use cs4730_collaborative_tex.Base.{
  ℕ, ◌+◌, ◌*◌, ◌≤◌, ◌≡◌, refl, List, [], ◌∷◌, ◌++◌, map, none, some, arith, if◌then◌else◌, inl,
}
use cs4730_collaborative_tex.Base.Eq.{text_eq, pair_eq, ◌==◌}
use cs4730_collaborative_tex.Text.{Text, codes, ends_with}
use cs4730_collaborative_tex.Dict.{lookup}
use cs4730_collaborative_tex.Files.{FileSystem, content, missing, failed}
use cs4730_collaborative_tex.Stats.{Ratio, number, percentile}
use cs4730_collaborative_tex.Sort.Laws.{count_if}
use cs4730_collaborative_tex.Logs.{sent, applied, read_line, read_line_us}
use cs4730_collaborative_tex.Logs.Message.{sent_message, log_line}
use cs4730_collaborative_tex.Logs.Parse.{
  Log, empty, absorb, absorb_all, parse_log_latency, parse_log_scalability,
}
use cs4730_collaborative_tex.Logs.RoundTrip.{read_line-sent_message}
use cs4730_collaborative_tex.Logs.Merge.{
  log_paths, is_log, is_peer_log, load_subdir, load_subdir_latency, load_subdir_scalability,
}
use cs4730_collaborative_tex.Logs.Directory.{
  log_lines, Earliest, Latest, load_subdir_latency-Earliest, load_subdir_scalability-Latest,
}
use cs4730_collaborative_tex.Latency.{summarise}
use cs4730_collaborative_tex.Latency.Accounting.{
  delays, was_dropped, went_back, summarise_accounts, summarise_ordered,
}

abbrev time_text : Text
time_text = codes "2025-04-20 10:15:30.123"

-- A line with an underscore in the tag would not be read.
read_line-sent_message_example :
    let line =
      log_line time_text
        (codes "INFO ")
        (codes "00000002")
        (codes "latency")
        (sent_message 2 7 1745) in
    (read_line line ≡ some (sent (2, 7) 1745)) × (read_line_us line ≡ some (sent (2, 7) 1745))
read_line-sent_message_example =
    read_line-sent_message time_text (codes "INFO ") (codes "00000002") (codes "latency")
      (omega arith) (omega arith) (omega arith) (omega arith) 2 7 1745

-- Three operations: one is delivered, one dropped, one went back in time.
abbrev three_ops : Log
three_ops = record {
  sends = ((1, 1), 100) ∷ ((1, 2), 200) ∷ ((2, 1), 300) ∷ [];
  applies = ((1, 1), 150) ∷ ((2, 1), 290) ∷ [];
}

summarise_accounts_example :
    let r = summarise (codes "2peer") three_ops in
    (r.latencies ≡ delays three_ops.applies three_ops.sends)
    × (r.dropped ≡ count_if (was_dropped three_ops.applies) three_ops.sends)
    × (r.negative ≡ count_if (went_back three_ops.applies) three_ops.sends)
    × (r.delivered + r.dropped + r.negative ≡ r.total)
summarise_accounts_example = summarise_accounts (codes "2peer") three_ops

summarise_ordered_example :
    let r = summarise (codes "2peer") three_ops in
    (low a b c high : ℕ) × (mean : Ratio) × (r.min ≡ number low)
    × (r.p50 ≡ some (number a))
    × (r.p95 ≡ some (number b))
    × (r.p99 ≡ some (number c))
    × (r.max ≡ number high)
    × (r.avg ≡ number mean)
    × (low ≤ a)
    × (a ≤ b)
    × (b ≤ c)
    × (c ≤ high)
    × (low * mean.den ≤ mean.num)
    × (mean.num ≤ high * mean.den)
unfolding summarise lookup
summarise_ordered_example = summarise_ordered (codes "2peer") three_ops (omega arith)

-- Two logs of one experiment, one of them with two lines on one operation; the third entry cannot be opened.
abbrev tree : FileSystem
tree = record {
  listdir = λ d.
      if d == codes "run"
      then some (codes "peer_2.log" ∷ codes "peer_1.log" ∷ codes "notes.txt" ∷ [])
      else if d == codes "bad"
      then some (codes "peer_1.log" ∷ [])
      else none;
  is_dir = λ d. d == codes "run";
  read = λ p.
      if p == codes "run/peer_1.log"
      then content (codes "LATENCY_SEND siteID=1 clock=1 ts_us=100\n")
      else if p == codes "run/peer_2.log"
      then content (
          codes
            "LATENCY_APPLY siteID=1 clock=1 ts_us=150  \nLATENCY_APPLY siteID=1 clock=1 ts_us=140\n")
      else if p == codes "bad/peer_1.log"
      then failed
      else missing;
}

load_subdir_latency-Earliest_example :
    Earliest
      (1, 1)
      (map (log_lines read_line tree) (log_paths tree is_log (codes "run")))
      (lookup (1, 1) (load_subdir_latency tree (codes "run")).applies)
load_subdir_latency-Earliest_example = load_subdir_latency-Earliest tree (codes "run") (1, 1)

load_subdir_scalability-Latest_example :
    Latest
      (1, 1)
      (map (log_lines read_line_us tree) (log_paths tree is_peer_log (codes "run")))
      (lookup (1, 1) (load_subdir_scalability tree (codes "run")).applies)
load_subdir_scalability-Latest_example = load_subdir_scalability-Latest tree (codes "run") (1, 1)

abbrev samples : List ℕ
samples = 30 ∷ 10 ∷ 20 ∷ []

percentile_50 : percentile samples 50 ≡ some (number 10)
unfolding percentile
percentile_50 = refl

percentile_95 : percentile samples 95 ≡ some (number 20)
unfolding percentile
percentile_95 = refl
