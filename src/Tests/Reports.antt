-- ===== src/Tests/Reports.antt =====
-- A concrete run of the scalability report.
use cs4730_collaborative_tex.Base.{◌≡◌, refl, [], ◌∷◌, none, some, if◌then◌else◌}
use cs4730_collaborative_tex.Base.Eq.{text_eq, ◌==◌}
use cs4730_collaborative_tex.Base.Int.{pos}
use cs4730_collaborative_tex.Text.{codes, digit_value, starts_with, ends_with, rstrip}
use cs4730_collaborative_tex.Dict.{lookup, update}
use cs4730_collaborative_tex.Files.{FileSystem, content, missing, split_lines}
use cs4730_collaborative_tex.Logs.{read_line}
use cs4730_collaborative_tex.Stats.{ratio, nan, percent_of, min_from, average, max_from}
use cs4730_collaborative_tex.Scalability.{Figures}
use cs4730_collaborative_tex.Scalability.Directories.{analyze_scalability}

-- An experiment with two peers and one operation.
abbrev tree : FileSystem
tree = record {
  listdir = λ d.
      if d == codes "s"
      then some (codes "notes" ∷ codes "2peer" ∷ [])
      else if d == codes "s/2peer"
      then some (codes "peer_1.log" ∷ [])
      else none;
  is_dir = λ d. d == codes "s";
  read = λ p.
      if p == codes "s/2peer/peer_1.log"
      then content (
          codes
            "LATENCY_SEND siteID=1 clock=1 ts_us=100\nLATENCY_APPLY siteID=1 clock=1 ts_us=150\n")
      else missing;
}

abbrev two_peers : Figures
two_peers = record {
  n_peers = 2;
  total_sent = 1;
  delivered = 1;
  dropped = 0;
  drop_pct = ratio 0 1;
  convergence_us = pos 50;
  sys_throughput = ratio 1000000 50;
  per_peer_tput = ratio 1000000 100;
  avg_cpu_pct = nan;
  n_cpu_samples = 0;
}

report_two_peers : analyze_scalability tree (codes "s") ≡ some (some (two_peers ∷ []))
unfolding analyze_scalability digit_value starts_with ends_with update split_lines read_line rstrip
    lookup percent_of min_from average max_from
report_two_peers = refl
