-- ===== src/Tests/Mains.antt =====
-- Concrete runs of the main functions.
use cs4730_collaborative_tex.Base.{◌≡◌, ◌||◌, refl, [], ◌∷◌, none, some, if◌then◌else◌}
use cs4730_collaborative_tex.Base.Eq.{text_eq, ◌==◌}
use cs4730_collaborative_tex.Text.{codes, digit_value, starts_with, ends_with, rstrip}
use cs4730_collaborative_tex.Dict.{lookup, update}
use cs4730_collaborative_tex.Files.{FileSystem, content, missing, split_lines, join}
use cs4730_collaborative_tex.Sort.{sorted}
use cs4730_collaborative_tex.Logs.{read_line}
use cs4730_collaborative_tex.Latency.{Summary, analyze_subdir_latency}
use cs4730_collaborative_tex.Commands.{
  main_latency, reported, options, set_option, is_skipped, summaries, report_latency,
}

-- An experiment of one operation, a hidden entry and the directory of other experiments.
abbrev runs : FileSystem
runs = record {
  listdir = λ d.
      if d == codes "r"
      then some (codes "lan" ∷ codes ".git" ∷ codes "convergence" ∷ [])
      else if d == codes "r/lan"
      then some (codes "peer_1.log" ∷ [])
      else none;
  is_dir = λ d. d == codes "r" || d == codes "r/lan";
  read = λ p.
      if p == codes "r/lan/peer_1.log"
      then content (
          codes
            "LATENCY_SEND siteID=1 clock=1 ts_us=100\nLATENCY_APPLY siteID=1 clock=1 ts_us=150\n")
      else missing;
}

abbrev lan : Summary
lan = analyze_subdir_latency runs (codes "r/lan") (codes "lan")

lan_reported :
    main_latency runs (codes "r" ∷ codes "--csv" ∷ codes "out.csv" ∷ [])
    ≡ reported (lan ∷ []) (some (codes "out.csv")) (codes "r/latency_chart.png")
unfolding main_latency options set_option is_skipped summaries report_latency analyze_subdir_latency
    digit_value starts_with ends_with rstrip split_lines read_line lookup update sorted join
lan_reported = refl
