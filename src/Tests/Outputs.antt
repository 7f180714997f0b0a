-- ===== src/Tests/Outputs.antt =====
-- Concrete runs of the main function of scripts/analyze_results.py and of its CSV file.
use cs4730_collaborative_tex.Base.{
  ℕ, Bool, ◌≡◌, ◌↔◌, ◌||◌, ◌/◌, false, refl, Any, All, List, [], ◌∷◌, ◌++◌, none, some, length, map,
  if◌then◌else◌,
}
use cs4730_collaborative_tex.Base.Eq.{text_eq, ◌==◌}
use cs4730_collaborative_tex.Text.{
  Text, codes, digit_value, starts_with, ends_with, rstrip, lstrip, strip,
}
use cs4730_collaborative_tex.Dict.{lookup, update, insert}
use cs4730_collaborative_tex.Files.{FileSystem, content, missing, split_lines, join}
use cs4730_collaborative_tex.Sort.{sorted}
use cs4730_collaborative_tex.Logs.{read_line}
use cs4730_collaborative_tex.Text.Decimal.{print}
use cs4730_collaborative_tex.Stats.{ratio, number, percentile, percent_of, min_of, max_of, average}
use cs4730_collaborative_tex.Logs.Parse.{Log}
use cs4730_collaborative_tex.Latency.{
  Summary, Verdict, not_applicable, agreed, summarise, analyze_subdir, verdict, read_dump,
  collect_dumps,
}
use cs4730_collaborative_tex.Convergence.{Totals}
use cs4730_collaborative_tex.Convergence.Trial.{analyze_convergence_trials}
use cs4730_collaborative_tex.Scalability.Directories.{analyze_scalability}
use cs4730_collaborative_tex.Csv.Reading.{read_rows}
use cs4730_collaborative_tex.Tables.{Numerals}
use cs4730_collaborative_tex.Tables.Combined.{summary_fields, trials_row, write_csv}
use cs4730_collaborative_tex.Tables.Written.{first_cell, write_csv_read}
use cs4730_collaborative_tex.Commands.{options, set_option}
use cs4730_collaborative_tex.Commands.Everything.{
  Shown, shows, found_nothing, main_results, add_entries, add_entry, show_scalability,
}
use cs4730_collaborative_tex.Commands.Everything.Entries.{HasResult, Holds}
use cs4730_collaborative_tex.Commands.Everything.Ending.{main_results_shows}

abbrev log : Text
log = codes "LATENCY_SEND siteID=1 clock=1 ts_us=100\nLATENCY_APPLY siteID=1 clock=1 ts_us=150\n"

-- A latency experiment, a trial with two equal dumps, and a hidden entry.
abbrev runs : FileSystem
runs = record {
  listdir = λ d.
      if d == codes "r"
      then some (codes "lan" ∷ codes ".git" ∷ codes "convergence" ∷ [])
      else if d == codes "r/lan"
      then some (codes "peer_1.log" ∷ [])
      else if d == codes "r/convergence"
      then some (codes "trial_1" ∷ [])
      else if d == codes "r/convergence/trial_1"
      then some (codes "peer_1_dump.txt" ∷ codes "peer_2_dump.txt" ∷ [])
      else none;
  is_dir = λ d. d == codes "r" || (d == codes "r/lan" || d == codes "r/convergence");
  read = λ p.
      if p == codes "r/lan/peer_1.log"
      then content log
      else if p == codes "r/convergence/trial_1/peer_1_dump.txt"
      then content (codes "ab")
      else if p == codes "r/convergence/trial_1/peer_2_dump.txt"
      then content (codes "ab")
      else missing;
}

abbrev narrow : ℕ → Bool
narrow _ = false

abbrev lan : Summary
lan = record {
  label = codes "lan";
  n_peers = 0;
  total = 1;
  delivered = 1;
  dropped = 0;
  negative = 0;
  drop_pct = ratio 0 1;
  min = number 50;
  avg = number (ratio 50 1);
  p50 = some (number 50);
  p95 = some (number 50);
  p99 = some (number 50);
  max = number 50;
  latencies = 50 ∷ [];
}

abbrev one_trial : Totals
one_trial = record { trials_passed = 1; trials_failed = 0; divergent = [] }

abbrev shown : Shown
shown = record {
  analyses = record {
    results = (lan, not_applicable) ∷ [];
    conv_results = some one_trial;
    scale_results = none;
  };
  flags = [];
  csv_path = none;
  chart_path = none;
}

main_results-shows : main_results narrow runs (codes "r" ∷ []) ≡ shows shown
unfolding main_results add_entries add_entry show_scalability analyze_subdir analyze_scalability
    analyze_convergence_trials summarise options set_option digit_value starts_with ends_with rstrip
    strip lstrip split_lines read_line lookup update insert sorted join percentile percent_of min_of
    max_of average verdict read_dump collect_dumps
main_results-shows = refl

main_results_shows_example :
    (found_nothing shown.analyses ≡ false)
    × ((r : Summary × Verdict)
        → Any (λ x. x ≡ r) ((lan, not_applicable) ∷ [])
          ↔ Any
              (HasResult runs (codes "r") r)
              (codes "lan" ∷ codes ".git" ∷ codes "convergence" ∷ []))
    × Holds runs
        (codes "r")
        (codes "convergence")
        (analyze_convergence_trials narrow runs)
        (codes "lan" ∷ codes ".git" ∷ codes "convergence" ∷ [])
        none
        (some one_trial)
    × Holds runs
        (codes "r")
        (codes "scalability")
        (analyze_scalability runs)
        (codes "lan" ∷ codes ".git" ∷ codes "convergence" ∷ [])
        none
        none
main_results_shows_example =
    main_results_shows narrow runs (codes "r") []
      (codes "lan" ∷ codes ".git" ∷ codes "convergence" ∷ []) shown refl main_results-shows

-- A way to show a fraction: its whole part.
abbrev pub whole_part : Numerals
whole_part = record { fixed = λ d x. print (x.num / x.den) }

abbrev pub log_of_one : Log
log_of_one = record { sends = ((1, 1), 100) ∷ []; applies = ((1, 1), 150) ∷ [] }

abbrev odd_label : Summary
odd_label = summarise (codes "a,\"b\"") log_of_one

write_csv_read_example :
    (text : Text) × (first : List (List Text)) × (write_csv whole_part
        ((odd_label, agreed) ∷ [])
        (some one_trial)
        none
      ≡ some text)
    × (read_rows text ≡ summary_fields ∷ (first ++ (trials_row whole_part one_trial ∷ [])))
    × (map first_cell first ≡ codes "a,\"b\"" ∷ [])
    × All (λ r. length r ≡ length summary_fields) (read_rows text)
unfolding summarise
write_csv_read_example =
    write_csv_read whole_part ((odd_label, agreed) ∷ []) (some one_trial) none
      ((codes "a,\"b\"", log_of_one, refl), tt)
