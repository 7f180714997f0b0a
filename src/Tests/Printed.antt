-- ===== src/Tests/Printed.antt =====
-- Concrete runs of the printed tables.
use cs4730_collaborative_tex.Base.{◌≡◌, ◌↔◌, refl, true, List, [], ◌∷◌, some, All}
use cs4730_collaborative_tex.Base.Int.{pos}
use cs4730_collaborative_tex.Text.{Text, codes, digit_value}
use cs4730_collaborative_tex.Text.Decimal.{print, print_int}
use cs4730_collaborative_tex.Sort.{sorted}
use cs4730_collaborative_tex.Sort.Laws.{count_if}
use cs4730_collaborative_tex.Dict.{lookup, insert}
use cs4730_collaborative_tex.Stats.{ratio, nan, percentile, percent_of, min_of, max_of, average}
use cs4730_collaborative_tex.Logs.Parse.{Log}
use cs4730_collaborative_tex.Latency.{Summary, diverged, summarise}
use cs4730_collaborative_tex.Convergence.{TrialMeta, no_results, add_trials, count_trials}
use cs4730_collaborative_tex.Convergence.Counting.{Trial, passes}
use cs4730_collaborative_tex.Scalability.{Figures}
use cs4730_collaborative_tex.Scalability.Bottleneck.{grew, busy, detect_bottleneck}
use cs4730_collaborative_tex.Tests.Outputs.{whole_part, log_of_one}
use cs4730_collaborative_tex.Printing.Latencies.{print_summary_table, print_table_latency}
use cs4730_collaborative_tex.Printing.Trials.{print_report, print_convergence_report}
use cs4730_collaborative_tex.Printing.Peers.{print_bottleneck, print_scalability_table}
use cs4730_collaborative_tex.Printing.Warned.{says_diverged, is_diverged, print_summary_table_warns}
use cs4730_collaborative_tex.Printing.Converged.{SaysConverged, no_totals, print_reports_converged}

abbrev lan : Summary
lan = summarise (codes "lan,\"2peer\"") log_of_one

print_summary_table-lan :
    print_summary_table whole_part ((lan, diverged) ∷ [])
    ≡ some (
        []
        ∷ codes
            "=========================================================================================================="
        ∷ codes "  P2P Editor Evaluation — Summary"
        ∷ codes
            "=========================================================================================================="
        ∷ codes
            "  Config                 Peers   Sent   Rcvd     Min µs     Avg µs     P50 µs     P95 µs     P99 µs     Max µs   Drop%   Conv"
        ∷ codes
            "  ------------------------------------------------------------------------------------------------------"
        ∷ codes
            "  lan,\"2peer\"                2      1      1         50         50         50         50         50         50      0%  false"
        ∷ codes "  *** CONVERGENCE FAILURE: dump files differ across peers!"
        ∷ []
        ∷ [])
unfolding print_summary_table summarise print digit_value percentile percent_of min_of max_of
    average sorted lookup
print_summary_table-lan = refl

print_summary_table_warns_example :
    (lines : List Text) × (print_summary_table whole_part ((lan, diverged) ∷ []) ≡ some lines)
    × (count_if says_diverged lines ≡ count_if is_diverged ((lan, diverged) ∷ []))
print_summary_table_warns_example =
    print_summary_table_warns whole_part ((lan, diverged) ∷ [])
      ((codes "lan,\"2peer\"", log_of_one, refl), tt)

abbrev meta : TrialMeta
meta = record { trial = pos 7; n_peers = pos 3; seed = codes "5"; ops = codes "9" }

abbrev one_apart : List Trial
one_apart = (meta, (1, codes "a") ∷ (2, codes "b") ∷ []) ∷ []

print_report-one_apart :
    print_report whole_part (add_trials no_results one_apart)
    ≡ []
      ∷ codes "=============================================================="
      ∷ codes "  P2P Editor — Convergence Trial Results"
      ∷ codes "=============================================================="
      ∷ codes "  Trials : 1"
      ∷ codes "  Passed : 0"
      ∷ codes "  Failed : 1"
      ∷ codes "  Rate   : 0% PASS"
      ∷ []
      ∷ codes "  Peers   Passed   Failed     Rate"
      ∷ codes "  --------------------------------"
      ∷ codes "      3        0        1       0%"
      ∷ []
      ∷ codes "   Trial  Peers   Ops        Seed  Details"
      ∷ codes "  ----------------------------------------------------------"
      ∷ codes "       7      3     9           5  1 peer(s) diverged"
      ∷ codes "                                ↳ peer_2 differs from peer_1"
      ∷ []
      ∷ []
unfolding print_report add_trials sorted lookup insert print print_int percent_of
print_report-one_apart = refl

print_reports_converged_example :
    (SaysConverged (print_report whole_part (add_trials no_results one_apart))
      ↔ All (λ t. passes t ≡ true) one_apart)
    × (SaysConverged (print_convergence_report whole_part (count_trials no_totals one_apart))
        ↔ All (λ t. passes t ≡ true) one_apart)
print_reports_converged_example = print_reports_converged whole_part one_apart

abbrev two_peers : Figures
two_peers = record {
  n_peers = 2;
  total_sent = 4;
  delivered = 3;
  dropped = 1;
  drop_pct = ratio 100 4;
  convergence_us = pos 100000;
  sys_throughput = ratio 30 1;
  per_peer_tput = ratio 15 1;
  avg_cpu_pct = nan;
  n_cpu_samples = 0;
}

print_scalability_table-two_peers :
    print_scalability_table whole_part (two_peers ∷ [])
    ≡ some (
        []
        ∷ codes "=================================================================================="
        ∷ codes "  P2P Editor — Scalability Results"
        ∷ codes "=================================================================================="
        ∷ codes "  Peers    Sent    Rcvd   Drop%   Conv ms   Sys ops/s   Per-peer ops/s    CPU%"
        ∷ codes "  ------------------------------------------------------------------------------"
        ∷ codes "      2       4       3      25       100          30               15     N/A"
        ∷ []
        ∷ codes "  Columns:"
        ∷ codes "    Conv ms       — wall time: first send → last apply across all peers"
        ∷ codes "    Sys ops/s     — total unique ops converged per second"
        ∷ codes "    Per-peer ops/s— sys_throughput / n_peers"
        ∷ codes "    CPU%          — avg CPU per peer (/usr/bin/time); N/A if not collected"
        ∷ []
        ∷ codes "  Bottleneck analysis:"
        ∷ codes "  No bottleneck detected."
        ∷ []
        ∷ [])
unfolding print_scalability_table detect_bottleneck print
print_scalability_table-two_peers = refl

abbrev three_ops : Log
three_ops = record {
  sends = ((1, 1), 100) ∷ ((1, 2), 200) ∷ ((2, 1), 300) ∷ [];
  applies = ((1, 1), 150) ∷ ((2, 1), 250) ∷ [];
}

print_table_latency-three_ops :
    print_table_latency whole_part (summarise (codes "wan_4peer") three_ops ∷ [])
    ≡ some (
        []
        ∷ codes
            "============================================================================================================"
        ∷ codes "  P2P Editor — Latency Results"
        ∷ codes
            "============================================================================================================"
        ∷ codes
            "  Config                 Peers   Sent   Rcvd     Min µs     Avg µs     P50 µs     P95 µs     P99 µs     Max µs   Drop%"
        ∷ codes
            "  --------------------------------------------------------------------------------------------------------"
        ∷ codes
            "  wan_4peer                  4      3      1         50         50         50         50         50         50     33%"
        ∷ codes "  *** WARNING: drop rate 33% > 1%"
        ∷ codes "  Note: 1 sample(s) excluded (negative delta — NTP skew)"
        ∷ []
        ∷ [])
unfolding print_table_latency summarise print digit_value percentile percent_of min_of max_of
    average sorted lookup
print_table_latency-three_ops = refl

print_bottleneck-two :
    print_bottleneck whole_part (grew 4 (pos 500) 100 4 2 ∷ busy 4 (ratio 180 2) ∷ [])
    ≡ codes "  Bottleneck indicators:"
      ∷ codes "    4 peers : convergence time grew 5× while peers grew 2×"
      ∷ codes "    4 peers : avg CPU 90% ≥ 80%"
      ∷ []
      ∷ []
unfolding print_bottleneck print
print_bottleneck-two = refl
