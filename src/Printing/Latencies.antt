-- ===== src/Printing/Latencies.antt =====
-- `print_table` of scripts/analyze_latency.py and `print_summary_table` of scripts/analyze_results.py.
use cs4730_collaborative_tex.Base.{
  ℕ, List, [], ◌∷◌, ◌++◌, Option, some, ltb, concat, if◌then◌else◌, ◌>>=◌,
}
use cs4730_collaborative_tex.Text.{Text, codes}
use cs4730_collaborative_tex.Text.Decimal.{print}
use cs4730_collaborative_tex.Stats.{Ratio, Number}
use cs4730_collaborative_tex.Latency.{Summary, Verdict, not_applicable, agreed, diverged}
use cs4730_collaborative_tex.Tables.{Numerals, each_row, fmt_us, fmt}
use cs4730_collaborative_tex.Tables.Combined.{verdict_text}
use cs4730_collaborative_tex.Printing.{pad_left, pad_right, spaced, title_lines, rule}

-- The columns that both tables have.
abbrev pub latency_header : Text
latency_header =
    codes "  "
    ++ (pad_right 22 (codes "Config")
        ++ spaced (codes " ") (
            pad_left 5 (codes "Peers")
            ∷ pad_left 6 (codes "Sent")
            ∷ pad_left 6 (codes "Rcvd")
            ∷ pad_left 10 (codes "Min µs")
            ∷ pad_left 10 (codes "Avg µs")
            ∷ pad_left 10 (codes "P50 µs")
            ∷ pad_left 10 (codes "P95 µs")
            ∷ pad_left 10 (codes "P99 µs")
            ∷ pad_left 10 (codes "Max µs")
            ∷ pad_left 7 (codes "Drop%")
            ∷ []))

-- A last column, behind a space.
abbrev pub last_column : Text → Text
last_column s = b' ' ∷ pad_left 6 s

-- `print("  *** CONVERGENCE FAILURE: dump files differ across peers!")`
abbrev pub divergence_line : Text
divergence_line = codes "  *** CONVERGENCE FAILURE: dump files differ across peers!"

abbrev pub divergence_lines : Verdict → List Text
divergence_lines not_applicable = []
divergence_lines agreed = []
divergence_lines diverged = divergence_line ∷ []

-- `if r["negative"] > 0:`
abbrev pub negative_lines : Summary → List Text
negative_lines r =
    if ltb 0 r.negative
    then (codes "  Note: "
        ++ (print r.negative ++ codes " sample(s) excluded (negative delta — NTP skew)"))
      ∷ []
    else []

module _ (n : Numerals) where
  abbrev pub latency_line : Summary → Number ℕ → Number ℕ → Number ℕ → Text
  latency_line r p50 p95 p99 =
      codes "  "
      ++ (pad_right 22 r.label
          ++ spaced (codes " ") (
              pad_left 5 (print r.n_peers)
              ∷ pad_left 6 (print r.total)
              ∷ pad_left 6 (print r.delivered)
              ∷ pad_left 10 (fmt_us n r.min)
              ∷ pad_left 10 (fmt n r.avg)
              ∷ pad_left 10 (fmt_us n p50)
              ∷ pad_left 10 (fmt_us n p95)
              ∷ pad_left 10 (fmt_us n p99)
              ∷ pad_left 10 (fmt_us n r.max)
              ∷ (pad_left 6 (n.fixed 1 r.drop_pct) ++ codes "%")
              ∷ []))

  -- `if r["drop_pct"] > 1.0:`, with what stands behind the rate.
  abbrev pub drop_lines : Text → Ratio → List Text
  drop_lines behind drop_pct =
      if ltb drop_pct.den drop_pct.num
      then (codes "  *** WARNING: drop rate " ++ (n.fixed 1 drop_pct ++ behind)) ∷ []
      else []

  -- One round of the loop in analyze_latency.py; `none` where a percentile has raised before.
  table_lines : Summary → Option (List Text)
  table_lines r = do
    p50 ← r.p50
    p95 ← r.p95
    p99 ← r.p99
    some (latency_line r p50 p95 p99 ∷ (drop_lines (codes "% > 1%") r.drop_pct ++ negative_lines r))

  unfoldable pub print_table_latency : List Summary → Option (List Text)
  unfolding each_row table_lines
  print_table_latency results = do
    groups ← each_row table_lines results
    some (
        title_lines 108 (codes "P2P Editor — Latency Results")
        ++ (latency_header ∷ rule 104 ∷ (concat groups ++ [] ∷ [])))

  abbrev pub summary_line : Summary → Verdict → Number ℕ → Number ℕ → Number ℕ → Text
  summary_line r converged p50 p95 p99 =
      latency_line r p50 p95 p99 ++ last_column (verdict_text converged)

  abbrev pub summary_lines : Summary → Verdict → Number ℕ → Number ℕ → Number ℕ → List Text
  summary_lines r converged p50 p95 p99 =
      summary_line r converged p50 p95 p99
      ∷ (drop_lines (codes "% > 1% — results may not be representative") r.drop_pct
          ++ (negative_lines r ++ divergence_lines converged))

  -- One round of the loop in analyze_results.py.
  unfoldable pub result_lines : Summary × Verdict → Option (List Text)
  result_lines (r, converged) = do
    p50 ← r.p50
    p95 ← r.p95
    p99 ← r.p99
    some (summary_lines r converged p50 p95 p99)

  -- `print_summary_table`: what `print` is called with, or `none` where a percentile raises. The
  -- terminal's encoding of these texts is outside.
  unfoldable pub print_summary_table : List (Summary × Verdict) → Option (List Text)
  unfolding each_row result_lines
  print_summary_table results = do
    groups ← each_row result_lines results
    some (
        title_lines 106 (codes "P2P Editor Evaluation — Summary")
        ++ ((latency_header ++ last_column (codes "Conv")) ∷ rule 102 ∷ (concat groups ++ [] ∷ [])))
