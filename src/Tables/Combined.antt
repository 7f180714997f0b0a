-- ===== src/Tables/Combined.antt =====
-- The CSV files of scripts/analyze_convergence.py and scripts/analyze_results.py.
use cs4730_collaborative_tex.Base.{
  ℕ, zero, suc, ◌+◌, ◌++◌, List, [], ◌∷◌, Option, some, none, map, ◌>>=◌,
}
use cs4730_collaborative_tex.Text.{Text, codes}
use cs4730_collaborative_tex.Text.Decimal.{print, print_int}
use cs4730_collaborative_tex.Latency.{Summary, Verdict, not_applicable, agreed, diverged}
use cs4730_collaborative_tex.Convergence.{Results, Totals}
use cs4730_collaborative_tex.Convergence.Rows.{Peers, all_peers, peers, Row, rows}
use cs4730_collaborative_tex.Stats.{Number}
use cs4730_collaborative_tex.Scalability.{Figures}
use cs4730_collaborative_tex.Csv.{write_rows}
use cs4730_collaborative_tex.Tables.{Numerals, each_row, fmt_us, fmt, fmt_convergence}

abbrev pub convergence_fields : List Text
convergence_fields =
    codes "config"
    ∷ codes "n_peers"
    ∷ codes "trials"
    ∷ codes "passed"
    ∷ codes "failed"
    ∷ codes "pass_rate_pct"
    ∷ []

-- `r["converged"]`
abbrev pub verdict_text : Verdict → Text
verdict_text not_applicable = codes "N/A"
verdict_text agreed = codes "true"
verdict_text diverged = codes "false"

abbrev pub summary_fields : List Text
summary_fields =
    codes "config"
    ∷ codes "n_peers"
    ∷ codes "total_ops"
    ∷ codes "delivered"
    ∷ codes "drop_pct"
    ∷ codes "min_us"
    ∷ codes "avg_us"
    ∷ codes "p50_us"
    ∷ codes "p95_us"
    ∷ codes "p99_us"
    ∷ codes "max_us"
    ∷ codes "converged"
    ∷ codes "trials"
    ∷ codes "trials_passed"
    ∷ codes "trials_failed"
    ∷ codes "convergence_ms"
    ∷ codes "sys_throughput_ops_sec"
    ∷ codes "per_peer_throughput_ops_sec"
    ∷ codes "avg_cpu_pct"
    ∷ []

-- So many empty cells, and the cells behind them.
abbrev pub blanks : ℕ → List Text → List Text
blanks zero cells = cells
blanks (suc k) cells = [] ∷ blanks k cells

-- `"true" if conv_results["failed"] == 0 else "false"`
abbrev pub all_converged : ℕ → Text
all_converged zero = codes "true"
all_converged (suc _) = codes "false"

module _ (n : Numerals) where
  -- The cells of a row of analyze_convergence.py.
  unfoldable pub convergence_row : Row → List Text
  convergence_row r =
      let (config, count) = names r.n_peers in
      config ∷ count ∷ print r.trials ∷ print r.passed ∷ print r.failed ∷ n.fixed 1 r.pass_rate ∷ []
    where
      names : Peers → Text × Text
      names all_peers = (codes "convergence_all", codes "3-5")
      names (peers k) = (codes "convergence_" ++ (print_int k ++ codes "peer"), print_int k)

  -- `write_csv` of analyze_convergence.py.
  unfoldable pub write_csv_convergence : Results → Text
  unfolding rows convergence_row write_rows
  write_csv_convergence results =
      write_rows (convergence_fields ∷ map convergence_row (rows results))

  -- The three kinds of rows of analyze_results.py.
  unfoldable pub result_cells : Summary → Verdict → Number ℕ → Number ℕ → Number ℕ → List Text
  result_cells r converged p50 p95 p99 =
      r.label
      ∷ print r.n_peers
      ∷ print r.total
      ∷ print r.delivered
      ∷ n.fixed 2 r.drop_pct
      ∷ fmt_us n r.min
      ∷ fmt n r.avg
      ∷ fmt_us n p50
      ∷ fmt_us n p95
      ∷ fmt_us n p99
      ∷ fmt_us n r.max
      ∷ verdict_text converged
      ∷ blanks 7 []

  -- `none` where a percentile has raised an `IndexError` before.
  unfoldable pub result_row : Summary × Verdict → Option (List Text)
  unfolding result_cells
  result_row (r, converged) = do
    p50 ← r.p50
    p95 ← r.p95
    p99 ← r.p99
    some (result_cells r converged p50 p95 p99)

  unfoldable pub trials_row : Totals → List Text
  trials_row t =
      codes "convergence"
      ∷ codes "3-5"
      ∷ blanks 9 (
          all_converged t.trials_failed
          ∷ print (t.trials_passed + t.trials_failed)
          ∷ print t.trials_passed
          ∷ print t.trials_failed
          ∷ blanks 4 [])

  unfoldable pub peers_row : Figures → List Text
  peers_row r =
      (codes "scalability_" ++ (print r.n_peers ++ codes "peer"))
      ∷ print r.n_peers
      ∷ print r.total_sent
      ∷ print r.delivered
      ∷ n.fixed 2 r.drop_pct
      ∷ blanks 10 (
          fmt_convergence n r.convergence_us
          ∷ n.fixed 1 r.sys_throughput
          ∷ n.fixed 1 r.per_peer_tput
          ∷ fmt n r.avg_cpu_pct
          ∷ [])

  abbrev pub trials_rows : Option Totals → List (List Text)
  trials_rows none = []
  trials_rows (some t) = trials_row t ∷ []

  abbrev pub peers_rows : Option (List Figures) → List (List Text)
  peers_rows none = []
  peers_rows (some rs) = map peers_row rs

  -- `write_csv` of analyze_results.py: the text that it hands to the file, or `none` where a
  -- percentile raises. The file is opened and encodes the text outside.
  unfoldable pub write_csv :
      List (Summary × Verdict) → Option Totals → Option (List Figures) → Option Text
  unfolding each_row result_row trials_row peers_row write_rows
  write_csv results conv_results scale_results = do
    rows ← each_row result_row results
    some (
        write_rows
          (summary_fields ∷ (rows ++ (trials_rows conv_results ++ peers_rows scale_results))))
