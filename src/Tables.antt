-- ===== src/Tables.antt =====
-- The CSV files of scripts/analyze_latency.py and scripts/analyze_scalability.py: `write_csv` of both,
-- up to the text that is written.
pub mod Combined
pub mod Written
use cs4730_collaborative_tex.Base.{ℕ, suc, List, [], ◌∷◌, Option, some, map, ◌>>=◌}
use cs4730_collaborative_tex.Base.Int.{ℤ, pos, negsuc}
use cs4730_collaborative_tex.Text.{Text, codes}
use cs4730_collaborative_tex.Text.Decimal.{print}
use cs4730_collaborative_tex.Stats.{Ratio, ratio, Number, nan, number}
use cs4730_collaborative_tex.Latency.{Summary}
use cs4730_collaborative_tex.Scalability.{Figures}
use cs4730_collaborative_tex.Csv.{write_rows}

-- How Python shows a float that is not negative: `fixed d x` is `f"{x:.{d}f}"`. It rounds the float
-- that is nearest to the fraction.
pub record Numerals : Type 0 where
  pub fixed : ℕ → Ratio → Text

-- The rows of a loop in which a round may raise an exception.
unfoldable pub each_row {ℓ} :
    {A : Type ℓ} → (A → Option (List Text)) → List A → Option (List (List Text))
each_row row [] = some []
each_row row (x ∷ xs) = do r ← row x; rs ← each_row row xs; some (r ∷ rs)

module _ (n : Numerals) where
  -- A whole number of microseconds, and a number that may be `nan`: `_fmt(v)` and `fmt_ms(v)`.
  abbrev pub fmt_us : Number ℕ → Text
  fmt_us nan = codes "N/A"
  fmt_us (number v) = n.fixed 1 (ratio v 1)

  abbrev pub fmt : Number Ratio → Text
  fmt nan = codes "N/A"
  fmt (number v) = n.fixed 1 v

  -- `f"{r['convergence_ms']:.1f}"`, of microseconds.
  abbrev pub fmt_convergence : ℤ → Text
  fmt_convergence (pos us) = n.fixed 1 (ratio us 1000)
  fmt_convergence (negsuc us) = b'-' ∷ n.fixed 1 (ratio (suc us) 1000)

  abbrev pub latency_fields : List Text
  latency_fields =
      codes "config"
      ∷ codes "n_peers"
      ∷ codes "total_ops"
      ∷ codes "delivered"
      ∷ codes "dropped"
      ∷ codes "drop_pct"
      ∷ codes "min_us"
      ∷ codes "avg_us"
      ∷ codes "p50_us"
      ∷ codes "p95_us"
      ∷ codes "p99_us"
      ∷ codes "max_us"
      ∷ []

  -- A row of analyze_latency.py; `none` where a percentile has raised an `IndexError` before.
  unfoldable pub latency_row : Summary → Option (List Text)
  latency_row r = do
    p50 ← r.p50
    p95 ← r.p95
    p99 ← r.p99
    some (
        r.label
        ∷ print r.n_peers
        ∷ print r.total
        ∷ print r.delivered
        ∷ print r.dropped
        ∷ n.fixed 2 r.drop_pct
        ∷ fmt_us r.min
        ∷ fmt r.avg
        ∷ fmt_us p50
        ∷ fmt_us p95
        ∷ fmt_us p99
        ∷ fmt_us r.max
        ∷ [])

  -- `write_csv` of analyze_latency.py: the text of the file.
  unfoldable pub write_csv_latency : List Summary → Option Text
  unfolding each_row latency_row write_rows
  write_csv_latency results = do
    rows ← each_row latency_row results
    some (write_rows (latency_fields ∷ rows))

  abbrev pub scalability_fields : List Text
  scalability_fields =
      codes "n_peers"
      ∷ codes "total_sent"
      ∷ codes "delivered"
      ∷ codes "drop_pct"
      ∷ codes "convergence_ms"
      ∷ codes "sys_throughput_ops_sec"
      ∷ codes "per_peer_throughput_ops_sec"
      ∷ codes "avg_cpu_pct"
      ∷ []

  unfoldable pub scalability_row : Figures → List Text
  scalability_row r =
      print r.n_peers
      ∷ print r.total_sent
      ∷ print r.delivered
      ∷ n.fixed 2 r.drop_pct
      ∷ fmt_convergence r.convergence_us
      ∷ n.fixed 1 r.sys_throughput
      ∷ n.fixed 1 r.per_peer_tput
      ∷ fmt r.avg_cpu_pct
      ∷ []

  -- `write_csv` of analyze_scalability.py.
  unfoldable pub write_csv_scalability : List Figures → Text
  unfolding scalability_row write_rows
  write_csv_scalability results = write_rows (scalability_fields ∷ map scalability_row results)
