-- ===== src/Printing/Peers.antt =====
-- `print_table` and `print_bottleneck` of scripts/analyze_scalability.py, and
-- `print_scalability_table` of scripts/analyze_results.py.
use mathlib.Core.Option
use cs4730_collaborative_tex.Base.{ℕ, suc, List, [], ◌∷◌, ◌++◌, Option, map}
use cs4730_collaborative_tex.Base.Int.{ℤ, pos, negsuc}
use cs4730_collaborative_tex.Text.{Text, codes}
use cs4730_collaborative_tex.Text.Decimal.{print}
use cs4730_collaborative_tex.Stats.{ratio}
use cs4730_collaborative_tex.Scalability.{Figures}
use cs4730_collaborative_tex.Scalability.Bottleneck.{Flag, grew, busy, detect_bottleneck}
use cs4730_collaborative_tex.Tables.{Numerals, fmt, fmt_convergence}
use cs4730_collaborative_tex.Printing.{pad_left, spaced, title_lines, rule}

-- The header, with the names of the throughputs and the width of the last of them.
abbrev figures_header : Text → Text → ℕ → Text
figures_header sys per_peer width = spaced (codes "  ") (
    pad_left 5 (codes "Peers")
    ∷ pad_left 6 (codes "Sent")
    ∷ pad_left 6 (codes "Rcvd")
    ∷ pad_left 6 (codes "Drop%")
    ∷ pad_left 8 (codes "Conv ms")
    ∷ pad_left 10 sys
    ∷ pad_left width per_peer
    ∷ pad_left 6 (codes "CPU%")
    ∷ [])

module _ (n : Numerals) where
  abbrev figures_line : ℕ → Figures → Text
  figures_line width r = spaced (codes "  ") (
      pad_left 5 (print r.n_peers)
      ∷ pad_left 6 (print r.total_sent)
      ∷ pad_left 6 (print r.delivered)
      ∷ pad_left 6 (n.fixed 1 r.drop_pct)
      ∷ pad_left 8 (fmt_convergence n r.convergence_us)
      ∷ pad_left 10 (n.fixed 1 r.sys_throughput)
      ∷ pad_left width (n.fixed 1 r.per_peer_tput)
      ∷ pad_left 6 (fmt n r.avg_cpu_pct)
      ∷ [])

  print_table_scalability : List Figures → List Text
  print_table_scalability results =
      title_lines 80 (codes "P2P Editor — Scalability Results")
      ++ (figures_header (codes "Sys tput") (codes "Per-peer tput") 14
          ∷ rule 76
          ∷ (map (figures_line 14) results
              ++ ([]
                  ∷ codes "  Columns:"
                  ∷ codes "    Conv ms      — wall time from first send to last apply (ms)"
                  ∷ codes "    Sys tput     — total unique ops converged per second (ops/s)"
                  ∷ codes "    Per-peer tput— sys_tput / n_peers (ops/s per peer)"
                  ∷ codes "    CPU%         — average CPU% per peer process (/usr/bin/time)"
                  ∷ []
                  ∷ [])))

  -- `f"{ratio_conv:.1f}"`
  abbrev quotient_text : ℤ → ℕ → Text
  quotient_text (pos t) d = n.fixed 1 (ratio t d)
  quotient_text (negsuc t) d = b'-' ∷ n.fixed 1 (ratio (suc t) d)

  -- The tuple of a flag: the number of peers and the reason.
  reason_of : Flag → ℕ × Text
  reason_of (grew k time time' peers peers') = (
    k,
    codes "convergence time grew "
        ++ (quotient_text time time'
            ++ (codes "× while peers grew " ++ (n.fixed 1 (ratio peers peers') ++ codes "×"))),
  )
  reason_of (busy k load) = (k, codes "avg CPU " ++ (n.fixed 0 load ++ codes "% ≥ 80%"))

  abbrev flag_line : Flag → Text
  flag_line f =
      let (k, reason) = reason_of f in codes "    " ++ (print k ++ (codes " peers : " ++ reason))

  unfoldable pub print_bottleneck : List Flag → List Text
  unfolding reason_of
  print_bottleneck [] = codes "  No bottleneck detected." ∷ [] ∷ []
  print_bottleneck (f ∷ flags) =
      codes "  Bottleneck indicators:" ∷ (map flag_line (f ∷ flags) ++ [] ∷ [])

  -- `if not flags: … else: …` of analyze_results.py.
  abbrev reason_lines : List Flag → List Text
  reason_lines [] = codes "  No bottleneck detected." ∷ []
  reason_lines (f ∷ flags) = map flag_line (f ∷ flags)

  -- `none` is the `ZeroDivisionError` of `_detect_bottleneck`, behind the table and its columns.
  unfoldable pub print_scalability_table : List Figures → Option (List Text)
  unfolding reason_of
  print_scalability_table results =
      Option.map
        (λ flags.
          title_lines 82 (codes "P2P Editor — Scalability Results")
          ++ (figures_header (codes "Sys ops/s") (codes "Per-peer ops/s") 15
              ∷ rule 78
              ∷ (map (figures_line 15) results
                  ++ ([]
                      ∷ codes "  Columns:"
                      ∷ codes
                          "    Conv ms       — wall time: first send → last apply across all peers"
                      ∷ codes "    Sys ops/s     — total unique ops converged per second"
                      ∷ codes "    Per-peer ops/s— sys_throughput / n_peers"
                      ∷ codes
                          "    CPU%          — avg CPU per peer (/usr/bin/time); N/A if not collected"
                      ∷ []
                      ∷ codes "  Bottleneck analysis:"
                      ∷ (reason_lines flags ++ [] ∷ [])))))
        (detect_bottleneck results)
