-- ===== src/Printing/Trials.antt =====
-- `print_report` of scripts/analyze_convergence.py and `print_convergence_report` of
-- scripts/analyze_results.py.
use cs4730_collaborative_tex.Base.{ℕ, ◌+◌, List, [], ◌∷◌, ◌++◌, map, concat}
use cs4730_collaborative_tex.Base.Int.{ℤ, leb_ℤ}
use cs4730_collaborative_tex.Text.{Text, codes}
use cs4730_collaborative_tex.Text.Decimal.{print, print_int}
use cs4730_collaborative_tex.Dict.{Dict, keys}
use cs4730_collaborative_tex.Sort.{sorted}
use cs4730_collaborative_tex.Stats.{percent_of}
use cs4730_collaborative_tex.Convergence.{Failure, Bucket, Results, Totals}
use cs4730_collaborative_tex.Convergence.Rows.{Row, bucket_row}
use cs4730_collaborative_tex.Tables.{Numerals}
use cs4730_collaborative_tex.Printing.{replicate, pad_left, spaced, title_lines, rule}

-- One round of the loop over `divergent`.
unfoldable pub failure_line : Failure → Text
failure_line d = spaced (codes "  ") (
    pad_left 6 (print_int d.trial)
    ∷ pad_left 5 (print_int d.n_peers)
    ∷ pad_left 4 d.ops
    ∷ pad_left 10 d.seed
    ∷ d.reason
    ∷ [])

abbrev pub diff_line : Text → Text
diff_line diff = codes "  " ++ (replicate 28 b' ' ++ (codes "  ↳ " ++ diff))

abbrev pub failure_lines : Failure → List Text
failure_lines d = failure_line d ∷ map diff_line d.diffs

abbrev failure_header : Text
failure_header = spaced (codes "  ") (
    pad_left 6 (codes "Trial")
    ∷ pad_left 5 (codes "Peers")
    ∷ pad_left 4 (codes "Ops")
    ∷ pad_left 10 (codes "Seed")
    ∷ codes "Details"
    ∷ [])

abbrev pub converged_line : Text
converged_line = codes "  All trials converged. ✓"

-- `if not results["divergent"]: … else: …`, with the width of the line below the header.
abbrev pub divergent_lines : ℕ → List Failure → List Text
divergent_lines width [] = converged_line ∷ []
divergent_lines width (d ∷ ds) = failure_header ∷ rule width ∷ concat (map failure_lines (d ∷ ds))

module _ (n : Numerals) where
  -- The numbers of trials and the rate.
  abbrev pub count_lines : ℕ → ℕ → List Text
  count_lines passed failed =
      (codes "  Trials : " ++ print (passed + failed))
      ∷ (codes "  Passed : " ++ print passed)
      ∷ (codes "  Failed : " ++ print failed)
      ∷ (codes "  Rate   : " ++ (n.fixed 1 (percent_of passed (passed + failed)) ++ codes "% PASS"))
      ∷ []

  abbrev pub bucket_line : ℤ → Row → Text
  bucket_line peers r = spaced (codes "  ") (
      pad_left 5 (print_int peers)
      ∷ pad_left 7 (print r.passed)
      ∷ pad_left 7 (print r.failed)
      ∷ (pad_left 6 (n.fixed 1 r.pass_rate) ++ codes "%")
      ∷ [])

  -- `if results["by_peers"]:`
  unfoldable pub bucket_lines : Dict ℤ Bucket → List Text
  bucket_lines [] = []
  bucket_lines (b ∷ by_peers) =
      []
      ∷ spaced (codes "  ") (
          pad_left 5 (codes "Peers")
          ∷ pad_left 7 (codes "Passed")
          ∷ pad_left 7 (codes "Failed")
          ∷ pad_left 7 (codes "Rate")
          ∷ [])
      ∷ rule 32
      ∷ map (λ k. bucket_line k (bucket_row (b ∷ by_peers) k)) (sorted leb_ℤ (keys (b ∷ by_peers)))

  -- `print_report` of analyze_convergence.py.
  unfoldable pub print_report : Results → List Text
  unfolding bucket_lines failure_line
  print_report r =
      title_lines 62 (codes "P2P Editor — Convergence Trial Results")
      ++ (count_lines r.passed r.failed
          ++ (bucket_lines r.by_peers ++ ([] ∷ (divergent_lines 58 r.divergent ++ [] ∷ []))))

  -- `print_convergence_report` of analyze_results.py.
  unfoldable pub print_convergence_report : Totals → List Text
  unfolding failure_line
  print_convergence_report t =
      title_lines 60 (codes "Convergence Trial Results")
      ++ (count_lines t.trials_passed t.trials_failed
          ++ ([] ∷ (divergent_lines 56 t.divergent ++ [] ∷ [])))
