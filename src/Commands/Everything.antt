-- ===== src/Commands/Everything.antt =====
-- `main` of scripts/analyze_results.py, which runs the analysis that fits each directory.
pub mod Entries
pub mod Found
pub mod Named
pub mod Ending
use mathlib.Core.Option
use cs4730_collaborative_tex.Base.{
  ℕ, Bool, ◌||◌, ◌&&◌, not, true, false, List, [], ◌∷◌, ◌++◌, Option, none, some, nat_beq, or_else,
  is_some, if◌then◌else◌, ◌>>=◌,
}
use cs4730_collaborative_tex.Base.Eq.{text_eq, ◌==◌}
use cs4730_collaborative_tex.Text.{Text, codes, starts_with}
use cs4730_collaborative_tex.Files.{FileSystem, join, text_leb}
use cs4730_collaborative_tex.Sort.{sorted}
use cs4730_collaborative_tex.Latency.{
  Summary, Verdict, not_applicable, agreed, diverged, analyze_subdir,
}
use cs4730_collaborative_tex.Convergence.{Totals}
use cs4730_collaborative_tex.Convergence.Trial.{analyze_convergence_trials}
use cs4730_collaborative_tex.Scalability.{Figures}
use cs4730_collaborative_tex.Scalability.Directories.{analyze_scalability}
use cs4730_collaborative_tex.Scalability.Bottleneck.{Flag, detect_bottleneck}
use cs4730_collaborative_tex.Commands.{OutputPaths, no_paths, options, asks_help, non_empty}

-- The loop's variables.
pub record Analyses : Type 0 where
  pub results : List (Summary × Verdict)
  pub conv_results : Option Totals
  pub scale_results : Option (List Figures)

abbrev pub nothing_found : Analyses
nothing_found = record { results = []; conv_results = none; scale_results = none }

-- `r["total"] == 0 and r["converged"] == "N/A"`
abbrev pub is_idle : Summary × Verdict → Bool
is_idle (r, not_applicable) = nat_beq r.total 0
is_idle (r, agreed) = false
is_idle (r, diverged) = false

abbrev pub add_result : Summary × Verdict → Analyses → Analyses
add_result r a = if is_idle r then a else record a { results = a.results ++ r ∷ [] }

-- What is shown and written: the analyses, the bottlenecks, the path of the CSV file, if one is
-- written, and the path of the chart of the scalability figures, if there are any.
pub record Shown : Type 0 where
  pub analyses : Analyses
  pub flags : List Flag
  pub csv_path : Option Text
  pub chart_path : Option Text

-- How `main` ends: `raised` is an exception that it does not catch.
pub data Ended : Type 0 where
  exits : ℕ → Ended
  raises : Ended
  shows : Shown → Ended

-- `not results and conv_results is None and scale_results is None`
abbrev pub found_nothing : Analyses → Bool
found_nothing a = is_nil a.results && not (is_some a.conv_results) && not (is_some a.scale_results)
  where
    is_nil : List (Summary × Verdict) → Bool
    is_nil [] = true
    is_nil (_ ∷ _) = false

-- The part of `main` behind the tables of the results and of the trials.
unfoldable pub show_scalability : Text → OutputPaths → Analyses → Option (List Figures) → Ended
show_scalability dir o a none =
    shows (record { analyses = a; flags = []; csv_path = non_empty o.csv_out; chart_path = none })
show_scalability dir o a (some figures) = elim (detect_bottleneck figures) [
  | none ↦ raises
  | some flags ↦ shows (record {
    analyses = a;
    flags = flags;
    csv_path = non_empty o.csv_out;
    chart_path = some (
        or_else (non_empty o.chart_out)
          (join (join dir (codes "scalability")) (codes "scalability_chart.png")));
  })
]

module _ (wide_word : ℕ → Bool) (fs : FileSystem) where
  -- One round of the loop over the entries; `none` is an exception.
  unfoldable pub add_entry : Text → Analyses → Text → Option Analyses
  add_entry dir a entry =
      if starts_with entry (codes ".") || not (fs.is_dir (join dir entry))
      then some a
      else if entry == codes "convergence"
      then Option.map (λ found. record a { conv_results = found })
          (analyze_convergence_trials wide_word fs (join dir entry))
      else if entry == codes "scalability"
      then Option.map (λ found. record a { scale_results = found })
          (analyze_scalability fs (join dir entry))
      else Option.map (λ r. add_result r a) (analyze_subdir fs (join dir entry) entry)

  unfoldable pub add_entries : Text → Analyses → List Text → Option Analyses
  unfolding add_entry
  add_entries dir a [] = some a
  add_entries dir a (entry ∷ entries) = do a' ← add_entry dir a entry; add_entries dir a' entries

  unfoldable pub main_results : List Text → Ended
  unfolding add_entries show_scalability
  main_results [] = exits 1
  main_results (dir ∷ args) = if asks_help dir then exits 0 else elim (options args no_paths) [
    | none ↦ exits 1
    | some o ↦
        if fs.is_dir dir
        then elim (fs.listdir dir) [
          | none ↦ exits 1
          | some entries ↦ elim (add_entries dir nothing_found (sorted text_leb entries)) [
            | none ↦ raises
            | some a ↦ if found_nothing a then exits 1 else show_scalability dir o a a.scale_results
          ]
        ]
        else exits 1
  ]
