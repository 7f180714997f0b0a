-- ===== src/Commands.antt =====
-- The main functions of scripts/analyze_latency.py and scripts/analyze_scalability.py: the arguments
-- behind the program's name, the directories that are analysed, and the exit code or what is
-- reported. Printing, the CSV file and the chart are left out: a report names their paths.
pub mod Reports
pub mod Configurations
pub mod Trials
pub mod Everything
use cs4730_collaborative_tex.Base.{
  ℕ, Bool, ◌||◌, List, [], ◌∷◌, Option, none, some, nat_beq, or_else, if◌then◌else◌, ◌>>=◌,
}
use cs4730_collaborative_tex.Base.Eq.{text_eq, pair_eq, ◌==◌}
use cs4730_collaborative_tex.Text.{Text, codes, starts_with}
use cs4730_collaborative_tex.Files.{FileSystem, join, text_leb}
use cs4730_collaborative_tex.Sort.{sorted}
use cs4730_collaborative_tex.Latency.{Summary, analyze_subdir_latency}
use cs4730_collaborative_tex.Scalability.{Figures, compute_metrics}
use cs4730_collaborative_tex.Scalability.Bottleneck.{Flag, detect_bottleneck_scalability}
use cs4730_collaborative_tex.Scalability.Directories.{by_key, peer_dirs}

pub record OutputPaths : Type 0 where
  pub csv_out : Option Text
  pub chart_out : Option Text

abbrev pub no_paths : OutputPaths
no_paths = record { csv_out = none; chart_out = none }

-- One round of the loop over the arguments.
unfoldable pub set_option : Text → Text → OutputPaths → Option OutputPaths
set_option flag value o =
    if flag == codes "--csv"
    then some (record o { csv_out = some value })
    else if flag == codes "--chart"
    then some (record o { chart_out = some value })
    else none

-- The loop over the arguments; `none` is an unknown argument, or an option without a value.
unfoldable pub options : List Text → OutputPaths → Option OutputPaths
options [] o = some o
options (flag ∷ []) o = none
options (flag ∷ value ∷ args) o = do o' ← set_option flag value o; options args o'

-- What `main` does: `sys.exit(code)`, or a report with the path of the CSV file, if one is written,
-- and the path of the chart; `raised` is an exception that `main` does not catch.
pub data Outcome (A : Type 0) : Type 0 where
  exited : ℕ → Outcome A
  raised : Outcome A
  reported : A → Option Text → Text → Outcome A

abbrev pub asks_help : Text → Bool
asks_help arg = arg == codes "-h" || arg == codes "--help"

-- `if csv_out:`
abbrev pub non_empty : Option Text → Option Text
non_empty (some (c ∷ s)) = some (c ∷ s)
non_empty (some []) = none
non_empty none = none

-- `entry.startswith(".") or entry in _SKIP_DIRS`
unfoldable pub is_skipped : Text → Bool
is_skipped entry =
    starts_with entry (codes ".") || (entry == codes "convergence" || entry == codes "scalability")

-- The loop over the entries of the results directory.
unfoldable pub summaries : FileSystem → Text → List Text → List Summary
summaries fs dir [] = []
summaries fs dir (entry ∷ entries) =
    let rest = summaries fs dir entries in
    let r = analyze_subdir_latency fs (join dir entry) entry in
    if is_skipped entry
    then rest
    else if fs.is_dir (join dir entry)
    then if nat_beq r.total 0 then rest else r ∷ rest
    else rest

-- The end of `main` of analyze_latency.py.
unfoldable pub report_latency : Text → OutputPaths → List Summary → Outcome (List Summary)
report_latency dir o [] = exited 1
report_latency dir o (r ∷ rs) =
    reported (r ∷ rs) (non_empty o.csv_out)
      (or_else (non_empty o.chart_out) (join dir (codes "latency_chart.png")))

-- `main` of analyze_latency.py
unfoldable pub main_latency : FileSystem → List Text → Outcome (List Summary)
main_latency fs [] = exited 1
main_latency fs (dir ∷ args) = if asks_help dir then exited 0 else elim (options args no_paths) [
  | none ↦ exited 1
  | some o ↦
      if fs.is_dir dir
      then elim (fs.listdir dir) [
        | none ↦ exited 1
        | some entries ↦ report_latency dir o (summaries fs dir (sorted text_leb entries))
      ]
      else exited 1
]

-- The loop over the directories of analyze_scalability.py.
unfoldable pub figures_each : FileSystem → List (ℕ × Text) → List Figures
figures_each fs [] = []
figures_each fs ((n, subdir) ∷ dirs) =
    let rest = figures_each fs dirs in
    elim (compute_metrics fs subdir n) [ none ↦ rest | some r ↦ r ∷ rest ]

-- The end of `main` of analyze_scalability.py: the table and the bottlenecks.
unfoldable pub report_scalability :
    Text → OutputPaths → List Figures → Outcome (List Figures × List Flag)
report_scalability dir o [] = exited 1
report_scalability dir o (r ∷ rs) = elim (detect_bottleneck_scalability (r ∷ rs)) [
  | none ↦ raised
  | some flags ↦
      reported (r ∷ rs, flags) (non_empty o.csv_out)
        (or_else o.chart_out (join dir (codes "scalability_chart.png")))
]

-- `main` of analyze_scalability.py
unfoldable pub main_scalability : FileSystem → List Text → Outcome (List Figures × List Flag)
main_scalability fs [] = exited 1
main_scalability fs (dir ∷ args) =
    if asks_help dir then exited 0 else elim (options args no_paths) [
      | none ↦ exited 1
      | some o ↦
          if fs.is_dir dir
          then elim (fs.listdir dir) [
            | none ↦ exited 1
            | some entries ↦
                report_scalability dir o (figures_each fs (peer_dirs dir (sorted by_key entries)))
          ]
          else exited 1
    ]
