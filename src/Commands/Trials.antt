-- ===== src/Commands/Trials.antt =====
-- `main` of scripts/analyze_convergence.py.
use mathlib.Core.List.{reverse}
use cs4730_collaborative_tex.Base.{
  ℕ, Bool, ◌&&◌, true, List, [], ◌∷◌, none, some, nat_beq, or_else, if◌then◌else◌,
}
use cs4730_collaborative_tex.Text.{Text, codes}
use cs4730_collaborative_tex.Files.{FileSystem, join}
use cs4730_collaborative_tex.Convergence.{Results}
use cs4730_collaborative_tex.Convergence.Trial.{analyze_trials}
use cs4730_collaborative_tex.Commands.{
  Outcome, exited, raised, reported, no_paths, options, asks_help, non_empty,
}

drop_slashes : Text → Text
drop_slashes [] = []
drop_slashes (c ∷ s) = if nat_beq c b'/' then drop_slashes s else c ∷ s

-- `path.rstrip("/")`
unfoldable pub rstrip_slashes : Text → Text
unfolding drop_slashes
rstrip_slashes path = reverse (drop_slashes (reverse path))

to_slash : Text → Text
to_slash [] = []
to_slash (c ∷ s) = if nat_beq c b'/' then c ∷ s else to_slash s

abbrev all_slashes : Text → Bool
all_slashes [] = true
all_slashes (c ∷ s) = nat_beq c b'/' && all_slashes s

-- `os.path.dirname(path)`: what stands in front of the last slash, which stays if nothing but slashes
-- does.
unfoldable pub dirname : Text → Text
unfolding to_slash rstrip_slashes
dirname path =
    let head = reverse (to_slash (reverse path)) in
    if all_slashes head then head else rstrip_slashes head

unfoldable pub main_convergence : (ℕ → Bool) → FileSystem → List Text → Outcome Results
unfolding rstrip_slashes dirname
main_convergence wide_word fs [] = exited 1
main_convergence wide_word fs (dir ∷ args) =
    if asks_help dir then exited 0 else elim (options args no_paths) [
      | none ↦ exited 1
      | some o ↦
          if fs.is_dir dir
          then elim (analyze_trials wide_word fs dir) [
            | none ↦ raised
            | some none ↦ exited 1
            | some (some results) ↦ reported results (non_empty o.csv_out) (
                or_else (non_empty o.chart_out)
                  (join (dirname (rstrip_slashes dir)) (codes "convergence_chart.png")))
          ]
          else exited 1
    ]
