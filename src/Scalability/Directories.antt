-- ===== src/Scalability/Directories.antt =====
-- `analyze_scalability` of scripts/analyze_results.py: the directories `Npeer`, in the order of their
-- numbers of peers.
use cs4730_collaborative_tex.Base.{
  ℕ, Bool, List, [], ◌∷◌, Option, none, some, leb, or_else, if◌then◌else◌, ◌>>=◌,
}
use cs4730_collaborative_tex.Text.{Text, codes, strip_prefix}
use cs4730_collaborative_tex.Text.Decimal.{int}
use cs4730_collaborative_tex.Text.Regex.{digits}
use cs4730_collaborative_tex.Files.{FileSystem, join}
use cs4730_collaborative_tex.Sort.{sorted}
use cs4730_collaborative_tex.Convergence.Trial.{at_end}
use cs4730_collaborative_tex.Base.Eq.{pair_eq}
use cs4730_collaborative_tex.Scalability.{Figures, compute_scalability_metrics}

-- `^(\d+)peer$`: the number.
unfoldable pub peer_count : Text → Option ℕ
unfolding digits at_end int
peer_count name = do
  (n, s) ← digits name
  s ← strip_prefix (codes "peer") s
  if at_end s then some (int n) else none

-- `_sort_key(name)`
unfoldable pub sort_key : Text → ℕ
unfolding peer_count
sort_key name = or_else (peer_count name) 0

-- `sorted(names, key=_sort_key)`, which leaves names of the same key in their order.
abbrev pub by_key : Text → Text → Bool
by_key a b = leb (sort_key a) (sort_key b)

-- The pairs of a number of peers and a directory.
unfoldable pub peer_dirs : Text → List Text → List (ℕ × Text)
unfolding peer_count join
peer_dirs dir [] = []
peer_dirs dir (name ∷ names) =
    let rest = peer_dirs dir names in
    elim (peer_count name) [ none ↦ rest | some n ↦ (n, join dir name) ∷ rest ]

-- The loop over the directories: those without metrics are skipped; `none` is an exception.
unfoldable pub analyze_each : FileSystem → List (ℕ × Text) → Option (List Figures)
unfolding compute_scalability_metrics
analyze_each fs [] = some []
analyze_each fs ((n, subdir) ∷ dirs) = do
  found ← compute_scalability_metrics fs subdir n
  rest ← analyze_each fs dirs
  some (elim found [ none ↦ rest | some r ↦ r ∷ rest ])

-- `results if results else None`
unfoldable pub report_of : List Figures → Option (List Figures)
report_of [] = none
report_of (r ∷ rs) = some (r ∷ rs)

-- `analyze_scalability(scalability_dir)`: `some none` is `None`.
unfoldable pub analyze_scalability : FileSystem → Text → Option (Option (List Figures))
unfolding peer_dirs analyze_each sorted sort_key report_of
analyze_scalability fs dir = elim (fs.listdir dir) [
  | none ↦ some none
  | some names ↦ elim (peer_dirs dir (sorted by_key names)) [
    | [] ↦ some none
    | d ∷ dirs ↦ do results ← analyze_each fs (d ∷ dirs); some (report_of results)
  ]
]
