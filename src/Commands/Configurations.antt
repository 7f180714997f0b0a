-- ===== src/Commands/Configurations.antt =====
-- What `main` of analyze_scalability.py reports.
use cs4730_collaborative_tex.Base.{
  ℕ, ◌≤◌, ◌<◌, ◌≡◌, sym, subst, inl, inr, List, [], ◌∷◌, Option, some, arith, length, map, All,
  Bool-cases, Option-cases,
}
use cs4730_collaborative_tex.Text.{Text}
use cs4730_collaborative_tex.Files.{FileSystem}
use cs4730_collaborative_tex.Sort.{sorted}
use cs4730_collaborative_tex.Sort.Laws.{IsSorted}
use cs4730_collaborative_tex.Scalability.{Figures, compute_metrics, metrics, parse_cpu, matched}
use cs4730_collaborative_tex.Logs.Merge.{load_subdir_scalability}
use cs4730_collaborative_tex.Scalability.Bottleneck.{Flag, detect_bottleneck_scalability}
use cs4730_collaborative_tex.Scalability.Directories.{by_key, peer_dirs}
use cs4730_collaborative_tex.Scalability.Report.{
  IsReport, counts, metrics_of-n_peers, found_dirs-IsSorted,
}
use cs4730_collaborative_tex.Commands.{
  OutputPaths, no_paths, options, reported, asks_help, figures_each, report_scalability,
  main_scalability,
}

compute_metrics-n_peers :
    (fs : FileSystem) (subdir : Text) (n : ℕ) (r : Figures)
    → compute_metrics fs subdir n ≡ some r
    → (r.n_peers ≡ n) × (0 < r.delivered)
unfolding compute_metrics metrics
compute_metrics-n_peers fs subdir n r e =
    let log = load_subdir_scalability fs subdir in
    metrics_of-n_peers n (parse_cpu fs subdir) log.sends (matched log.applies log.sends) r e

figures_each-All :
    (low : ℕ) (fs : FileSystem) (dirs : List (ℕ × Text))
    → All (λ n. low ≤ n) (counts dirs)
    → All (λ n. low ≤ n) (map (λ r. r.n_peers) (figures_each fs dirs))
unfolding figures_each
figures_each-All low fs [] h = tt
figures_each-All low fs ((n, subdir) ∷ dirs) h = elim (Option-cases (compute_metrics fs subdir n)) [
  | inl skipped ↦ rw (figures_each, skipped) (figures_each-All low fs dirs h.1)
  | inr (r, found) ↦
      let (peers, _) = compute_metrics-n_peers fs subdir n r found in
      rw (figures_each, found) (omega (arith, peers, h.0), figures_each-All low fs dirs h.1)
]

figures_each-IsReport :
    (fs : FileSystem) (dirs : List (ℕ × Text))
    → IsSorted (counts dirs)
    → IsReport (figures_each fs dirs)
unfolding figures_each
figures_each-IsReport fs [] h = (tt, tt)
figures_each-IsReport fs ((n, subdir) ∷ dirs) h =
    let (ordered, arrived) = figures_each-IsReport fs dirs h.1 in
    elim (Option-cases (compute_metrics fs subdir n)) [
      | inl skipped ↦ rw (figures_each, skipped) (ordered, arrived)
      | inr (r, found) ↦
          let (peers, one) = compute_metrics-n_peers fs subdir n r found in
          let low : All (λ k. r.n_peers ≤ k) (counts dirs) =
            subst (λ i. All (λ k. i ≤ k) (counts dirs)) (sym peers) h.0 in
          rw (figures_each, found)
            ((figures_each-All r.n_peers fs dirs low, ordered), (one, arrived))
    ]

report_scalability-reported :
    (dir : Text) (o : OutputPaths) (rs qs : List Figures) (flags : List Flag) (csv : Option Text)
    (chart : Text)
    → report_scalability dir o rs ≡ reported (qs, flags) csv chart
    → (rs ≡ qs) × (0 < length qs) × (detect_bottleneck_scalability qs ≡ some flags)
unfolding report_scalability
report_scalability-reported dir o [] qs flags csv chart e = absurd (cc)
report_scalability-reported dir o (r ∷ rs) qs flags csv chart e =
    elim (Option-cases (detect_bottleneck_scalability (r ∷ rs))) [
      | inl failed ↦ absurd (ground (arith, failed))
      | inr (fs, found) ↦
          let same : r ∷ rs ≡ qs = ground (arith, found) in
          (
            same,
            subst (λ l. 0 < length l) same (omega arith),
            subst (λ l. detect_bottleneck_scalability l ≡ some flags) same (ground (arith, found)),
          )
    ]

-- What `main` of analyze_scalability.py reports is not empty, ascends in the number of peers, has an
-- operation that arrived in each configuration, and comes with the bottlenecks of these figures.
pub main_scalability-IsReport :
    (fs : FileSystem) (dir : Text) (args : List Text) (rs : List Figures) (flags : List Flag)
    (csv : Option Text) (chart : Text)
    → main_scalability fs (dir ∷ args) ≡ reported (rs, flags) csv chart
    → (0 < length rs) × IsReport rs × (detect_bottleneck_scalability rs ≡ some flags)
unfolding main_scalability
main_scalability-IsReport fs dir args rs flags csv chart e = elim (Bool-cases (asks_help dir)) [
  | inl help ↦ absurd (ground (arith, help))
  | inr ask ↦ elim (Option-cases (options args no_paths)) [
    | inl wrong ↦ absurd (ground (arith, ask, wrong))
    | inr (o, read) ↦ elim (Bool-cases (fs.is_dir dir)) [
      | inr file ↦ absurd (ground (arith, ask, read, file))
      | inl folder ↦ elim (Option-cases (fs.listdir dir)) [
        | inl lost ↦ absurd (ground (arith, ask, read, folder, lost))
        | inr (entries, listed) ↦
            let dirs = peer_dirs dir (sorted by_key entries) in
            let ended : report_scalability dir o (figures_each fs dirs)
                ≡ reported (rs, flags) csv chart =
              ground (arith, ask, read, folder, listed) in
            let (same, some_one, flagged) =
              report_scalability-reported dir o (figures_each fs dirs) rs flags csv chart ended in
            (
              some_one,
              subst IsReport same (figures_each-IsReport fs dirs (found_dirs-IsSorted dir entries)),
              flagged,
            )
      ]
    ]
  ]
]
