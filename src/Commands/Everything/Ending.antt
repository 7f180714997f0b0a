-- ===== src/Commands/Everything/Ending.antt =====
-- What `main` of scripts/analyze_results.py shows.
use cs4730_collaborative_tex.Base.{
  ℕ, Bool, false, ◌≡◌, ◌↔◌, inl, inr, ap, ◌∙◌, subst, List, ◌∷◌, Option, none, some, Any,
  Bool-cases, Option-cases, arith,
}
use cs4730_collaborative_tex.Text.{Text, codes}
use cs4730_collaborative_tex.Files.{FileSystem, text_leb}
use cs4730_collaborative_tex.Sort.{sorted}
use cs4730_collaborative_tex.Latency.{Summary, Verdict}
use cs4730_collaborative_tex.Convergence.Trial.{analyze_convergence_trials}
use cs4730_collaborative_tex.Scalability.{Figures}
use cs4730_collaborative_tex.Scalability.Bottleneck.{detect_bottleneck}
use cs4730_collaborative_tex.Scalability.Directories.{analyze_scalability}
use cs4730_collaborative_tex.Commands.{OutputPaths, no_paths, options, asks_help}
use cs4730_collaborative_tex.Commands.Reports.{Any-sorted}
use cs4730_collaborative_tex.Commands.Everything.{
  Analyses, nothing_found, found_nothing, Shown, shows, add_entries, show_scalability, main_results,
}
use cs4730_collaborative_tex.Commands.Everything.Entries.{HasResult, HasName, Holds}
use cs4730_collaborative_tex.Commands.Everything.Found.{add_entries-results}
use cs4730_collaborative_tex.Commands.Everything.Named.{add_entries-Holds}

shows_inj : {x y : Shown} → shows x ≡ shows y → x ≡ y
shows_inj e = cc

show_scalability-analyses :
    (dir : Text) (o : OutputPaths) (a : Analyses) (figures : Option (List Figures)) (shown : Shown)
    → show_scalability dir o a figures ≡ shows shown
    → a ≡ shown.analyses
unfolding show_scalability
show_scalability-analyses dir o a none shown e = ap (λ x. x.analyses) (shows_inj e)
show_scalability-analyses dir o a (some figures) shown e =
    elim (Option-cases (detect_bottleneck figures)) [
      | inl failed ↦ absurd (ground (arith, failed, e))
      | inr (flags, ran) ↦
          let ended = rw (show_scalability, ran) at e in ap (λ x. x.analyses) (shows_inj ended)
    ]

-- A report comes from the analyses of all entries.
main_results-analyses :
    (wide_word : ℕ → Bool) (fs : FileSystem) (dir : Text) (args entries : List Text) (shown : Shown)
    → fs.listdir dir ≡ some entries
    → main_results wide_word fs (dir ∷ args) ≡ shows shown
    → (add_entries wide_word fs dir nothing_found (sorted text_leb entries) ≡ some shown.analyses)
      × (found_nothing shown.analyses ≡ false)
unfolding main_results
main_results-analyses wide_word fs dir args entries shown listed e =
    elim (Bool-cases (asks_help dir)) [
      | inl help ↦ absurd (ground (arith, help, e))
      | inr ask ↦ elim (Option-cases (options args no_paths)) [
        | inl wrong ↦ absurd (ground (arith, ask, wrong, e))
        | inr (o, read) ↦ elim (Bool-cases (fs.is_dir dir)) [
          | inr file ↦ absurd (ground (arith, ask, read, file, e))
          | inl folder ↦
              let gather = add_entries wide_word fs dir nothing_found (sorted text_leb entries) in
              elim (Option-cases gather) [
                | inl failed ↦ absurd (ground (arith, ask, read, folder, listed, failed, e))
                | inr (a, ran) ↦ elim (Bool-cases (found_nothing a)) [
                  | inl nothing ↦
                      absurd (ground (arith, ask, read, folder, listed, ran, nothing, e))
                  | inr found ↦
                      let ended : show_scalability dir o a a.scale_results ≡ shows shown =
                        ground (arith, ask, read, folder, listed, ran, found, e) in
                      let same = show_scalability-analyses dir o a a.scale_results shown ended in
                      (ran ∙ ap some same, subst (λ x. found_nothing x ≡ false) same found)
                ]
              ]
        ]
      ]
    ]

Holds-sorted :
    {A : Type 0} (fs : FileSystem) (dir name : Text) (analyze : Text → Option A)
    (entries : List Text) (before after : A)
    → Holds fs dir name analyze (sorted text_leb entries) before after
    → Holds fs dir name analyze entries before after
Holds-sorted fs dir name analyze entries before after h =
    let same = Any-sorted (HasName fs dir name) entries in
    elim h [
      | inl (there, ran) ↦ inl (same.0 there, ran)
      | inr (nowhere, kept) ↦ inr (λ has. nowhere (same.1 has), kept)
    ]

-- What `main` of analyze_results.py shows is not empty. Its results are those of exactly the entries
-- that are directories, are not hidden, are not named `convergence` or `scalability` and have an
-- operation that was sent or a verdict on their dumps. The directories of these two names, and
-- nothing else, give the analyses of the trials and of the numbers of peers.
pub main_results_shows :
    (wide_word : ℕ → Bool) (fs : FileSystem) (dir : Text) (args entries : List Text) (shown : Shown)
    → fs.listdir dir ≡ some entries
    → main_results wide_word fs (dir ∷ args) ≡ shows shown
    → let a = shown.analyses in
      (found_nothing a ≡ false)
      × ((r : Summary × Verdict) → Any (λ x. x ≡ r) a.results ↔ Any (HasResult fs dir r) entries)
      × Holds fs dir
          (codes "convergence")
          (analyze_convergence_trials wide_word fs)
          entries
          none
          a.conv_results
      × Holds fs dir (codes "scalability") (analyze_scalability fs) entries none a.scale_results
unfolding main_results
main_results_shows wide_word fs dir args entries shown listed e =
    let (gathered, found) = main_results-analyses wide_word fs dir args entries shown listed e in
    let list = sorted text_leb entries in
    let (conv, scal) =
      add_entries-Holds wide_word fs dir nothing_found shown.analyses list gathered in
    (
      found,
      λ r.
          let each =
            add_entries-results wide_word fs dir nothing_found shown.analyses list r gathered in
          let kept = Any-sorted (HasResult fs dir r) entries in
          (
            λ h. elim (each.0 h) [ inl before ↦ absurd before | inr new ↦ kept.0 new ],
            λ h. each.1 (inr (kept.1 h)),
          ),
      Holds-sorted fs dir (codes "convergence") (analyze_convergence_trials wide_word fs) entries
          none shown.analyses.conv_results conv,
      Holds-sorted fs dir (codes "scalability") (analyze_scalability fs) entries none
          shown.analyses.scale_results scal,
    )
