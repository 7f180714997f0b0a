-- ===== src/Commands/Everything/Named.antt =====
-- What `main` of scripts/analyze_results.py finds in the entries of the other experiments.
use cs4730_collaborative_tex.Base.{
  ℕ, Bool, ◌≡◌, refl, sym, ap, ◌∙◌, inl, inr, List, [], ◌∷◌, some, Bool-cases, Option-cases, arith,
}
use cs4730_collaborative_tex.Base.Eq.{text_eq}
use cs4730_collaborative_tex.Text.{Text, codes}
use cs4730_collaborative_tex.Files.{FileSystem}
use cs4730_collaborative_tex.Latency.{Summary, Verdict}
use cs4730_collaborative_tex.Convergence.Trial.{analyze_convergence_trials}
use cs4730_collaborative_tex.Scalability.Directories.{analyze_scalability}
use cs4730_collaborative_tex.Commands.Everything.Entries.{
  Holds, Holds-here, Holds-kept, Holds-then, two_names,
}
use cs4730_collaborative_tex.Commands.Everything.Found.{
  some_inj, Round, hidden, trials, figures, latencies, Round-cases,
}
use cs4730_collaborative_tex.Commands.Everything.{
  Analyses, is_idle, add_result, add_entry, add_entries,
}

-- A result is added to the results only.
add_result_rest :
    (x : Summary × Verdict) (a : Analyses)
    → ((add_result x a).conv_results ≡ a.conv_results)
      × ((add_result x a).scale_results ≡ a.scale_results)
add_result_rest x a = elim (Bool-cases (is_idle x)) [
  | inl idle ↦ rw idle (refl, refl)
  | inr busy ↦ rw busy (refl, refl)
]

module _ (wide_word : ℕ → Bool) (fs : FileSystem) (dir : Text) where
  Round-convergence :
      (a a' : Analyses) (entry : Text)
      → Round wide_word fs dir a entry a'
      → Holds fs dir
          (codes "convergence")
          (analyze_convergence_trials wide_word fs)
          (entry ∷ [])
          a.conv_results
          a'.conv_results
  Round-convergence a a' entry (hidden hide same) =
      Holds-kept fs dir (codes "convergence") (analyze_convergence_trials wide_word fs) entry
        a.conv_results a'.conv_results (λ h. let show = h.0 in cc) (ap (λ x. x.conv_results) same)
  Round-convergence a a' entry (trials found conv ran same) =
      Holds-here fs dir (codes "convergence") (analyze_convergence_trials wide_word fs) entry
        a.conv_results a'.conv_results conv (ran ∙ ap (λ x. some x.conv_results) same)
  Round-convergence a a' entry (figures found scal other ran same) =
      Holds-kept fs dir (codes "convergence") (analyze_convergence_trials wide_word fs) entry
        a.conv_results a'.conv_results (λ h. let is = h.1 in cc) (ap (λ x. x.conv_results) same)
  Round-convergence a a' entry (latencies x show other plain ran same) =
      Holds-kept fs dir (codes "convergence") (analyze_convergence_trials wide_word fs) entry
        a.conv_results a'.conv_results (λ h. let is = h.1 in cc)
        (sym (add_result_rest x a).0 ∙ ap (λ x. x.conv_results) same)

  Round-scalability :
      (a a' : Analyses) (entry : Text)
      → Round wide_word fs dir a entry a'
      → Holds fs dir
          (codes "scalability")
          (analyze_scalability fs)
          (entry ∷ [])
          a.scale_results
          a'.scale_results
  Round-scalability a a' entry (hidden hide same) =
      Holds-kept fs dir (codes "scalability") (analyze_scalability fs) entry a.scale_results
        a'.scale_results (λ h. let show = h.0 in cc) (ap (λ x. x.scale_results) same)
  Round-scalability a a' entry (trials found conv ran same) =
      Holds-kept fs dir (codes "scalability") (analyze_scalability fs) entry a.scale_results
        a'.scale_results (λ h. two_names entry conv.1 h.1) (ap (λ x. x.scale_results) same)
  Round-scalability a a' entry (figures found scal other ran same) =
      Holds-here fs dir (codes "scalability") (analyze_scalability fs) entry a.scale_results
        a'.scale_results scal (ran ∙ ap (λ x. some x.scale_results) same)
  Round-scalability a a' entry (latencies x show other plain ran same) =
      Holds-kept fs dir (codes "scalability") (analyze_scalability fs) entry a.scale_results
        a'.scale_results (λ h. let is = h.1 in cc)
        (sym (add_result_rest x a).1 ∙ ap (λ x. x.scale_results) same)

  pub add_entries-Holds :
      (a a' : Analyses) (entries : List Text)
      → add_entries wide_word fs dir a entries ≡ some a'
      → Holds fs dir
          (codes "convergence")
          (analyze_convergence_trials wide_word fs)
          entries
          a.conv_results
          a'.conv_results
        × Holds fs dir
            (codes "scalability")
            (analyze_scalability fs)
            entries
            a.scale_results
            a'.scale_results
  unfolding add_entries
  add_entries-Holds a a' [] e = (
    inr (λ h. h, ap (λ x. x.conv_results) (some_inj e)),
    inr (λ h. h, ap (λ x. x.scale_results) (some_inj e)),
  )
  add_entries-Holds a a' (entry ∷ entries) e =
      elim (Option-cases (add_entry wide_word fs dir a entry)) [
        | inl failed ↦ absurd (ground (arith, failed, e))
        | inr (b, ran) ↦
            let rest : add_entries wide_word fs dir b entries ≡ some a' = ground (arith, ran, e) in
            let ih = add_entries-Holds b a' entries rest in
            let round = Round-cases wide_word fs dir a b entry ran in
            (
              Holds-then fs dir (codes "convergence") (analyze_convergence_trials wide_word fs)
                  entry entries a.conv_results b.conv_results a'.conv_results
                  (Round-convergence a b entry round) ih.0,
              Holds-then fs dir (codes "scalability") (analyze_scalability fs) entry entries
                  a.scale_results b.scale_results a'.scale_results
                  (Round-scalability a b entry round) ih.1,
            )
      ]
