-- ===== src/Commands/Everything/Found.antt =====
-- What `main` of scripts/analyze_results.py finds in the entries of a directory.
use cs4730_collaborative_tex.Base.{
  ℕ, Bool, true, false, ◌≡◌, ◌↔◌, ◌⊎◌, refl, sym, ap, subst, ◌∙◌, inl, inr, List, [], ◌∷◌, ◌++◌,
  Option, some, Any, Bool-cases, Option-cases, arith,
}
use cs4730_collaborative_tex.Base.Eq.{text_eq, ◌==◌}
use cs4730_collaborative_tex.Text.{Text, codes}
use cs4730_collaborative_tex.Files.{FileSystem, join}
use cs4730_collaborative_tex.Latency.{Summary, Verdict, analyze_subdir}
use cs4730_collaborative_tex.Convergence.{Totals}
use cs4730_collaborative_tex.Convergence.Trial.{analyze_convergence_trials}
use cs4730_collaborative_tex.Scalability.{Figures}
use cs4730_collaborative_tex.Scalability.Directories.{analyze_scalability}
use cs4730_collaborative_tex.Commands.Everything.Entries.{is_hidden, HasResult, HasName}
use cs4730_collaborative_tex.Commands.Everything.{
  Analyses, is_idle, add_result, add_entry, add_entries,
}

pub some_inj : {A : Type 0} {x y : A} → some x ≡ some y → x ≡ y
some_inj e = cc

module _ (wide_word : ℕ → Bool) (fs : FileSystem) (dir : Text) where
  -- What one round does.
  pub data Round (a : Analyses) (entry : Text) (a' : Analyses) : Type 0 where
    hidden : is_hidden fs dir entry ≡ true → a ≡ a' → Round a entry a'
    trials :
        (found : Option Totals)
        → HasName fs dir (codes "convergence") entry
        → analyze_convergence_trials wide_word fs (join dir entry) ≡ some found
        → record a { conv_results = found } ≡ a'
        → Round a entry a'
    figures :
        (found : Option (List Figures))
        → HasName fs dir (codes "scalability") entry
        → (entry == codes "convergence") ≡ false
        → analyze_scalability fs (join dir entry) ≡ some found
        → record a { scale_results = found } ≡ a'
        → Round a entry a'
    latencies :
        (r : Summary × Verdict)
        → is_hidden fs dir entry ≡ false
        → (entry == codes "convergence") ≡ false
        → (entry == codes "scalability") ≡ false
        → analyze_subdir fs (join dir entry) entry ≡ some r
        → add_result r a ≡ a'
        → Round a entry a'

  pub Round-cases :
      (a a' : Analyses) (entry : Text)
      → add_entry wide_word fs dir a entry ≡ some a'
      → Round a entry a'
  unfolding add_entry
  Round-cases a a' entry e = elim (Bool-cases (is_hidden fs dir entry)) [
    | inl hide ↦ hidden hide (ground (arith, hide, e))
    | inr show ↦ elim (Bool-cases (entry == codes "convergence")) [
      | inl conv ↦ elim (Option-cases (analyze_convergence_trials wide_word fs (join dir entry))) [
        | inl failed ↦ absurd (ground (arith, show, conv, failed, e))
        | inr (found, ran) ↦ trials found (show, conv) ran (ground (arith, show, conv, ran, e))
      ]
      | inr other ↦ elim (Bool-cases (entry == codes "scalability")) [
        | inl scal ↦ elim (Option-cases (analyze_scalability fs (join dir entry))) [
          | inl failed ↦ absurd (ground (arith, show, other, scal, failed, e))
          | inr (found, ran) ↦
              figures found (show, scal) other ran (ground (arith, show, other, scal, ran, e))
        ]
        | inr plain ↦ elim (Option-cases (analyze_subdir fs (join dir entry) entry)) [
          | inl failed ↦ absurd (ground (arith, show, other, plain, failed, e))
          | inr (r, ran) ↦
              latencies r show other plain ran (ground (arith, show, other, plain, ran, e))
        ]
      ]
    ]
  ]

  Any-snoc :
      (r x : Summary × Verdict) (rs : List (Summary × Verdict))
      → Any (λ y. y ≡ r) (rs ++ x ∷ []) ↔ (Any (λ y. y ≡ r) rs ⊎ (x ≡ r))
  Any-snoc r x [] = (
    λ h. elim h [ inl same ↦ inr same | inr no_more ↦ absurd no_more ],
    λ h. elim h [ inl none_there ↦ absurd none_there | inr same ↦ inl same ],
  )
  Any-snoc r x (y ∷ rs) =
      let ih = Any-snoc r x rs in
      (
        λ h. elim h [
          | inl here ↦ inl (inl here)
          | inr there ↦ elim (ih.0 there) [ inl old ↦ inl (inr old) | inr new ↦ inr new ]
        ],
        λ h. elim h [
          | inl (inl here) ↦ inl here
          | inl (inr there) ↦ inr (ih.1 (inl there))
          | inr new ↦ inr (ih.1 (inr new))
        ],
      )

  kept :
      {rs rs' : List (Summary × Verdict)} {Q : Type 0} (r : Summary × Verdict)
      → rs ≡ rs'
      → (Q → ⊥)
      → Any (λ x. x ≡ r) rs' ↔ (Any (λ x. x ≡ r) rs ⊎ Q)
  kept r same none_here = (
    λ h. inl (subst (Any (λ x. x ≡ r)) (sym same) h),
    λ h. elim h [ inl old ↦ subst (Any (λ x. x ≡ r)) same old | inr new ↦ absurd (none_here new) ],
  )

  snoc_results :
      (a a' : Analyses) (x : Summary × Verdict)
      → is_idle x ≡ false
      → add_result x a ≡ a'
      → a.results ++ x ∷ [] ≡ a'.results
  snoc_results a a' x busy same = ap (λ y. y.results) (add_busy ∙ same)
    where
      add_busy : record a { results = a.results ++ x ∷ [] } ≡ add_result x a
      add_busy = rw busy refl

  idle_results :
      (a a' : Analyses) (x : Summary × Verdict)
      → is_idle x ≡ true
      → add_result x a ≡ a'
      → a.results ≡ a'.results
  idle_results a a' x idle same = ap (λ y. y.results) (add_idle ∙ same)
    where
      add_idle : a ≡ add_result x a
      add_idle = rw idle refl

  -- A result after a round is one from before or the entry's.
  Round-results :
      (a a' : Analyses) (entry : Text) (r : Summary × Verdict)
      → Round a entry a'
      → Any (λ x. x ≡ r) a'.results ↔ (Any (λ x. x ≡ r) a.results ⊎ HasResult fs dir r entry)
  Round-results a a' entry r (hidden hide same) =
      kept r (ap (λ x. x.results) same) (λ h. let show = h.0 in cc)
  Round-results a a' entry r (trials found conv ran same) =
      kept r (ap (λ x. x.results) same) (λ h. let other = h.1 in let is = conv.1 in cc)
  Round-results a a' entry r (figures found scal other ran same) =
      kept r (ap (λ x. x.results) same) (λ h. let plain = h.2 in let is = scal.1 in cc)
  Round-results a a' entry r (latencies x show other plain ran same) =
      elim (Bool-cases (is_idle x)) [
        | inl idle ↦
            kept r (idle_results a a' x idle same)
              (λ h. let again = ap is_idle (some_inj (sym ran ∙ h.3)) in let busy = h.4 in cc)
        | inr busy ↦
            let each = Any-snoc r x a.results in
            let listed = snoc_results a a' x busy same in
            (
              λ h. elim (each.0 (subst (Any (λ y. y ≡ r)) (sym listed) h)) [
                | inl old ↦ inl old
                | inr new ↦
                    inr (subst (λ y. HasResult fs dir y entry) new (show, other, plain, ran, busy))
              ],
              λ h. subst (Any (λ y. y ≡ r)) listed (
                  each.1
                    (elim h [ inl old ↦ inl old | inr new ↦ inr (some_inj (sym ran ∙ new.3)) ])),
            )
      ]

  pub add_entries-results :
      (a a' : Analyses) (entries : List Text) (r : Summary × Verdict)
      → add_entries wide_word fs dir a entries ≡ some a'
      → Any (λ x. x ≡ r) a'.results
        ↔ (Any (λ x. x ≡ r) a.results ⊎ Any (HasResult fs dir r) entries)
  unfolding add_entries
  add_entries-results a a' [] r e = kept r (ap (λ x. x.results) (some_inj e)) (λ h. h)
  add_entries-results a a' (entry ∷ entries) r e =
      elim (Option-cases (add_entry wide_word fs dir a entry)) [
        | inl failed ↦ absurd (ground (arith, failed, e))
        | inr (b, ran) ↦
            let rest : add_entries wide_word fs dir b entries ≡ some a' = ground (arith, ran, e) in
            let ih = add_entries-results b a' entries r rest in
            let one = Round-results a b entry r (Round-cases a b entry ran) in
            (
              λ h. elim (ih.0 h) [
                | inr later ↦ inr (inr later)
                | inl before ↦ elim (one.0 before) [ inl old ↦ inl old | inr new ↦ inr (inl new) ]
              ],
              λ h. elim h [
                | inl old ↦ ih.1 (inl (one.1 (inl old)))
                | inr (inl new) ↦ ih.1 (inl (one.1 (inr new)))
                | inr (inr later) ↦ ih.1 (inr later)
              ],
            )
      ]
