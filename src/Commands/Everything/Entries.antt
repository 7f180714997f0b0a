-- ===== src/Commands/Everything/Entries.antt =====
-- How the entries of a directory bear on the variables of `main` of scripts/analyze_results.py.
use cs4730_collaborative_tex.Base.{
  Bool, ◌||◌, not, true, false, ◌≡◌, ◌⊎◌, sym, ap, subst, ◌∙◌, inl, inr, List, [], ◌∷◌, Option,
  some, Any,
}
use cs4730_collaborative_tex.Base.Eq.{text_eq, ◌==◌, text_beq_iff}
use cs4730_collaborative_tex.Text.{Text, codes, starts_with}
use cs4730_collaborative_tex.Files.{FileSystem, join}
use cs4730_collaborative_tex.Latency.{Summary, Verdict, analyze_subdir}
use cs4730_collaborative_tex.Commands.Everything.{is_idle}

abbrev pub is_hidden : FileSystem → Text → Text → Bool
is_hidden fs dir entry = starts_with entry (codes ".") || not (fs.is_dir (join dir entry))

-- The entry of a result: a directory that is not hidden and has no other analysis, whose result says
-- something.
abbrev pub HasResult : FileSystem → Text → Summary × Verdict → Text → Type 0
HasResult fs dir r entry =
    (is_hidden fs dir entry ≡ false)
    × ((entry == codes "convergence") ≡ false)
    × ((entry == codes "scalability") ≡ false)
    × (analyze_subdir fs (join dir entry) entry ≡ some r)
    × (is_idle r ≡ false)

-- The entry of an analysis that has a directory of its own.
abbrev pub HasName : FileSystem → Text → Text → Text → Type 0
HasName fs dir name entry = (is_hidden fs dir entry ≡ false) × ((entry == name) ≡ true)

-- A variable of the loop: it holds what the analysis of the entry of a name returned, if the entry is
-- there, and else what it held before.
abbrev pub Holds {ℓ} :
    {A : Type ℓ} → FileSystem → Text → Text → (Text → Option A) → List Text → A → A → Type ℓ
Holds fs dir name analyze entries before after =
    (Any (HasName fs dir name) entries × (analyze (join dir name) ≡ some after))
    ⊎ ((Any (HasName fs dir name) entries → ⊥) × (before ≡ after))

module _ {A : Type 0} (fs : FileSystem) (dir name : Text) (analyze : Text → Option A) where
  pub Holds-here :
      (entry : Text) (before after : A)
      → HasName fs dir name entry
      → analyze (join dir entry) ≡ some after
      → Holds fs dir name analyze (entry ∷ []) before after
  Holds-here entry before after has ran =
      let same = (text_beq_iff entry name).0 has.1 in
      inl (inl has, subst (λ t. analyze (join dir t) ≡ some after) same ran)

  pub Holds-kept :
      (entry : Text) (before after : A)
      → (HasName fs dir name entry → ⊥)
      → before ≡ after
      → Holds fs dir name analyze (entry ∷ []) before after
  Holds-kept entry before after other same =
      inr (λ h. elim h [ inl has ↦ other has | inr no_more ↦ no_more ], same)

  pub Holds-then :
      (entry : Text) (entries : List Text) (before between after : A)
      → Holds fs dir name analyze (entry ∷ []) before between
      → Holds fs dir name analyze entries between after
      → Holds fs dir name analyze (entry ∷ entries) before after
  Holds-then entry entries before between after first (inl (there, ran)) = inl (inr there, ran)
  Holds-then entry entries before between after (inl (here, ran)) (inr (nowhere, same)) =
      inl (elim here [ inl has ↦ inl has | inr no_more ↦ absurd no_more ], ran ∙ ap some same)
  Holds-then entry entries before between after (inr (not_here, first)) (inr (nowhere, same)) =
      inr (λ h. elim h [ inl has ↦ not_here (inl has) | inr there ↦ nowhere there ], first ∙ same)

pub two_names :
    (entry : Text)
    → (entry == codes "convergence") ≡ true
    → (entry == codes "scalability") ≡ true
    → ⊥
two_names entry conv scal =
    let one = (text_beq_iff entry (codes "convergence")).0 conv in
    let other = (text_beq_iff entry (codes "scalability")).0 scal in differ (sym one ∙ other)
  where
    differ : codes "convergence" ≡ codes "scalability" → ⊥
    differ e = let same = (text_beq_iff (codes "convergence") (codes "scalability")).1 e in cc
