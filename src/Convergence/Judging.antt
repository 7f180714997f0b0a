-- ===== src/Convergence/Judging.antt =====
-- When a trial passes.
use native.Mathlib.Decide.{ℕ_discrete}
use cs4730_collaborative_tex.Base.{
  ℕ, ◌≤◌, ◌≡◌, ◌≢◌, refl, sym, ap, subst, ◌∙◌, ◌↔◌, inl, inr, List, [], ◌∷◌, some, arith, ltb,
  length, All, Any, if◌then◌else◌, Bool-cases,
}
use cs4730_collaborative_tex.Base.Eq.{nat_eq, text_eq, text_beq_iff}
use cs4730_collaborative_tex.Base.{nat_beq_iff}
use cs4730_collaborative_tex.Text.{Text}
use cs4730_collaborative_tex.Dict.{Dict, lookup, values}
use cs4730_collaborative_tex.Dict.Laws.{IsDict}
use cs4730_collaborative_tex.Convergence.{min_entry, differing, converged, judge_diffs, judge}

-- All the texts are one text.
abbrev pub AllSame : List Text → Type 0
AllSame [] = Unit
AllSame (c ∷ cs) = All (λ d. d ≡ c) cs

-- The entry stands in the dict.
abbrev In : ℕ × Text → Dict ℕ Text → Type 0
In e d = Any (λ f. f ≡ e) d

min_entry-In : (e : ℕ × Text) (d : Dict ℕ Text) → In (min_entry e d) (e ∷ d)
unfolding min_entry
min_entry-In e [] = inl refl
min_entry-In e (f ∷ d) = elim (Bool-cases (ltb f.0 e.0)) [
  | inl less ↦
      let same = ap (λ b. min_entry (if b then f else e) d) less in
      subst (λ m. In m (e ∷ f ∷ d)) (sym same) (inr (min_entry-In f d))
  | inr other ↦
      let same = ap (λ b. min_entry (if b then f else e) d) other in
      subst (λ m. In m (e ∷ f ∷ d)) (sym same) (skip_second (min_entry e d) (min_entry-In e d))
]
  where
    skip_second : (m : ℕ × Text) → In m (e ∷ d) → In m (e ∷ f ∷ d)
    skip_second m (inl here) = inl here
    skip_second m (inr there) = inr (inr there)

lookup-In : (e : ℕ × Text) (d : Dict ℕ Text) → IsDict d → In e d → lookup e.0 d ≡ some e.1
unfolding lookup
lookup-In e [] h m = absurd m
lookup-In (i, c) ((j, b) ∷ d) h (inl e) =
    let same_key : j ≡ i = ap (λ p. p.0) e in
    let same_text : b ≡ c = ap (λ p. p.1) e in ground (arith, nat_beq_iff j i)
lookup-In (i, c) ((j, b) ∷ d) h (inr m) =
    let found = lookup-In (i, c) d h.1 m in ground (arith, nat_beq_iff j i)

-- Entries with one key hold one text.
In-same : (e f : ℕ × Text) (d : Dict ℕ Text) → IsDict d → In e d → In f d → e.0 ≡ f.0 → e.1 ≡ f.1
In-same e f d h he hf same =
    let found = lookup-In e d h he in
    let found' = lookup-In f d h hf in
    let moved : lookup f.0 d ≡ some e.1 = subst (λ i. lookup i d ≡ some e.1) same found in cc

All-In : (P : ℕ × Text → Type 0) (d : Dict ℕ Text) → ((e : ℕ × Text) → In e d → P e) → All P d
All-In P [] h = tt
All-In P (e ∷ d) h = (h e (inl refl), All-In P d (λ f m. h f (inr m)))

In-All : (P : ℕ × Text → Type 0) (d : Dict ℕ Text) → All P d → (e : ℕ × Text) → In e d → P e
In-All P [] h e m = absurd m
In-All P (f ∷ d) h e (inl eq) = subst P eq h.0
In-All P (f ∷ d) h e (inr m) = In-All P d h.1 e m

differing-eq-nil :
    (ref : Text) (first : ℕ) (d : Dict ℕ Text)
    → differing ref first d ≡ []
    → All (λ e. e.0 ≢ first → e.1 ≡ ref) d
unfolding differing
differing-eq-nil ref first [] h = tt
differing-eq-nil ref first ((i, c) ∷ d) h = (
  λ ne. ground (arith, text_beq_iff c ref, nat_beq_iff i first),
  differing-eq-nil ref first d (ground arith),
)

differing_same :
    (ref : Text) (first : ℕ) (d : Dict ℕ Text) → All (λ e. e.1 ≡ ref) d → differing ref first d ≡ []
unfolding differing
differing_same ref first [] h = refl
differing_same ref first ((i, c) ∷ d) h =
    ground (arith, text_beq_iff c ref, differing_same ref first d h.1)

judge_diffs-converged : (first : ℕ) (is : List ℕ) → judge_diffs first is ≡ converged → is ≡ []
unfolding judge_diffs
judge_diffs-converged first [] h = refl
judge_diffs-converged first (i ∷ is) h = cc

-- Every entry holds the reference's text.
abbrev HoldsText : Text → Dict ℕ Text → Type 0
HoldsText ref d = All (λ e. e.1 ≡ ref) d

HoldsText-AllSame : (ref : Text) (d : Dict ℕ Text) → HoldsText ref d → AllSame (values d)
HoldsText-AllSame ref [] h = tt
HoldsText-AllSame ref ((i, c) ∷ d) h = go d h.1
  where
    go : (l : Dict ℕ Text) → HoldsText ref l → All (λ x. x ≡ c) (values l)
    go [] k = tt
    go (e ∷ l) k = (k.0 ∙ sym h.0, go l k.1)

AllSame-HoldsText :
    (e f : ℕ × Text) (d : Dict ℕ Text)
    → AllSame (values (e ∷ d))
    → In f (e ∷ d)
    → HoldsText f.1 (e ∷ d)
AllSame-HoldsText e f d h m = All-In (λ g. g.1 ≡ f.1) (e ∷ d) λ g mg. same g mg ∙ sym (same f m)
  where
    each : (l : Dict ℕ Text) → All (λ x. x ≡ e.1) (values l) → (g : ℕ × Text) → In g l → g.1 ≡ e.1
    each [] k g mg = absurd mg
    each (a ∷ l) k g (inl eq) = sym (ap (λ p. p.1) eq) ∙ k.0
    each (a ∷ l) k g (inr mg) = each l k.1 g mg

    same : (g : ℕ × Text) → In g (e ∷ d) → g.1 ≡ e.1
    same g (inl eq) = sym (ap (λ p. p.1) eq)
    same g (inr mg) = each d h g mg

judge_sound :
    (d : Dict ℕ Text) → IsDict d → judge d ≡ converged → (2 ≤ length d) × AllSame (values d)
unfolding judge
judge_sound [] h e = cc
judge_sound (a ∷ []) h e = cc
judge_sound (a ∷ b ∷ d) h e =
    let all = a ∷ b ∷ d in
    let first = min_entry a (b ∷ d) in
    let others = differing-eq-nil first.1 first.0 all (judge_diffs-converged first.0 _ e) in
    (
      omega arith,
      HoldsText-AllSame first.1 all (
          All-In (λ g. g.1 ≡ first.1) all
            λ g mg. elim (ℕ_discrete g.0 first.0) [
              | yes same ↦ In-same g first all h mg (min_entry-In a (b ∷ d)) same
              | no differs ↦ In-All (λ x. x.0 ≢ first.0 → x.1 ≡ first.1) all others g mg differs
            ]),
    )

judge_complete : (d : Dict ℕ Text) → 2 ≤ length d → AllSame (values d) → judge d ≡ converged
unfolding judge judge_diffs
judge_complete [] h s = absurd (omega arith)
judge_complete (a ∷ []) h s = absurd (omega arith)
judge_complete (a ∷ b ∷ d) h s =
    let first = min_entry a (b ∷ d) in
    ap (judge_diffs first.0) (
      differing_same first.1 first.0 (a ∷ b ∷ d)
        (AllSame-HoldsText a first (b ∷ d) s (min_entry-In a (b ∷ d))))

pub judge_iff :
    (d : Dict ℕ Text) → IsDict d → (judge d ≡ converged) ↔ ((2 ≤ length d) × AllSame (values d))
judge_iff d h = (judge_sound d h, λ p. judge_complete d p.0 p.1)
