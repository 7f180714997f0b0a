-- ===== src/Convergence/Agreement.antt =====
-- `judge` of scripts/analyze_convergence.py and the `converged` field of `analyze_subdir` of
-- scripts/analyze_results.py agree.
use cs4730_collaborative_tex.Base.{
  ℕ, ◌≤◌, ◌≡◌, refl, ◌↔◌, true, List, [], ◌∷◌, arith, length, All, Option-cases, inl, inr,
}
use cs4730_collaborative_tex.Base.Eq.{text_eq, text_beq_iff, nat_eq}
use cs4730_collaborative_tex.Text.{Text}
use cs4730_collaborative_tex.Dict.{Dict, values, insert}
use cs4730_collaborative_tex.Dict.Laws.{IsDict, insert-IsDict}
use cs4730_collaborative_tex.Files.{FileSystem, join}
use cs4730_collaborative_tex.Latency.{agreed, all_equal, verdict, read_dump}
use cs4730_collaborative_tex.Convergence.{converged, judge}
use cs4730_collaborative_tex.Convergence.Trial.{dump_peer, read_dumps}
use cs4730_collaborative_tex.Convergence.Judging.{AllSame, judge_iff}

all_equal-All : (c : Text) (ds : List Text) → all_equal c ds ≡ true → All (λ d. d ≡ c) ds
unfolding all_equal
all_equal-All c [] h = tt
all_equal-All c (d ∷ ds) h = (ground (arith, text_beq_iff d c), all_equal-All c ds (ground arith))

All-all_equal : (c : Text) (ds : List Text) → All (λ d. d ≡ c) ds → all_equal c ds ≡ true
unfolding all_equal
All-all_equal c [] h = refl
All-all_equal c (d ∷ ds) h = ground (arith, text_beq_iff d c, All-all_equal c ds h.1)

-- `converged` is `"true"` exactly if there are two dumps at least and all are equal.
verdict_iff : (ds : List Text) → (verdict ds ≡ agreed) ↔ ((2 ≤ length ds) × AllSame ds)
unfolding verdict
verdict_iff [] = (λ e. cc, λ h. absurd (omega arith))
verdict_iff (c ∷ []) = (λ e. cc, λ h. absurd (omega arith))
verdict_iff (c ∷ d ∷ ds) = (
  λ e. (omega arith, (all_equal-All c (c ∷ d ∷ ds) (ground arith)).1),
  λ h. ground (arith, All-all_equal c (c ∷ d ∷ ds) (refl, h.1)),
)

length-values : (d : Dict ℕ Text) → length (values d) ≡ length d
length-values [] = refl
length-values (e ∷ d) = omega (arith, length-values d)

read_dumps-IsDict :
    (fs : FileSystem) (tdir : Text) (dumps : Dict ℕ Text) (names : List Text)
    → IsDict dumps
    → IsDict (read_dumps fs tdir dumps names)
unfolding read_dumps
read_dumps-IsDict fs tdir dumps [] h = h
read_dumps-IsDict fs tdir dumps (name ∷ names) h = elim (Option-cases (dump_peer name)) [
  | inl other ↦ rw other (read_dumps-IsDict fs tdir dumps names h)
  | inr (i, named) ↦ rw named (elim (Option-cases (read_dump fs (join tdir name))) [
    | inl blank ↦ rw blank (read_dumps-IsDict fs tdir dumps names h)
    | inr (text, full) ↦
        rw full
          (read_dumps-IsDict fs tdir (insert i text dumps) names (insert-IsDict i text dumps h))
  ])
]

-- On the dumps of one trial's directory the trial passes exactly if `analyze_subdir` would say of
-- them that they converged.
judge-verdict :
    (fs : FileSystem) (tdir : Text) (names : List Text)
    → let dumps = read_dumps fs tdir [] names in
      (judge dumps ≡ converged) ↔ (verdict (values dumps) ≡ agreed)
judge-verdict fs tdir names =
    let dumps = read_dumps fs tdir [] names in
    let once = read_dumps-IsDict fs tdir [] names tt in
    (
      λ e.
          let (two, same) = (judge_iff dumps once).0 e in
          (verdict_iff (values dumps)).1 (omega (arith, length-values dumps), same),
      λ e.
          let (two, same) = (verdict_iff (values dumps)).0 e in
          (judge_iff dumps once).1 (omega (arith, length-values dumps), same),
    )
