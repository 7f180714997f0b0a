-- ===== src/Commands/Reports.antt =====
-- What the main functions report.
use cs4730_collaborative_tex.Base.{
  ◌<◌, ◌≡◌, ◌↔◌, ◌⊎◌, refl, sym, ap, subst, ◌∙◌, inl, inr, true, false, List, [], ◌∷◌, Option, some,
  arith, nat_beq, Any, Bool-cases, Option-cases, length,
}
use cs4730_collaborative_tex.Text.{Text}
use cs4730_collaborative_tex.Files.{FileSystem, join, text_leb}
use cs4730_collaborative_tex.Sort.{insert_sorted, sorted}
use cs4730_collaborative_tex.Latency.{Summary, analyze_subdir_latency}
use cs4730_collaborative_tex.Commands.{
  OutputPaths, no_paths, options, reported, asks_help, is_skipped, summaries, report_latency,
  main_latency,
}

Any-insert_sorted :
    (P : Text → Type 0) (x : Text) (ys : List Text)
    → Any P (insert_sorted text_leb x ys) ↔ (P x ⊎ Any P ys)
unfolding insert_sorted
Any-insert_sorted P x [] = (λ h. h, λ h. h)
Any-insert_sorted P x (y ∷ ys) = elim (Bool-cases (text_leb x y)) [
  | inl e ↦ rw e (λ h. h, λ h. h)
  | inr e ↦
      let ih = Any-insert_sorted P x ys in
      rw e (
        λ h. elim h [
          | inl here ↦ inr (inl here)
          | inr there ↦ elim (ih.0 there) [ inl first ↦ inl first | inr later ↦ inr (inr later) ]
        ],
        λ h. elim h [
          | inl first ↦ inr (ih.1 (inl first))
          | inr (inl here) ↦ inl here
          | inr (inr later) ↦ inr (ih.1 (inr later))
        ],
      )
]

-- Sorting keeps the entries.
pub Any-sorted : (P : Text → Type 0) (xs : List Text) → Any P (sorted text_leb xs) ↔ Any P xs
unfolding sorted
Any-sorted P [] = (λ h. h, λ h. h)
Any-sorted P (x ∷ xs) =
    let one = Any-insert_sorted P x (sorted text_leb xs) in
    let ih = Any-sorted P xs in
    (
      λ h. elim (one.0 h) [ inl first ↦ inl first | inr later ↦ inr (ih.0 later) ],
      λ h. one.1 (elim h [ inl first ↦ inl first | inr later ↦ inr (ih.1 later) ]),
    )

-- An entry that is shown: a directory, not hidden and not one of the other experiments', with an
-- operation that was sent.
abbrev pub IsShown : FileSystem → Text → Summary → Text → Type 0
IsShown fs dir r entry =
    (is_skipped entry ≡ false)
    × (fs.is_dir (join dir entry) ≡ true)
    × (r ≡ analyze_subdir_latency fs (join dir entry) entry)
    × (nat_beq r.total 0 ≡ false)

IsShown-cases :
    (fs : FileSystem) (dir entry : Text)
    → IsShown fs dir (analyze_subdir_latency fs (join dir entry) entry) entry
      ⊎ ((r : Summary) → IsShown fs dir r entry → ⊥)
IsShown-cases fs dir entry = elim (Bool-cases (is_skipped entry)) [
  | inl skip ↦ inr (λ r h. let shown = h.0 in cc)
  | inr shown ↦ elim (Bool-cases (fs.is_dir (join dir entry))) [
    | inr file ↦ inr (λ r h. let folder = h.1 in cc)
    | inl folder ↦
        elim (Bool-cases (nat_beq (analyze_subdir_latency fs (join dir entry) entry).total 0)) [
          | inl idle ↦ inr (λ r h. let busy = ap (λ x. nat_beq x.total 0) (sym h.2) ∙ h.3 in cc)
          | inr busy ↦ inl (shown, folder, refl, busy)
        ]
  ]
]

summaries-skip :
    (fs : FileSystem) (dir entry : Text) (entries : List Text)
    → ((r : Summary) → IsShown fs dir r entry → ⊥)
    → summaries fs dir (entry ∷ entries) ≡ summaries fs dir entries
unfolding summaries
summaries-skip fs dir entry entries hidden = elim (Bool-cases (is_skipped entry)) [
  | inl skip ↦ ground (arith, skip)
  | inr shown ↦ elim (Bool-cases (fs.is_dir (join dir entry))) [
    | inr file ↦ ground (arith, shown, file)
    | inl folder ↦
        let r = analyze_subdir_latency fs (join dir entry) entry in
        elim (Bool-cases (nat_beq r.total 0)) [
          | inl idle ↦ ground (arith, shown, folder, idle)
          | inr busy ↦ absurd (hidden r (shown, folder, refl, busy))
        ]
  ]
]

summaries-show :
    (fs : FileSystem) (dir entry : Text) (entries : List Text) (r : Summary)
    → IsShown fs dir r entry
    → summaries fs dir (entry ∷ entries) ≡ r ∷ summaries fs dir entries
unfolding summaries
summaries-show fs dir entry entries r (shown, folder, same, busy) =
    ground (arith, shown, folder, same, busy)

summaries_iff :
    (fs : FileSystem) (dir : Text) (entries : List Text) (r : Summary)
    → Any (λ x. x ≡ r) (summaries fs dir entries) ↔ Any (IsShown fs dir r) entries
summaries_iff fs dir [] r = (λ h. unfold summaries in absurd h, λ h. absurd h)
summaries_iff fs dir (entry ∷ entries) r =
    let ih = summaries_iff fs dir entries r in
    elim (IsShown-cases fs dir entry) [
      | inr hidden ↦
          let same = summaries-skip fs dir entry entries hidden in
          (
            λ h. inr (ih.0 (subst (Any (λ x. x ≡ r)) same h)),
            λ h. elim h [
              | inl here ↦ absurd (hidden r here)
              | inr later ↦ subst (Any (λ x. x ≡ r)) (sym same) (ih.1 later)
            ],
          )
      | inl here ↦
          let r0 = analyze_subdir_latency fs (join dir entry) entry in
          let same = summaries-show fs dir entry entries r0 here in
          (
            λ h. elim (subst (Any (λ x. x ≡ r)) same h) [
              | inl one ↦ inl (subst (λ x. IsShown fs dir x entry) one here)
              | inr later ↦ inr (ih.0 later)
            ],
            λ h.
                subst (Any (λ x. x ≡ r)) (sym same)
                  (elim h [ inl one ↦ inl (sym one.2) | inr later ↦ inr (ih.1 later) ]),
          )
    ]

report_latency-reported :
    (dir : Text) (o : OutputPaths) (rs qs : List Summary) (csv : Option Text) (chart : Text)
    → report_latency dir o rs ≡ reported qs csv chart
    → (rs ≡ qs) × (0 < length qs)
unfolding report_latency
report_latency-reported dir o [] qs csv chart e = absurd (cc)
report_latency-reported dir o (r ∷ rs) qs csv chart e =
    let same : r ∷ rs ≡ qs = cc in (same, subst (λ l. 0 < length l) same (omega arith))

-- What `main` of analyze_latency.py reports is not empty, and is the summary of exactly those entries
-- of the results directory that are directories, are not hidden, are not the ones of the other
-- experiments and have an operation that was sent.
pub main_latency-reported :
    (fs : FileSystem) (dir : Text) (args entries : List Text) (rs : List Summary)
    (csv : Option Text) (chart : Text)
    → fs.listdir dir ≡ some entries
    → main_latency fs (dir ∷ args) ≡ reported rs csv chart
    → (0 < length rs) × ((r : Summary) → Any (λ x. x ≡ r) rs ↔ Any (IsShown fs dir r) entries)
unfolding main_latency
main_latency-reported fs dir args entries rs csv chart listed e =
    elim (Bool-cases (asks_help dir)) [
      | inl help ↦ absurd (ground (arith, help))
      | inr ask ↦ elim (Option-cases (options args no_paths)) [
        | inl wrong ↦ absurd (ground (arith, ask, wrong))
        | inr (o, read) ↦ elim (Bool-cases (fs.is_dir dir)) [
          | inr file ↦ absurd (ground (arith, ask, read, file))
          | inl folder ↦
              let ended : report_latency dir o (summaries fs dir (sorted text_leb entries))
                  ≡ reported rs csv chart =
                ground (arith, ask, read, folder, listed) in
              let (same, some_one) =
                report_latency-reported dir o (summaries fs dir (sorted text_leb entries)) rs csv
                  chart ended in
              (
                some_one,
                λ r.
                    let each = summaries_iff fs dir (sorted text_leb entries) r in
                    let kept = Any-sorted (IsShown fs dir r) entries in
                    (
                      λ h. kept.0 (each.0 (subst (Any (λ x. x ≡ r)) (sym same) h)),
                      λ h. subst (Any (λ x. x ≡ r)) same (each.1 (kept.1 h)),
                    ),
              )
        ]
      ]
    ]
