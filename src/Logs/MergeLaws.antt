-- ===== src/Logs/MergeLaws.antt =====
-- Which timestamps the merged logs of an experiment hold.
use cs4730_collaborative_tex.Base.{
  ℕ, ◌≡◌, refl, sym, ◌∙◌, Bool, true, false, List, [], ◌∷◌, Option, none, some, arith, All, Any,
  ◌⊎◌, inl, inr, Bool-cases,
}
use cs4730_collaborative_tex.Base.Eq.{pair_eq, pair_beq_iff}
use cs4730_collaborative_tex.Dict.{Dict, lookup}
use cs4730_collaborative_tex.Dict.Laws.{IsDict}
use cs4730_collaborative_tex.Logs.{Key}
use cs4730_collaborative_tex.Logs.Parse.{Log, empty, keep_best}
use cs4730_collaborative_tex.Logs.ParseLaws.{best, lookup-keep_best, IsLog}
use cs4730_collaborative_tex.Logs.Merge.{merge_best, add_log, add_logs}

-- The better of two times, either of which may be missing.
abbrev choose : (ℕ → ℕ → Bool) → Option ℕ → Option ℕ → Option ℕ
choose better o none = o
choose better o (some ts) = some (best better o ts)

lookup-merge_best :
    (better : ℕ → ℕ → Bool) (k : Key) (d new : Dict Key ℕ)
    → IsDict new
    → lookup k (merge_best better d new) ≡ choose better (lookup k d) (lookup k new)
unfolding merge_best lookup
lookup-merge_best better k d [] h = refl
lookup-merge_best better k d ((j, ts) ∷ new) h = ground (
  arith,
  lookup-merge_best better k (keep_best better j ts d) new h.1,
  lookup-keep_best better k j ts d,
  pair_beq_iff j k,
)

-- `o` is as good as a time that may be missing.
abbrev pub Bounds : (ℕ → ℕ → Type 0) → Option ℕ → Option ℕ → Type 0
Bounds rel o none = Unit
Bounds rel none (some _) = ⊥
Bounds rel (some t) (some t') = rel t t'

-- `o` is a best time of an operation among the logs: none of them has a better one, and one of them
-- has it, unless no log has any.
abbrev pub IsBest : (ℕ → ℕ → Type 0) → Key → List Log → Option ℕ → Type 0
IsBest rel k logs o =
    All (λ log. Bounds rel o (lookup k log.applies)) logs
    × ((o ≡ none) ⊎ Any (λ log. lookup k log.applies ≡ o) logs)

module _ (better : ℕ → ℕ → Bool) (rel : ℕ → ℕ → Type 0) (rel_refl : (a : ℕ) → rel a a)
    (rel_trans : (a b c : ℕ) → rel a b → rel b c → rel a c)
    (rel_of : (a b : ℕ) → better a b ≡ true → rel a b)
    (rel_of_not : (a b : ℕ) → better a b ≡ false → rel b a) where
  Bounds-refl : (o : Option ℕ) → Bounds rel o o
  Bounds-refl none = tt
  Bounds-refl (some t) = rel_refl t

  Bounds-trans : (a b c : Option ℕ) → Bounds rel a b → Bounds rel b c → Bounds rel a c
  Bounds-trans a b none h k = tt
  Bounds-trans a none (some c) h k = absurd k
  Bounds-trans none (some b) (some c) h k = absurd h
  Bounds-trans (some a) (some b) (some c) h k = rel_trans a b c h k

  choose-Bounds :
      (o p : Option ℕ)
      → Bounds rel (choose better o p) o
        × Bounds rel (choose better o p) p
        × ((choose better o p ≡ o) ⊎ (choose better o p ≡ p))
  choose-Bounds o none = (Bounds-refl o, tt, inl refl)
  choose-Bounds none (some b) = (tt, rel_refl b, inr refl)
  choose-Bounds (some a) (some b) = elim (Bool-cases (better b a)) [
    | inl win ↦ rw win (rel_of b a win, rel_refl b, inr refl)
    | inr lose ↦ rw lose (rel_refl a, rel_of_not b a lose, inl refl)
  ]

  -- what is known after some logs were added to `all`
  abbrev Added : Key → Log → List Log → Option ℕ → Type 0
  Added k all logs o =
      Bounds rel o (lookup k all.applies)
      × All (λ log. Bounds rel o (lookup k log.applies)) logs
      × ((o ≡ lookup k all.applies) ⊎ Any (λ log. lookup k log.applies ≡ o) logs)

  add_logs-Added :
      (k : Key) (all : Log) (logs : List Log)
      → All IsLog logs
      → Added k all logs (lookup k (add_logs better all logs).applies)
  unfolding add_logs
  add_logs-Added k all [] h = (Bounds-refl (lookup k all.applies), tt, inl refl)
  add_logs-Added k all (log ∷ logs) (here, h) =
      let ih = add_logs-Added k (add_log better all log) logs h in
      let o = lookup k (add_logs better (add_log better all log) logs).applies in
      let now = lookup k all.applies in
      let new = lookup k log.applies in
      let mid : lookup k (add_log better all log).applies ≡ choose better now new =
        unfold add_log in lookup-merge_best better k all.applies log.applies here.applies_once in
      let parts = choose-Bounds now new in
      let below : Bounds rel o (choose better now new) = rw mid at ih.0 in
      (
        Bounds-trans o (choose better now new) now below parts.0,
        (Bounds-trans o (choose better now new) new below parts.1, ih.1),
        elim ih.2 [
          | inl same ↦ elim parts.2 [
            | inl old ↦ inl (same ∙ mid ∙ old)
            | inr fresh ↦ inr (inl (sym (same ∙ mid ∙ fresh)))
          ]
          | inr later_one ↦ inr (inr later_one)
        ],
      )

  pub add_logs-IsBest :
      (k : Key) (logs : List Log)
      → All IsLog logs
      → IsBest rel k logs (lookup k (add_logs better empty logs).applies)
  add_logs-IsBest k logs h =
      let (_, bounds, attained) = add_logs-Added k empty logs h in
      (bounds, unfold lookup in attained)
