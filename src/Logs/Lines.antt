-- ===== src/Logs/Lines.antt =====
-- What the lines of one log file decide.
use cs4730_collaborative_tex.Base.{
  ℕ, ◌≤◌, ◌≡◌, refl, sym, ◌∙◌, ◌⊎◌, inl, inr, List, [], ◌∷◌, Option, none, some, arith, All, Any,
  Bool-cases, if◌then◌else◌,
}
use cs4730_collaborative_tex.Base.Eq.{pair_eq, ◌==◌, pair_beq_iff}
use cs4730_collaborative_tex.Dict.{Dict, lookup}
use cs4730_collaborative_tex.Dict.Laws.{lookup-insert}
use cs4730_collaborative_tex.Logs.{Key, Event, sent, applied}
use cs4730_collaborative_tex.Logs.Parse.{Log, keep_best, later, absorb, absorb_latest, absorb_all}
use cs4730_collaborative_tex.Logs.ParseLaws.{best, lookup-keep_best, applies_to}
use cs4730_collaborative_tex.Logs.MergeLaws.{Bounds}

-- The first of two times that may be missing, or the second.
abbrev first_of : Option ℕ → Option ℕ → Option ℕ
first_of none o = o
first_of (some t) o = some t

-- The time of the last line that says that an operation was applied.
abbrev pub last_applied : Key → List (Option Event) → Option ℕ
last_applied k [] = none
last_applied k (e ∷ es) = first_of (last_applied k es) (applies_to k e)

pub first_of-none : (o : Option ℕ) → first_of o none ≡ o
first_of-none none = refl
first_of-none (some t) = refl

lookup-absorb :
    (k : Key) (log : Log) (e : Option Event)
    → lookup k (absorb log e).applies ≡ first_of (applies_to k e) (lookup k log.applies)
unfolding absorb
lookup-absorb k log none = refl
lookup-absorb k log (some (sent j ts)) = refl
lookup-absorb k log (some (applied j ts)) =
    ground (arith, lookup-insert k j ts log.applies, pair_beq_iff j k)

first_of_assoc : (a b c : Option ℕ) → first_of a (first_of b c) ≡ first_of (first_of a b) c
first_of_assoc none b c = refl
first_of_assoc (some t) b c = refl

pub lookup-absorb_all :
    (k : Key) (log : Log) (es : List (Option Event))
    → lookup k (absorb_all absorb log es).applies
      ≡ first_of (last_applied k es) (lookup k log.applies)
unfolding absorb_all
lookup-absorb_all k log [] = refl
lookup-absorb_all k log (e ∷ es) =
    lookup-absorb_all k (absorb log e) es
    ∙ (rw (lookup-absorb k log e)
        (first_of_assoc (last_applied k es) (applies_to k e) (lookup k log.applies)))

-- `a` is no earlier than `b`.
abbrev pub NotBefore : ℕ → ℕ → Type 0
NotBefore a b = b ≤ a

pub NotBefore-trans :
    (a b c : Option ℕ) → Bounds NotBefore a b → Bounds NotBefore b c → Bounds NotBefore a c
NotBefore-trans a b none h k = tt
NotBefore-trans a none (some c) h k = absurd k
NotBefore-trans none (some b) (some c) h k = absurd h
NotBefore-trans (some a) (some b) (some c) h k = omega (arith, h, k)

NotBefore-refl : (a : Option ℕ) → Bounds NotBefore a a
NotBefore-refl none = tt
NotBefore-refl (some a) = omega arith

pub All-NotBefore :
    (k : Key) (a b : Option ℕ)
    → Bounds NotBefore a b
    → (es : List (Option Event)) → All (λ e. Bounds NotBefore b (applies_to k e)) es
    → All (λ e. Bounds NotBefore a (applies_to k e)) es
All-NotBefore k a b h [] all = tt
All-NotBefore k a b h (e ∷ es) (here, all) =
    (NotBefore-trans a b (applies_to k e) h here, All-NotBefore k a b h es all)

-- `m` is the later of two times, either of which may be missing.
abbrev IsLater : Option ℕ → Option ℕ → Option ℕ → Type 0
IsLater m old new = Bounds NotBefore m old × Bounds NotBefore m new × ((m ≡ old) ⊎ (new ≡ m))

best-IsLater : (old : Option ℕ) (ts : ℕ) → IsLater (some (best later old ts)) old (some ts)
best-IsLater none ts = (tt, omega arith, inr refl)
best-IsLater (some t) ts = elim (Bool-cases (later ts t)) [
  | inl new ↦ rw new (ground (arith, new), omega arith, inr refl)
  | inr old ↦ rw old (omega arith, ground (arith, old), inl refl)
]

keep_best-IsLater :
    (j k : Key) (ts : ℕ) (d : Dict Key ℕ)
    → IsLater (lookup k (keep_best later j ts d)) (lookup k d) (if j == k then some ts else none)
keep_best-IsLater j k ts d = elim (Bool-cases (j == k)) [
  | inl same ↦
      let eq = (pair_beq_iff j k).0 same in
      let m : lookup k (keep_best later j ts d) ≡ some (best later (lookup k d) ts) =
        lookup-keep_best later k j ts d ∙ (rw same (rw eq refl)) in
      rw (m, same) (best-IsLater (lookup k d) ts)
  | inr other ↦
      let m : lookup k (keep_best later j ts d) ≡ lookup k d =
        lookup-keep_best later k j ts d ∙ (rw other refl) in
      rw (m, other) (NotBefore-refl (lookup k d), tt, inl refl)
]

absorb_latest-IsLater :
    (k : Key) (log : Log) (e : Option Event)
    → IsLater (lookup k (absorb_latest log e).applies) (lookup k log.applies) (applies_to k e)
unfolding absorb_latest
absorb_latest-IsLater k log none = (NotBefore-refl (lookup k log.applies), tt, inl refl)
absorb_latest-IsLater k log (some (sent j ts)) =
    (NotBefore-refl (lookup k log.applies), tt, inl refl)
absorb_latest-IsLater k log (some (applied j ts)) = keep_best-IsLater j k ts log.applies

-- What is stored of a file is the latest of its lines' times, and of the one that was there.
pub absorb_all-latest :
    (k : Key) (log : Log) (es : List (Option Event))
    → let o = lookup k (absorb_all absorb_latest log es).applies in
      Bounds NotBefore o (lookup k log.applies)
      × All (λ e. Bounds NotBefore o (applies_to k e)) es
      × ((o ≡ lookup k log.applies) ⊎ Any (λ e. applies_to k e ≡ o) es)
unfolding absorb_all
absorb_all-latest k log [] = (NotBefore-refl (lookup k log.applies), tt, inl refl)
absorb_all-latest k log (e ∷ es) =
    let (above, rest, attained) = absorb_all-latest k (absorb_latest log e) es in
    let (old, new, one) = absorb_latest-IsLater k log e in
    let o = lookup k (absorb_all absorb_latest (absorb_latest log e) es).applies in
    let m = lookup k (absorb_latest log e).applies in
    (
      NotBefore-trans o m (lookup k log.applies) above old,
      (NotBefore-trans o m (applies_to k e) above new, rest),
      elim attained [
        | inl same ↦ elim one [
          | inl kept ↦ inl (same ∙ kept)
          | inr now ↦ inr (inl (now ∙ sym same))
        ]
        | inr there ↦ inr (inr there)
      ],
    )
