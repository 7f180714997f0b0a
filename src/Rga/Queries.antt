-- ===== src/Rga/Queries.antt =====
-- `getNodeIDs`, `visibleOffsetOf` and `loadState` of src/rga.cpp.
use cs4730_collaborative_tex.Base.{
  ℕ, suc, ◌+◌, ◌≡◌, ◌≢◌, ap, subst, ◌∙◌, inl, inr, true, false, not, List, [], ◌∷◌, map, keep, some,
  arith, get_elem?, Bool-cases, if◌then◌else◌,
}
use cs4730_collaborative_tex.Base.Eq.{◌==◌}
use cs4730_collaborative_tex.Base.Int.{ℤ, pos, negsuc}
use cs4730_collaborative_tex.Rga.{
  CharId, id_beq_iff, id_eq, sentinel, Node, Engine, find, visible_from, visible_at, document,
}
use cs4730_collaborative_tex.Rga.Invariant.{IsValid, Headed}

-- `getNodeIDs`
unfoldable pub node_ids : List Node → List CharId
node_ids seq = map (λ n. n.id) (keep (λ n. not (n.id == sentinel)) seq)

-- The loop of `visibleOffsetOf`, with its counter.
unfoldable pub offset_from : ℕ → CharId → List Node → ℤ
offset_from cnt id [] = negsuc 0
offset_from cnt id (n ∷ ns) =
    if n.id == id then pos cnt else offset_from (if n.tombstoned then cnt else cnt + 1) id ns

-- `visibleOffsetOf(id)`
unfoldable pub visible_offset_of : CharId → List Node → ℤ
unfolding offset_from
visible_offset_of id seq = if id == sentinel then negsuc 0 else offset_from 0 id seq

-- `loadState`: the site stays.
abbrev pub load_state : Engine → Engine → Engine
load_state other e = record e { clock = other.clock; seq = other.seq }

-- A visible node, and how many stand before it.
offset_from-found :
    (id : CharId) (ns : List Node) (n : Node)
    → find id ns ≡ some n
    → n.tombstoned ≡ false
    → (k : ℕ) × ((cnt : ℕ) → offset_from cnt id ns ≡ pos (cnt + k))
      × (visible_from k ns ≡ id)
      × (get_elem? (document ns) k ≡ some n.value)
unfolding find offset_from visible_from document
offset_from-found id [] n e v = absurd (cc)
offset_from-found id (m ∷ ns) n e v = elim (Bool-cases (m.id == id)) [
  | inl here ↦
      let same : m ≡ n = ground (arith, here) in
      let seen : m.tombstoned ≡ false = ap (λ x. x.tombstoned) same ∙ v in
      (
        0,
        λ cnt. ground (arith, here),
        rw seen ((id_beq_iff m.id id).0 here),
        rw seen (ap (λ x. some x.value) same),
      )
  | inr further ↦
      let (k, count, at, char) = offset_from-found id ns n (ground (arith, further)) v in
      elim (Bool-cases (m.tombstoned)) [
        | inl gone ↦ (k, λ cnt. rw (further, gone) (count cnt), rw gone at, rw gone char)
        | inr seen ↦ (
          suc k,
          λ cnt. rw (further, seen) (count (cnt + 1) ∙ ap pos (omega arith)),
          rw seen at,
          rw seen char,
        )
      ]
]

sentinel-hidden :
    (ns : List Node) (n : Node) → Headed ns → find sentinel ns ≡ some n → n.tombstoned ≡ true
unfolding find
sentinel-hidden [] n h e = absurd h
sentinel-hidden (m ∷ ns) n h e =
    let same : m ≡ n = ground (arith, id_beq_iff m.id sentinel) in
    subst (λ x. x.tombstoned ≡ true) same h.1

-- In a valid engine `visibleOffsetOf` gives, for each visible character, the position at which
-- `visibleAt` finds it and at which the text has its value.
pub visible_at-visible_offset_of :
    (e : Engine) (id : CharId) (n : Node)
    → IsValid e
    → find id e.seq ≡ some n
    → n.tombstoned ≡ false
    → (k : ℕ) × (visible_offset_of id e.seq ≡ pos k)
      × (visible_at (pos k) e.seq ≡ id)
      × (get_elem? (document e.seq) k ≡ some n.value)
unfolding visible_offset_of visible_at
visible_at-visible_offset_of e id n v found seen =
    let (k, count, at, char) = offset_from-found id e.seq n found seen in
    let other : id ≢ sentinel = λ same.
      let gone = sentinel-hidden e.seq n v.headed (subst (λ i. find i e.seq ≡ some n) same found) in
      cc in
    (k, ground (arith, id_beq_iff id sentinel, other, count 0), at, char)
