-- ===== src/Rga/Tombstones.antt =====
-- Deletions: what `tombstone` and `localDelete` do to a sequence.
use mathlib.Core.Option
use cs4730_collaborative_tex.Base.{
  ℕ, zero, suc, ◌≤◌, ◌≡◌, ◌≢◌, refl, sym, subst, ◌⊎◌, inl, inr, true, false, List, [], ◌∷◌, some,
  arith, length, All, Any, Bool-cases, Option-cases, ◌>>=◌,
}
use cs4730_collaborative_tex.Base.Eq.{◌==◌}
use cs4730_collaborative_tex.Document.{delete_at}
use cs4730_collaborative_tex.Rga.{
  CharId, id_beq_iff, id_eq, Node, Engine, find, delete_from, tombstone, document,
}
use cs4730_collaborative_tex.Rga.Sequence.{Any-Absent, Absent, Unique}
use cs4730_collaborative_tex.Rga.Roots.{tombstone-Linked}
use cs4730_collaborative_tex.Rga.Invariant.{Headed, IsValid, ClocksBelow-mono}

pub tombstone-All :
    (Q : CharId → Type 0) (id : CharId) (ns : List Node)
    → All (λ n. Q n.id) ns
    → All (λ n. Q n.id) (tombstone id ns)
unfolding tombstone
tombstone-All Q id [] h = tt
tombstone-All Q id (n ∷ ns) h = elim (Bool-cases (n.id == id)) [
  | inl e ↦ rw e h
  | inr e ↦ rw e (h.0, tombstone-All Q id ns h.1)
]

tombstone-Unique : (id : CharId) (ns : List Node) → Unique ns → Unique (tombstone id ns)
unfolding tombstone
tombstone-Unique id [] h = tt
tombstone-Unique id (n ∷ ns) h = elim (Bool-cases (n.id == id)) [
  | inl e ↦ rw e h
  | inr e ↦ rw e (tombstone-All (λ i. i ≢ n.id) id ns h.0, tombstone-Unique id ns h.1)
]

tombstone-Headed : (id : CharId) (ns : List Node) → Headed ns → Headed (tombstone id ns)
unfolding tombstone
tombstone-Headed id [] h = h
tombstone-Headed id (n ∷ ns) h = elim (Bool-cases (n.id == id)) [
  | inl e ↦ rw e (h.0, refl)
  | inr e ↦ rw e h
]

-- A tombstone under a clock that is no lower keeps the invariant.
pub tombstone-IsValid :
    (id : CharId) (bound : ℕ) (e : Engine)
    → IsValid e
    → e.clock ≤ bound
    → IsValid (record e { clock = bound; seq = tombstone id e.seq })
tombstone-IsValid id bound e v le = record {
  headed = tombstone-Headed id e.seq v.headed;
  unique = tombstone-Unique id e.seq v.unique;
  clocks =
      tombstone-All (λ i. i.clock ≤ bound) id e.seq
        (ClocksBelow-mono e.clock bound e.seq le v.clocks);
  linked = tombstone-Linked (λ _. ⊥) id e.seq v.linked;
}

pub tombstone_idem :
    (id : CharId) (ns : List Node) → tombstone id (tombstone id ns) ≡ tombstone id ns
unfolding tombstone
tombstone_idem id [] = refl
tombstone_idem id (n ∷ ns) = elim (Bool-cases (n.id == id)) [
  | inl e ↦ ground (arith, e)
  | inr e ↦ ground (arith, e, tombstone_idem id ns)
]

pub tombstone-Absent : (id : CharId) (ns : List Node) → Absent id ns → tombstone id ns ≡ ns
unfolding tombstone
tombstone-Absent id [] h = refl
tombstone-Absent id (n ∷ ns) h = ground (arith, h.0, id_beq_iff n.id id, tombstone-Absent id ns h.1)

-- A tombstone on a visible node takes one character away.
pub length-document-tombstone :
    (id : CharId) (ns : List Node) (n : Node)
    → find id ns ≡ some n
    → n.tombstoned ≡ false
    → length (document ns) ≡ suc (length (document (tombstone id ns)))
unfolding find tombstone document
length-document-tombstone id [] n e v = absurd (cc)
length-document-tombstone id (m ∷ ns) n e v = elim (Bool-cases (m.id == id)) [
  | inl here ↦ ground (arith, here)
  | inr further ↦ ground (arith, further, length-document-tombstone id ns n)
]

-- Deleting the `n`-th visible node is deleting the `n`-th character.
pub document-delete_from :
    (n : ℕ) (ns : List Node)
    → Option.map (λ p. document p.1) (delete_from n ns) ≡ delete_at n (document ns)
unfolding delete_from delete_at document
document-delete_from n [] = refl
document-delete_from zero (m ∷ ns) = elim (Bool-cases (m.tombstoned)) [
  | inl gone ↦ elim (Option-cases (delete_from zero ns)) [
    | inl lost ↦ ground (arith, gone, lost, document-delete_from zero ns)
    | inr (p, found) ↦ ground (arith, gone, found, document-delete_from zero ns)
  ]
  | inr seen ↦ ground (arith, seen)
]
document-delete_from (suc n) (m ∷ ns) = elim (Bool-cases (m.tombstoned)) [
  | inl gone ↦ elim (Option-cases (delete_from (suc n) ns)) [
    | inl lost ↦ ground (arith, gone, lost, document-delete_from (suc n) ns)
    | inr (p, found) ↦ ground (arith, gone, found, document-delete_from (suc n) ns)
  ]
  | inr seen ↦ elim (Option-cases (delete_from n ns)) [
    | inl lost ↦ ground (arith, seen, lost, document-delete_from n ns)
    | inr (p, found) ↦ ground (arith, seen, found, document-delete_from n ns)
  ]
]

-- The node is the first one, or the deletion is in the rest.
abbrev DeletedIn : Node → List Node → CharId → List Node → Type 0
DeletedIn m ns id r =
    ((id ≡ m.id) × (r ≡ record m { tombstoned = true } ∷ ns))
    ⊎ ((k : ℕ) × (s : List Node) × (delete_from k ns ≡ some (id, s)) × (r ≡ m ∷ s))

delete_from-further :
    (k : ℕ) (m : Node) (ns : List Node) (id : CharId) (r : List Node)
    → (◌>>=◌ {B = CharId × List Node} (delete_from k ns) (λ p. some (p.0, m ∷ p.1))) ≡ some (id, r)
    → DeletedIn m ns id r
delete_from-further k m ns id r e = elim (Option-cases (delete_from k ns)) [
  | inl lost ↦ absurd (ground (arith, lost))
  | inr ((i, s), found) ↦
      let same : i ≡ id = ground (arith, found) in
      inr (k, s, rw same at found, ground (arith, found))
]

delete_from-cons :
    (n : ℕ) (m : Node) (ns : List Node) (id : CharId) (r : List Node)
    → delete_from n (m ∷ ns) ≡ some (id, r)
    → DeletedIn m ns id r
unfolding delete_from
delete_from-cons zero m ns id r e = elim (Bool-cases (m.tombstoned)) [
  | inl gone ↦ delete_from-further zero m ns id r (ground (arith, gone))
  | inr seen ↦ inl (ground (arith, seen), ground (arith, seen))
]
delete_from-cons (suc n) m ns id r e = elim (Bool-cases (m.tombstoned)) [
  | inl gone ↦ delete_from-further (suc n) m ns id r (ground (arith, gone))
  | inr seen ↦ delete_from-further n m ns id r (ground (arith, seen))
]

-- The node that is deleted is in the sequence, and deleting it is a tombstone on its id.
pub delete_from-tombstone :
    (n : ℕ) (ns : List Node) (id : CharId) (r : List Node)
    → Unique ns
    → delete_from n ns ≡ some (id, r)
    → (r ≡ tombstone id ns) × Any (λ m. m.id ≡ id) ns
unfolding delete_from tombstone
delete_from-tombstone n [] id r u e = absurd (cc)
delete_from-tombstone n (m ∷ ns) id r u e = elim (delete_from-cons n m ns id r e) [
  | inl (here, eq) ↦ (ground (arith, id_beq_iff m.id id, here, eq), inl (sym here))
  | inr (k, s, found, eq) ↦
      let (same, present) = delete_from-tombstone k ns id s u.1 found in
      let other : m.id ≢ id =
        λ e'. Any-Absent m.id ns u.0 (subst (λ i. Any (λ x. x.id ≡ i) ns) (sym e') present) in
      (ground (arith, id_beq_iff m.id id, other, eq, same), inr present)
]
