-- ===== src/Rga/Index.antt =====
-- What `index_.find` gives after `insertNode` and after a tombstone.
use mathlib.Core.Option
use cs4730_collaborative_tex.Base.{
  ◌≡◌, ◌≢◌, refl, ap, ◌∙◌, inl, inr, true, List, [], ◌∷◌, some, arith, Bool-cases, Option-cases,
  is_some,
}
use cs4730_collaborative_tex.Base.Eq.{◌==◌}
use cs4730_collaborative_tex.Rga.{
  CharId, id_beq_iff, id_eq, Node, find, contains, goes_behind, place, insert_behind, tombstone,
}
use cs4730_collaborative_tex.Rga.Invariant.{insert_behind-cons}

abbrev pub marked : Node → Node
marked n = record n { tombstoned = true }

pub find-tombstone :
    (i : CharId) (ns : List Node) → find i (tombstone i ns) ≡ Option.map marked (find i ns)
unfolding find tombstone
find-tombstone i [] = refl
find-tombstone i (n ∷ ns) = ground (arith, find-tombstone i ns)

pub find-tombstone_other :
    (i j : CharId) (ns : List Node) → i ≢ j → find i (tombstone j ns) ≡ find i ns
unfolding find tombstone
find-tombstone_other i j [] ne = refl
find-tombstone_other i j (n ∷ ns) ne = elim (Bool-cases (n.id == j)) [
  | inl here ↦ ground (arith, here, id_beq_iff n.id i, id_beq_iff n.id j, ne)
  | inr further ↦ ground (arith, further, find-tombstone_other i j ns ne)
]

find-place_other :
    (i : CharId) (seq : List Node) (node : Node) (ms : List Node)
    → i ≢ node.id
    → find i (place seq node ms) ≡ find i ms
unfolding place find
find-place_other i seq node [] ne = ground (arith, id_beq_iff node.id i, ne)
find-place_other i seq node (m ∷ ms) ne =
    elim (Bool-cases (goes_behind seq node.id node.left m.id)) [
      | inl e ↦ rw e (ground (arith, find-place_other i seq node ms ne))
      | inr e ↦ rw e (ground (arith, id_beq_iff node.id i, ne))
    ]

pub find-insert_behind_other :
    (i : CharId) (seq : List Node) (node : Node) (ms r : List Node)
    → i ≢ node.id
    → insert_behind seq node ms ≡ some r
    → find i r ≡ find i ms
unfolding insert_behind find
find-insert_behind_other i seq node [] r ne e = absurd (cc)
find-insert_behind_other i seq node (m ∷ ms) r ne e = elim (insert_behind-cons seq node m ms r e) [
  | inl here ↦ ap (find i) here ∙ ground (arith, find-place_other i seq node ms ne)
  | inr (s, found, further) ↦
      ap (find i) further ∙ ground (arith, find-insert_behind_other i seq node ms s ne found)
]

-- An id that is known stays known.
pub contains-tombstone :
    (i j : CharId) (ns : List Node) → contains i (tombstone j ns) ≡ contains i ns
contains-tombstone i j ns = elim (Bool-cases (i == j)) [
  | inl same ↦
      let eq : i ≡ j = (id_beq_iff i j).0 same in
      let marks = find-tombstone i ns in
      elim (Option-cases (find i ns)) [
        | inl lost ↦ ground (arith, eq, lost)
        | inr (n, found) ↦ ground (arith, eq, found)
      ]
  | inr other ↦
      let ne : i ≢ j = λ e. ground (arith, id_beq_iff i j, e) in
      ap is_some (find-tombstone_other i j ns ne)
]
