-- ===== src/Rga/Commute.antt =====
-- Deletions commute with the other operations.
use mathlib.Core.Option
use cs4730_collaborative_tex.Base.{
  ℕ, zero, suc, ◌≡◌, ◌≢◌, refl, sym, ap, ◌∙◌, inl, inr, true, false, List, [], ◌∷◌, Option, none,
  some, arith, length, Bool-cases, Option-cases, if◌then◌else◌, ◌>>=◌,
}
use cs4730_collaborative_tex.Base.Eq.{◌==◌}
use cs4730_collaborative_tex.Rga.{
  CharId, id_beq_iff, id_eq, sentinel, Node, Engine, Operation, delete_op, find, contains,
  root_loop, root_ancestor, goes_behind, place, insert_behind, insert_node, tombstone, advance,
  apply_remote,
}
use cs4730_collaborative_tex.Rga.Roots.{root_ancestor_found, root_ancestor_lost}
use cs4730_collaborative_tex.Rga.Remote.{
  took, Outcome, apply_remote-Outcome, Outcome-apply_remote, apply_remote_delete,
}

tombstone_comm :
    (i j : CharId) (ns : List Node) → tombstone i (tombstone j ns) ≡ tombstone j (tombstone i ns)
unfolding tombstone
tombstone_comm i j [] = refl
tombstone_comm i j (n ∷ ns) = elim (Bool-cases (n.id == i)) [
  | inl e ↦ elim (Bool-cases (n.id == j)) [
    | inl f ↦ ground (arith, e, f)
    | inr f ↦ ground (arith, e, f)
  ]
  | inr e ↦ elim (Bool-cases (n.id == j)) [
    | inl f ↦ ground (arith, e, f)
    | inr f ↦ ground (arith, e, f, tombstone_comm i j ns)
  ]
]

length-tombstone : (j : CharId) (ns : List Node) → length (tombstone j ns) ≡ length ns
unfolding tombstone
length-tombstone j [] = refl
length-tombstone j (n ∷ ns) = ground (arith, length-tombstone j ns)

-- A tombstone moves no node and cuts no link.
find-tombstone :
    (i j : CharId) (ns : List Node)
    → Option.map (λ n. n.left) (find i (tombstone j ns)) ≡ Option.map (λ n. n.left) (find i ns)
unfolding find tombstone
find-tombstone i j [] = refl
find-tombstone i j (n ∷ ns) = elim (Bool-cases (n.id == j)) [
  | inl e ↦ ground (arith, e)
  | inr e ↦ ground (arith, e, find-tombstone i j ns)
]

contains-tombstone : (i j : CharId) (ns : List Node) → contains i (tombstone j ns) ≡ contains i ns
unfolding find tombstone
contains-tombstone i j [] = refl
contains-tombstone i j (n ∷ ns) = elim (Bool-cases (n.id == j)) [
  | inl e ↦ ground (arith, e)
  | inr e ↦ ground (arith, e, contains-tombstone i j ns)
]

-- One round of `rootAncestor`, from the left neighbour that it finds.
from_left : CharId → CharId → Option CharId → (CharId → CharId) → CharId
from_left id target none up = sentinel
from_left id target (some left) up =
    if left == target then id else if left == sentinel then sentinel else up left

from_left_ext :
    (id target : CharId) (o : Option CharId) (up up' : CharId → CharId)
    → ((i : CharId) → up i ≡ up' i)
    → from_left id target o up ≡ from_left id target o up'
unfolding from_left
from_left_ext id target none up up' h = refl
from_left_ext id target (some left) up up' h =
    ap (λ r. if left == target then id else if left == sentinel then sentinel else r) (h left)

root_ancestor-from_left :
    (f : ℕ) (seq : List Node) (id target : CharId)
    → root_ancestor (suc f) seq id target
      ≡ from_left id target
          (Option.map (λ n. n.left) (find id seq))
          (λ i. root_ancestor f seq i target)
unfolding from_left
root_ancestor-from_left f seq id target = elim (Option-cases (find id seq)) [
  | inl lost ↦
      root_ancestor_lost f seq id target lost
      ∙ ap
          (λ o.
            from_left id target (Option.map (λ n. n.left) o) (λ i. root_ancestor f seq i target))
          (sym lost)
  | inr (n, found) ↦
      root_ancestor_found f seq id target n found
      ∙ ap
          (λ o.
            from_left id target (Option.map (λ n. n.left) o) (λ i. root_ancestor f seq i target))
          (sym found)
]

root_ancestor-tombstone :
    (f : ℕ) (j : CharId) (seq : List Node) (id target : CharId)
    → root_ancestor f (tombstone j seq) id target ≡ root_ancestor f seq id target
root_ancestor-tombstone zero j seq id target = unfold root_ancestor root_loop in refl
root_ancestor-tombstone (suc f) j seq id target =
    root_ancestor-from_left f (tombstone j seq) id target
    ∙ ap (λ o. from_left id target o (λ i. root_ancestor f (tombstone j seq) i target))
        (find-tombstone id j seq)
    ∙ from_left_ext id target (Option.map (λ n. n.left) (find id seq)) _ _
        (λ i. root_ancestor-tombstone f j seq i target)
    ∙ sym (root_ancestor-from_left f seq id target)

goes_behind-tombstone :
    (j : CharId) (seq : List Node) (new left id : CharId)
    → goes_behind (tombstone j seq) new left id ≡ goes_behind seq new left id
unfolding goes_behind
goes_behind-tombstone j seq new left id =
    rw (length-tombstone j seq, root_ancestor-tombstone (length seq) j seq id left) refl

place_same :
    (j : CharId) (seq : List Node) (node : Node) (ms : List Node)
    → place (tombstone j seq) node ms ≡ place seq node ms
unfolding place
place_same j seq node [] = refl
place_same j seq node (m ∷ ms) =
    rw (goes_behind-tombstone j seq node.id node.left m.id, place_same j seq node ms) refl

insert_behind_same :
    (j : CharId) (seq : List Node) (node : Node) (ms : List Node)
    → insert_behind (tombstone j seq) node ms ≡ insert_behind seq node ms
unfolding insert_behind
insert_behind_same j seq node [] = refl
insert_behind_same j seq node (m ∷ ms) =
    rw (place_same j seq node ms, insert_behind_same j seq node ms) refl

place-tombstone :
    (j : CharId) (seq : List Node) (node : Node) (ms : List Node)
    → node.id ≢ j
    → place seq node (tombstone j ms) ≡ tombstone j (place seq node ms)
unfolding place tombstone
place-tombstone j seq node [] other = ground (arith, id_beq_iff node.id j, other)
place-tombstone j seq node (m ∷ ms) other = elim (Bool-cases (m.id == j)) [
  | inl e ↦ elim (Bool-cases (goes_behind seq node.id node.left m.id)) [
    | inl g ↦ ground (arith, e, g)
    | inr g ↦ ground (arith, e, g, id_beq_iff node.id j, other)
  ]
  | inr e ↦ elim (Bool-cases (goes_behind seq node.id node.left m.id)) [
    | inl g ↦ ground (arith, e, g, place-tombstone j seq node ms other)
    | inr g ↦ ground (arith, e, g, id_beq_iff node.id j, other)
  ]
]

insert_behind-tombstone :
    (j : CharId) (seq : List Node) (node : Node) (ms : List Node)
    → node.id ≢ j
    → insert_behind seq node (tombstone j ms) ≡ Option.map (tombstone j) (insert_behind seq node ms)
unfolding insert_behind tombstone
insert_behind-tombstone j seq node [] other = refl
insert_behind-tombstone j seq node (m ∷ ms) other =
    let placed = place-tombstone j seq node ms other in
    let ih = insert_behind-tombstone j seq node ms other in
    elim (Bool-cases (m.id == j)) [
      | inl e ↦ elim (Bool-cases (m.id == node.left)) [
        | inl here ↦ ground (arith, e, here)
        | inr further ↦ elim (Option-cases (insert_behind seq node ms)) [
          | inl lost ↦ ground (arith, e, further, lost)
          | inr (r, found) ↦ ground (arith, e, further, found)
        ]
      ]
      | inr e ↦ elim (Bool-cases (m.id == node.left)) [
        | inl here ↦ ground (arith, e, here, placed)
        | inr further ↦ elim (Option-cases (insert_behind seq node ms)) [
          | inl lost ↦ ground (arith, e, further, lost, ih)
          | inr (r, found) ↦ ground (arith, e, further, found, ih)
        ]
      ]
    ]

insert_node-tombstone :
    (j new left : CharId) (value : ℕ) (seq : List Node)
    → new ≢ j
    → insert_node new value left (tombstone j seq)
      ≡ Option.map (tombstone j) (insert_node new value left seq)
unfolding insert_node
insert_node-tombstone j new left value seq other =
    let node : Node = record { id = new; value = value; tombstoned = false; left = left } in
    insert_behind_same j seq node (tombstone j seq) ∙ insert_behind-tombstone j seq node seq other

advance_comm : (clock a b : ℕ) → advance (advance clock a) b ≡ advance (advance clock b) a
advance_comm clock a b = ground arith

-- What an operation does to a sequence in which another character was deleted.
Outcome-tombstone :
    (j : CharId) (op : Operation) (seq r : List Node)
    → contains j seq ≡ true
    → Outcome op seq r
    → Outcome op (tombstone j seq) (tombstone j r)
Outcome-tombstone j op seq r known (inl (t, eq)) =
    inl (t, ap (tombstone j) eq ∙ tombstone_comm j op.id seq)
Outcome-tombstone j op seq r known (inr (inl (t, old, eq))) =
    inr (inl (t, contains-tombstone op.id j seq ∙ old, ap (tombstone j) eq))
Outcome-tombstone j op seq r known (inr (inr (t, new, found))) =
    let other : op.id ≢ j = λ same. let clash = ap (λ i. contains i seq) same in cc in
    inr (
      inr (
        t,
        contains-tombstone op.id j seq ∙ new,
        insert_node-tombstone j op.id op.left op.value seq other
            ∙ ap (Option.map (tombstone j)) found,
      ))

-- A deletion of a character that a peer has commutes with every operation that the peer can apply:
-- both orders end in the same engine, with the same sequence and clock, and neither throws.
pub apply_remote_delete_comm :
    (d op : Operation) (e e' : Engine)
    → d.type ≡ delete_op
    → contains d.id e.seq ≡ true
    → apply_remote op e ≡ some e'
    → (both : Engine) × ((apply_remote op e >>= apply_remote d) ≡ some both)
      × ((apply_remote d e >>= apply_remote op) ≡ some both)
apply_remote_delete_comm d op e e' t known ran =
    let (r, left, how) = apply_remote-Outcome op e e' ran in
    let behind = took d e (tombstone d.id e.seq) in
    (
      took op behind (tombstone d.id r),
      ap (λ o. o >>= apply_remote d) ran
          ∙ apply_remote_delete d e' t
          ∙ ap (λ x. some (took d x (tombstone d.id x.seq))) left
          ∙ ap (λ c. some (record e { clock = c; seq = tombstone d.id r }))
              (advance_comm e.clock op.id.clock d.id.clock),
      ap (λ o. o >>= apply_remote op) (apply_remote_delete d e t)
          ∙ Outcome-apply_remote op behind (tombstone d.id r)
              (Outcome-tombstone d.id op e.seq r known how),
    )
