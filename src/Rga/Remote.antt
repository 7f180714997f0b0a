-- ===== src/Rga/Remote.antt =====
-- What `applyRemote` does with an operation of another peer.
use cs4730_collaborative_tex.Base.{
  ℕ, ◌≤◌, ◌≡◌, refl, sym, ap, subst, ◌∙◌, ◌⊎◌, inl, inr, true, false, List, [], ◌∷◌, none, some,
  arith, Bool-cases, Option-cases, is_some, ◌>>=◌,
}
use cs4730_collaborative_tex.Base.Eq.{◌==◌}
use cs4730_collaborative_tex.Rga.{
  CharId, id_beq_iff, id_eq, Node, Engine, Operation, OpType, insert_op, delete_op, find, contains,
  place, insert_behind, insert_node, tombstone, advance, apply_remote, can_apply,
}
use cs4730_collaborative_tex.Rga.Sequence.{Absent, Absent-find}
use cs4730_collaborative_tex.Rga.Invariant.{clock-IsValid, IsValid, insert_node-IsValid}
use cs4730_collaborative_tex.Rga.Tombstones.{tombstone-IsValid, tombstone_idem}

-- The engine after an operation with a clock left this sequence.
abbrev pub took : Operation → Engine → List Node → Engine
took op e seq = record e { clock = advance e.clock op.id.clock; seq = seq }

pub apply_remote_delete :
    (op : Operation) (e : Engine)
    → op.type ≡ delete_op
    → apply_remote op e ≡ some (took op e (tombstone op.id e.seq))
unfolding apply_remote
apply_remote_delete op e t = rw (apply_remote, t) refl

pub apply_remote_known :
    (op : Operation) (e : Engine)
    → op.type ≡ insert_op
    → contains op.id e.seq ≡ true
    → apply_remote op e ≡ some (took op e e.seq)
unfolding apply_remote
apply_remote_known op e t known = rw (apply_remote, t, known) refl

apply_remote_unknown :
    (op : Operation) (e : Engine)
    → op.type ≡ insert_op
    → contains op.id e.seq ≡ false
    → apply_remote op e
      ≡ ◌>>=◌ {B = Engine} (insert_node op.id op.value op.left e.seq) (λ seq. some (took op e seq))
unfolding apply_remote
apply_remote_unknown op e t new = rw (apply_remote, t, new) refl

pub OpType-cases : (t : OpType) → (t ≡ insert_op) ⊎ (t ≡ delete_op)
OpType-cases insert_op = inl refl
OpType-cases delete_op = inr refl

-- The three ways to apply an operation, and the sequence that it leaves.
abbrev pub Outcome : Operation → List Node → List Node → Type 0
Outcome op seq r =
    ((op.type ≡ delete_op) × (r ≡ tombstone op.id seq))
    ⊎ (((op.type ≡ insert_op) × (contains op.id seq ≡ true) × (r ≡ seq))
        ⊎ ((op.type ≡ insert_op)
            × (contains op.id seq ≡ false)
            × (insert_node op.id op.value op.left seq ≡ some r)))

pub apply_remote-Outcome :
    (op : Operation) (e e' : Engine)
    → apply_remote op e ≡ some e'
    → (r : List Node) × (e' ≡ took op e r) × Outcome op e.seq r
apply_remote-Outcome op e e' ran = elim (OpType-cases op.type) [
  | inr t ↦ (tombstone op.id e.seq, let done = apply_remote_delete op e t in cc, inl (t, refl))
  | inl t ↦ elim (Bool-cases (contains op.id e.seq)) [
    | inl known ↦
        (e.seq, let done = apply_remote_known op e t known in cc, inr (inl (t, known, refl)))
    | inr new ↦ elim (Option-cases (insert_node op.id op.value op.left e.seq)) [
      | inl lost ↦ absurd (let done = apply_remote_unknown op e t new in ground (arith, lost))
      | inr (r, found) ↦ (
        r,
        let done = apply_remote_unknown op e t new in ground (arith, found),
        inr (inr (t, new, found)),
      )
    ]
  ]
]

pub contains-find : (id : CharId) (ns : List Node) → contains id ns ≡ false → find id ns ≡ none
contains-find id ns h = elim (Option-cases (find id ns)) [
  | inl lost ↦ lost
  | inr (n, found) ↦ absurd (ground (arith, found))
]

advance-ge : (clock seen : ℕ) → (clock ≤ advance clock seen) × (seen ≤ advance clock seen)
advance-ge clock seen = ground arith

-- `applyRemote` keeps the invariant, for every operation that it does not throw at.
pub apply_remote-IsValid :
    (op : Operation) (e e' : Engine) → IsValid e → apply_remote op e ≡ some e' → IsValid e'
apply_remote-IsValid op e e' v ran =
    let (r, same, how) = apply_remote-Outcome op e e' ran in
    let (old, seen) = advance-ge e.clock op.id.clock in
    subst IsValid (sym same) (elim how [
      | inl (_, eq) ↦
          subst (λ s. IsValid (took op e s)) (sym eq)
            (tombstone-IsValid op.id (advance e.clock op.id.clock) e v old)
      | inr (inl (_, _, eq)) ↦ subst (λ s. IsValid (took op e s)) (sym eq) (clock-IsValid _ e v old)
      | inr (inr (_, new, found)) ↦
          insert_node-IsValid op.id op.left op.value (advance e.clock op.id.clock) e r v
            (Absent-find op.id e.seq (contains-find op.id e.seq new)) old seen found
    ])

advance_idem : (clock seen : ℕ) → advance (advance clock seen) seen ≡ advance clock seen
advance_idem clock seen = ground arith

took_again : (op : Operation) (e : Engine) (r : List Node) → took op (took op e r) r ≡ took op e r
took_again op e r = ap (λ c. record e { clock = c; seq = r }) (advance_idem e.clock op.id.clock)

place-find :
    (seq : List Node) (node : Node) (ms : List Node)
    → Absent node.id ms
    → find node.id (place seq node ms) ≡ some node
unfolding place find
place-find seq node [] a = ground (arith, id_beq_iff node.id node.id)
place-find seq node (m ∷ ms) a =
    ground
      (arith, id_beq_iff node.id node.id, id_beq_iff m.id node.id, a.0, place-find seq node ms a.1)

-- A node that is inserted is found.
pub insert_behind-find :
    (seq : List Node) (node : Node) (ms r : List Node)
    → Absent node.id ms
    → insert_behind seq node ms ≡ some r
    → find node.id r ≡ some node
unfolding insert_behind find
insert_behind-find seq node [] r a e = absurd (cc)
insert_behind-find seq node (m ∷ ms) r a e = elim (Bool-cases (m.id == node.left)) [
  | inl here ↦
      let same : m ∷ place seq node ms ≡ r = ground (arith, here) in
      subst (λ s. find node.id s ≡ some node) same
        (ground (arith, id_beq_iff m.id node.id, a.0, place-find seq node ms a.1))
  | inr further ↦ elim (Option-cases (insert_behind seq node ms)) [
    | inl lost ↦ absurd (ground (arith, further, lost))
    | inr (s, found) ↦
        let same : m ∷ s ≡ r = ground (arith, further, found) in
        subst (λ s. find node.id s ≡ some node) same
          (ground (arith, id_beq_iff m.id node.id, a.0, insert_behind-find seq node ms s a.1 found))
  ]
]

pub Outcome-apply_remote :
    (op : Operation) (e : Engine) (r : List Node)
    → Outcome op e.seq r
    → apply_remote op e ≡ some (took op e r)
Outcome-apply_remote op e r (inl (t, eq)) =
    apply_remote_delete op e t ∙ ap (λ s. some (took op e s)) (sym eq)
Outcome-apply_remote op e r (inr (inl (t, known, eq))) =
    apply_remote_known op e t known ∙ ap (λ s. some (took op e s)) (sym eq)
Outcome-apply_remote op e r (inr (inr (t, new, found))) =
    apply_remote_unknown op e t new ∙ ap (λ o. o >>= λ s. some (took op e s)) found

Outcome-again : (op : Operation) (seq r : List Node) → Outcome op seq r → Outcome op r r
unfolding insert_node
Outcome-again op seq r (inl (t, eq)) =
    inl (t, eq ∙ sym (tombstone_idem op.id seq) ∙ ap (tombstone op.id) (sym eq))
Outcome-again op seq r (inr (inl (t, known, eq))) =
    inr (inl (t, ap (contains op.id) eq ∙ known, refl))
Outcome-again op seq r (inr (inr (t, new, found))) = inr (
    inl (
      t,
      ap is_some (
          insert_behind-find seq _ seq r (Absent-find op.id seq (contains-find op.id seq new))
            found),
      refl,
    ))

-- `applyRemote` is idempotent: an operation that arrives a second time changes nothing.
pub apply_remote_twice :
    (op : Operation) (e e' : Engine) → apply_remote op e ≡ some e' → apply_remote op e' ≡ some e'
apply_remote_twice op e e' ran =
    let (r, same, how) = apply_remote-Outcome op e e' ran in
    subst (λ x. apply_remote op x ≡ some x) (sym same)
      (Outcome-apply_remote op (took op e r) r (Outcome-again op e.seq r how)
        ∙ ap some (took_again op e r))

insert_behind_known :
    (seq : List Node) (node : Node) (ms : List Node)
    → contains node.left ms ≡ true
    → (r : List Node) × (insert_behind seq node ms ≡ some r)
unfolding insert_behind find
insert_behind_known seq node [] h = absurd (cc)
insert_behind_known seq node (m ∷ ms) h = elim (Bool-cases (m.id == node.left)) [
  | inl here ↦ (m ∷ place seq node ms, ground (arith, here))
  | inr further ↦
      let (r, found) = insert_behind_known seq node ms (ground (arith, further)) in
      (m ∷ r, ground (arith, further, found))
]

-- An operation that `canApply` lets pass is applied without an exception.
pub apply_remote-can_apply :
    (op : Operation) (e : Engine)
    → can_apply op e ≡ true
    → (e' : Engine) × (apply_remote op e ≡ some e')
unfolding can_apply insert_node
apply_remote-can_apply op e h = elim (OpType-cases op.type) [
  | inr t ↦ (_, apply_remote_delete op e t)
  | inl t ↦ elim (Bool-cases (contains op.id e.seq)) [
    | inl known ↦ (_, apply_remote_known op e t known)
    | inr new ↦
        let left : contains op.left e.seq ≡ true = rw t at h in
        let (r, found) =
          insert_behind_known e.seq
            (record { id = op.id; value = op.value; tombstoned = false; left = op.left }) e.seq
            left in
        (_, Outcome-apply_remote op e r (inr (inr (t, new, found))))
  ]
]
