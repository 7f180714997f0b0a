-- ===== src/Rga/Histories.antt =====
-- Lists of operations, oldest first, and what they leave of one character.
use mathlib.Core.Option
use cs4730_collaborative_tex.Base.{
  ◌≡◌, ◌≢◌, refl, sym, ap, subst, ◌⊎◌, inl, inr, ◌↔◌, Bool, true, false, List, [], ◌∷◌, Option,
  none, some, arith, Bool-cases, Any, if◌then◌else◌, or_else,
}
use cs4730_collaborative_tex.Base.Eq.{◌==◌}
use cs4730_collaborative_tex.Rga.{CharId, id_beq_iff, id_eq, Node, Operation, insert_op, delete_op}
use cs4730_collaborative_tex.Rga.Remote.{OpType-cases}
use cs4730_collaborative_tex.Rga.Index.{marked}

-- The operation is in the list.
abbrev pub IsIn : Operation → List Operation → Type 0
IsIn op = Any (λ x. x ≡ op)

-- An insertion and a deletion of the character.
abbrev pub inserts : CharId → Operation → Bool
inserts id op =
    if op.id == id then elim (op.type) [ insert_op ↦ true | delete_op ↦ false ] else false

abbrev pub deletes_id : CharId → Operation → Bool
deletes_id id op =
    if op.id == id then elim (op.type) [ insert_op ↦ false | delete_op ↦ true ] else false

-- The first insertion of the character.
unfoldable pub inserted : CharId → List Operation → Option Operation
inserted id [] = none
inserted id (op ∷ ops) = if inserts id op then some op else inserted id ops

-- Whether the character is deleted at all.
unfoldable pub deleted : CharId → List Operation → Bool
deleted id [] = false
deleted id (op ∷ ops) = if deletes_id id op then true else deleted id ops

-- Whether a deletion of the character stands before its insertion.
unfoldable pub overtakes : CharId → List Operation → Bool
overtakes id [] = false
overtakes id (op ∷ ops) =
    if inserts id op then false else if deletes_id id op then true else overtakes id ops

-- The node that an insertion makes.
abbrev pub node_of : Operation → Node
node_of op = record { id = op.id; value = op.value; tombstoned = false; left = op.left }

-- The node of the character after one operation, and after all.
abbrev pub after : CharId → Operation → Option Node → Option Node
after id op o =
    if inserts id op
    then some (or_else o (node_of op))
    else if deletes_id id op
    then Option.map marked o
    else o

unfoldable pub after_all : CharId → List Operation → Option Node → Option Node
after_all id [] o = o
after_all id (op ∷ ops) o = after_all id ops (after id op o)

-- A node with the tombstone that the deletions leave.
abbrev pub settled : Bool → Node → Node
settled gone n = if gone then marked n else n

-- What an operation is to a character.
pub op_cases :
    (id : CharId) (op : Operation)
    → ((op.id ≡ id) × (op.type ≡ insert_op) × (inserts id op ≡ true) × (deletes_id id op ≡ false))
      ⊎ (((op.id ≡ id)
            × (op.type ≡ delete_op)
            × (inserts id op ≡ false)
            × (deletes_id id op ≡ true))
          ⊎ ((op.id ≢ id) × (inserts id op ≡ false) × (deletes_id id op ≡ false)))
op_cases id op = elim (Bool-cases (op.id == id)) [
  | inr e ↦
      inr (
        inr
          (λ eq. ground (arith, id_beq_iff op.id id, eq, e), ground (arith, e), ground (arith, e)))
  | inl e ↦ elim (OpType-cases op.type) [
    | inl t ↦ inl ((id_beq_iff op.id id).0 e, t, rw (e, t) refl, rw (e, t) refl)
    | inr t ↦ inr (inl ((id_beq_iff op.id id).0 e, t, rw (e, t) refl, rw (e, t) refl))
  ]
]

pub inserts_iff :
    (id : CharId) (op : Operation) → (inserts id op ≡ true) ↔ ((op.type ≡ insert_op) × (op.id ≡ id))
inserts_iff id op = elim (op_cases id op) [
  | inl (same, t, i, _) ↦ (λ _. (t, same), λ _. i)
  | inr (inl (_, t, i, _)) ↦ (λ h. absurd (cc), λ h. absurd (let t' = h.0 in cc))
  | inr (inr (other, i, _)) ↦ (λ h. absurd (cc), λ h. absurd (other h.1))
]

pub deletes_iff :
    (id : CharId) (op : Operation)
    → (deletes_id id op ≡ true) ↔ ((op.type ≡ delete_op) × (op.id ≡ id))
deletes_iff id op = elim (op_cases id op) [
  | inl (_, t, _, d) ↦ (λ h. absurd (cc), λ h. absurd (let t' = h.0 in cc))
  | inr (inl (same, t, _, d)) ↦ (λ _. (t, same), λ _. d)
  | inr (inr (other, _, d)) ↦ (λ h. absurd (cc), λ h. absurd (other h.1))
]

settled-marked : (b : Bool) (n : Node) → settled b (marked n) ≡ marked n
settled-marked true n = refl
settled-marked false n = refl

-- A node that is there stays, with a tombstone if it is deleted.
pub after_all-some :
    (id : CharId) (ops : List Operation) (n : Node)
    → after_all id ops (some n) ≡ some (settled (deleted id ops) n)
unfolding after_all deleted
after_all-some id [] n = refl
after_all-some id (op ∷ ops) n = elim (op_cases id op) [
  | inl (_, _, i, d) ↦ rw (i, d, after_all-some id ops n) refl
  | inr (inl (_, _, i, d)) ↦
      rw (i, d, after_all-some id ops (marked n)) (ap some (settled-marked (deleted id ops) n))
  | inr (inr (_, i, d)) ↦ rw (i, d, after_all-some id ops n) refl
]

-- A character that is not there yet is what its first insertion makes of it, deleted or not.
pub after_all-none :
    (id : CharId) (ops : List Operation)
    → overtakes id ops ≡ false
    → after_all id ops none
      ≡ Option.map (λ op. settled (deleted id ops) (node_of op)) (inserted id ops)
unfolding after_all inserted overtakes deleted
after_all-none id [] h = refl
after_all-none id (op ∷ ops) h = elim (op_cases id op) [
  | inl (_, _, i, d) ↦ rw (i, d, after_all-some id ops (node_of op)) refl
  | inr (inl (_, _, i, d)) ↦ absurd (ground (arith, i, d))
  | inr (inr (_, i, d)) ↦ rw (i, d, after_all-none id ops (ground (arith, i, d))) refl
]

-- What is inserted is an insertion of the list.
pub inserted-IsIn :
    (id : CharId) (ops : List Operation) (op : Operation)
    → inserted id ops ≡ some op
    → IsIn op ops × (op.type ≡ insert_op) × (op.id ≡ id)
unfolding inserted
inserted-IsIn id [] op e = absurd (cc)
inserted-IsIn id (x ∷ ops) op e = elim (Bool-cases (inserts id x)) [
  | inl i ↦
      let same : x ≡ op = ground (arith, i) in
      let (t, here) = (inserts_iff id x).0 i in
      (inl same, subst (λ o. o.type ≡ insert_op) same t, subst (λ o. o.id ≡ id) same here)
  | inr i ↦ let (h, t, here) = inserted-IsIn id ops op (ground (arith, i)) in (inr h, t, here)
]

pub IsIn-inserted :
    (id : CharId) (ops : List Operation) (op : Operation)
    → IsIn op ops
    → op.type ≡ insert_op
    → op.id ≡ id
    → (first : Operation) × (inserted id ops ≡ some first)
unfolding inserted
IsIn-inserted id [] op h t e = absurd h
IsIn-inserted id (x ∷ ops) op h t e = elim (Bool-cases (inserts id x)) [
  | inl i ↦ (x, rw i refl)
  | inr i ↦ elim h [
    | inl same ↦ absurd (
        let here : inserts id op ≡ true = (inserts_iff id op).1 (t, e) in
        let there : inserts id op ≡ false = subst (λ o. inserts id o ≡ false) same i in cc)
    | inr h' ↦ let (first, eq) = IsIn-inserted id ops op h' t e in (first, rw i eq)
  ]
]

pub deleted-IsIn :
    (id : CharId) (ops : List Operation)
    → deleted id ops ≡ true
    → (op : Operation) × IsIn op ops × (deletes_id id op ≡ true)
unfolding deleted
deleted-IsIn id [] e = absurd (cc)
deleted-IsIn id (x ∷ ops) e = elim (Bool-cases (deletes_id id x)) [
  | inl d ↦ (x, inl refl, d)
  | inr d ↦ let (op, h, d') = deleted-IsIn id ops (ground (arith, d)) in (op, inr h, d')
]

pub IsIn-deleted :
    (id : CharId) (ops : List Operation) (op : Operation)
    → IsIn op ops
    → deletes_id id op ≡ true
    → deleted id ops ≡ true
unfolding deleted
IsIn-deleted id [] op h d = absurd h
IsIn-deleted id (x ∷ ops) op (inl same) d =
    let here : deletes_id id x ≡ true = subst (λ o. deletes_id id o ≡ true) (sym same) d in
    rw here refl
IsIn-deleted id (x ∷ ops) op (inr h) d =
    let later = IsIn-deleted id ops op h d in ground (arith, later)
