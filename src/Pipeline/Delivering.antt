-- ===== src/Pipeline/Delivering.antt =====
-- What `crdtLoop` does with operations in any order of arrival.
use cs4730_collaborative_tex.Base.{
  ℕ, zero, suc, ◌+◌, ◌≤◌, ◌<◌, ◌≡◌, ◌↔◌, refl, sym, ap, subst, ◌∙◌, ◌⊎◌, inl, inr, Bool, true,
  false, ◌&&◌, List, [], ◌∷◌, Option, arith, All, Bool-cases, Option-cases, nat_beq, is_some,
  or_else,
}
use cs4730_collaborative_tex.Sort.Laws.{count_if}
use cs4730_collaborative_tex.Rga.{
  CharId, id_beq, id_eq, Node, Engine, Operation, OpType, insert_op, delete_op, find, contains,
  can_apply,
}
use cs4730_collaborative_tex.Rga.Invariant.{IsValid}
use cs4730_collaborative_tex.Rga.Remote.{OpType-cases}
use cs4730_collaborative_tex.Rga.Histories.{
  IsIn, inserts, inserts_iff, node_of, after_all, after_all-some,
}
use cs4730_collaborative_tex.Rga.Steps.{Run}
use cs4730_collaborative_tex.Rga.Converge.{Run-find}
use cs4730_collaborative_tex.Pipeline.Draining.{Blocked}

abbrev type_beq : OpType → OpType → Bool
type_beq insert_op insert_op = true
type_beq insert_op delete_op = false
type_beq delete_op insert_op = false
type_beq delete_op delete_op = true

abbrev op_beq : Operation → Operation → Bool
op_beq a b =
    type_beq a.type b.type
    && (id_beq a.id b.id && (id_beq a.left b.left && nat_beq a.value b.value))

type_beq_iff : (a b : OpType) → (type_beq a b ≡ true) ↔ (a ≡ b)
type_beq_iff insert_op insert_op = (λ _. refl, λ _. refl)
type_beq_iff insert_op delete_op = (λ h. absurd (cc), λ h. absurd (cc))
type_beq_iff delete_op insert_op = (λ h. absurd (cc), λ h. absurd (cc))
type_beq_iff delete_op delete_op = (λ _. refl, λ _. refl)

op_beq_iff : (a b : Operation) → (op_beq a b ≡ true) ↔ (a ≡ b)
op_beq_iff a b = ground (arith, type_beq_iff a.type b.type)

IsIn-count :
    (t : Operation → Bool) (op : Operation) (ops : List Operation)
    → IsIn op ops
    → t op ≡ true
    → 1 ≤ count_if t ops
IsIn-count t op [] h e = absurd h
IsIn-count t op (x ∷ ops) (inl same) e =
    let here : t x ≡ true = ap t same ∙ e in ground (arith, here)
IsIn-count t op (x ∷ ops) (inr h) e = ground (arith, IsIn-count t op ops h e)

count-IsIn :
    (t : Operation → Bool) (ops : List Operation)
    → 1 ≤ count_if t ops
    → (op : Operation) × IsIn op ops × (t op ≡ true)
count-IsIn t [] h = absurd (omega arith)
count-IsIn t (x ∷ ops) h = elim (Bool-cases (t x)) [
  | inl here ↦ (x, inl refl, here)
  | inr other ↦ let (op, there, e) = count-IsIn t ops (ground (arith, other)) in (op, inr there, e)
]

-- What passes every test as often holds the same operations.
pub same_counts-IsIn :
    (xs ys : List Operation)
    → ((t : Operation → Bool) → count_if t xs ≤ count_if t ys)
    → (op : Operation) → IsIn op xs
    → IsIn op ys
same_counts-IsIn xs ys le op h =
    let here = IsIn-count (op_beq op) op xs h ((op_beq_iff op op).1 refl) in
    let (op', there, e) = count-IsIn (op_beq op) ys (omega (arith, le (op_beq op))) in
    subst (λ o. IsIn o ys) (sym ((op_beq_iff op op').0 e)) there

after_all-is_some :
    (id : CharId) (ops : List Operation) (op : Operation) (o : Option Node)
    → IsIn op ops
    → inserts id op ≡ true
    → is_some (after_all id ops o) ≡ true
unfolding after_all
after_all-is_some id [] op o h i = absurd h
after_all-is_some id (x ∷ ops) op o (inl same) i =
    let here : inserts id x ≡ true = ap (inserts id) same ∙ i in
    rw (here, after_all-some id ops (or_else o (node_of x))) refl
after_all-is_some id (x ∷ ops) op o (inr h) i = after_all-is_some id ops op _ h i

-- A character stays, and one that was inserted is there.
Run-keeps :
    {e a : Engine} {ops : List Operation} (id : CharId)
    → IsValid e
    → Run e ops a
    → contains id e.seq ≡ true
    → contains id a.seq ≡ true
Run-keeps {e} {a} {ops} id v run h = elim (Option-cases (find id e.seq)) [
  | inl lost ↦ absurd (ground (arith, lost))
  | inr (n, found) ↦
      ap is_some (Run-find id v run ∙ ap (after_all id ops) found ∙ after_all-some id ops n)
]

Run-inserts :
    {e a : Engine} {ops : List Operation} (id : CharId) (op : Operation)
    → IsValid e
    → Run e ops a
    → IsIn op ops
    → inserts id op ≡ true
    → contains id a.seq ≡ true
Run-inserts {e} {a} {ops} id op v run h i =
    ap is_some (Run-find id v run) ∙ after_all-is_some id ops op (find id e.seq) h i

-- A deletion, or an insertion whose left neighbour is in the document or is inserted by one of the
-- operations and has a lower clock.
abbrev pub IsCaused : Engine → List Operation → Operation → Type 0
IsCaused e ops op =
    (op.type ≡ delete_op)
    ⊎ ((contains op.left e.seq ≡ true)
        ⊎ ((o : Operation) × IsIn o ops
            × (inserts op.left o ≡ true)
            × (op.left.clock < op.id.clock)))

pub IsIn-All :
    (P : Operation → Type 0) (ops : List Operation) (op : Operation)
    → All P ops
    → IsIn op ops
    → P op
IsIn-All P [] op h k = absurd k
IsIn-All P (x ∷ ops) op h (inl same) = subst P same h.0
IsIn-All P (x ∷ ops) op h (inr k) = IsIn-All P ops op h.1 k

List-cases :
    (ops : List Operation)
    → (ops ≡ []) ⊎ ((op : Operation) × (rest : List Operation) × (ops ≡ op ∷ rest))
List-cases [] = inl refl
List-cases (op ∷ rest) = inr (op, rest, refl)

blocked-insert :
    (op : Operation) (e : Engine) → can_apply op e ≡ false → contains op.left e.seq ≡ false
unfolding can_apply
blocked-insert op e h = elim (OpType-cases op.type) [
  | inl t ↦ rw t at h
  | inr t ↦ absurd (let h' : true ≡ false = rw t at h in cc)
]

blocked-type : (op : Operation) (e : Engine) → can_apply op e ≡ false → op.type ≡ delete_op → ⊥
unfolding can_apply
blocked-type op e h t = let h' : true ≡ false = rw t at h in cc

module _ (e a : Engine) (ops left done : List Operation) (v : IsValid e) (run : Run e done a)
    (shared : (t : Operation → Bool) → count_if t done + count_if t left ≡ count_if t ops)
    (blocked : Blocked a left) (caused : All (IsCaused e ops) ops) where
  none_waits : (bound : ℕ) (op : Operation) → op.id.clock < bound → IsIn op left → ⊥
  none_waits zero op lt h = omega arith
  none_waits (suc bound) op lt h =
      let stuck = IsIn-All (λ o. can_apply o a ≡ false) left op blocked h in
      let missing = blocked-insert op a stuck in
      let in_ops = same_counts-IsIn left ops (λ t. omega (arith, shared t)) op h in
      elim (IsIn-All (IsCaused e ops) ops op caused in_ops) [
        | inl t ↦ blocked-type op a stuck t
        | inr (inl known) ↦ let kept = Run-keeps op.left v run known in cc
        | inr (inr (o, there, i, lower)) ↦
            let some_one = IsIn-count (inserts op.left) o ops there i in
            elim (Bool-cases (nat_beq (count_if (inserts op.left) done) 0)) [
              | inl no_one ↦
                  let (o', waits, i') =
                    count-IsIn (inserts op.left) left
                      (ground (arith, shared (inserts op.left), no_one)) in
                  let same : o'.id ≡ op.left = ((inserts_iff op.left o').0 i').1 in
                  none_waits bound o' (omega (arith, ap (λ c. c.clock) same)) waits
              | inr some_done ↦
                  let (o', was, i') =
                    count-IsIn (inserts op.left) done (ground (arith, some_done)) in
                  let kept = Run-inserts op.left o' v run was i' in cc
            ]
      ]

  pub nothing_left : left ≡ []
  nothing_left = elim (List-cases left) [
    | inl empty ↦ empty
    | inr (op, rest, eq) ↦
        absurd (none_waits (suc op.id.clock) op (omega arith) (subst (IsIn op) (sym eq) (inl refl)))
  ]
