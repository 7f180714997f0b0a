-- ===== src/Rga/Steps.antt =====
-- The steps of a peer: operations of others by `applyRemote`, and its own by `localInsert` and
-- `localDelete`.
use mathlib.Core.Option
use cs4730_collaborative_tex.Base.{
  ◌≡◌, ◌≢◌, sym, ap, subst, ◌∙◌, inl, inr, ℕ, true, List, [], ◌∷◌, ◌++◌, none, some, arith,
  Option-cases, is_some,
}
use cs4730_collaborative_tex.Base.Int.{ℤ, pos, negsuc}
use cs4730_collaborative_tex.Rga.{
  CharId, id_beq_iff, id_eq, sentinel, Node, Engine, Operation, delete_op, find, contains,
  tombstone, insert_behind, insert_node, apply_remote, local_insert, local_delete, delete_from,
}
use cs4730_collaborative_tex.Rga.Sequence.{find-Absent, Absent-find, Unique}
use cs4730_collaborative_tex.Rga.Invariant.{
  Headed, IsValid, newest-Absent, length-Headed, local_insert-IsValid,
}
use cs4730_collaborative_tex.Rga.Tombstones.{delete_from-tombstone}
use cs4730_collaborative_tex.Rga.Deletion.{
  local_delete_found, local_delete_lost, local_delete-IsValid,
}
use cs4730_collaborative_tex.Rga.Remote.{
  Outcome, apply_remote-Outcome, apply_remote-IsValid, contains-find, insert_behind-find,
}
use cs4730_collaborative_tex.Rga.Delivery.{local_insert-parts}
use cs4730_collaborative_tex.Rga.Paths.{contains-found}
use cs4730_collaborative_tex.Rga.Preorder.{All-imp, insert_behind-left}
use cs4730_collaborative_tex.Rga.Index.{
  marked, find-tombstone, find-tombstone_other, find-insert_behind_other,
}
use cs4730_collaborative_tex.Rga.Trees.{IsTree, tombstone-IsTree, insert_behind-IsTree}
use cs4730_collaborative_tex.Rga.Agree.{selves-found}
use cs4730_collaborative_tex.Rga.Histories.{op_cases, node_of, after}

-- One step of a peer, with the operation that it takes in or sends.
pub data Step : Engine → Operation → Engine → Type 0 where
  received : (op : Operation) (e e' : Engine) → apply_remote op e ≡ some e' → Step e op e'
  typed :
      (p : ℤ) (c : ℕ) (op : Operation) (e e' : Engine)
      → local_insert p c e ≡ some (e', op)
      → Step e op e'
  erased :
      (p : ℤ) (op : Operation) (e e' : Engine) → local_delete p e ≡ (e', some op) → Step e op e'

-- Any number of steps.
pub data Run : Engine → List Operation → Engine → Type 0 where
  idle : (e : Engine) → Run e [] e
  then_run :
      {e e' e'' : Engine} {op : Operation} {ops : List Operation}
      → Step e op e'
      → Run e' ops e''
      → Run e (op ∷ ops) e''

local_delete_negsuc :
    (n : ℕ) (e e' : Engine) (op : Operation) → local_delete (negsuc n) e ≡ (e', some op) → ⊥
unfolding local_delete
local_delete_negsuc n e e' op h = let sent = ap (λ q. q.1) h in cc

-- Each step leaves the sequence that `applyRemote` leaves for its operation.
pub Step-Outcome :
    {e e' : Engine} {op : Operation} → IsValid e → Step e op e' → Outcome op e.seq e'.seq
Step-Outcome v (received op e e' ran) =
    let (r, same, how) = apply_remote-Outcome op e e' ran in
    subst (Outcome op e.seq) (sym (ap (λ x. x.seq) same)) how
Step-Outcome v (typed p c op e e' ran) =
    let (t, newer, found) = local_insert-parts p c e e' op ran in
    inr (
      inr (
        t,
        ap is_some (
            find-Absent op.id e.seq
              (newest-Absent e.clock op.id e.seq v.clocks (omega (arith, newer)))),
        found,
      ))
Step-Outcome v (erased (negsuc n) op e e' ran) = absurd (local_delete_negsuc n e e' op ran)
Step-Outcome v (erased (pos p) op e e' ran) = elim (Option-cases (delete_from p e.seq)) [
  | inl lost ↦ absurd (let threw = local_delete_lost p e lost in cc)
  | inr ((i, r), found) ↦
      let both = sym ran ∙ local_delete_found p e i r found in
      let (marks, _) = delete_from-tombstone p e.seq i r v.unique found in
      let sent : op ≡ record { type = delete_op; id = i; left = sentinel; value = 0 } =
        let mapped = ap (λ q. q.1) both in cc in
      inl (
        ap (λ o. o.type) sent,
        ap (λ q. q.0.seq) both ∙ marks ∙ ap (λ j. tombstone j e.seq) (sym (ap (λ o. o.id) sent)),
      )
]

pub Step-IsValid : {e e' : Engine} {op : Operation} → IsValid e → Step e op e' → IsValid e'
Step-IsValid v (received op e e' ran) = apply_remote-IsValid op e e' v ran
Step-IsValid v (typed p c op e e' ran) = local_insert-IsValid p c e e' op v ran
Step-IsValid v (erased p op e e' ran) = subst (λ q. IsValid q.0) ran (local_delete-IsValid p e v)

pub Run-IsValid : {e e' : Engine} {ops : List Operation} → IsValid e → Run e ops e' → IsValid e'
Run-IsValid v (idle e) = v
Run-IsValid v (then_run step run) = Run-IsValid (Step-IsValid v step) run

Headed-contains : (ns : List Node) → Headed ns → contains sentinel ns ≡ true
unfolding find
Headed-contains [] h = absurd h
Headed-contains (n ∷ ns) h = ground (arith, h.0, id_beq_iff n.id sentinel)

found-left :
    (seq : List Node) (node : Node) (r : List Node)
    → Unique seq
    → insert_behind seq node seq ≡ some r
    → contains node.left seq ≡ true
found-left seq node r u ran =
    let (m, here, found) =
      insert_behind-left (λ n. find n.id seq ≡ some n) seq node seq r (selves-found seq u) ran in
    subst (λ i. contains i seq ≡ true) here (ap is_some found)

-- What `applyRemote` leaves lists a tree again.
Outcome-IsTree :
    (op : Operation) (e : Engine) (r : List Node)
    → IsValid e
    → IsTree e.seq
    → Outcome op e.seq r
    → IsTree r
unfolding insert_node
Outcome-IsTree op e r v t (inl (_, eq)) = subst IsTree (sym eq) (tombstone-IsTree op.id e.seq t)
Outcome-IsTree op e r v t (inr (inl (_, _, eq))) = subst IsTree (sym eq) t
Outcome-IsTree op e r v t (inr (inr (_, new, ran))) =
    insert_behind-IsTree e.seq t v.linked (length-Headed e.seq v.headed)
      (Headed-contains e.seq v.headed)
      (All-imp e.seq (λ n h. ap is_some h) (selves-found e.seq v.unique)) (node_of op) new
      (found-left e.seq (node_of op) r v.unique ran) r ran

pub Step-IsTree :
    {e e' : Engine} {op : Operation} → IsValid e → IsTree e.seq → Step e op e' → IsTree e'.seq
Step-IsTree {e} {e'} {op} v t s = Outcome-IsTree op e e'.seq v t (Step-Outcome v s)

-- What is found after an operation.
Outcome-find :
    (op : Operation) (seq r : List Node) (id : CharId)
    → Outcome op seq r
    → find id r ≡ after id op (find id seq)
unfolding insert_node
Outcome-find op seq r id how = elim (op_cases id op) [
  | inl (same, t, i, d) ↦ elim how [
    | inl (t', _) ↦ absurd (cc)
    | inr (inl (_, known, eq)) ↦
        let (n, found) = contains-found id seq (subst (λ j. contains j seq ≡ true) same known) in
        rw (i, found) (ap (find id) eq ∙ found)
    | inr (inr (_, new, ran)) ↦
        let lost : find id seq ≡ none =
          subst (λ j. find j seq ≡ none) same (contains-find op.id seq new) in
        let found =
          insert_behind-find seq (node_of op) seq r
            (Absent-find op.id seq (contains-find op.id seq new)) ran in
        rw (i, lost) (subst (λ j. find j r ≡ some (node_of op)) same found)
  ]
  | inr (inl (same, t, i, d)) ↦ elim how [
    | inl (_, eq) ↦
        rw (i, d)
          (ap (find id) eq
            ∙ subst (λ j. find id (tombstone j seq) ≡ Option.map marked (find id seq)) (sym same)
                (find-tombstone id seq))
    | inr (inl (t', _, _)) ↦ absurd (cc)
    | inr (inr (t', _, _)) ↦ absurd (cc)
  ]
  | inr (inr (other, i, d)) ↦
      let ne : id ≢ op.id = λ eq. other (sym eq) in
      rw (i, d)
        (elim how [
          | inl (_, eq) ↦ ap (find id) eq ∙ find-tombstone_other id op.id seq ne
          | inr (inl (_, known, eq)) ↦ ap (find id) eq
          | inr (inr (_, new, ran)) ↦ find-insert_behind_other id seq (node_of op) seq r ne ran
        ])
]

pub Step-find :
    {e e' : Engine} {op : Operation} (id : CharId)
    → IsValid e
    → Step e op e'
    → find id e'.seq ≡ after id op (find id e.seq)
Step-find {e} {e'} {op} id v s = Outcome-find op e.seq e'.seq id (Step-Outcome v s)

pub Run-append :
    {e e' e'' : Engine} {a b : List Operation} → Run e a e' → Run e' b e'' → Run e (a ++ b) e''
Run-append (idle e) r' = r'
Run-append (then_run s r) r' = then_run s (Run-append r r')
