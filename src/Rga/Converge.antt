-- ===== src/Rga/Converge.antt =====
-- Peers that took in the same operations hold the same document.
use mathlib.Core.Option
use cs4730_collaborative_tex.Base.{
  ◌≡◌, refl, sym, ap, ◌∙◌, ◌↔◌, inl, inr, ℕ, true, false, List, ◌∷◌, Option, none, some, Bool-cases,
  Option-cases,
}
use cs4730_collaborative_tex.Rga.{
  CharId, id_eq, Node, Engine, new_engine, Operation, insert_op, find,
}
use cs4730_collaborative_tex.Rga.Invariant.{IsValid, new_engine-IsValid}
use cs4730_collaborative_tex.Rga.Trees.{IsTree, new_engine-IsTree}
use cs4730_collaborative_tex.Rga.Agree.{same_tree}
use cs4730_collaborative_tex.Rga.Histories.{
  IsIn, inserted, deleted, overtakes, settled, node_of, after_all, after_all-some, after_all-none,
  inserted-IsIn, IsIn-inserted, deleted-IsIn, IsIn-deleted,
}
use cs4730_collaborative_tex.Rga.Steps.{Run, idle, then_run, Step-IsValid, Step-IsTree, Step-find}

pub Run-IsValid : {e a : Engine} {ops : List Operation} → IsValid e → Run e ops a → IsValid a
Run-IsValid v (idle e) = v
Run-IsValid v (then_run s r) = Run-IsValid (Step-IsValid v s) r

Run-IsTree :
    {e a : Engine} {ops : List Operation} → IsValid e → IsTree e.seq → Run e ops a → IsTree a.seq
Run-IsTree v t (idle e) = t
Run-IsTree v t (then_run s r) = Run-IsTree (Step-IsValid v s) (Step-IsTree v t s) r

-- What a run leaves of a character.
pub Run-find :
    {e a : Engine} {ops : List Operation} (id : CharId)
    → IsValid e
    → Run e ops a
    → find id a.seq ≡ after_all id ops (find id e.seq)
unfolding after_all
Run-find id v (idle e) = refl
Run-find {ops = op ∷ ops} id v (then_run s r) =
    Run-find id (Step-IsValid v s) r ∙ ap (after_all id ops) (Step-find id v s)

same_inserted :
    (ops ops' : List Operation)
    → ((op : Operation) → IsIn op ops ↔ IsIn op ops')
    → ((i j : Operation)
        → IsIn i ops
        → IsIn j ops
        → i.type ≡ insert_op
        → j.type ≡ insert_op
        → i.id ≡ j.id
        → i ≡ j)
    → (id : CharId) → inserted id ops ≡ inserted id ops'
same_inserted ops ops' same one id = elim (Option-cases (inserted id ops)) [
  | inl lost ↦ elim (Option-cases (inserted id ops')) [
    | inl lost' ↦ lost ∙ sym lost'
    | inr (op, found) ↦
        let (there, t, here) = inserted-IsIn id ops' op found in
        let (first, found') = IsIn-inserted id ops op ((same op).1 there) t here in absurd (cc)
  ]
  | inr (op, found) ↦
      let (there, t, here) = inserted-IsIn id ops op found in
      let (op', found') = IsIn-inserted id ops' op ((same op).0 there) t here in
      let (there', t', here') = inserted-IsIn id ops' op' found' in
      found ∙ ap some (one op op' there ((same op').1 there') t t' (here ∙ sym here')) ∙ sym found'
]

deleted_mono :
    (ops ops' : List Operation)
    → ((op : Operation) → IsIn op ops → IsIn op ops')
    → (id : CharId) → deleted id ops ≡ true
    → deleted id ops' ≡ true
deleted_mono ops ops' sub id h =
    let (op, there, d) = deleted-IsIn id ops h in IsIn-deleted id ops' op (sub op there) d

same_deleted :
    (ops ops' : List Operation)
    → ((op : Operation) → IsIn op ops ↔ IsIn op ops')
    → (id : CharId) → deleted id ops ≡ deleted id ops'
same_deleted ops ops' same id = elim (Bool-cases (deleted id ops)) [
  | inl gone ↦ gone ∙ sym (deleted_mono ops ops' (λ op. (same op).0) id gone)
  | inr kept ↦ elim (Bool-cases (deleted id ops')) [
    | inl gone ↦ absurd (let gone' = deleted_mono ops' ops (λ op. (same op).1) id gone in cc)
    | inr kept' ↦ kept ∙ sym kept'
  ]
]

same_after :
    (ops ops' : List Operation) (id : CharId) (o : Option Node)
    → inserted id ops ≡ inserted id ops'
    → deleted id ops ≡ deleted id ops'
    → overtakes id ops ≡ false
    → overtakes id ops' ≡ false
    → after_all id ops o ≡ after_all id ops' o
same_after ops ops' id (some n) i d late late' =
    after_all-some id ops n ∙ ap (λ b. some (settled b n)) d ∙ sym (after_all-some id ops' n)
same_after ops ops' id none i d late late' =
    after_all-none id ops late
    ∙ ap (λ b. Option.map (λ op. settled b (node_of op)) (inserted id ops)) d
    ∙ ap (Option.map (λ op. settled (deleted id ops') (node_of op))) i
    ∙ sym (after_all-none id ops' late')

new_IsTree : (s : ℕ) → IsTree (new_engine s).seq
new_IsTree s = new_engine-IsTree (new_engine s).seq _ refl refl refl

-- Whatever a peer does after it started with a new document, its sequence lists the tree of left
-- neighbours: each character has a route, which is its left neighbour's and its own id behind it,
-- and the nodes stand in the order of their routes, in which a character comes before all below it
-- and of two below the same one the greater id comes first.
pub Run-listing :
    (s : ℕ) (ops : List Operation) (a : Engine) → Run (new_engine s) ops a → IsTree a.seq
Run-listing s ops a run = Run-IsTree (new_engine-IsValid s) (new_IsTree s) run

-- Two peers that started with a new document and took in the same operations, each its own by
-- `localInsert` and `localDelete` and the others' by `applyRemote`, hold the same sequence of nodes,
-- whatever the order and however often each operation came, if no two different insertions carry one
-- id and no peer took in the deletion of a character before its insertion.
pub Run-convergence :
    (s s' : ℕ) (ops ops' : List Operation) (a b : Engine)
    → Run (new_engine s) ops a
    → Run (new_engine s') ops' b
    → ((op : Operation) → IsIn op ops ↔ IsIn op ops')
    → ((i j : Operation)
        → IsIn i ops
        → IsIn j ops
        → i.type ≡ insert_op
        → j.type ≡ insert_op
        → i.id ≡ j.id
        → i ≡ j)
    → ((id : CharId) → overtakes id ops ≡ false)
    → ((id : CharId) → overtakes id ops' ≡ false)
    → a.seq ≡ b.seq
Run-convergence s s' ops ops' a b run run' same one late late' =
    let v = new_engine-IsValid s in
    let v' = new_engine-IsValid s' in
    let valid = Run-IsValid v run in
    same_tree a.seq b.seq (Run-IsTree v (new_IsTree s) run) (Run-IsTree v' (new_IsTree s') run')
      valid.linked valid.unique
      (λ id.
        Run-find id v run
        ∙ same_after ops ops' id _ (same_inserted ops ops' same one id)
            (same_deleted ops ops' same id) (late id) (late' id)
        ∙ sym (Run-find id v' run'))
