-- ===== src/Pipeline/Reordering.antt =====
-- Operations that arrive in another order.
use cs4730_collaborative_tex.Base.{
  ℕ, ◌+◌, ◌≡◌, refl, sym, ap, subst, ◌∙◌, inl, inr, Bool, false, List, [], ◌∷◌, ◌++◌, some, arith,
  All,
}
use cs4730_collaborative_tex.Sort.Laws.{count_if}
use cs4730_collaborative_tex.Rga.{
  CharId, Engine, new_engine, Operation, insert_op, delete_op, can_apply,
}
use cs4730_collaborative_tex.Rga.Invariant.{IsValid, new_engine-IsValid}
use cs4730_collaborative_tex.Rga.Histories.{IsIn, overtakes, op_cases}
use cs4730_collaborative_tex.Rga.Steps.{Run}
use cs4730_collaborative_tex.Rga.Converge.{Run-convergence}
use cs4730_collaborative_tex.Pipeline.{Pipeline, Handled, crdt_loop}
use cs4730_collaborative_tex.Pipeline.Draining.{told}
use cs4730_collaborative_tex.Pipeline.Handling.{crdt_loop_takes}
use cs4730_collaborative_tex.Pipeline.Delivering.{
  IsCaused, nothing_left, same_counts-IsIn, IsIn-All,
}

-- A pipeline that starts with an engine.
pub record IsFresh (e : Engine) (p : Pipeline) : Type 0 where
  pub engine : p.engine ≡ e
  pub nothing : p.pending ≡ []
  pub live : p.syncing ≡ false

-- Operations that arrive in any order, repeated or not, are all applied, each as often as it came,
-- and none waits at the end, if each of them is a deletion or an insertion behind a character that
-- the valid engine holds or that another of them inserts with a lower clock.
pub crdt_loop_delivers :
    (e : Engine) (p : Pipeline) (ops : List Operation)
    → IsFresh e p
    → IsValid e
    → All (IsCaused e ops) ops
    → (h : Handled) × (crdt_loop ops p ≡ some h)
      × (h.pipeline.pending ≡ [])
      × Run e (told h.notified) h.pipeline.engine
      × ((t : Operation → Bool) → count_if t (told h.notified) ≡ count_if t ops)
crdt_loop_delivers e p ops fresh v caused =
    let (h, ran, is) = crdt_loop_takes ops p fresh.live in
    let run : Run e (told h.notified) h.pipeline.engine =
      subst (λ x. Run x (told h.notified) h.pipeline.engine) fresh.engine is.share.ran in
    let shared : (t : Operation → Bool)
        → count_if t (told h.notified) + count_if t h.pipeline.pending ≡ count_if t ops =
      λ t. is.share.shared t ∙ ap (λ w. count_if t (w ++ ops)) fresh.nothing in
    let blocked =
      is.blocked (subst (All (λ op. can_apply op p.engine ≡ false)) (sym fresh.nothing) tt) in
    let empty =
      nothing_left e h.pipeline.engine ops h.pipeline.pending (told h.notified) v run shared blocked
        caused in
    (h, ran, empty, run, λ t. omega (arith, shared t, ap (count_if t) empty))

All-tabulate :
    (P : Operation → Type 0) (ops : List Operation)
    → ((op : Operation) → IsIn op ops → P op)
    → All P ops
All-tabulate P [] f = tt
All-tabulate P (x ∷ ops) f = (f x (inl refl), All-tabulate P ops (λ op h. f op (inr h)))

-- Nothing overtakes where nothing is deleted.
insertions-overtakes :
    (id : CharId) (ops : List Operation)
    → All (λ op. op.type ≡ insert_op) ops
    → overtakes id ops ≡ false
unfolding overtakes
insertions-overtakes id [] h = refl
insertions-overtakes id (op ∷ ops) h = elim (op_cases id op) [
  | inl (_, _, i, d) ↦ ground (arith, i)
  | inr (inl (_, t, i, d)) ↦ absurd (let clash : insert_op ≡ delete_op = sym h.0 ∙ t in cc)
  | inr (inr (_, i, d)) ↦ ground (arith, i, d, insertions-overtakes id ops h.1)
]

IsCaused-reordered :
    (s s' : ℕ) (ops ops' : List Operation) (op : Operation)
    → ((o : Operation) → IsIn o ops → IsIn o ops')
    → IsCaused (new_engine s) ops op
    → IsCaused (new_engine s') ops' op
IsCaused-reordered s s' ops ops' op f (inl t) = inl t
IsCaused-reordered s s' ops ops' op f (inr (inl known)) = inr (inl known)
IsCaused-reordered s s' ops ops' op f (inr (inr (o, there, i, lower))) =
    inr (inr (o, f o there, i, lower))

-- Two peers with a new document that take in the same insertions, the one in another order than the
-- other, hold the same sequence of nodes in the end, if each insertion is behind the sentinel or
-- behind a character that another of them inserts with a lower clock, and no two different ones carry
-- one id.
pub crdt_loop-reordering :
    (s s' : ℕ) (p p' : Pipeline) (ops ops' : List Operation)
    → IsFresh (new_engine s) p
    → IsFresh (new_engine s') p'
    → ((t : Operation → Bool) → count_if t ops ≡ count_if t ops')
    → All (λ op. op.type ≡ insert_op) ops
    → All (IsCaused (new_engine s) ops) ops
    → ((i j : Operation) → IsIn i ops → IsIn j ops → i.id ≡ j.id → i ≡ j)
    → (h h' : Handled) × (crdt_loop ops p ≡ some h)
      × (crdt_loop ops' p' ≡ some h')
      × (h.pipeline.engine.seq ≡ h'.pipeline.engine.seq)
crdt_loop-reordering s s' p p' ops ops' fresh fresh' same inserting caused one =
    let there : (o : Operation) → IsIn o ops → IsIn o ops' =
      same_counts-IsIn ops ops' (λ t. omega (arith, same t)) in
    let back : (o : Operation) → IsIn o ops' → IsIn o ops =
      same_counts-IsIn ops' ops (λ t. omega (arith, same t)) in
    let caused' : All (IsCaused (new_engine s') ops') ops' =
      All-tabulate (IsCaused (new_engine s') ops') ops' (λ op h.
        IsCaused-reordered s s' ops ops' op there
          (IsIn-All (IsCaused (new_engine s) ops) ops op caused (back op h))) in
    let (h, ran, _, run, each) =
      crdt_loop_delivers (new_engine s) p ops fresh (new_engine-IsValid s) caused in
    let (h', ran', _, run', each') =
      crdt_loop_delivers (new_engine s') p' ops' fresh' (new_engine-IsValid s') caused' in
    let told-ops : (o : Operation) → IsIn o (told h.notified) → IsIn o ops =
      same_counts-IsIn (told h.notified) ops (λ t. omega (arith, each t)) in
    let told'-ops : (o : Operation) → IsIn o (told h'.notified) → IsIn o ops =
      same_counts-IsIn (told h'.notified) ops (λ t. omega (arith, each' t, same t)) in
    let only_inserts : (l : List Operation)
        → ((o : Operation) → IsIn o l → IsIn o ops)
        → All (λ op. op.type ≡ insert_op) l =
      λ l f.
        All-tabulate (λ op. op.type ≡ insert_op) l
          (λ op k. IsIn-All (λ op. op.type ≡ insert_op) ops op inserting (f op k)) in
    (
      h,
      h',
      ran,
      ran',
      Run-convergence s s' (told h.notified) (told h'.notified) h.pipeline.engine h'.pipeline.engine
          run run'
          (λ op. (
            same_counts-IsIn (told h.notified) (told h'.notified)
                (λ t. omega (arith, each t, each' t, same t)) op,
            same_counts-IsIn (told h'.notified) (told h.notified)
                (λ t. omega (arith, each t, each' t, same t)) op,
          ))
          (λ i j hi hj ti tj e. one i j (told-ops i hi) (told-ops j hj) e)
          (λ id.
            insertions-overtakes id (told h.notified) (only_inserts (told h.notified) told-ops))
          (λ id.
            insertions-overtakes id (told h'.notified) (only_inserts (told h'.notified) told'-ops)),
    )
