-- ===== src/Rga/Delivery.antt =====
-- What a peer shows when it receives the operations of another, in order and out of order.
use cs4730_collaborative_tex.Base.{
  true, ℕ, suc, ◌+◌, ◌≡◌, refl, sym, ap, subst, ◌∙◌, inl, inr, some, arith, length, Option-cases,
  is_some, ◌>>=◌,
}
use cs4730_collaborative_tex.Base.Int.{ℤ, pos}
use cs4730_collaborative_tex.Rga.{
  CharId, id_eq, sentinel, Engine, Operation, insert_op, delete_op, insert_node, tombstone,
  apply_remote, can_apply, local_insert, local_delete, visible_at, pred_int, delete_from, document,
}
use cs4730_collaborative_tex.Rga.Sequence.{Absent, find-Absent}
use cs4730_collaborative_tex.Rga.Invariant.{IsValid, newest-Absent}
use cs4730_collaborative_tex.Rga.Tombstones.{
  tombstone-Absent, delete_from-tombstone, length-document-tombstone,
}
use cs4730_collaborative_tex.Rga.Deletion.{local_delete_found, local_delete_lost}
use cs4730_collaborative_tex.Rga.Remote.{
  took, Outcome, apply_remote-Outcome, Outcome-apply_remote, apply_remote_delete,
  insert_behind-find,
}

-- What `localInsert` leaves and returns.
pub local_insert-parts :
    (p : ℤ) (c : ℕ) (e e' : Engine) (op : Operation)
    → local_insert p c e ≡ some (e', op)
    → (op.type ≡ insert_op)
      × (op.id.clock ≡ e.clock + 1)
      × (insert_node op.id op.value op.left e.seq ≡ some e'.seq)
unfolding local_insert
local_insert-parts p c e e' op ran =
    let left = visible_at (pred_int p) e.seq in
    let new : CharId = record { clock = e.clock + 1; site = e.site } in
    elim (Option-cases (insert_node new c left e.seq)) [
      | inl lost ↦ absurd (ground (arith))
      | inr (r, found) ↦
          let engine : e' ≡ record e { clock = e.clock + 1; seq = r } = ground (arith) in
          let sent : op ≡ record { type = insert_op; id = new; left = left; value = c } =
            ground (arith) in
          (
            ap (λ o. o.type) sent,
            ap (λ o. o.id.clock) sent,
            ap (λ o. insert_node o.id o.value o.left e.seq) sent
                ∙ found
                ∙ ap (λ x. some x.seq) (sym engine),
          )
    ]

-- A peer with the same sequence as a valid engine that receives what `localInsert` returned there
-- applies it without an exception and has the same sequence again.
pub apply_remote-local_insert :
    (p : ℤ) (c : ℕ) (e e' peer : Engine) (op : Operation)
    → IsValid e
    → peer.seq ≡ e.seq
    → local_insert p c e ≡ some (e', op)
    → (peer' : Engine) × (apply_remote op peer ≡ some peer') × (peer'.seq ≡ e'.seq)
apply_remote-local_insert p c e e' peer op v same ran =
    let (t, newer, found) = local_insert-parts p c e e' op ran in
    let new : Absent op.id peer.seq =
      subst (Absent op.id) (sym same)
        (newest-Absent e.clock op.id e.seq v.clocks (omega (arith, newer))) in
    (
      took op peer e'.seq,
      Outcome-apply_remote op peer e'.seq (
          inr (
            inr (
              t,
              ap is_some (find-Absent op.id peer.seq new),
              ap (insert_node op.id op.value op.left) same ∙ found,
            ))),
      refl,
    )

-- A peer with the same sequence that receives what `localDelete` returned, at a position where it
-- does not throw, has the same sequence again.
pub apply_remote-local_delete :
    (p : ℕ) (e e' peer : Engine) (op : Operation)
    → IsValid e
    → peer.seq ≡ e.seq
    → local_delete (pos p) e ≡ (e', some op)
    → (peer' : Engine) × (apply_remote op peer ≡ some peer') × (peer'.seq ≡ e'.seq)
apply_remote-local_delete p e e' peer op v same ran = elim (Option-cases (delete_from p e.seq)) [
  | inl lost ↦ absurd (let threw = local_delete_lost p e lost in cc)
  | inr ((i, r), found) ↦
      let done = local_delete_found p e i r found in
      let (marked, _) = delete_from-tombstone p e.seq i r v.unique found in
      let both = sym ran ∙ done in
      let sent : op ≡ record { type = delete_op; id = i; left = sentinel; value = 0 } =
        let mapped = ap (λ q. q.1) both in cc in
      let id : op.id ≡ i = ap (λ o. o.id) sent in
      let seq : e'.seq ≡ r = ap (λ q. q.0.seq) both in
      let t : op.type ≡ delete_op = ap (λ o. o.type) sent in
      (
        took op peer (tombstone op.id peer.seq),
        apply_remote_delete op peer t,
        ap (λ j. tombstone j peer.seq) id ∙ ap (tombstone i) same ∙ sym marked ∙ sym seq,
      )
]

-- A deletion that overtakes the insertion of its character is lost: a peer with a valid engine that
-- receives the two in this order shows one character more than if it receives them in the order they
-- were sent, though neither order makes `applyRemote` throw, and `canApply` lets the deletion pass
-- both before the insertion and after it.
pub delete_overtakes_insert :
    (i d : Operation) (e e' : Engine)
    → IsValid e
    → i.type ≡ insert_op
    → d.type ≡ delete_op
    → d.id ≡ i.id
    → Absent i.id e.seq
    → apply_remote i e ≡ some e'
    → (in_order overtaken : Engine) × ((apply_remote i e >>= apply_remote d) ≡ some in_order)
      × ((apply_remote d e >>= apply_remote i) ≡ some overtaken)
      × (length (document overtaken.seq) ≡ suc (length (document in_order.seq)))
      × (can_apply d e ≡ true)
      × (can_apply d e' ≡ true)
unfolding insert_node can_apply
delete_overtakes_insert i d e e' v ti td same new ran =
    let (r, left, how) = apply_remote-Outcome i e e' ran in
    elim how [
      | inl (t, _) ↦ absurd (let clash : insert_op ≡ delete_op = sym ti ∙ t in cc)
      | inr (inl (_, known, _)) ↦
          absurd (let lost = find-Absent i.id e.seq new in ground (arith, lost))
      | inr (inr (t, fresh, found)) ↦
          let behind = took d e (tombstone d.id e.seq) in
          let untouched : behind.seq ≡ e.seq =
            ap (λ j. tombstone j e.seq) same ∙ tombstone-Absent i.id e.seq new in
          let again : Outcome i behind.seq r =
            subst (λ s. Outcome i s r) (sym untouched) (inr (inr (t, fresh, found))) in
          (
            took d e' (tombstone d.id e'.seq),
            took i behind r,
            ap (λ o. o >>= apply_remote d) ran ∙ apply_remote_delete d e' td,
            ap (λ o. o >>= apply_remote i) (apply_remote_delete d e td)
                ∙ Outcome-apply_remote i behind r again,
            length-document-tombstone i.id r _ (insert_behind-find e.seq _ e.seq r new found) refl
                ∙ ap (λ s. suc (length (document s)))
                    (ap (λ j. tombstone j r) (sym same)
                      ∙ ap (λ x. tombstone d.id x.seq) (sym left)),
            ground (arith, td),
            ground (arith, td),
          )
    ]
