-- ===== src/Pipeline/Syncing.antt =====
-- `syncState`: a snapshot is loaded, or no peer has one.
use cs4730_collaborative_tex.Base.{
  ℕ, ◌+◌, ◌≡◌, refl, sym, ap, subst, ◌∙◌, inl, inr, true, false, List, [], ◌∷◌, ◌++◌, some, arith,
  Bool-cases, Option-cases, append_assoc, append-nil,
}
use cs4730_collaborative_tex.Base.Int.{ℤ}
use cs4730_collaborative_tex.Sort.Laws.{count_if}
use cs4730_collaborative_tex.Rga.{
  CharId, Engine, Operation, insert_op, contains, insert_node, visible_at, pred_int, apply_remote,
  local_insert, can_apply,
}
use cs4730_collaborative_tex.Rga.Remote.{apply_remote_known, took}
use cs4730_collaborative_tex.Rga.Queries.{load_state}
use cs4730_collaborative_tex.Rga.Invariant.{IsValid}
use cs4730_collaborative_tex.Rga.Steps.{Run, Run-IsValid, idle, Run-append}
use cs4730_collaborative_tex.Pipeline.{
  Notice, Drained, take_in, Pipeline, Handled, handle, crdt_loop, begin_sync, fail_sync, replay,
  consume,
}
use cs4730_collaborative_tex.Pipeline.Draining.{
  told, told-append, Blocked, count_if-append, IsShare, IsShare-then, drain_pending_drains,
}
use cs4730_collaborative_tex.Pipeline.Handling.{take_in_ends, crdt_loop_more}

replay_able :
    (op : Operation) (ops : List Operation) (e : Engine) (pending : List Operation) (d r : Drained)
    → can_apply op e ≡ true
    → take_in op e pending ≡ some d
    → replay ops d.engine d.pending ≡ some r
    → replay (op ∷ ops) e pending ≡ some (record r { notified = d.notified ++ r.notified })
unfolding replay
replay_able op ops e pending d r able ran rest = rw (replay, able, ran, rest) refl

replay_unable :
    (op : Operation) (ops : List Operation) (e : Engine) (pending : List Operation)
    → can_apply op e ≡ false
    → replay (op ∷ ops) e pending ≡ replay ops e (pending ++ op ∷ [])
unfolding replay
replay_unable op ops e pending unable = rw (replay, unable) refl

-- The loop over the buffer ends; what it applied and what waits is what waited and the buffer.
replay_ends :
    (ops : List Operation) (e : Engine) (pending : List Operation)
    → (r : Drained) × (replay ops e pending ≡ some r)
      × IsShare e (pending ++ ops) r.engine r.notified r.pending
unfolding replay
replay_ends [] e pending = (
  record { engine = e; notified = []; pending = pending },
  refl,
  record { ran = idle e; shared = λ t. omega (arith, count_if-append t pending []) },
)
replay_ends (op ∷ ops) e pending = elim (Bool-cases (can_apply op e)) [
  | inl able ↦
      let (d, ran, is) = take_in_ends op e pending able in
      let (r, rest, is') = replay_ends ops d.engine d.pending in
      (
        record r { notified = d.notified ++ r.notified },
        replay_able op ops e pending d r able ran rest,
        record {
          ran =
              subst (λ l. Run e l r.engine) (sym (told-append d.notified r.notified))
                (Run-append is.share.ran is'.ran);
          shared = λ t. omega (
            arith,
            ap (count_if t) (told-append d.notified r.notified),
            count_if-append t (told d.notified) (told r.notified),
            is.share.shared t,
            is'.shared t,
            count_if-append t d.pending ops,
            count_if-append t pending (op ∷ ops),
          );
        },
      )
  | inr unable ↦
      let (r, rest, is) = replay_ends ops e (pending ++ op ∷ []) in
      (
        r,
        replay_unable op ops e pending unable ∙ rest,
        record {
          ran = is.ran;
          shared = λ t. is.shared t ∙ ap (count_if t) (append_assoc pending (op ∷ []) ops);
        },
      )
]

load_state-IsValid : (state e : Engine) → IsValid state → IsValid (load_state state e)
load_state-IsValid state e v = record {
  headed = v.headed;
  unique = v.unique;
  clocks = v.clocks;
  linked = v.linked;
}

-- A pipeline that loads a valid state of a peer throws no exception and syncs no more. Its engine
-- holds that state and then the operations that it tells of, applied in that order, and is valid;
-- these and those that wait are the ones that waited and the ones that came during the sync, each as
-- often; none of those that wait can be applied.
pub consume_ends :
    (state : Engine) (p : Pipeline)
    → IsValid state
    → (p' : Pipeline) × (ns : List Notice) × (consume state p ≡ some (p', ns))
      × (p'.syncing ≡ false)
      × (p'.sync_buffer ≡ [])
      × IsShare (load_state state p.engine) (p.pending ++ p.sync_buffer) p'.engine ns p'.pending
      × Blocked p'.engine p'.pending
      × IsValid p'.engine
unfolding consume
consume_ends state p v =
    let (r, ran, is) = replay_ends p.sync_buffer (load_state state p.engine) p.pending in
    let (d, drained, is') = drain_pending_drains r.engine r.pending in
    let share = IsShare-then is is'.share in
    (
      record p { engine = d.engine; pending = d.pending; syncing = false; sync_buffer = [] },
      r.notified ++ d.notified,
      rw (consume, ran, drained) refl,
      refl,
      refl,
      share,
      is'.blocked,
      Run-IsValid (load_state-IsValid state p.engine v) share.ran,
    )

handle_syncing :
    (op : Operation) (p : Pipeline)
    → p.syncing ≡ true
    → handle op p
      ≡ some (record {
        pipeline = record p { sync_buffer = p.sync_buffer ++ op ∷ [] };
        notified = [];
        unknown = [];
      })
unfolding handle
handle_syncing op p h = ground (arith, h)

abbrev with_buffer : Pipeline → List Operation → Pipeline
with_buffer p b = record p { sync_buffer = b }

buffered :
    (ops : List Operation) (p : Pipeline)
    → p.syncing ≡ true
    → (h : Handled) × (crdt_loop ops p ≡ some h)
      × (h.notified ≡ [])
      × (h.pipeline ≡ record p { sync_buffer = p.sync_buffer ++ ops })
unfolding crdt_loop
buffered [] p s = (
  record { pipeline = p; notified = []; unknown = [] },
  refl,
  refl,
  ap (with_buffer p) (sym (append-nil p.sync_buffer)),
)
buffered (op ∷ ops) p s =
    let q : Pipeline = record p { sync_buffer = p.sync_buffer ++ op ∷ [] } in
    let (h, ran, silent, same) = buffered ops q s in
    (
      record { pipeline = h.pipeline; notified = h.notified; unknown = h.unknown },
      crdt_loop_more op ops p (record { pipeline = q; notified = []; unknown = [] }) h
          (handle_syncing op p s) ran,
      silent,
      same ∙ ap (with_buffer p) (append_assoc p.sync_buffer (op ∷ []) ops),
    )

-- The operations that come during a sync for which no peer has a state are lost: whatever they are,
-- the pipeline is afterwards the one that it is without them, and of none the user interface is told.
pub fail_sync_drops :
    (ops : List Operation) (p : Pipeline)
    → (h : Handled) × (crdt_loop ops (begin_sync p) ≡ some h)
      × (h.notified ≡ [])
      × (fail_sync h.pipeline ≡ fail_sync p)
unfolding begin_sync fail_sync
fail_sync_drops ops p =
    let (h, ran, silent, same) = buffered ops (begin_sync p) refl in
    (h, ran, silent, ap fail_sync same)

local_insert-id :
    (at : ℤ) (c : ℕ) (e e' : Engine) (op : Operation)
    → local_insert at c e ≡ some (e', op)
    → (op.type ≡ insert_op)
      × (op.id ≡ record { clock = e.clock + 1; site = e.site })
      × (e'.site ≡ e.site)
unfolding local_insert
local_insert-id at c e e' op ran =
    let left = visible_at (pred_int at) e.seq in
    let new : CharId = record { clock = e.clock + 1; site = e.site } in
    elim (Option-cases (insert_node new c left e.seq)) [
      | inl lost ↦ absurd (ground (arith))
      | inr (r, found) ↦
          let sent : op ≡ record { type = insert_op; id = new; left = left; value = c } =
            ground (arith) in
          let engine : e' ≡ record e { clock = e.clock + 1; seq = r } = ground (arith) in
          (ap (λ o. o.type) sent, ap (λ o. o.id) sent, ap (λ x. x.site) engine)
    ]

-- `loadState` takes over the clock of the peer, which can be behind. If a peer types a character and
-- then loads a state whose clock is the one that it had before, the next character that it types has
-- the id of the first, and every peer that has the first ignores the next.
pub load_state_reuses_id :
    (at at' : ℤ) (c c' : ℕ) (state e e' e'' : Engine) (op op' : Operation) (peer : Engine)
    → state.clock ≡ e.clock
    → local_insert at c e ≡ some (e', op)
    → local_insert at' c' (load_state state e') ≡ some (e'', op')
    → contains op.id peer.seq ≡ true
    → (op'.id ≡ op.id)
      × (peer' : Engine) × (apply_remote op' peer ≡ some peer')
      × (peer'.seq ≡ peer.seq)
load_state_reuses_id at at' c c' state e e' e'' op op' peer same first next known =
    let (t, i, s) = local_insert-id at c e e' op first in
    let (t', i', s') = local_insert-id at' c' (load_state state e') e'' op' next in
    let eq : op'.id ≡ op.id = i' ∙ ground (arith, same, s) ∙ sym i in
    (
      eq,
      took op' peer peer.seq,
      apply_remote_known op' peer t' (ap (λ j. contains j peer.seq) eq ∙ known),
      refl,
    )
