-- ===== src/Pipeline.antt =====
-- The pipeline between the network and the engine: src/pipeline.cpp and include/pipeline.h. Each
-- function is what one thread does while it holds `crdtMutex_`, so that the threads' interleavings
-- are sequences of these functions. `none` is an exception that leaves the function.
pub mod Draining
pub mod Handling
pub mod Delivering
pub mod Reordering
pub mod Syncing
pub mod Meeting
use cs4730_collaborative_tex.Base.{
  ℕ, zero, suc, ◌+◌, Bool, true, false, List, [], ◌∷◌, ◌++◌, Option, none, some, nat_beq, length,
  ◌||◌, if◌then◌else◌, ◌>>=◌,
}
use cs4730_collaborative_tex.Base.Int.{ℤ}
use cs4730_collaborative_tex.Rga.{
  Engine, Operation, apply_remote, can_apply, local_insert, local_delete,
}
use cs4730_collaborative_tex.Rga.Queries.{visible_offset_of, load_state}

-- What `onRemoteOp_` is called with.
abbrev pub Notice : Type 0
Notice = Operation × ℤ

-- What one pass of the `for` loop of `drainPending` leaves.
pub record Pass : Type 0 where
  pub engine : Engine
  pub notified : List Notice
  pub kept : List Operation
  pub progress : Bool

abbrev pub applied : Operation → Engine → Pass → Pass
applied op e p = record p {
  notified = (op, visible_offset_of op.id e.seq) ∷ p.notified;
  progress = true;
}

abbrev pub skipped : Operation → Pass → Pass
skipped op p = record p { kept = op ∷ p.kept }

-- The `for` loop of `drainPending`.
unfoldable pub scan : Engine → List Operation → Option Pass
scan e [] = some (record { engine = e; notified = []; kept = []; progress = false })
scan e (op ∷ ops) = elim (can_apply op e) [
  | true ↦ do e' ← apply_remote op e; p ← scan e' ops; some (applied op e' p)
  | false ↦ do p ← scan e ops; some (skipped op p)
]

-- What `drainPending` leaves.
pub record Drained : Type 0 where
  pub engine : Engine
  pub notified : List Notice
  pub pending : List Operation

-- The `while` loop of `drainPending`, on fuel.
unfoldable pub drain : ℕ → Engine → List Operation → Option Drained
drain zero e ops = some (record { engine = e; notified = []; pending = ops })
drain (suc f) e [] = some (record { engine = e; notified = []; pending = [] })
drain (suc f) e (op ∷ ops) = do
  p ← scan e (op ∷ ops)
  elim (p.progress) [
    | false ↦ some (record { engine = p.engine; notified = p.notified; pending = p.kept })
    | true ↦ do d ← drain f p.engine p.kept; some (record d { notified = p.notified ++ d.notified })
  ]

-- `drainPending`
unfoldable pub drain_pending : Engine → List Operation → Option Drained
drain_pending e ops = drain (length ops) e ops

-- The members of `Pipeline` that the threads share; `outgoing_` is read by the send thread.
pub record Pipeline : Type 0 where
  pub engine : Engine
  pub outgoing : List Operation
  pub syncing : Bool
  pub sync_buffer : List Operation
  pub pending : List Operation
  pub known : List ℕ

-- `Pipeline::localInsert`
unfoldable pub enqueue_insert : ℤ → ℕ → Pipeline → Option Pipeline
enqueue_insert at c p = do
  (e, op) ← local_insert at c p.engine
  some (record p { engine = e; outgoing = p.outgoing ++ op ∷ [] })

-- `Pipeline::localDelete`: an exception leaves the engine with its new clock and nothing to send.
unfoldable pub enqueue_delete : ℤ → Pipeline → Pipeline
enqueue_delete at p =
    let (e, sent) = local_delete at p.engine in
    record p { engine = e; outgoing = p.outgoing ++ elim sent [ none ↦ [] | some op ↦ op ∷ [] ] }

-- `knownSiteIDs_.find(sid) != knownSiteIDs_.end()`
unfoldable pub knows : ℕ → List ℕ → Bool
knows site [] = false
knows site (s ∷ ss) = nat_beq s site || knows site ss

-- What a function of the CRDT thread leaves: the calls of `onRemoteOp_` and of `onUnknownPeer_`.
pub record Handled : Type 0 where
  pub pipeline : Pipeline
  pub notified : List Notice
  pub unknown : List ℕ

-- The detection of unknown peers, after an operation that was not buffered.
abbrev pub meet : Operation → Pipeline → List Notice → Handled
meet op p notified =
    if knows op.id.site p.known
    then record { pipeline = p; notified = notified; unknown = [] }
    else record {
      pipeline = record p { known = op.id.site ∷ p.known };
      notified = notified;
      unknown = op.id.site ∷ [];
    }

-- `applyRemote` of an operation and the drain behind it.
unfoldable pub take_in : Operation → Engine → List Operation → Option Drained
take_in op e pending = do
  e' ← apply_remote op e
  d ← drain_pending e' pending
  some (record d { notified = (op, visible_offset_of op.id e'.seq) ∷ d.notified })

-- The body of `crdtLoop` for one operation.
unfoldable pub handle : Operation → Pipeline → Option Handled
handle op p =
    if p.syncing
    then some (record {
      pipeline = record p { sync_buffer = p.sync_buffer ++ op ∷ [] };
      notified = [];
      unknown = [];
    })
    else if can_apply op p.engine
    then (do
      d ← take_in op p.engine p.pending
      some (meet op (record p { engine = d.engine; pending = d.pending }) d.notified))
    else some (record {
      pipeline = record p { pending = p.pending ++ op ∷ [] };
      notified = [];
      unknown = [];
    })

-- `crdtLoop`, for the operations that it pops in order.
unfoldable pub crdt_loop : List Operation → Pipeline → Option Handled
crdt_loop [] p = some (record { pipeline = p; notified = []; unknown = [] })
crdt_loop (op ∷ ops) p = do
  h ← handle op p
  r ← crdt_loop ops h.pipeline
  some (record {
    pipeline = r.pipeline;
    notified = h.notified ++ r.notified;
    unknown = h.unknown ++ r.unknown;
  })

-- `syncState` before it asks for a state.
unfoldable pub begin_sync : Pipeline → Pipeline
begin_sync p = record p { syncing = true; sync_buffer = [] }

-- `syncState` after every peer failed.
unfoldable pub fail_sync : Pipeline → Pipeline
fail_sync p = record p { syncing = false; sync_buffer = [] }

-- The loop over `syncBuffer_`.
unfoldable pub replay : List Operation → Engine → List Operation → Option Drained
replay [] e pending = some (record { engine = e; notified = []; pending = pending })
replay (op ∷ ops) e pending = elim (can_apply op e) [
  | true ↦ do
    d ← take_in op e pending
    r ← replay ops d.engine d.pending
    some (record r { notified = d.notified ++ r.notified })
  | false ↦ replay ops e (pending ++ op ∷ [])
]

-- What `syncState` does with the state of a peer.
unfoldable pub consume : Engine → Pipeline → Option (Pipeline × List Notice)
consume state p = do
  r ← replay p.sync_buffer (load_state state p.engine) p.pending
  d ← drain_pending r.engine r.pending
  some (
    record p { engine = d.engine; pending = d.pending; syncing = false; sync_buffer = [] },
    r.notified ++ d.notified,
  )
