-- ===== src/Tests/Pipelines.antt =====
-- Pipelines that take in operations in and out of order, and that sync.
use cs4730_collaborative_tex.Base.{
  ℕ, ◌≡◌, refl, Bool, List, [], ◌∷◌, some, arith, inl, inr, true, false, All,
}
use cs4730_collaborative_tex.Base.Int.{pos}
use cs4730_collaborative_tex.Sort.Laws.{count_if}
use cs4730_collaborative_tex.Rga.{
  id_eq, sentinel, Node, Engine, Operation, insert_op, new_engine, find, contains, local_insert,
  apply_remote, can_apply,
}
use cs4730_collaborative_tex.Rga.Invariant.{IsValid, new_engine-IsValid}
use cs4730_collaborative_tex.Rga.Histories.{IsIn}
use cs4730_collaborative_tex.Rga.Queries.{load_state, visible_offset_of}
use cs4730_collaborative_tex.Rga.Steps.{Run}
use cs4730_collaborative_tex.Pipeline.{
  Notice, Drained, drain_pending, Pipeline, Handled, handle, crdt_loop, begin_sync, fail_sync,
  consume, drain, take_in, knows,
}
use cs4730_collaborative_tex.Pipeline.Draining.{
  told, Blocked, IsShare, IsDrained, drain_pending_ends,
}
use cs4730_collaborative_tex.Pipeline.Handling.{IsFair, crdt_loop-IsFair}
use cs4730_collaborative_tex.Pipeline.Delivering.{IsCaused}
use cs4730_collaborative_tex.Pipeline.Reordering.{IsFresh, crdt_loop_delivers, crdt_loop-reordering}
use cs4730_collaborative_tex.Pipeline.Syncing.{consume_ends, fail_sync_drops, load_state_reuses_id}
use cs4730_collaborative_tex.Tests.Converging.{type_a, type_b, both_typed, first_peer}

-- A letter behind the first one.
abbrev type_c : Operation
type_c = record {
  type = insert_op;
  id = record { clock = 2; site = 2 };
  left = type_a.id;
  value = b'c';
}

abbrev fresh : ℕ → Pipeline
fresh site = record {
  engine = new_engine site;
  outgoing = [];
  syncing = false;
  sync_buffer = [];
  pending = [];
  known = site ∷ [];
}

fresh-IsFresh : (site : ℕ) → IsFresh (new_engine site) (fresh site)
fresh-IsFresh site = record { engine = refl; nothing = refl; live = refl }

-- The second letter comes before the first, on which it waits.
drain_pending_ends_example :
    (d : Drained) × (drain_pending (new_engine 3) (type_c ∷ type_a ∷ []) ≡ some d)
    × IsDrained (new_engine 3) (type_c ∷ type_a ∷ []) d
    × IsValid d.engine
drain_pending_ends_example =
    drain_pending_ends (new_engine 3) (type_c ∷ type_a ∷ []) (new_engine-IsValid 3)

crdt_loop-IsFair_example :
    (h : Handled) × (crdt_loop (type_c ∷ type_b ∷ []) (fresh 3) ≡ some h)
    × IsFair (fresh 3) (type_c ∷ type_b ∷ []) h
    × IsValid h.pipeline.engine
crdt_loop-IsFair_example =
    crdt_loop-IsFair (type_c ∷ type_b ∷ []) (fresh 3) refl (new_engine-IsValid 3)

late_first-IsCaused :
    All (IsCaused (new_engine 3) (type_c ∷ type_a ∷ type_b ∷ [])) (type_c ∷ type_a ∷ type_b ∷ [])
unfolding find
late_first-IsCaused =
    (inr (inr (type_a, inr (inl refl), refl, omega arith)), (inr (inl refl), (inr (inl refl), tt)))

crdt_loop_delivers_example :
    (h : Handled) × (crdt_loop (type_c ∷ type_a ∷ type_b ∷ []) (fresh 3) ≡ some h)
    × (h.pipeline.pending ≡ [])
    × Run (new_engine 3) (told h.notified) h.pipeline.engine
    × ((t : Operation → Bool)
        → count_if t (told h.notified) ≡ count_if t (type_c ∷ type_a ∷ type_b ∷ []))
crdt_loop_delivers_example =
    crdt_loop_delivers (new_engine 3) (fresh 3) (type_c ∷ type_a ∷ type_b ∷ []) (fresh-IsFresh 3)
      (new_engine-IsValid 3) late_first-IsCaused

reordered :
    (t : Operation → Bool)
    → count_if t (type_c ∷ type_a ∷ type_b ∷ []) ≡ count_if t (type_b ∷ type_a ∷ type_c ∷ [])
reordered t = omega arith

distinct_ids :
    (i j : Operation)
    → IsIn i (type_c ∷ type_a ∷ type_b ∷ [])
    → IsIn j (type_c ∷ type_a ∷ type_b ∷ [])
    → i.id ≡ j.id
    → i ≡ j
distinct_ids i j h k e = ground arith

crdt_loop-reordering_example :
    (h h' : Handled) × (crdt_loop (type_c ∷ type_a ∷ type_b ∷ []) (fresh 3) ≡ some h)
    × (crdt_loop (type_b ∷ type_a ∷ type_c ∷ []) (fresh 4) ≡ some h')
    × (h.pipeline.engine.seq ≡ h'.pipeline.engine.seq)
crdt_loop-reordering_example =
    crdt_loop-reordering 3 4 (fresh 3) (fresh 4) (type_c ∷ type_a ∷ type_b ∷ [])
      (type_b ∷ type_a ∷ type_c ∷ []) (fresh-IsFresh 3) (fresh-IsFresh 4) reordered
      (refl, (refl, (refl, tt))) late_first-IsCaused distinct_ids

-- A sync during which the first letter came while the second was waiting.
abbrev syncing_peer : Pipeline
syncing_peer = record {
  engine = new_engine 3;
  outgoing = [];
  syncing = true;
  sync_buffer = type_a ∷ [];
  pending = type_c ∷ [];
  known = 3 ∷ [];
}

consume_ends_example :
    (p' : Pipeline) × (ns : List Notice) × (consume (new_engine 8) syncing_peer ≡ some (p', ns))
    × (p'.syncing ≡ false)
    × (p'.sync_buffer ≡ [])
    × IsShare
        (load_state (new_engine 8) (new_engine 3))
        (type_c ∷ type_a ∷ [])
        p'.engine
        ns
        p'.pending
    × Blocked p'.engine p'.pending
    × IsValid p'.engine
consume_ends_example = consume_ends (new_engine 8) syncing_peer (new_engine-IsValid 8)

fail_sync_drops_example :
    (h : Handled) × (crdt_loop (type_a ∷ type_c ∷ []) (begin_sync (fresh 3)) ≡ some h)
    × (h.notified ≡ [])
    × (fail_sync h.pipeline ≡ fail_sync (fresh 3))
fail_sync_drops_example = fail_sync_drops (type_a ∷ type_c ∷ []) (fresh 3)

abbrev typed_again : Operation
typed_again = record { type = insert_op; id = type_a.id; left = sentinel; value = b'z' }

abbrev with_letter : ℕ → Engine
with_letter c = record {
  site = 1;
  clock = 1;
  seq =
      record { id = sentinel; value = 0; tombstoned = true; left = sentinel }
      ∷ record { id = type_a.id; value = c; tombstoned = false; left = sentinel }
      ∷ [];
}

typed_a : local_insert (pos 0) b'a' (new_engine 1) ≡ some (with_letter b'a', type_a)
unfolding local_insert
typed_a = refl

typed_z :
    local_insert (pos 0) b'z' (load_state (new_engine 2) (with_letter b'a'))
    ≡ some (with_letter b'z', typed_again)
unfolding local_insert
typed_z = refl

known_a : contains type_a.id both_typed ≡ true
unfolding find
known_a = refl

load_state_reuses_id_example :
    (typed_again.id ≡ type_a.id)
    × (peer' : Engine) × (apply_remote typed_again first_peer ≡ some peer')
    × (peer'.seq ≡ both_typed)
load_state_reuses_id_example =
    load_state_reuses_id (pos 0) (pos 0) b'a' b'z' (new_engine 2) (new_engine 1) (with_letter b'a')
      (with_letter b'z') type_a typed_again first_peer refl typed_a typed_z known_a

-- The letters of two sites, of which one is known.
abbrev met_one : Handled
met_one = record {
  pipeline = record {
    engine = record { site = 1; clock = 2; seq = first_two };
    outgoing = [];
    syncing = false;
    sync_buffer = [];
    pending = [];
    known = 2 ∷ 1 ∷ [];
  };
  notified = (type_a, pos 0) ∷ (type_b, pos 0) ∷ (type_b, pos 0) ∷ [];
  unknown = 2 ∷ [];
}
  where
    first_two : List Node
    first_two =
        record { id = sentinel; value = 0; tombstoned = true; left = sentinel }
        ∷ record { id = type_b.id; value = b'b'; tombstoned = false; left = sentinel }
        ∷ record { id = type_a.id; value = b'a'; tombstoned = false; left = sentinel }
        ∷ []

met_two : crdt_loop (type_a ∷ type_b ∷ type_b ∷ []) (fresh 1) ≡ some met_one
unfolding crdt_loop handle take_in drain_pending drain apply_remote can_apply visible_offset_of
    knows
met_two = refl
