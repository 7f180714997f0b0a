-- ===== src/Tests/Network.antt =====
-- Concrete runs of the peer manager and of state sync.
use cs4730_collaborative_tex.Base.{
  ℕ, ◌+◌, ◌^◌, ◌≤◌, ◌≡◌, ◌↔◌, refl, List, [], ◌∷◌, ◌++◌, Option, none, some, arith, if◌then◌else◌,
}
use cs4730_collaborative_tex.Base.Eq.{nat_eq, text_eq, ◌==◌}
use cs4730_collaborative_tex.Text.{Text, codes}
use cs4730_collaborative_tex.Text.Decimal.{print}
use cs4730_collaborative_tex.Dict.{lookup}
use cs4730_collaborative_tex.Rga.{new_engine}
use cs4730_collaborative_tex.Serializer.{
  ok, fault, build_frame, write_uint32, write_int32, to_unsigned, to_signed, read_header, read_byte,
  read_uint32, read_int32,
}
use cs4730_collaborative_tex.Serializer.State.{
  WireState, wire_state, state_payload, write_nodes, read_nodes, decode_state,
}
use cs4730_collaborative_tex.Peers.{
  PeerManager, RunState, Input, join_type, message, process_message, run,
}
use cs4730_collaborative_tex.Peers.Callbacks.{follow, is_active, run_alternates}
use cs4730_collaborative_tex.Peers.Messages.{process_message-message}
use cs4730_collaborative_tex.Peers.Silence.{seen_at, last_heard, run-last_heard}
use cs4730_collaborative_tex.StateSync.{
  Link, delivered, overran, read_all, write_all, handle_client, receive_payload, request_state,
}
use cs4730_collaborative_tex.StateSync.Serving.{Serves, request_state-Serves}
use cs4730_collaborative_tex.StateSync.Bounds.{receive_payload-overran}

abbrev first : PeerManager
first = record { site = 1; port = 5001; socket = []; peers = [] }

abbrev second : PeerManager
second = record { site = 2; port = 5002; socket = []; peers = [] }

-- The second one joins and is silent for seven seconds.
abbrev joined : Input
joined = record {
  datagram = some (message join_type second, codes "10.0.0.2:5002");
  at_message = 10;
  at_heartbeat = 20;
  at_check = 30;
}

abbrev silent : Input
silent = record {
  datagram = none;
  at_message = 0;
  at_heartbeat = 7000000000;
  at_check = 7001000000;
}

abbrev started : RunState
started = record { manager = first; last_heartbeat = 0 }

run_alternates_example :
    follow 2 (is_active 2 first) (run (joined ∷ silent ∷ []) started).1
    ≡ some (is_active 2 (run (joined ∷ silent ∷ []) started).0.manager)
run_alternates_example = run_alternates (joined ∷ silent ∷ []) started tt 2

process_message-message_example :
    lookup 2
      (process_message 10
        (message join_type second)
        (codes "10.0.0.2" ++ b':' ∷ print 40000)
        first).0.peers
    ≡ some (record { addr = codes "10.0.0.2" ++ b':' ∷ print 5002; last_seen = 10 })
unfolding lookup
process_message-message_example =
    process_message-message 10 join_type 40000 (codes "10.0.0.2") second first (omega arith)
      (omega arith) (λ e. cc) tt 2

run-last_heard_example :
    seen_at 2 (run (joined ∷ silent ∷ []) started).0.manager
    ≡ last_heard 2 (joined ∷ silent ∷ []) none
unfolding lookup
run-last_heard_example = run-last_heard (joined ∷ silent ∷ []) started tt 2 (λ e. cc)

-- A client that decodes what it gets.
abbrev decoded : List ℕ → WireState → Option WireState
decoded bytes s = elim (decode_state bytes) [ ok s' ↦ some s' | fault _ ↦ none ]

abbrev small : List ℕ
small = state_payload (wire_state (new_engine 7))

-- The request is sent in one call, and the frame arrives in two pieces.
abbrev link : Link
link = record {
  calls = 1 ∷ [];
  incoming = (2 ∷ 0 ∷ 0 ∷ []) ∷ (0 ∷ 12 ∷ 0 ∷ 0 ∷ 0 ∷ 7 ∷ 0 ∷ 0 ∷ 0 ∷ 0 ∷ 0 ∷ 0 ∷ 0 ∷ 0 ∷ []) ∷ [];
}

abbrev network : Text → Option Link
network addr = if addr == codes "b:10002" then some link else none

link-Serves : Serves small link
unfolding state_payload write_uint32 write_int32 write_nodes build_frame write_all read_all
    handle_client to_unsigned
link-Serves = record {
  calls = 17 ∷ [];
  incoming = (1 ∷ []) ∷ [];
  fits = omega arith;
  asked = refl;
  some_request = (omega arith, tt);
  request = refl;
  sent = refl;
  some_reply = (omega arith, (omega arith, tt));
  reply = refl;
}

abbrev own_state : WireState
own_state = wire_state (new_engine 9)

request_state-Serves_example :
    request_state decoded network
      (codes "a:10002" ∷ codes "b:10002" ∷ codes "c:10002" ∷ [])
      own_state
    ≡ delivered (wire_state (new_engine 7))
unfolding state_payload decode_state build_frame write_uint32 write_int32 write_nodes request_state
    read_header read_byte read_uint32 read_int32 read_nodes to_signed to_unsigned
request_state-Serves_example =
    request_state-Serves decoded network own_state (codes "a:10002" ∷ []) (codes "c:10002" ∷ [])
      (codes "b:10002") link small (wire_state (new_engine 7)) (refl, tt) refl link-Serves refl

receive_payload-overran_example :
    (receive_payload decoded (2 ∷ 255 ∷ 255 ∷ 255 ∷ 255 ∷ []) 4294967295 [] own_state ≡ overran)
    ↔ (2 ^ 32 ≤ 5 + 4294967295)
receive_payload-overran_example =
    receive_payload-overran decoded 2 255 255 255 255 4294967295 [] own_state (omega arith)
