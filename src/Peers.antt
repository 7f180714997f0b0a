-- ===== src/Peers.antt =====
-- Peer discovery: src/peer_manager.cpp, include/peer_manager.h and `parseAddr` of include/net_utils.h.
-- A time is a number of nanoseconds of the steady clock. The socket is the list of the addresses that
-- it sends to; a text of bytes is a list of codes. Both callbacks are set, as the program sets them.
pub mod Map
pub mod Messages
pub mod Callbacks
pub mod Silence
use cs4730_collaborative_tex.Base.{
  ℕ, ◌-◌, ◌/◌, Bool, List, [], ◌∷◌, ◌++◌, Option, none, some, ltb, leb, nat_beq, length,
  if◌then◌else◌,
}
use cs4730_collaborative_tex.Base.Eq.{nat_eq, ◌==◌}
use cs4730_collaborative_tex.Text.{Text}
use cs4730_collaborative_tex.Text.Decimal.{print}
use cs4730_collaborative_tex.Dict.{Dict, lookup}
use cs4730_collaborative_tex.Serializer.{
  Decoded, ok, fault, ◌>>=◌, write_uint16, read_uint16, write_uint32, read_uint32, read_byte,
}

-- `HBMsgType`: a byte.
abbrev pub join_type : ℕ
join_type = 1

abbrev pub leave_type : ℕ
leave_type = 2

abbrev pub heartbeat_type : ℕ
heartbeat_type = 3

abbrev pub heartbeat_interval_ms : ℕ
heartbeat_interval_ms = 2000

abbrev pub dead_threshold_ms : ℕ
dead_threshold_ms = 6000

-- `std::chrono::duration_cast<std::chrono::milliseconds>(now - then).count()`
abbrev pub ms_between : ℕ → ℕ → ℕ
ms_between since now = (now - since) / 1000000

-- `PeerInfo`
pub record PeerInfo : Type 0 where
  pub addr : Text
  pub last_seen : ℕ

-- `PeerManager`, with the port that its socket listens on. `peers` is a `std::map`, in the order of
-- its keys.
pub record PeerManager : Type 0 where
  pub site : ℕ
  pub port : ℕ
  pub socket : List Text
  pub peers : Dict ℕ PeerInfo

-- What a call does besides changing the state: a datagram to every address of the socket, and the two
-- callbacks.
pub data Action : Type 0 where
  send : List ℕ → Action
  on_join on_leave : ℕ → Text → Action

-- `peers_[site] = info`
unfoldable pub store_peer : ℕ → PeerInfo → Dict ℕ PeerInfo → Dict ℕ PeerInfo
store_peer k v [] = (k, v) ∷ []
store_peer k v ((j, w) ∷ d) =
    let rest = store_peer k v d in
    if j == k then (j, v) ∷ d else if ltb k j then (k, v) ∷ (j, w) ∷ d else (j, w) ∷ rest

-- `peers_.erase(it)` for the entry of a key.
unfoldable pub remove : ℕ → Dict ℕ PeerInfo → Dict ℕ PeerInfo
remove k [] = []
remove k ((j, w) ∷ d) = let rest = remove k d in if j == k then d else (j, w) ∷ rest

-- `sendMsg(type)`: the message.
unfoldable pub message : ℕ → PeerManager → List ℕ
message type m = type ∷ (write_uint32 m.site ++ write_uint16 m.port)

-- The text in front of the last colon, if there is one.
before_colon : Text → Option Text
before_colon [] = none
before_colon (c ∷ s) = elim (before_colon s) [
  | some ip ↦ some (c ∷ ip)
  | none ↦ if nat_beq c b':' then some [] else none
]

-- `parseAddr(addr, ip, port)`: the address. The port behind the colon, which the socket's `receive`
-- has written, is not used.
unfoldable pub ip_of : Text → Text
unfolding before_colon
ip_of addr = elim (before_colon addr) [ none ↦ addr | some ip ↦ ip ]

read_fields : List ℕ → Decoded (ℕ × ℕ × ℕ)
read_fields bytes = do
  (type, r) ← read_byte bytes
  (site, r) ← read_uint32 r
  (port, r) ← read_uint16 r
  ok (type, site, port)

-- The fields of a message; `none` is a datagram of fewer than 7 bytes.
unfoldable pub read_message : List ℕ → Option (ℕ × ℕ × ℕ)
unfolding read_fields
read_message bytes =
    if ltb (length bytes) 7
    then none
    else elim (read_fields bytes) [ fault _ ↦ none | ok fields ↦ some fields ]

-- `processMsg` behind the reading of the fields.
unfoldable pub take_message : ℕ → ℕ × ℕ × ℕ → Text → PeerManager → PeerManager × List Action
take_message now (type, sender, port) sender_addr m =
    let canon_addr = ip_of sender_addr ++ (b':' ∷ print port) in
    if sender == m.site
    then (m, [])
    else if type == leave_type
    then elim (lookup sender m.peers) [
      | none ↦ (m, [])
      | some p ↦ (record m { peers = remove sender m.peers }, on_leave sender p.addr ∷ [])
    ]
    else elim (lookup sender m.peers) [
      | none ↦ (
        record m {
          peers = store_peer sender (record { addr = canon_addr; last_seen = now }) m.peers;
          socket = m.socket ++ canon_addr ∷ [];
        },
        send (message join_type m) ∷ on_join sender canon_addr ∷ [],
      )
      | some p ↦ (record m { peers = store_peer sender (record p { last_seen = now }) m.peers }, [])
    ]

-- `processMsg(data, senderAddr)` at a time.
unfoldable pub process_message : ℕ → List ℕ → Text → PeerManager → PeerManager × List Action
unfolding read_message take_message
process_message now bytes sender_addr m = elim (read_message bytes) [
  | none ↦ (m, [])
  | some fields ↦ take_message now fields sender_addr m
]

abbrev pub is_dead : ℕ → PeerInfo → Bool
is_dead now p = ltb dead_threshold_ms (ms_between p.last_seen now)

-- The loop of `checkDeadPeers`: the peers that stay, and those that go.
unfoldable pub split_dead : ℕ → Dict ℕ PeerInfo → Dict ℕ PeerInfo × List Action
split_dead now [] = ([], [])
split_dead now ((k, p) ∷ d) =
    let (kept, dead) = split_dead now d in
    if is_dead now p then (kept, on_leave k p.addr ∷ dead) else ((k, p) ∷ kept, dead)

-- `checkDeadPeers` at a time.
unfoldable pub check_dead : ℕ → PeerManager → PeerManager × List Action
unfolding split_dead
check_dead now m = let (kept, dead) = split_dead now m.peers in (record m { peers = kept }, dead)

-- The manager and the time of its last heartbeat.
pub record RunState : Type 0 where
  pub manager : PeerManager
  pub last_heartbeat : ℕ

-- What one round of `run` gets from outside: a datagram with its sender, if one came within the
-- timeout, and the times at which it reads the clock: in `processMsg`, after it, and in
-- `checkDeadPeers`.
pub record Input : Type 0 where
  pub datagram : Option (List ℕ × Text)
  pub at_message : ℕ
  pub at_heartbeat : ℕ
  pub at_check : ℕ

-- The `try` block of `run`.
unfoldable pub handle_datagram :
    ℕ → Option (List ℕ × Text) → PeerManager → PeerManager × List Action
unfolding process_message
handle_datagram now none m = (m, [])
handle_datagram now (some (bytes, sender_addr)) m = process_message now bytes sender_addr m

abbrev pub is_due : ℕ → RunState → Bool
is_due now l = leb heartbeat_interval_ms (ms_between l.last_heartbeat now)

-- One round of `run`.
unfoldable pub run_once : Input → RunState → RunState × List Action
unfolding handle_datagram check_dead
run_once i l =
    let (m, first) = handle_datagram i.at_message i.datagram l.manager in
    let due = is_due i.at_heartbeat l in
    let beat = if due then send (message heartbeat_type m) ∷ [] else [] in
    let (m', dead) = check_dead i.at_check m in
    (
      record { manager = m'; last_heartbeat = if due then i.at_heartbeat else l.last_heartbeat },
      first ++ (beat ++ dead),
    )

-- `run`, for the rounds that there are before it is stopped.
unfoldable pub run : List Input → RunState → RunState × List Action
unfolding run_once
run [] l = (l, [])
run (i ∷ is) l =
    let (l', first) = run_once i l in let (l'', rest) = run is l' in (l'', first ++ rest)

-- `activePeers`
unfoldable pub active_peers : Dict ℕ PeerInfo → List (ℕ × Text)
active_peers [] = []
active_peers ((k, p) ∷ d) = (k, p.addr) ∷ active_peers d
