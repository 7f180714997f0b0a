-- ===== src/Serializer/State.antt =====
-- Snapshots of a document on the wire: `encodeState` and `decodeState`.
use cs4730_collaborative_tex.Base.{
  ℕ, zero, suc, ◌+◌, ◌*◌, ◌%◌, ◌^◌, Bool, not, List, [], ◌∷◌, ◌++◌, map, keep, ltb, nat_beq, length,
  if◌then◌else◌,
}
use cs4730_collaborative_tex.Base.Eq.{◌==◌}
use cs4730_collaborative_tex.Base.Int.{ℤ, pos}
use cs4730_collaborative_tex.Rga.{id_eq, sentinel, Node, Engine}
use cs4730_collaborative_tex.Serializer.{
  Decoded, ok, ◌>>=◌, ◌>>◌, throw_if, short_payload, WireId, wire_id, write_id, read_id, read_byte,
  read_uint32, read_int32, write_uint32, write_int32, build_frame, read_header, state_type,
}

pub record WireNode : Type 0 where
  pub id : WireId
  pub left : WireId
  pub value : ℕ
  pub tombstoned : Bool

-- What a snapshot holds: the sender's site and clock, and its nodes behind the sentinel.
pub record WireState : Type 0 where
  pub site : ℕ
  pub clock : ℤ
  pub nodes : List WireNode

abbrev pub wire_node : Node → WireNode
wire_node n = record {
  id = wire_id n.id;
  left = wire_id n.left;
  value = n.value;
  tombstoned = n.tombstoned;
}

-- `node.id == SENTINEL_ID` is skipped.
abbrev pub wire_state : Engine → WireState
wire_state e = record {
  site = e.site;
  clock = pos e.clock;
  nodes = map wire_node (keep (λ n. not (n.id == sentinel)) e.seq);
}

unfoldable pub write_node : WireNode → List ℕ
write_node n =
    write_id n.id ++ (write_id n.left ++ (n.value ∷ (if n.tombstoned then 1 else 0) ∷ []))

unfoldable pub write_nodes : List WireNode → List ℕ
write_nodes [] = []
write_nodes (n ∷ ns) = write_node n ++ write_nodes ns

unfoldable pub state_payload : WireState → List ℕ
state_payload s =
    write_uint32 s.site
    ++ (write_int32 s.clock ++ (write_uint32 (length s.nodes % 2 ^ 32) ++ write_nodes s.nodes))

-- `encodeState`
unfoldable pub encode_state : Engine → List ℕ
encode_state e = build_frame state_type (state_payload (wire_state e))

unfoldable pub read_node : List ℕ → Decoded (WireNode × List ℕ)
read_node s = do
  (id, r) ← read_id s
  (left, r) ← read_id r
  (value, r) ← read_byte r
  (gone, r) ← read_byte r
  ok (record { id = id; left = left; value = value; tombstoned = not (nat_beq gone 0) }, r)

-- The loop over the nodes.
unfoldable pub read_nodes : ℕ → List ℕ → Decoded (List WireNode)
read_nodes zero s = ok []
read_nodes (suc n) s = do (node, r) ← read_node s; nodes ← read_nodes n r; ok (node ∷ nodes)

-- `decodeState`
unfoldable pub decode_state : List ℕ → Decoded WireState
decode_state bytes = do
  (len, r) ← read_header state_type bytes
  throw_if (ltb (length r) len) short_payload
  throw_if (ltb len 12) short_payload
  (site, r) ← read_uint32 r
  (clock, r) ← read_int32 r
  (count, r) ← read_uint32 r
  throw_if (ltb len (12 + count * 18)) short_payload
  nodes ← read_nodes count r
  ok (record { site = site; clock = clock; nodes = nodes })
