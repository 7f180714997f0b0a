-- ===== src/Serializer/Snapshots.antt =====
-- A snapshot that is encoded is decoded to the same nodes.
use cs4730_collaborative_tex.Base.{
  ℕ, ◌+◌, ◌*◌, ◌%◌, ◌^◌, ◌<◌, ◌≡◌, ◌∙◌, refl, ap, Bool, true, false, not, List, [], ◌∷◌, ◌++◌,
  append_assoc, arith, nat_beq, length, length-append, if◌then◌else◌, All,
}
use cs4730_collaborative_tex.Rga.{Engine}
use cs4730_collaborative_tex.Serializer.{
  ok, write_id, read_byte, read_uint32, write_uint32, write_int32, state_type,
}
use cs4730_collaborative_tex.Serializer.State.{
  WireNode, WireState, wire_state, write_node, write_nodes, state_payload, encode_state, read_node,
  read_nodes, decode_state,
}
use cs4730_collaborative_tex.Serializer.RoundTrip.{
  IsInt32, IsId, read_uint32-write_uint32, read_int32-write_int32, read_id-write_id,
  read_header-build_frame,
}

pub record IsNode (n : WireNode) : Type 0 where
  pub id_fits : IsId n.id
  pub left_fits : IsId n.left

-- The numbers fit in their fields, and the payload in a frame.
pub record IsSnapshot (s : WireState) : Type 0 where
  pub site_fits : s.site < 2 ^ 32
  pub clock_fits : IsInt32 s.clock
  pub nodes_fit : All IsNode s.nodes
  pub size_fits : 12 + length s.nodes * 18 < 2 ^ 32

flag_read : (b : Bool) → not (nat_beq (if b then 1 else 0) 0) ≡ b
flag_read true = refl
flag_read false = refl

read_node-write_node :
    (n : WireNode) (r : List ℕ) → IsNode n → read_node (write_node n ++ r) ≡ ok (n, r)
unfolding read_node write_node read_byte
read_node-write_node n r h =
    let flag : ℕ = if n.tombstoned then 1 else 0 in
    rw (
      append_assoc (write_id n.id) (write_id n.left ++ (n.value ∷ flag ∷ [])) r,
      append_assoc (write_id n.left) (n.value ∷ flag ∷ []) r,
      read_id-write_id n.id (write_id n.left ++ (n.value ∷ flag ∷ r)) h.id_fits,
      read_id-write_id n.left (n.value ∷ flag ∷ r) h.left_fits,
      flag_read n.tombstoned,
    )

length-write_node : (n : WireNode) → length (write_node n) ≡ 18
unfolding write_node write_id write_int32 write_uint32
length-write_node n = refl

length-write_nodes : (ns : List WireNode) → length (write_nodes ns) ≡ length ns * 18
unfolding write_nodes
length-write_nodes [] = omega arith
length-write_nodes (n ∷ ns) = omega (
  arith,
  length-append (write_node n) (write_nodes ns),
  length-write_node n,
  length-write_nodes ns,
)

read_nodes-write_nodes :
    (ns : List WireNode) → All IsNode ns → read_nodes (length ns) (write_nodes ns) ≡ ok ns
unfolding read_nodes write_nodes
read_nodes-write_nodes [] h = refl
read_nodes-write_nodes (n ∷ ns) h =
    rw (read_node-write_node n (write_nodes ns) h.0, read_nodes-write_nodes ns h.1)

length-state_payload : (s : WireState) → length (state_payload s) ≡ 12 + length s.nodes * 18
unfolding state_payload write_uint32 write_int32
length-state_payload s = omega (arith, length-write_nodes s.nodes)

-- The state of an engine is decoded from its encoding: its site and clock, and every node behind the
-- sentinel with its id, left neighbour, value and mark, in the order of the sequence.
pub decode_state-encode_state :
    (e : Engine) → IsSnapshot (wire_state e) → decode_state (encode_state e) ≡ ok (wire_state e)
unfolding decode_state encode_state
decode_state-encode_state e h =
    let s = wire_state e in
    let size = length-state_payload s in
    let nodes = write_nodes s.nodes in
    let count : length s.nodes % 2 ^ 32 ≡ length s.nodes = omega (arith, h.size_fits) in
    let payload : state_payload s
        ≡ write_uint32 s.site ++ (write_int32 s.clock ++ (write_uint32 (length s.nodes) ++ nodes)) =
      unfold state_payload in
      ap (λ n. write_uint32 s.site ++ (write_int32 s.clock ++ (write_uint32 n ++ nodes))) count in
    ground (
      arith,
      size,
      read_header-build_frame state_type (state_payload s) (omega (arith, size, h.size_fits)),
      ap read_uint32 payload
          ∙ read_uint32-write_uint32 s.site
              (write_int32 s.clock ++ (write_uint32 (length s.nodes) ++ nodes)) h.site_fits,
      read_int32-write_int32 s.clock (write_uint32 (length s.nodes) ++ nodes) h.clock_fits,
      read_uint32-write_uint32 (length s.nodes) nodes (omega (arith, h.size_fits)),
      read_nodes-write_nodes s.nodes h.nodes_fit,
    )
