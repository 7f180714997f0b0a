-- ===== src/Serializer.antt =====
-- The wire format: src/serializer.cpp and include/serializer.h. A buffer is a list of bytes. A clock
-- is an `int32_t`, which a foreign peer can send negative: what is read is a `WireOperation`, whose
-- clocks are integers. A `char` is its byte.
pub mod RoundTrip
pub mod Reads
pub mod State
pub mod Snapshots
use cs4730_collaborative_tex.Base.{
  ℕ, ◌+◌, ◌-◌, ◌*◌, ◌/◌, ◌%◌, ◌^◌, Bool, true, false, not, ◌||◌, List, [], ◌∷◌, ◌++◌, ltb, nat_beq,
  length, if◌then◌else◌,
}
use cs4730_collaborative_tex.Base.Int.{ℤ, pos, negsuc}
use cs4730_collaborative_tex.Rga.{CharId, id_eq, OpType, insert_op, delete_op, Operation}

-- Why a decoder throws. `past_end` is a read behind the end of the buffer, which C++ leaves undefined.
pub data Fault : Type 0 where
  short_header wrong_type short_payload past_end : Fault

pub data Decoded (A : Type 0) : Type 0 where
  ok : A → Decoded A
  fault : Fault → Decoded A

infixl 5 ◌>>=◌ ◌>>◌
abbrev pub ◌>>=◌ : {A B : Type 0} → Decoded A → (A → Decoded B) → Decoded B
ok a >>= f = f a
fault e >>= f = fault e

abbrev pub ◌>>◌ : {B : Type 0} → Decoded (Unit {0}) → Decoded B → Decoded B
m >> k = m >>= λ _. k

-- `if (test) throw …`
abbrev pub throw_if : Bool → Fault → Decoded (Unit {0})
throw_if true e = fault e
throw_if false e = ok tt

-- `writeUint16`
unfoldable pub write_uint16 : ℕ → List ℕ
write_uint16 v = (v / 2 ^ 8) % 256 ∷ v % 256 ∷ []

-- `readUint16`, with the rest of the buffer for the offset.
unfoldable pub read_uint16 : List ℕ → Decoded (ℕ × List ℕ)
read_uint16 (a ∷ b ∷ r) = ok (a * 2 ^ 8 + b, r)
read_uint16 (a ∷ []) = fault past_end
read_uint16 [] = fault past_end

-- `writeUint32`
unfoldable pub write_uint32 : ℕ → List ℕ
write_uint32 v = (v / 2 ^ 24) % 256 ∷ (v / 2 ^ 16) % 256 ∷ (v / 2 ^ 8) % 256 ∷ v % 256 ∷ []

-- `readUint32`
unfoldable pub read_uint32 : List ℕ → Decoded (ℕ × List ℕ)
read_uint32 (a ∷ b ∷ c ∷ d ∷ r) = ok (a * 2 ^ 24 + b * 2 ^ 16 + c * 2 ^ 8 + d, r)
read_uint32 (a ∷ b ∷ c ∷ []) = fault past_end
read_uint32 (a ∷ b ∷ []) = fault past_end
read_uint32 (a ∷ []) = fault past_end
read_uint32 [] = fault past_end

-- `data[offset++]`
unfoldable pub read_byte : List ℕ → Decoded (ℕ × List ℕ)
read_byte [] = fault past_end
read_byte (a ∷ r) = ok (a, r)

-- `static_cast<uint32_t>(val)`
unfoldable pub to_unsigned : ℤ → ℕ
to_unsigned (pos n) = n % 2 ^ 32
to_unsigned (negsuc n) = 2 ^ 32 - 1 - n % 2 ^ 32

-- `static_cast<int32_t>(val)` of a number below 2^32.
unfoldable pub to_signed : ℕ → ℤ
to_signed w = if ltb w (2 ^ 31) then pos w else negsuc (2 ^ 32 - 1 - w)

-- `writeInt32`
unfoldable pub write_int32 : ℤ → List ℕ
write_int32 v = write_uint32 (to_unsigned v)

-- `readInt32`
unfoldable pub read_int32 : List ℕ → Decoded (ℤ × List ℕ)
read_int32 s = do (w, r) ← read_uint32 s; ok (to_signed w, r)

-- `MsgType`
abbrev pub operation_type : ℕ
operation_type = 1

abbrev pub state_type : ℕ
state_type = 2

abbrev pub cursor_type : ℕ
cursor_type = 3

-- `buildFrame`: the payload's size is cast to 32 bits.
unfoldable pub build_frame : ℕ → List ℕ → List ℕ
build_frame type payload = type ∷ (write_uint32 (length payload % 2 ^ 32) ++ payload)

-- The checks of the header that the decoders share, up to the size of the payload: that size and
-- what follows it.
unfoldable pub read_header : ℕ → List ℕ → Decoded (ℕ × List ℕ)
read_header type bytes = do
  throw_if (ltb (length bytes) 5) short_header
  (byte, r) ← read_byte bytes
  throw_if (not (nat_beq byte type)) wrong_type
  read_uint32 r

-- `encodeCursor`
unfoldable pub encode_cursor : ℕ → ℤ → List ℕ
encode_cursor site p = build_frame cursor_type (write_uint32 site ++ write_int32 p)

-- `decodeCursor`
unfoldable pub decode_cursor : List ℕ → Decoded (ℕ × ℤ)
decode_cursor bytes = do
  (len, r) ← read_header cursor_type bytes
  throw_if (ltb (length r) len || ltb len 8) short_payload
  (site, r) ← read_uint32 r
  (p, r) ← read_int32 r
  ok (site, p)

-- A `CharID` and an `Operation` as they are on the wire.
pub record WireId : Type 0 where
  pub clock : ℤ
  pub site : ℕ

pub record WireOperation : Type 0 where
  pub type : OpType
  pub id : WireId
  pub left : WireId
  pub value : ℕ

abbrev pub wire_id : CharId → WireId
wire_id i = record { clock = pos i.clock; site = i.site }

abbrev pub wire_operation : Operation → WireOperation
wire_operation op = record {
  type = op.type;
  id = wire_id op.id;
  left = wire_id op.left;
  value = op.value;
}

unfoldable pub write_id : WireId → List ℕ
write_id i = write_int32 i.clock ++ write_uint32 i.site

unfoldable pub read_id : List ℕ → Decoded (WireId × List ℕ)
read_id s = do
  (clock, r) ← read_int32 s
  (site, r) ← read_uint32 r
  ok (record { clock = clock; site = site }, r)

-- The byte of an operation's type, and the type that a byte stands for.
abbrev pub type_byte : OpType → ℕ
type_byte insert_op = 0
type_byte delete_op = 1

abbrev pub byte_type : ℕ → OpType
byte_type b = if nat_beq b 0 then insert_op else delete_op

unfoldable pub operation_payload : WireOperation → List ℕ
operation_payload op = type_byte op.type ∷ (write_id op.id ++ (write_id op.left ++ op.value ∷ []))

-- `encode`
unfoldable pub encode : WireOperation → List ℕ
encode op = build_frame operation_type (operation_payload op)

-- `decode`, from the payload on.
unfoldable pub read_operation : List ℕ → Decoded WireOperation
read_operation s = do
  (type, r) ← read_byte s
  (id, r) ← read_id r
  (left, r) ← read_id r
  (value, r) ← read_byte r
  ok (record { type = byte_type type; id = id; left = left; value = value })

-- `decode`
unfoldable pub decode : List ℕ → Decoded WireOperation
decode bytes = do
  (len, r) ← read_header operation_type bytes
  throw_if (ltb (length r) len) short_payload
  throw_if (ltb len 18) short_payload
  read_operation r
