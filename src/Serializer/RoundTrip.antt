-- ===== src/Serializer/RoundTrip.antt =====
-- What is written is read back.
use cs4730_collaborative_tex.Base.{
  ℕ, ◌+◌, ◌*◌, ◌/◌, ◌%◌, ◌^◌, ◌<◌, ◌≡◌, ◌∙◌, refl, sym, ap, List, [], ◌∷◌, ◌++◌, append_assoc,
  append-nil, arith, length, length-append,
}
use cs4730_collaborative_tex.Base.Int.{ℤ, pos, negsuc}
use cs4730_collaborative_tex.Rga.{OpType, insert_op, delete_op}
use cs4730_collaborative_tex.Serializer.{
  ok, ◌>>=◌, write_uint32, read_uint32, read_byte, to_unsigned, to_signed, write_int32, read_int32,
  build_frame, read_header, encode_cursor, decode_cursor, cursor_type, WireId, WireOperation,
  write_id, read_id, operation_type, operation_payload, read_operation, encode, decode, type_byte,
  byte_type,
}

-- The numbers of `int32_t`, and ids whose fields fit.
abbrev pub IsInt32 : ℤ → Type 0
IsInt32 (pos n) = n < 2 ^ 31
IsInt32 (negsuc n) = n < 2 ^ 31

pub record IsId (i : WireId) : Type 0 where
  pub clock_fits : IsInt32 i.clock
  pub site_fits : i.site < 2 ^ 32

pub read_uint32-write_uint32 :
    (v : ℕ) (r : List ℕ) → v < 2 ^ 32 → read_uint32 (write_uint32 v ++ r) ≡ ok (v, r)
unfolding read_uint32 write_uint32
read_uint32-write_uint32 v r h =
    let same : (v / 2 ^ 24) % 256 * 2 ^ 24
          + (v / 2 ^ 16) % 256 * 2 ^ 16
          + (v / 2 ^ 8) % 256 * 2 ^ 8
          + v % 256
        ≡ v =
      omega arith in
    ap (λ w. ok (w, r)) same

pub to_signed-to_unsigned : (v : ℤ) → IsInt32 v → to_signed (to_unsigned v) ≡ v
unfolding to_signed to_unsigned
to_signed-to_unsigned (pos n) h = ground arith
to_signed-to_unsigned (negsuc n) h = ground arith

to_unsigned-lt : (v : ℤ) → to_unsigned v < 2 ^ 32
unfolding to_unsigned
to_unsigned-lt (pos n) = omega arith
to_unsigned-lt (negsuc n) = omega arith

pub read_int32-write_int32 :
    (v : ℤ) (r : List ℕ) → IsInt32 v → read_int32 (write_int32 v ++ r) ≡ ok (v, r)
read_int32-write_int32 v r h =
    unfold read_int32 write_int32 in
    ap (λ m. m >>= λ p. ok (to_signed p.0, p.1))
      (read_uint32-write_uint32 (to_unsigned v) r (to_unsigned-lt v))
    ∙ ap (λ w. ok (w, r)) (to_signed-to_unsigned v h)

pub read_id-write_id : (i : WireId) (r : List ℕ) → IsId i → read_id (write_id i ++ r) ≡ ok (i, r)
unfolding read_id write_id
read_id-write_id i r h = rw (
  append_assoc (write_int32 i.clock) (write_uint32 i.site) r,
  read_int32-write_int32 i.clock (write_uint32 i.site ++ r) h.clock_fits,
  read_uint32-write_uint32 i.site r h.site_fits,
)

pub length-write_uint32 : (v : ℕ) → length (write_uint32 v) ≡ 4
unfolding write_uint32
length-write_uint32 v = refl

pub length-write_int32 : (v : ℤ) → length (write_int32 v) ≡ 4
unfolding write_int32 write_uint32
length-write_int32 v = refl

pub length-write_id : (i : WireId) → length (write_id i) ≡ 8
unfolding write_id write_int32 write_uint32
length-write_id i = refl

-- The header of a frame, read back.
pub read_header-build_frame :
    (type : ℕ) (payload : List ℕ)
    → length payload < 2 ^ 32
    → read_header type (build_frame type payload) ≡ ok (length payload, payload)
unfolding read_header build_frame read_byte
read_header-build_frame type payload h =
    let whole : length payload % 2 ^ 32 ≡ length payload = omega arith in
    let size : length (write_uint32 (length payload) ++ payload) ≡ 4 + length payload =
      length-append (write_uint32 (length payload)) payload
      ∙ omega (arith, length-write_uint32 (length payload)) in
    rw whole (ground (arith, size, read_uint32-write_uint32 (length payload) payload h))

pub length-operation_payload : (op : WireOperation) → length (operation_payload op) ≡ 18
unfolding operation_payload write_id write_int32 write_uint32
length-operation_payload op = refl

pub record IsOperation (op : WireOperation) : Type 0 where
  pub id_fits : IsId op.id
  pub left_fits : IsId op.left

byte_type-type_byte : (t : OpType) → byte_type (type_byte t) ≡ t
byte_type-type_byte insert_op = refl
byte_type-type_byte delete_op = refl

read_operation-operation_payload :
    (op : WireOperation) → IsOperation op → read_operation (operation_payload op) ≡ ok op
unfolding read_operation operation_payload read_byte
read_operation-operation_payload op h = rw (
  read_id-write_id op.id (write_id op.left ++ op.value ∷ []) h.id_fits,
  read_id-write_id op.left (op.value ∷ []) h.left_fits,
  byte_type-type_byte op.type,
)

-- Each operation whose clocks and sites fit in 32 bits is decoded from its encoding.
pub decode-encode : (op : WireOperation) → IsOperation op → decode (encode op) ≡ ok op
unfolding decode encode
decode-encode op h =
    let payload = operation_payload op in
    let size : length payload ≡ 18 = length-operation_payload op in
    ground (
      arith,
      size,
      read_header-build_frame operation_type payload (omega (arith, size)),
      read_operation-operation_payload op h,
    )

length-cursor : (site : ℕ) (p : ℤ) → length (write_uint32 site ++ write_int32 p) ≡ 8
unfolding write_int32 write_uint32
length-cursor site p = refl

-- A cursor's position is decoded from its encoding, with the site that it belongs to.
pub decode_cursor-encode_cursor :
    (site : ℕ) (p : ℤ)
    → site < 2 ^ 32
    → IsInt32 p
    → decode_cursor (encode_cursor site p) ≡ ok (site, p)
unfolding decode_cursor encode_cursor
decode_cursor-encode_cursor site p h k =
    let payload = write_uint32 site ++ write_int32 p in
    let size = length-cursor site p in
    let last : read_int32 (write_int32 p) ≡ ok (p, []) =
      ap read_int32 (sym (append-nil (write_int32 p))) ∙ read_int32-write_int32 p [] k in
    ground (
      arith,
      size,
      read_header-build_frame cursor_type payload (omega (arith, size)),
      read_uint32-write_uint32 site (write_int32 p) h,
      last,
    )
