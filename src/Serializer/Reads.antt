-- ===== src/Serializer/Reads.antt =====
-- The decoders stay inside their buffers.
use cs4730_collaborative_tex.Base.{
  ℕ, zero, suc, ◌+◌, ◌*◌, ◌≤◌, ◌≡◌, ◌≢◌, ◌⊎◌, refl, not, List, [], ◌∷◌, arith, ltb, nat_beq, length,
  ◌||◌, Bool-cases, inl, inr,
}
use cs4730_collaborative_tex.Serializer.{
  Fault, short_header, wrong_type, past_end, Decoded, to_signed, byte_type, ok, fault, read_byte,
  read_uint32, read_int32, read_id, read_header, read_operation, decode, decode_cursor,
  operation_type, cursor_type, state_type, WireOperation,
}
use cs4730_collaborative_tex.Serializer.State.{WireNode, read_node, read_nodes, decode_state}

-- A step that reads `n` bytes: it succeeds where there are so many, and leaves the others.
abbrev pub Reads : {A : Type 0} → ℕ → (List ℕ → Decoded (A × List ℕ)) → Type 0
Reads {A} n read =
    (s : List ℕ)
    → n ≤ length s
    → (a : A) × (r : List ℕ) × (read s ≡ ok (a, r)) × (length s ≡ n + length r)

read_byte-Reads : Reads 1 read_byte
unfolding read_byte
read_byte-Reads [] h = absurd (omega arith)
read_byte-Reads (a ∷ s) h = (a, s, refl, omega arith)

read_uint32-Reads : Reads 4 read_uint32
unfolding read_uint32
read_uint32-Reads [] h = absurd (omega arith)
read_uint32-Reads (a ∷ []) h = absurd (omega arith)
read_uint32-Reads (a ∷ b ∷ []) h = absurd (omega arith)
read_uint32-Reads (a ∷ b ∷ c ∷ []) h = absurd (omega arith)
read_uint32-Reads (a ∷ b ∷ c ∷ d ∷ s) h = (_, s, refl, omega arith)

read_int32-Reads : Reads 4 read_int32
unfolding read_int32
read_int32-Reads s h = let (w, r, e, n) = read_uint32-Reads s h in (to_signed w, r, rw e refl, n)

read_id-Reads : Reads 8 read_id
unfolding read_id
read_id-Reads s h =
    let (clock, r, e, n) = read_int32-Reads s (omega arith) in
    let (site, r', e', n') = read_uint32-Reads r (omega arith) in
    (record { clock = clock; site = site }, r', rw (e, e') refl, omega arith)

read_node-Reads : Reads 18 read_node
unfolding read_node
read_node-Reads s h =
    let (i, r1, e1, n1) = read_id-Reads s (omega arith) in
    let (l, r2, e2, n2) = read_id-Reads r1 (omega arith) in
    let (v, r3, e3, n3) = read_byte-Reads r2 (omega arith) in
    let (g, r4, e4, n4) = read_byte-Reads r3 (omega arith) in
    (
      record { id = i; left = l; value = v; tombstoned = not (nat_beq g 0) },
      r4,
      rw (e1, e2, e3, e4) refl,
      omega arith,
    )

read_nodes_inside :
    (n : ℕ) (s : List ℕ) → n * 18 ≤ length s → (ns : List WireNode) × (read_nodes n s ≡ ok ns)
unfolding read_nodes
read_nodes_inside zero s h = ([], refl)
read_nodes_inside (suc n) s h =
    let (node, r, e, size) = read_node-Reads s (omega arith) in
    let (ns, found) = read_nodes_inside n r (omega arith) in (node ∷ ns, rw (e, found) refl)

read_operation_inside :
    (s : List ℕ) → 18 ≤ length s → (op : WireOperation) × (read_operation s ≡ ok op)
unfolding read_operation
read_operation_inside s h =
    let (t, r1, e1, n1) = read_byte-Reads s (omega arith) in
    let (i, r2, e2, n2) = read_id-Reads r1 (omega arith) in
    let (l, r3, e3, n3) = read_id-Reads r2 (omega arith) in
    let (v, r4, e4, n4) = read_byte-Reads r3 (omega arith) in
    (record { type = byte_type t; id = i; left = l; value = v }, rw (e1, e2, e3, e4) refl)

-- The header throws, or it is read.
read_header_cases :
    (type : ℕ) (s : List ℕ)
    → (read_header type s ≡ fault short_header)
      ⊎ ((read_header type s ≡ fault wrong_type)
          ⊎ ((len : ℕ) × (r : List ℕ) × (read_header type s ≡ ok (len, r))))
unfolding read_header
read_header_cases type s = elim (Bool-cases (ltb (length s) 5)) [
  | inl short ↦ inl (rw short refl)
  | inr long ↦
      let (b, r, e, n) = read_byte-Reads s (ground arith) in
      elim (Bool-cases (nat_beq b type)) [
        | inr wrong ↦ inr (inl (rw (long, e, wrong) refl))
        | inl right ↦
            let (len, r', e', n') = read_uint32-Reads r (ground (arith)) in
            inr (inr (len, r', rw (long, e, right, e') refl))
      ]
]

ok-ne-fault : {A : Type 0} (a : A) (f : Fault) → ok a ≢ fault f
ok-ne-fault a f e = cc

-- `decode` throws or returns an operation, and reads no byte behind the end of its buffer, whatever
-- the buffer holds.
pub decode_in_bounds : (bytes : List ℕ) → decode bytes ≢ fault past_end
unfolding decode
decode_in_bounds bytes = elim (read_header_cases operation_type bytes) [
  | inl short ↦ rw short (λ e. cc)
  | inr (inl wrong) ↦ rw wrong (λ e. cc)
  | inr (inr (len, r, header)) ↦ rw header (elim (Bool-cases (ltb (length r) len)) [
    | inl short ↦ rw short (λ e. cc)
    | inr long ↦ rw long (elim (Bool-cases (ltb len 18)) [
      | inl small ↦ rw small (λ e. cc)
      | inr large ↦
          rw large (let (op, found) = read_operation_inside r (ground arith) in rw found (λ e. cc))
    ])
  ])
]

-- `decodeCursor` throws or returns a position, and reads no byte behind the end of its buffer.
pub decode_cursor_in_bounds : (bytes : List ℕ) → decode_cursor bytes ≢ fault past_end
unfolding decode_cursor
decode_cursor_in_bounds bytes = elim (read_header_cases cursor_type bytes) [
  | inl short ↦ rw short (λ e. cc)
  | inr (inl wrong) ↦ rw wrong (λ e. cc)
  | inr (inr (len, r, header)) ↦ rw header (elim (Bool-cases (ltb (length r) len || ltb len 8)) [
    | inl short ↦ rw short (λ e. cc)
    | inr long ↦
        let (site, r1, e1, n1) = read_uint32-Reads r (ground arith) in
        let (p, r2, e2, n2) = read_int32-Reads r1 (ground arith) in rw (long, e1, e2) (λ e. cc)
  ])
]

-- `decodeState` throws or returns a state, and reads no byte behind the end of its buffer: its count
-- of nodes is checked against the payload before they are read.
pub decode_state_in_bounds : (bytes : List ℕ) → decode_state bytes ≢ fault past_end
unfolding decode_state
decode_state_in_bounds bytes = elim (read_header_cases state_type bytes) [
  | inl short ↦ rw short (λ e. cc)
  | inr (inl wrong) ↦ rw wrong (λ e. cc)
  | inr (inr (len, r, header)) ↦ rw header (elim (Bool-cases (ltb (length r) len)) [
    | inl short ↦ rw short (λ e. cc)
    | inr long ↦ rw long (elim (Bool-cases (ltb len 12)) [
      | inl small ↦ rw small (λ e. cc)
      | inr large ↦
          let (site, r1, e1, n1) = read_uint32-Reads r (ground arith) in
          let (clock, r2, e2, n2) = read_int32-Reads r1 (ground arith) in
          let (count, r3, e3, n3) = read_uint32-Reads r2 (ground arith) in
          rw (large, e1, e2, e3)
            (elim (Bool-cases (ltb len (12 + count * 18))) [
              | inl few ↦ rw few (λ e. cc)
              | inr enough ↦ rw enough (
                  let (ns, found) = read_nodes_inside count r3 (ground arith) in
                  rw found
                    (ok-ne-fault (record { site = site; clock = clock; nodes = ns }) past_end))
            ])
    ])
  ])
]
