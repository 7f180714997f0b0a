-- ===== src/StateSync.antt =====
-- Asking a peer for its state: src/state_sync.cpp. A connection is what the other end sends, in the
-- pieces in which `read` hands it over: an empty piece, or the end of the list, is the end of the
-- stream, an error or a timeout. A write is the numbers of bytes that the calls of `write` take.
pub mod Reading
pub mod Serving
pub mod Bounds
use cs4730_collaborative_tex.Base.{
  ℕ, zero, suc, ◌-◌, ◌+◌, ◌*◌, ◌%◌, ◌^◌, Bool, true, false, List, [], ◌∷◌, ◌++◌, Option, none, some,
  nat_beq, length, take, drop, if◌then◌else◌, ◌>>=◌,
}
use cs4730_collaborative_tex.Text.{Text}
use cs4730_collaborative_tex.Serializer.{state_type}

abbrev pub Pieces : Type 0
Pieces = List (List ℕ)

-- What is left behind the first bytes of a piece.
pub push_back : List ℕ → Pieces → Pieces
push_back [] pieces = pieces
push_back (b ∷ bs) pieces = (b ∷ bs) ∷ pieces

-- `select` and `read(fd, buf, n)`; `none` is a return value of at most 0.
unfoldable pub read_some : ℕ → Pieces → Option (List ℕ × Pieces)
unfolding push_back
read_some n [] = none
read_some n ([] ∷ pieces) = none
read_some n ((b ∷ bs) ∷ pieces) = some (take n (b ∷ bs), push_back (drop n (b ∷ bs)) pieces)

-- The loop of `readAll` with `n` bytes to go; each round but the last reads a byte at least.
unfoldable pub read_from : ℕ → ℕ → Pieces → Option (List ℕ × Pieces)
unfolding read_some
read_from fuel zero pieces = some ([], pieces)
read_from zero (suc n) pieces = none
read_from (suc fuel) (suc n) pieces = elim (read_some (suc n) pieces) [
  | none ↦ none
  | some (got, rest) ↦ do
    (more, rest) ← read_from fuel (suc n - length got) rest
    some (got ++ more, rest)
]

-- `readAll(fd, buf, n, timeoutMs)`
unfoldable pub read_all : ℕ → Pieces → Option (List ℕ × Pieces)
unfolding read_from
read_all n pieces = read_from n n pieces

-- `writeAll(fd, buf, n)`: what is sent, and whether it is all. A call of `write` that takes no byte is
-- one that fails.
unfoldable pub write_all : List ℕ → List ℕ → List ℕ × Bool
write_all calls [] = ([], true)
write_all [] (b ∷ bs) = ([], false)
write_all (zero ∷ calls) (b ∷ bs) = ([], false)
write_all (suc k ∷ calls) (b ∷ bs) =
    let (sent, done) = write_all calls (drop (suc k) (b ∷ bs)) in
    (take (suc k) (b ∷ bs) ++ sent, done)

abbrev pub state_request : ℕ
state_request = 1

-- `handleClient`: what is sent to a client. The provider is `none` where it throws.
unfoldable pub handle_client : Option (List ℕ) → List ℕ → Pieces → List ℕ
unfolding read_all write_all
handle_client provider calls pieces = elim (read_all 1 pieces) [
  | none ↦ []
  | some (req, _) ↦ elim req [
    | [] ↦ []
    | byte ∷ _ ↦
        if nat_beq byte state_request
        then elim provider [ none ↦ [] | some frame ↦ (write_all calls frame).0 ]
        else []
  ]
]

-- A connection that `tryPeerImpl` has made.
pub record Link : Type 0 where
  pub calls : List ℕ
  pub incoming : Pieces

-- How an attempt to get the state of one peer ends: `false` is returned, the consumer has taken the
-- state, or bytes were written behind the end of the frame, which C++ leaves undefined.
pub data Attempt (S : Type 0) : Type 0 where
  gave_up : Attempt S
  delivered : S → Attempt S
  overran : Attempt S

-- The consumer is `none` where it throws.
abbrev pub deliver : {S : Type 0} → Option S → Attempt S
deliver none = gave_up
deliver (some s) = delivered s

-- `std::vector<uint8_t> frame(n)`
abbrev pub zeros : ℕ → List ℕ
zeros zero = []
zeros (suc n) = 0 ∷ zeros n

-- Bytes that are copied to the front of a memory block; `none` means that they run behind its end.
abbrev pub copy_to : List ℕ → List ℕ → Option (List ℕ)
copy_to block [] = some block
copy_to [] (b ∷ bs) = none
copy_to (_ ∷ block) (b ∷ bs) = do rest ← copy_to block bs; some (b ∷ rest)

-- The same, to the bytes of a block from a position on.
abbrev pub copy_to_at : ℕ → List ℕ → List ℕ → Option (List ℕ)
copy_to_at k block bytes = do rest ← copy_to (drop k block) bytes; some (take k block ++ rest)

module _ {S : Type 0} (consumer : List ℕ → S → Option S) where
  -- `tryPeerImpl` behind the header, for a payload of a length. The size of the frame,
  -- `5 + payloadLen`, is a 32-bit number. The pieces of the payload are copied as `readAll` gets
  -- them; here all at once.
  unfoldable pub receive_payload : List ℕ → ℕ → Pieces → S → Attempt S
  unfolding read_all
  receive_payload header len incoming s = elim (copy_to (zeros ((5 + len) % 2 ^ 32)) header) [
    | none ↦ overran
    | some frame ↦ elim (read_all len incoming) [
      | none ↦ gave_up
      | some (payload, _) ↦ elim (copy_to_at 5 frame payload) [
        | none ↦ overran
        | some frame ↦ deliver (consumer frame s)
      ]
    ]
  ]

  -- The header and what follows it.
  unfoldable pub receive_header : List ℕ → Pieces → S → Attempt S
  unfolding receive_payload
  receive_header (type ∷ a ∷ b ∷ c ∷ d ∷ []) incoming s =
      if nat_beq type state_type
      then receive_payload (type ∷ a ∷ b ∷ c ∷ d ∷ []) (a * 2 ^ 24 + b * 2 ^ 16 + c * 2 ^ 8 + d)
          incoming s
      else gave_up
  receive_header _ incoming s = gave_up

  -- `tryPeerImpl` behind `connect`.
  unfoldable pub receive_state : Link → S → Attempt S
  unfolding receive_header write_all
  receive_state link s =
      if (write_all link.calls (state_request ∷ [])).1
      then elim (read_all 5 link.incoming) [
        | none ↦ gave_up
        | some (header, rest) ↦ receive_header header rest s
      ]
      else gave_up

  -- `requestState`: `network` gives the connection to a peer, or `none` where the address cannot be
  -- resolved or nobody accepts a connection there before the deadline.
  unfoldable pub request_state : (Text → Option Link) → List Text → S → Attempt S
  unfolding receive_state
  request_state network [] s = gave_up
  request_state network (addr ∷ addrs) s = elim (network addr) [
    | none ↦ request_state network addrs s
    | some link ↦ elim (receive_state link s) [
      | gave_up ↦ request_state network addrs s
      | delivered s' ↦ delivered s'
      | overran ↦ overran
    ]
  ]
