-- ===== src/StateSync/Serving.antt =====
-- A client gets what the server's provider returns.
use cs4730_collaborative_tex.Base.{
  ℕ, ◌+◌, ◌*◌, ◌/◌, ◌%◌, ◌^◌, ◌<◌, ◌≡◌, refl, sym, ap, subst, ◌∙◌, ◌⊎◌, inl, inr, true, List, [],
  ◌∷◌, ◌++◌, Option, some, Option-cases, append-nil, length, length-append, concat, All, arith,
}
use cs4730_collaborative_tex.Text.{Text}
use cs4730_collaborative_tex.Serializer.{write_uint32, build_frame, state_type}
use cs4730_collaborative_tex.StateSync.{
  Pieces, read_all, write_all, state_request, handle_client, Link, Attempt, gave_up, delivered,
  overran, deliver, receive_payload, receive_header, receive_state, request_state,
}
use cs4730_collaborative_tex.StateSync.Bounds.{copy_to-zeros, frame_fits}
use cs4730_collaborative_tex.StateSync.Reading.{NotEmpty, read_all-Reads, write_all-sent}

-- Of two ways to split a list, those with parts of the same length are the same.
append_inj :
    (xs ys as' bs : List ℕ) → length xs ≡ length ys → xs ++ as' ≡ ys ++ bs → (xs ≡ ys) × (as' ≡ bs)
append_inj [] [] as' bs h e = (refl, e)
append_inj [] (y ∷ ys) as' bs h e = absurd (omega (arith, h))
append_inj (x ∷ xs) [] as' bs h e = absurd (omega (arith, h))
append_inj (x ∷ xs) (y ∷ ys) as' bs h e =
    let head : x ≡ y = cc in
    let tail : xs ++ as' ≡ ys ++ bs = cc in
    let ih = append_inj xs ys as' bs (omega (arith, h)) tail in let front = ih.0 in (cc, ih.1)

-- Bytes that come in any pieces are read as they are.
read_all-append :
    (front back : List ℕ) (pieces : Pieces)
    → All NotEmpty pieces
    → concat pieces ≡ front ++ back
    → (rest : Pieces) × (read_all (length front) pieces ≡ some (front, rest))
      × (concat rest ≡ back)
      × All NotEmpty rest
read_all-append front back pieces full e =
    let size = ap length e ∙ length-append front back in
    let ((got, rest), ran, (count, bytes, left)) =
      read_all-Reads (length front) pieces full (omega (arith, size)) in
    let (same, last) = append_inj got front (concat rest) back count (bytes ∙ e) in
    (rest, ran ∙ ap (λ x. some (x, rest)) same, last, left)

-- A server sends its state to a client that asks for it.
handle_client-request :
    (frame calls : List ℕ) (incoming : Pieces)
    → All NotEmpty incoming
    → concat incoming ≡ state_request ∷ []
    → (write_all calls frame).1 ≡ true
    → handle_client (some frame) calls incoming ≡ frame
unfolding handle_client
handle_client-request frame calls incoming full asked sent =
    let (rest, read, _, _) = read_all-append (state_request ∷ []) [] incoming full asked in
    rw (handle_client, read) (write_all-sent calls frame sent)

build_frame-fits :
    (payload : List ℕ)
    → 5 + length payload < 2 ^ 32
    → build_frame state_type payload ≡ state_type ∷ (write_uint32 (length payload) ++ payload)
unfolding build_frame
build_frame-fits payload fits =
    let small : length payload % 2 ^ 32 ≡ length payload = omega (arith, fits) in
    ap (λ n. state_type ∷ (write_uint32 n ++ payload)) small

five : (n : ℕ) → length (state_type ∷ write_uint32 n) ≡ 5
unfolding write_uint32
five n = refl

module _ {S : Type 0} (consumer : List ℕ → S → Option S) where
  receive_payload-frame :
      (t a b c d : ℕ) (payload : List ℕ) (rest : Pieces) (s : S)
      → 5 + length payload < 2 ^ 32
      → All NotEmpty rest
      → concat rest ≡ payload
      → receive_payload consumer (t ∷ a ∷ b ∷ c ∷ d ∷ []) (length payload) rest s
        ≡ deliver (consumer ((t ∷ a ∷ b ∷ c ∷ d ∷ []) ++ payload) s)
  unfolding receive_payload
  receive_payload-frame t a b c d payload rest s fits full bytes =
      let room = frame_fits (length payload) fits in
      let (last, read, _, _) =
        read_all-append payload [] rest full (bytes ∙ sym (append-nil payload)) in
      rw (receive_payload, room, read, copy_to-zeros payload) refl

  receive_payload-in_turn :
      (n : ℕ) (payload : List ℕ) (rest : Pieces) (s : S)
      → 5 + length payload < 2 ^ 32
      → All NotEmpty rest
      → concat rest ≡ payload
      → receive_payload consumer (state_type ∷ write_uint32 n) (length payload) rest s
        ≡ deliver (consumer (state_type ∷ (write_uint32 n ++ payload)) s)
  unfolding write_uint32
  receive_payload-in_turn n = receive_payload-frame _ _ _ _ _

  receive_header-write_uint32 :
      (n : ℕ) (rest : Pieces) (s : S)
      → n < 2 ^ 32
      → receive_header consumer (state_type ∷ write_uint32 n) rest s
        ≡ receive_payload consumer (state_type ∷ write_uint32 n) n rest s
  unfolding receive_header write_uint32
  receive_header-write_uint32 n rest s fits =
      let same : (n / 2 ^ 24) % 256 * 2 ^ 24
            + (n / 2 ^ 16) % 256 * 2 ^ 16
            + (n / 2 ^ 8) % 256 * 2 ^ 8
            + n % 256
          ≡ n =
        omega (arith, fits) in
      ap (λ k. receive_payload consumer (state_type ∷ write_uint32 n) k rest s) same

  receive_state-link :
      (link : Link) (header rest : List ℕ) (s : S)
      → (write_all link.calls (state_request ∷ [])).1 ≡ true
      → All NotEmpty link.incoming
      → length header ≡ 5
      → concat link.incoming ≡ header ++ rest
      → (left : Pieces) × (receive_state consumer link s ≡ receive_header consumer header left s)
        × (concat left ≡ rest)
        × All NotEmpty left
  unfolding receive_state
  receive_state-link link header rest s asked full five bytes =
      let (left, read, same, kept) = read_all-append header rest link.incoming full bytes in
      let read' : read_all 5 link.incoming ≡ some (header, left) =
        subst (λ k. read_all k link.incoming ≡ some (header, left)) five read in
      (left, rw (receive_state, asked, read') refl, same, kept)

  receive_state-handle_client :
      (payload calls : List ℕ) (incoming : Pieces) (link : Link) (s : S)
      → 5 + length payload < 2 ^ 32
      → (write_all link.calls (state_request ∷ [])).1 ≡ true
      → All NotEmpty incoming
      → concat incoming ≡ (write_all link.calls (state_request ∷ [])).0
      → (write_all calls (build_frame state_type payload)).1 ≡ true
      → All NotEmpty link.incoming
      → concat link.incoming ≡ handle_client (some (build_frame state_type payload)) calls incoming
      → receive_state consumer link s ≡ deliver (consumer (build_frame state_type payload) s)
  receive_state-handle_client payload calls incoming link s fits asked full request sent kept
        bytes =
      let n = length payload in
      let whole : build_frame state_type payload ≡ state_type ∷ (write_uint32 n ++ payload) =
        build_frame-fits payload fits in
      let reply =
        handle_client-request (build_frame state_type payload) calls incoming full
          (request ∙ write_all-sent link.calls (state_request ∷ []) asked) sent in
      let (left, ran, rest, some_left) =
        receive_state-link link (state_type ∷ write_uint32 n) payload s asked kept (five n)
          (bytes ∙ reply ∙ whole) in
      ran
      ∙ receive_header-write_uint32 n left s (omega (arith, fits))
      ∙ receive_payload-in_turn n payload left s fits some_left rest
      ∙ ap (λ frame. deliver (consumer frame s)) (sym whole)

Attempt-cases :
    {S : Type 0} (a : Attempt S) → (a ≡ gave_up) ⊎ (((s : S) × (a ≡ delivered s)) ⊎ (a ≡ overran))
Attempt-cases gave_up = inl refl
Attempt-cases (delivered s) = inr (inl (s, refl))
Attempt-cases overran = inr (inr refl)

-- A connection to a server whose provider returns the frame of a payload: the request and the frame
-- are sent whole and arrive in pieces of any sizes, and the size of the frame fits in 32 bits.
pub record Serves (payload : List ℕ) (link : Link) : Type 0 where
  pub calls : List ℕ
  pub incoming : Pieces
  pub fits : 5 + length payload < 2 ^ 32
  pub asked : (write_all link.calls (state_request ∷ [])).1 ≡ true
  pub some_request : All NotEmpty incoming
  pub request : concat incoming ≡ (write_all link.calls (state_request ∷ [])).0
  pub sent : (write_all calls (build_frame state_type payload)).1 ≡ true
  pub some_reply : All NotEmpty link.incoming
  pub reply :
      concat link.incoming ≡ handle_client (some (build_frame state_type payload)) calls incoming

module _ {S : Type 0} (consumer : List ℕ → S → Option S) (network : Text → Option Link)
    (s : S) where
  -- A peer that gives no state.
  abbrev pub GivesUp : Text → Type 0
  GivesUp addr = request_state consumer network (addr ∷ []) s ≡ gave_up

  request_state-next :
      (addr : Text) (addrs : List Text)
      → GivesUp addr
      → request_state consumer network (addr ∷ addrs) s ≡ request_state consumer network addrs s
  unfolding request_state
  request_state-next addr addrs h = elim (Option-cases (network addr)) [
    | inl nobody ↦ rw (request_state, nobody) refl
    | inr (link, found) ↦ elim (Attempt-cases (receive_state consumer link s)) [
      | inl gave ↦ rw (request_state, found, gave) refl
      | inr (inl (s', took)) ↦
          let other : delivered s' ≡ gave_up = rw (request_state, found, took) at h in absurd (cc)
      | inr (inr ran_over) ↦
          let other : overran ≡ gave_up = rw (request_state, found, ran_over) at h in absurd (cc)
    ]
  ]

  -- `requestState` delivers to its consumer the frame that the provider of the first peer who serves
  -- has returned, whatever comes behind that peer in the list, if those in front of it give no state
  -- and the consumer does not throw. A peer serves if the size of its frame fits in 32 bits, and if the request and the frame
  -- are sent whole; they may arrive in pieces of any sizes.
  pub request_state-Serves :
      (before after : List Text) (addr : Text) (link : Link) (payload : List ℕ) (s' : S)
      → All GivesUp before
      → network addr ≡ some link
      → Serves payload link
      → consumer (build_frame state_type payload) s ≡ some s'
      → request_state consumer network (before ++ addr ∷ after) s ≡ delivered s'
  unfolding request_state
  request_state-Serves [] after addr link payload s' h found serves taken =
      let ran =
        receive_state-handle_client consumer payload serves.calls serves.incoming link s serves.fits
          serves.asked serves.some_request serves.request serves.sent serves.some_reply serves.reply
        ∙ ap deliver taken in
      rw (request_state, found, ran) refl
  request_state-Serves (b ∷ before) after addr link payload s' h found serves taken =
      request_state-next b (before ++ addr ∷ after) h.0
      ∙ request_state-Serves before after addr link payload s' h.1 found serves taken
