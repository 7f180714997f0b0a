-- ===== src/StateSync/Bounds.antt =====
-- The frame that a client allocates.
use cs4730_collaborative_tex.Base.{
  ℕ, zero, suc, ◌+◌, ◌-◌, ◌%◌, ◌^◌, ◌≤◌, ◌<◌, ◌≡◌, ◌↔◌, refl, sym, ap, ◌∙◌, inl, inr, Bool-cases,
  Option, none, some, Option-cases, List, [], ◌∷◌, ◌++◌, take, drop, length, length-append, ltb,
  ltb→lt, arith,
}
use cs4730_collaborative_tex.StateSync.{
  Pieces, read_some, read_from, push_back, read_all, overran, deliver, zeros, copy_to,
  receive_payload,
}
use cs4730_collaborative_tex.StateSync.Reading.{length-take, read_from_step}

pub length-zeros : (n : ℕ) → length (zeros n) ≡ n
length-zeros zero = refl
length-zeros (suc n) = omega (arith, length-zeros n)

copy_to-some :
    (block bytes : List ℕ)
    → length bytes ≤ length block
    → (r : List ℕ) × (copy_to block bytes ≡ some r)
copy_to-some block [] h = (block, refl)
copy_to-some [] (b ∷ bs) h = absurd (omega (arith, h))
copy_to-some (_ ∷ block) (b ∷ bs) h =
    let (r, copied) = copy_to-some block bs (omega (arith, h)) in (b ∷ r, rw copied refl)

-- Bytes that fill a block are what it holds then.
pub copy_to-zeros : (bytes : List ℕ) → copy_to (zeros (length bytes)) bytes ≡ some bytes
copy_to-zeros [] = refl
copy_to-zeros (b ∷ bs) = rw (copy_to-zeros bs) refl

-- `readAll` returns no more bytes than it is asked for.
read_from-le :
    (fuel n : ℕ) (pieces : Pieces) (r : List ℕ × Pieces)
    → read_from fuel n pieces ≡ some r
    → length r.0 ≤ n
unfolding read_from read_some
read_from-le zero zero pieces r e = ground (arith, e)
read_from-le (suc fuel) zero pieces r e = ground (arith, e)
read_from-le zero (suc n) pieces r e = absurd (cc)
read_from-le (suc fuel) (suc n) [] r e = absurd (cc)
read_from-le (suc fuel) (suc n) ([] ∷ pieces) r e = absurd (cc)
read_from-le (suc fuel) (suc n) ((b ∷ bs) ∷ pieces) r e =
    let pieces' = push_back (drop n bs) pieces in
    let step = sym (read_from_step fuel n b bs pieces) ∙ e in
    elim (Option-cases (read_from fuel (n - length (take n bs)) pieces')) [
      | inl lost ↦ absurd (let none_left = rw lost at step in cc)
      | inr (q, more) ↦
          let all : (some ((b ∷ take n bs) ++ q.0, q.1)) ≡ some r = rw more at step in
          let later = read_from-le fuel (n - length (take n bs)) pieces' q more in
          let bytes : (b ∷ take n bs) ++ q.0 ≡ r.0 = ground (arith, all) in
          omega (arith, ap length bytes, length-append (take n bs) q.0, length-take n bs, later)
    ]

-- A frame that has room for the header and the payload.
pub frame_fits :
    (len : ℕ) → 5 + len < 2 ^ 32 → zeros ((5 + len) % 2 ^ 32) ≡ 0 ∷ 0 ∷ 0 ∷ 0 ∷ 0 ∷ zeros len
frame_fits len fits =
    let size : (5 + len) % 2 ^ 32 ≡ suc (suc (suc (suc (suc len)))) = omega (arith, fits) in
    ap zeros size

header_overruns : (t a b c d k : ℕ) → k < 5 → copy_to (zeros k) (t ∷ a ∷ b ∷ c ∷ d ∷ []) ≡ none
header_overruns t a b c d zero h = refl
header_overruns t a b c d (suc zero) h = refl
header_overruns t a b c d (suc (suc zero)) h = refl
header_overruns t a b c d (suc (suc (suc zero))) h = refl
header_overruns t a b c d (suc (suc (suc (suc zero)))) h = refl
header_overruns t a b c d (suc (suc (suc (suc (suc k))))) h = absurd (omega (arith, h))

deliver-ne-overran : {S : Type 0} (o : Option S) → deliver o ≡ overran → ⊥
deliver-ne-overran none e = cc
deliver-ne-overran (some s) e = cc

module _ {S : Type 0} (consumer : List ℕ → S → Option S) (t a b c d len : ℕ) (incoming : Pieces)
    (s : S) where
  abbrev header : List ℕ
  header = t ∷ a ∷ b ∷ c ∷ d ∷ []

  receive_payload-in_frame :
      5 + len < 2 ^ 32 → receive_payload consumer header len incoming s ≡ overran → ⊥
  unfolding receive_payload
  receive_payload-in_frame fits e =
      let e' = rw (receive_payload, frame_fits len fits) at e in
      elim (Option-cases (read_all len incoming)) [
        | inl short ↦ let gave = rw short at e' in cc
        | inr ((payload, rest), read) ↦
            let le = read_from-le len len incoming (payload, rest) (unfold read_all in read) in
            let (q, copied) =
              copy_to-some (zeros len) payload (omega (arith, le, length-zeros len)) in
            let given = rw (read, copied) at e' in
            deliver-ne-overran (consumer (header ++ q) s) given
      ]

-- The client writes behind the end of its frame exactly when the header names one of the five
-- greatest lengths of 32 bits, for which the size of the frame wraps around: the five bytes of the
-- header have no room in it then, and for every other length the header and what is read have.
pub receive_payload-overran :
    {S : Type 0} (consumer : List ℕ → S → Option S) (t a b c d len : ℕ) (incoming : Pieces) (s : S)
    → len < 2 ^ 32
    → (receive_payload consumer (t ∷ a ∷ b ∷ c ∷ d ∷ []) len incoming s ≡ overran)
      ↔ (2 ^ 32 ≤ 5 + len)
unfolding receive_payload
receive_payload-overran consumer t a b c d len incoming s h =
    elim (Bool-cases (ltb (5 + len) (2 ^ 32))) [
      | inl fits ↦
          let fits' = ltb→lt (5 + len) (2 ^ 32) fits in
          (
            λ e. absurd (receive_payload-in_frame consumer t a b c d len incoming s fits' e),
            λ le. absurd (omega (arith, fits', le)),
          )
      | inr wraps ↦
          let over : 2 ^ 32 ≤ 5 + len = ground (arith, wraps) in
          let none_copied =
            header_overruns t a b c d ((5 + len) % 2 ^ 32) (omega (arith, h, over)) in
          (λ _. over, λ _. rw (receive_payload, none_copied) refl)
    ]
