-- ===== src/StateSync/Reading.antt =====
-- `readAll` and `writeAll` do not depend on the pieces.
use cs4730_collaborative_tex.Base.{
  ℕ, zero, suc, ◌-◌, ◌≤◌, ◌<◌, ◌≡◌, refl, sym, ap, ◌∙◌, true, List, [], ◌∷◌, ◌++◌, some,
  Option-cases, inl, inr, append_assoc, length, length-append, take, drop, concat, All, arith,
  ◌>>=◌,
}
use cs4730_collaborative_tex.StateSync.{
  Pieces, push_back, read_some, read_from, read_all, write_all,
}

abbrev pub NotEmpty : List ℕ → Type 0
NotEmpty bs = 0 < length bs

push_back-concat :
    (bs : List ℕ) (pieces : Pieces) → concat (push_back bs pieces) ≡ bs ++ concat pieces
unfolding push_back
push_back-concat [] pieces = refl
push_back-concat (b ∷ bs) pieces = refl

push_back-All :
    (bs : List ℕ) (pieces : Pieces) → All NotEmpty pieces → All NotEmpty (push_back bs pieces)
unfolding push_back
push_back-All [] pieces h = h
push_back-All (b ∷ bs) pieces h = (omega arith, h)

take-drop : (n : ℕ) (bs : List ℕ) → take n bs ++ drop n bs ≡ bs
take-drop zero bs = refl
take-drop (suc n) [] = refl
take-drop (suc n) (b ∷ bs) = ap (λ x. b ∷ x) (take-drop n bs)

pub length-take : (n : ℕ) (bs : List ℕ) → length (take n bs) ≤ n
length-take zero bs = omega arith
length-take (suc n) [] = omega arith
length-take (suc n) (b ∷ bs) = omega (arith, length-take n bs)

read_some-split :
    (n : ℕ) (bs : List ℕ) (pieces : Pieces)
    → bs ++ concat pieces ≡ take n bs ++ concat (push_back (drop n bs) pieces)
read_some-split n bs pieces =
    ap (λ x. x ++ concat pieces) (sym (take-drop n bs))
    ∙ append_assoc (take n bs) (drop n bs) (concat pieces)
    ∙ ap (λ x. take n bs ++ x) (sym (push_back-concat (drop n bs) pieces))

-- What `readAll` returns is the bytes that came first, as many as asked for, and what is left is the
-- rest.
abbrev pub Reads : ℕ → Pieces → List ℕ × Pieces → Type 0
Reads n pieces (got, rest) =
    (length got ≡ n) × (got ++ concat rest ≡ concat pieces) × All NotEmpty rest

-- A round that reads some bytes.
pub read_from_step :
    (fuel n b : ℕ) (bs : List ℕ) (pieces : Pieces)
    → read_from (suc fuel) (suc n) ((b ∷ bs) ∷ pieces) ≡ (
        read_from fuel (n - length (take n bs)) (push_back (drop n bs) pieces) >>= λ r.
        some ((b ∷ take n bs) ++ r.0, r.1))
unfolding read_from read_some
read_from_step fuel n b bs pieces =
    ap
      (λ k.
        read_from fuel k (push_back (drop n bs) pieces) >>= λ r. some ((b ∷ take n bs) ++ r.0, r.1))
      (count n (length (take n bs)))
  where
    count : (n k : ℕ) → suc n - suc k ≡ n - k
    count n k = omega arith

read_from-Reads :
    (fuel n : ℕ) (pieces : Pieces)
    → n ≤ fuel
    → All NotEmpty pieces
    → n ≤ length (concat pieces)
    → (r : List ℕ × Pieces) × (read_from fuel n pieces ≡ some r) × Reads n pieces r
unfolding read_from read_some
read_from-Reads zero zero pieces le full enough = (([], pieces), refl, (refl, refl, full))
read_from-Reads (suc fuel) zero pieces le full enough = (([], pieces), refl, (refl, refl, full))
read_from-Reads zero (suc n) pieces le full enough = absurd (omega (arith, le))
read_from-Reads (suc fuel) (suc n) [] le full enough = absurd (omega (arith, enough))
read_from-Reads (suc fuel) (suc n) ([] ∷ pieces) le full enough = absurd (omega (arith, full.0))
read_from-Reads (suc fuel) (suc n) ((b ∷ bs) ∷ pieces) le full enough =
    let rest = push_back (drop n bs) pieces in
    let short = length-take n bs in
    let whole = read_some-split n bs pieces in
    let size = ap length whole ∙ length-append (take n bs) (concat rest) in
    let ((more, last), ran, (count, bytes, left)) =
      read_from-Reads fuel (n - length (take n bs)) rest (omega (arith, le))
        (push_back-All (drop n bs) pieces full.1) (omega (arith, size, enough, short)) in
    (
      ((b ∷ take n bs) ++ more, last),
      rw (read_from_step fuel n b bs pieces, ran) refl,
      (
        omega (arith, length-append (take n bs) more, count, short),
        append_assoc (b ∷ take n bs) more (concat last)
            ∙ ap (λ x. (b ∷ take n bs) ++ x) bytes
            ∙ ap (λ x. b ∷ x) (sym whole),
        left,
      ),
    )

-- `readAll` returns the next `n` bytes of the stream, whatever the pieces in which they come, if the
-- stream has that many.
pub read_all-Reads :
    (n : ℕ) (pieces : Pieces)
    → All NotEmpty pieces
    → n ≤ length (concat pieces)
    → (r : List ℕ × Pieces) × (read_all n pieces ≡ some r) × Reads n pieces r
unfolding read_all
read_all-Reads n pieces full enough = read_from-Reads n n pieces (omega arith) full enough

read_from-size :
    (fuel n : ℕ) (pieces : Pieces) (r : List ℕ × Pieces)
    → read_from fuel n pieces ≡ some r
    → n ≤ length (concat pieces)
unfolding read_from read_some
read_from-size fuel zero pieces r e = omega arith
read_from-size zero (suc n) pieces r e = absurd (cc)
read_from-size (suc fuel) (suc n) [] r e = absurd (cc)
read_from-size (suc fuel) (suc n) ([] ∷ pieces) r e = absurd (cc)
read_from-size (suc fuel) (suc n) ((b ∷ bs) ∷ pieces) r e =
    elim (Option-cases (read_from fuel (n - length (take n bs)) (push_back (drop n bs) pieces))) [
      | inl failed ↦ absurd (ground (arith, read_from_step fuel n b bs pieces, failed, e))
      | inr (r', ran) ↦
          let ih =
            read_from-size fuel (n - length (take n bs)) (push_back (drop n bs) pieces) r' ran in
          let whole = read_some-split n bs pieces in
          let rest = concat (push_back (drop n bs) pieces) in
          omega (arith, ih, ap length whole, length-append (take n bs) rest, length-take n bs)
    ]

pub read_all-size :
    (n : ℕ) (pieces : Pieces) (r : List ℕ × Pieces)
    → read_all n pieces ≡ some r
    → n ≤ length (concat pieces)
unfolding read_all
read_all-size n pieces r e = read_from-size n n pieces r e

-- A write that reports success has sent all bytes.
pub write_all-sent :
    (calls bytes : List ℕ) → (write_all calls bytes).1 ≡ true → (write_all calls bytes).0 ≡ bytes
unfolding write_all
write_all-sent calls [] h = refl
write_all-sent [] (b ∷ bs) h = absurd (cc)
write_all-sent (zero ∷ calls) (b ∷ bs) h = absurd (cc)
write_all-sent (suc k ∷ calls) (b ∷ bs) h =
    ap (λ x. (b ∷ take k bs) ++ x) (write_all-sent calls (drop k bs) h)
    ∙ ap (λ x. b ∷ x) (take-drop k bs)
