-- ===== src/Convergence/Meta/Pairs.antt =====
-- The search for the pairs of meta.txt ends.
use cs4730_collaborative_tex.Base.{
  ℕ, zero, suc, ◌≤◌, ◌<◌, ◌≡◌, ◌∙◌, sym, refl, ap, Bool, not, [], ◌∷◌, none, some, arith, length,
  Bool-cases, Option-cases, inl, inr,
}
use cs4730_collaborative_tex.Text.{Text, codes, is_space, strip_prefix}
use cs4730_collaborative_tex.Convergence.Meta.{span, run_of, is_word, pair_at, find_pairs}

span-length : (p : ℕ → Bool) (s : Text) → length (span p s).1 ≤ length s
unfolding span
span-length p [] = omega arith
span-length p (c ∷ s) = ground (arith, span-length p s)

run_of-shorter : (p : ℕ → Bool) (s w r : Text) → run_of p s ≡ some (w, r) → length r < length s
unfolding run_of span
run_of-shorter p [] w r e = absurd (cc)
run_of-shorter p (c ∷ s) w r e = elim (Bool-cases (p c)) [
  | inl yes_run ↦
      let rest : r ≡ (span p s).1 = ground (arith, yes_run) in
      let same : length r ≡ length (span p s).1 = ap length rest in
      omega (arith, same, span-length p s)
  | inr no_run ↦ absurd (ground (arith, no_run))
]

strip_equals-length : (s r : Text) → strip_prefix (codes "=") s ≡ some r → length r ≤ length s
strip_equals-length [] r e = absurd (cc)
strip_equals-length (c ∷ s) r e = ground arith

module _ (wide_word : ℕ → Bool) where
  pair_at-shorter :
      (s key value r : Text) → pair_at wide_word s ≡ some (key, value, r) → length r < length s
  unfolding pair_at
  pair_at-shorter s key value r e = elim (Option-cases (run_of (is_word wide_word) s)) [
    | inl lost ↦ absurd (ground (arith, lost))
    | inr ((k, s1), one) ↦ elim (Option-cases (strip_prefix (codes "=") s1)) [
      | inl lost ↦ absurd (ground (arith, one, lost))
      | inr (s2, two) ↦ elim (Option-cases (run_of (λ c. not (is_space c)) s2)) [
        | inl lost ↦ absurd (ground (arith, one, two, lost))
        | inr ((v, s3), three) ↦
            let rest : s3 ≡ r = ground (arith, one, two, three) in
            omega (
              arith,
              run_of-shorter (is_word wide_word) s k s1 one,
              strip_equals-length s1 s2 two,
              run_of-shorter (λ c. not (is_space c)) s2 v s3 three,
              ap length rest,
            )
      ]
    ]
  ]

  find_pairs-found :
      (f : ℕ) (s key value r : Text)
      → pair_at wide_word s ≡ some (key, value, r)
      → find_pairs wide_word (suc f) s ≡ (key, value) ∷ find_pairs wide_word f r
  unfolding find_pairs
  find_pairs-found f s key value r found = rw (find_pairs, found) refl

  find_pairs-skipped :
      (f : ℕ) (c : ℕ) (s : Text)
      → pair_at wide_word (c ∷ s) ≡ none
      → find_pairs wide_word (suc f) (c ∷ s) ≡ find_pairs wide_word f s
  unfolding find_pairs
  find_pairs-skipped f c s lost = rw (find_pairs, lost) refl

  find_pairs-nil : (f : ℕ) → find_pairs wide_word (suc f) [] ≡ []
  unfolding find_pairs pair_at run_of span
  find_pairs-nil f = refl

  -- Each round of the search in meta.txt takes a character at least: with more rounds than there are
  -- characters, as `read_meta` has, the pairs that are found do not depend on the number of rounds.
  pub find_pairs_enough :
      (f g : ℕ) (s : Text)
      → length s < f
      → length s < g
      → find_pairs wide_word f s ≡ find_pairs wide_word g s
  find_pairs_enough zero g s hf hg = absurd (omega arith)
  find_pairs_enough (suc f) zero s hf hg = absurd (omega arith)
  find_pairs_enough (suc f) (suc g) [] hf hg = find_pairs-nil f ∙ sym (find_pairs-nil g)
  find_pairs_enough (suc f) (suc g) (c ∷ s) hf hg =
      elim (Option-cases (pair_at wide_word (c ∷ s))) [
        | inl lost ↦
            find_pairs-skipped f c s lost
            ∙ find_pairs_enough f g s (omega arith) (omega arith)
            ∙ sym (find_pairs-skipped g c s lost)
        | inr ((key, value, r), found) ↦
            let shorter = pair_at-shorter (c ∷ s) key value r found in
            find_pairs-found f (c ∷ s) key value r found
            ∙ ap (λ ps. (key, value) ∷ ps) (find_pairs_enough f g r (omega arith) (omega arith))
            ∙ sym (find_pairs-found g (c ∷ s) key value r found)
      ]
