-- ===== src/Document.antt =====
-- The text that an editor shows, as a list of characters: what an insertion and a deletion at a
-- visible position mean (the comments on `localInsert` and `localDelete` in include/rga.h).
use cs4730_collaborative_tex.Base.{
  ℕ, zero, suc, ◌≤◌, ◌<◌, ◌≡◌, refl, ap, List, [], ◌∷◌, Option, none, some, arith, length, ◌>>=◌,
}

module _ {ℓ} {A : Type ℓ} where
  -- `c` becomes the character at position `p`; `none` where `p` lies behind the end.
  unfoldable pub insert_at : ℕ → A → List A → Option (List A)
  insert_at zero c s = some (c ∷ s)
  insert_at (suc p) c [] = none
  insert_at (suc p) c (d ∷ s) = do r ← insert_at p c s; some (d ∷ r)

  -- The character at position `p` goes; `none` where there is none.
  unfoldable pub delete_at : ℕ → List A → Option (List A)
  delete_at p [] = none
  delete_at zero (d ∷ s) = some s
  delete_at (suc p) (d ∷ s) = do r ← delete_at p s; some (d ∷ r)

  pub insert_at_inside :
      (p : ℕ) (c : A) (s : List A)
      → p ≤ length s
      → (r : List A) × (insert_at p c s ≡ some r) × (length r ≡ suc (length s))
  unfolding insert_at
  insert_at_inside zero c s h = (c ∷ s, refl, refl)
  insert_at_inside (suc p) c [] h = absurd (omega arith)
  insert_at_inside (suc p) c (d ∷ s) h =
      let (r, e, n) = insert_at_inside p c s (omega arith) in (d ∷ r, ground (arith, e), ap suc n)

  pub delete_at_inside :
      (p : ℕ) (s : List A)
      → p < length s
      → (r : List A) × (delete_at p s ≡ some r) × (suc (length r) ≡ length s)
  unfolding delete_at
  delete_at_inside p [] h = absurd (omega arith)
  delete_at_inside zero (d ∷ s) h = (s, refl, refl)
  delete_at_inside (suc p) (d ∷ s) h =
      let (r, e, n) = delete_at_inside p s (omega arith) in (d ∷ r, ground (arith, e), ap suc n)
