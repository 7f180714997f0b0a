-- ===== src/Sort.antt =====
-- Python's `sorted`, which scripts/*.py call on directory entries, peer counts and latencies.
pub mod Laws
use cs4730_collaborative_tex.Base.{Bool, List, [], ◌∷◌, if◌then◌else◌}

-- `sorted(items, key=...)`: a stable sort, for an order test `leb`.
module _ {ℓ} {A : Type ℓ} (leb : A → A → Bool) where
  unfoldable pub insert_sorted : A → List A → List A
  insert_sorted x [] = x ∷ []
  insert_sorted x (y ∷ ys) = if leb x y then x ∷ y ∷ ys else y ∷ insert_sorted x ys

  unfoldable pub sorted : List A → List A
  unfolding insert_sorted
  sorted [] = []
  sorted (x ∷ xs) = insert_sorted x (sorted xs)
