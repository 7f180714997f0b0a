-- ===== src/Sort/Laws.antt =====
-- `sorted` keeps the items and orders numbers.
use cs4730_collaborative_tex.Base.{
  ℕ, zero, suc, ◌+◌, ◌≤◌, ◌≡◌, refl, Bool, List, [], ◌∷◌, some, arith, leb, length, get_elem?, All,
  if◌then◌else◌, Bool-cases, inl, inr,
}
use mathlib.Core.Path.{subst}
use cs4730_collaborative_tex.Sort.{insert_sorted, sorted}

-- How many items pass a test.
abbrev pub count_if {ℓ} : {A : Type ℓ} → (A → Bool) → List A → ℕ
count_if p [] = 0
count_if p (x ∷ xs) = (if p x then 1 else 0) + count_if p xs

module _ {ℓ} {A : Type ℓ} (order : A → A → Bool) where
  count_if-insert_sorted :
      (p : A → Bool) (x : A) (ys : List A)
      → count_if p (insert_sorted order x ys) ≡ count_if p (x ∷ ys)
  unfolding insert_sorted
  count_if-insert_sorted p x [] = refl
  count_if-insert_sorted p x (y ∷ ys) = ground (arith, count_if-insert_sorted p x ys)

  -- Every test is passed by as many items of the sorted list as of the list.
  pub count_if-sorted : (p : A → Bool) (xs : List A) → count_if p (sorted order xs) ≡ count_if p xs
  unfolding sorted
  count_if-sorted p [] = refl
  count_if-sorted p (x ∷ xs) =
      omega (arith, count_if-insert_sorted p x (sorted order xs), count_if-sorted p xs)

  length-insert_sorted : (x : A) (ys : List A) → length (insert_sorted order x ys) ≡ suc (length ys)
  unfolding insert_sorted
  length-insert_sorted x [] = refl
  length-insert_sorted x (y ∷ ys) = ground (arith, length-insert_sorted x ys)

  pub length-sorted : (xs : List A) → length (sorted order xs) ≡ length xs
  unfolding sorted
  length-sorted [] = refl
  length-sorted (x ∷ xs) = omega (arith, length-insert_sorted x (sorted order xs), length-sorted xs)

  All-insert_sorted {κ} :
      (P : A → Type κ) (x : A) (ys : List A) → P x → All P ys → All P (insert_sorted order x ys)
  unfolding insert_sorted
  All-insert_sorted P x [] h hs = (h, tt)
  All-insert_sorted P x (y ∷ ys) h hs = elim (Bool-cases (order x y)) [
    | inl e ↦ rw e (h, hs)
    | inr e ↦ rw e (hs.0, All-insert_sorted P x ys h hs.1)
  ]

  pub All-sorted {κ} : (P : A → Type κ) (xs : List A) → All P xs → All P (sorted order xs)
  unfolding sorted
  All-sorted P [] h = tt
  All-sorted P (x ∷ xs) h = All-insert_sorted P x (sorted order xs) h.0 (All-sorted P xs h.1)

-- Ascending numbers.
abbrev pub IsSorted : List ℕ → Type 0
IsSorted [] = Unit
IsSorted (x ∷ xs) = All (λ y. x ≤ y) xs × IsSorted xs

All-le_trans : (a b : ℕ) (xs : List ℕ) → a ≤ b → All (λ y. b ≤ y) xs → All (λ y. a ≤ y) xs
All-le_trans a b [] h hs = tt
All-le_trans a b (x ∷ xs) h hs = (omega arith, All-le_trans a b xs h hs.1)

insert_sorted-IsSorted : (x : ℕ) (ys : List ℕ) → IsSorted ys → IsSorted (insert_sorted leb x ys)
unfolding insert_sorted
insert_sorted-IsSorted x [] h = (tt, tt)
insert_sorted-IsSorted x (y ∷ ys) (below, h) = elim (Bool-cases (leb x y)) [
  | inl e ↦ rw e ((ground arith, All-le_trans x y ys (ground arith) below), (below, h))
  | inr e ↦
      rw e (
        All-insert_sorted leb (λ z. y ≤ z) x ys (ground arith) below,
        insert_sorted-IsSorted x ys h,
      )
]

pub sorted-IsSorted : (xs : List ℕ) → IsSorted (sorted leb xs)
unfolding sorted
sorted-IsSorted [] = tt
sorted-IsSorted (x ∷ xs) = insert_sorted-IsSorted x (sorted leb xs) (sorted-IsSorted xs)

some_inv : {a b : ℕ} → some a ≡ some b → a ≡ b
some_inv e = cc

pub All-get_elem? :
    (P : ℕ → Type 0) (xs : List ℕ) (i : ℕ) {v : ℕ} → All P xs → get_elem? xs i ≡ some v → P v
All-get_elem? P [] i h e = cc
All-get_elem? P (x ∷ xs) zero {v} h e = subst P (some_inv e) h.0
All-get_elem? P (x ∷ xs) (suc i) h e = All-get_elem? P xs i h.1 e

-- A later place of an ascending list holds a greater value.
pub get_elem?_mono :
    (xs : List ℕ) (i j : ℕ) {v w : ℕ}
    → IsSorted xs
    → i ≤ j
    → get_elem? xs i ≡ some v
    → get_elem? xs j ≡ some w
    → v ≤ w
get_elem?_mono [] i j h le e f = cc
get_elem?_mono (x ∷ xs) zero zero h le e f = ground arith
get_elem?_mono (x ∷ xs) zero (suc j) {v} {w} h le e f =
    let below : x ≤ w = All-get_elem? (λ y. x ≤ y) xs j h.0 f in ground arith
get_elem?_mono (x ∷ xs) (suc i) zero h le e f = absurd (omega arith)
get_elem?_mono (x ∷ xs) (suc i) (suc j) h le e f = get_elem?_mono xs i j h.1 (omega arith) e f

-- The value at place `i` is no less than the `i + 1` items up to it, and no greater than those
-- from it on.
pub count_if-le-get_elem? :
    (xs : List ℕ) (i : ℕ) {v : ℕ}
    → IsSorted xs
    → get_elem? xs i ≡ some v
    → suc i ≤ count_if (λ x. leb x v) xs
count_if-le-get_elem? [] i h e = cc
count_if-le-get_elem? (x ∷ xs) zero h e = ground arith
count_if-le-get_elem? (x ∷ xs) (suc i) {v} h e =
    let below : x ≤ v = All-get_elem? (λ y. x ≤ y) xs i h.0 e in
    ground (arith, count_if-le-get_elem? xs i h.1 e)

count_if-All : (v : ℕ) (xs : List ℕ) → All (λ y. v ≤ y) xs → length xs ≤ count_if (λ x. leb v x) xs
count_if-All v [] h = omega arith
count_if-All v (x ∷ xs) h = ground (arith, count_if-All v xs h.1)

pub count_if-ge-get_elem? :
    (xs : List ℕ) (i : ℕ) {v : ℕ}
    → IsSorted xs
    → get_elem? xs i ≡ some v
    → length xs ≤ i + count_if (λ x. leb v x) xs
count_if-ge-get_elem? [] i h e = cc
count_if-ge-get_elem? (x ∷ xs) zero {v} h e =
    let same : x ≡ v = some_inv e in
    ground (arith, count_if-All v xs (subst (λ a. All (λ y. a ≤ y) xs) same h.0))
count_if-ge-get_elem? (x ∷ xs) (suc i) h e = ground (arith, count_if-ge-get_elem? xs i h.1 e)
