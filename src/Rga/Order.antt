-- ===== src/Rga/Order.antt =====
-- The order of characters by their paths in the tree of left neighbours: a character stands before
-- those that were inserted behind it, and of two that were inserted behind the same one the greater id
-- stands first.
use cs4730_collaborative_tex.Base.{
  ◌≡◌, ◌⊎◌, inl, inr, refl, Bool, true, false, List, [], ◌∷◌, ◌++◌, arith, Bool-cases,
  if◌then◌else◌,
}
use cs4730_collaborative_tex.Base.Eq.{◌==◌}
use cs4730_collaborative_tex.Rga.{CharId, id_beq_iff, id_eq, id_ltb}

-- A path, from the child of the sentinel on.
abbrev pub Route : Type 0
Route = List CharId

pub before : Route → Route → Bool
before [] [] = false
before [] (y ∷ q) = true
before (x ∷ p) [] = false
before (x ∷ p) (y ∷ q) = if x == y then before p q else id_ltb y x

pub before_irrefl : (p : Route) → before p p ≡ false
unfolding before
before_irrefl [] = refl
before_irrefl (x ∷ p) = ground (arith, id_beq_iff x x, before_irrefl p)

pub before_trans : (p q r : Route) → before p q ≡ true → before q r ≡ true → before p r ≡ true
unfolding before
before_trans [] [] r h k = cc
before_trans [] (y ∷ q) [] h k = cc
before_trans [] (y ∷ q) (z ∷ r) h k = refl
before_trans (x ∷ p) [] r h k = cc
before_trans (x ∷ p) (y ∷ q) [] h k = cc
before_trans (x ∷ p) (y ∷ q) (z ∷ r) h k =
    ground (arith, id_beq_iff x y, id_beq_iff y z, id_beq_iff x z, before_trans p q r)

pub before-append : (p : Route) (x : CharId) (s : Route) → before p (p ++ x ∷ s) ≡ true
unfolding before
before-append [] x s = refl
before-append (y ∷ p) x s = ground (arith, id_beq_iff y y, before-append p x s)

pub before-append_right : (p q s : Route) → before p q ≡ true → before p (q ++ s) ≡ true
unfolding before
before-append_right [] [] s h = cc
before-append_right [] (y ∷ q) s h = refl
before-append_right (x ∷ p) [] s h = cc
before-append_right (x ∷ p) (y ∷ q) s h = ground (arith, before-append_right p q s)

-- What stands behind a character was inserted below it, or stands behind all that were.
pub before-below :
    (p q : Route)
    → before p q ≡ true
    → ((r : CharId) × (s : Route) × (q ≡ p ++ r ∷ s)) ⊎ ((s : Route) → before (p ++ s) q ≡ true)
unfolding before
before-below [] [] h = cc
before-below [] (y ∷ q) h = inl (y, q, refl)
before-below (x ∷ p) [] h = cc
before-below (x ∷ p) (y ∷ q) h = elim (Bool-cases (x == y)) [
  | inr other ↦ inr (λ s. ground (arith, other))
  | inl same ↦ elim (before-below p q (ground (arith, same))) [
    | inl (r, s, eq) ↦ inl (r, s, ground (arith, eq, same, id_beq_iff x y))
    | inr above ↦ inr (λ s. ground (arith, same, above s))
  ]
]

-- Two that were inserted below the same one.
pub before-siblings :
    (p : Route) (x y : CharId) (s t : Route)
    → id_ltb y x ≡ true
    → before (p ++ x ∷ s) (p ++ y ∷ t) ≡ true
unfolding before
before-siblings [] x y s t h = ground (arith, id_beq_iff x y)
before-siblings (z ∷ p) x y s t h = ground (arith, id_beq_iff z z, before-siblings p x y s t)
