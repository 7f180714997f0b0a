-- ===== src/Rga/Preorder.antt =====
-- `insertNode` keeps the characters in the order of their routes.
use cs4730_collaborative_tex.Base.{
  ◌+◌, ◌<◌, ◌≡◌, ◌≢◌, inl, inr, refl, sym, ap, subst, ◌∙◌, true, false, List, [], ◌∷◌, ◌++◌, some,
  arith, length, All, Bool-cases, Option-cases,
}
use cs4730_collaborative_tex.Base.Eq.{◌==◌}
use cs4730_collaborative_tex.Rga.{
  CharId, id_beq_iff, id_eq, id_ltb, sentinel, Node, contains, root_ancestor, goes_behind, place,
  insert_behind,
}
use cs4730_collaborative_tex.Rga.Roots.{Linked, root_ancestor_linked}
use cs4730_collaborative_tex.Rga.Invariant.{place-All, insert_behind-All}
use cs4730_collaborative_tex.Rga.Order.{
  Route, before, before_trans, before-append, before-append_right, before-below, before-siblings,
}
use cs4730_collaborative_tex.Rga.Paths.{IsRouting, root_ancestor-below, root_ancestor-of}

-- Each node stands before all that follow it.
abbrev pub InOrder : (CharId → Route) → List Node → Type 0
InOrder P [] = Unit
InOrder P (n ∷ ns) = All (λ m. before (P n.id) (P m.id) ≡ true) ns × InOrder P ns

id_ltb_total : (a b : CharId) → a ≢ b → id_ltb a b ≡ false → id_ltb b a ≡ true
id_ltb_total a b ne h = ground (arith, id_beq_iff a b, ne)

pub All-imp :
    {P Q : Node → Type 0} (ns : List Node) → ((n : Node) → P n → Q n) → All P ns → All Q ns
All-imp [] f h = tt
All-imp (n ∷ ns) f h = (f n h.0, All-imp ns f h.1)

-- The left neighbour of a node that is inserted is in the list.
pub insert_behind-left :
    (Q : Node → Type 0) (seq : List Node) (node : Node) (ms r : List Node)
    → All Q ms
    → insert_behind seq node ms ≡ some r
    → (m : Node) × (m.id ≡ node.left) × Q m
unfolding insert_behind
insert_behind-left Q seq node [] r h e = absurd (cc)
insert_behind-left Q seq node (m ∷ ms) r h e = elim (Bool-cases (m.id == node.left)) [
  | inl here ↦ (m, (id_beq_iff m.id node.left).0 here, h.0)
  | inr further ↦ elim (Option-cases (insert_behind seq node ms)) [
    | inl lost ↦ absurd (ground (arith, further, lost))
    | inr (s, found) ↦ insert_behind-left Q seq node ms s h.1 found
  ]
]

module _ (P : CharId → Route) (seq : List Node) (v : IsRouting P seq) (linked : Linked (λ _. ⊥) seq)
    (some_node : 0 < length seq) (node : Node) (route : P node.id ≡ P node.left ++ node.id ∷ [])
    (left_known : contains node.left seq ≡ true) (new : contains node.id seq ≡ false) where
  goes_behind-before :
      (m : Node)
      → goes_behind seq node.id node.left m.id ≡ true
      → before (P m.id) (P node.id) ≡ true
  unfolding goes_behind
  goes_behind-before m h =
      let r = root_ancestor (length seq) seq m.id node.left in
      let ne : r ≢ sentinel = λ e. ground (arith, id_beq_iff r sentinel, e) in
      let greater : id_ltb node.id r ≡ true = ground (arith) in
      let (s, below) = root_ancestor-below P seq v (length seq) m.id node.left r refl ne in
      rw (below, route) (before-siblings (P node.left) r node.id s [] greater)

  not_behind-before :
      (m : Node)
      → contains m.id seq ≡ true
      → before (P node.left) (P m.id) ≡ true
      → goes_behind seq node.id node.left m.id ≡ false
      → before (P node.id) (P m.id) ≡ true
  unfolding goes_behind
  not_behind-before m known behind h = elim (before-below (P node.left) (P m.id) behind) [
    | inr above ↦ rw route (above (node.id ∷ []))
    | inl (r, s, below) ↦
        let f = length seq + length (P m.id) in
        let (root, in_seq, ne) =
          root_ancestor-of P seq v f m.id node.left r s (omega arith) known left_known below in
        let found : root_ancestor (length seq) seq m.id node.left ≡ r =
          sym (root_ancestor_linked seq node.left linked f m.id some_node (omega arith)) ∙ root in
        let other : node.id ≢ r = λ same. let clash = ap (λ i. contains i seq) same in cc in
        let less : id_ltb node.id r ≡ false = ground (arith, found, id_beq_iff r sentinel, ne) in
        rw (route, below)
          (before-siblings (P node.left) node.id r [] s (id_ltb_total node.id r other less))
  ]

  place-InOrder :
      (ms : List Node)
      → All (λ m. contains m.id seq ≡ true) ms
      → All (λ m. before (P node.left) (P m.id) ≡ true) ms
      → InOrder P ms
      → InOrder P (place seq node ms)
  unfolding place
  place-InOrder [] known behind o = (tt, tt)
  place-InOrder (m ∷ ms) known behind o =
      elim (Bool-cases (goes_behind seq node.id node.left m.id)) [
        | inl e ↦ rw e (
          place-All (λ x. before (P m.id) (P x.id) ≡ true) seq node ms (goes_behind-before m e) o.0,
          place-InOrder ms known.1 behind.1 o.1,
        )
        | inr e ↦
            let first = not_behind-before m known.0 behind.0 e in
            rw e (
              (first, All-imp ms (λ x h. before_trans (P node.id) (P m.id) (P x.id) first h) o.0),
              o,
            )
      ]

  -- The new node goes where its route says.
  pub insert_behind-InOrder :
      (ms r : List Node)
      → All (λ m. contains m.id seq ≡ true) ms
      → InOrder P ms
      → insert_behind seq node ms ≡ some r
      → InOrder P r
  unfolding insert_behind
  insert_behind-InOrder [] r known o e = absurd (cc)
  insert_behind-InOrder (m ∷ ms) r known o e = elim (Bool-cases (m.id == node.left)) [
    | inl here ↦
        let left : m.id ≡ node.left = (id_beq_iff m.id node.left).0 here in
        let same : m ∷ place seq node ms ≡ r = ground (arith, here) in
        let child : before (P m.id) (P node.id) ≡ true =
          rw (route, left) (before-append (P node.left) node.id []) in
        subst (InOrder P) same (
          place-All (λ x. before (P m.id) (P x.id) ≡ true) seq node ms child o.0,
          place-InOrder ms known.1
              (subst (λ i. All (λ x. before (P i) (P x.id) ≡ true) ms) left o.0) o.1,
        )
    | inr further ↦ elim (Option-cases (insert_behind seq node ms)) [
      | inl lost ↦ absurd (ground (arith, further, lost))
      | inr (s, found) ↦
          let same : m ∷ s ≡ r = ground (arith, further, found) in
          let (l, is_left, first) =
            insert_behind-left (λ x. before (P m.id) (P x.id) ≡ true) seq node ms s o.0 found in
          let child : before (P m.id) (P node.id) ≡ true = rw route (
            before-append_right (P m.id) (P node.left) (node.id ∷ [])
              (subst (λ i. before (P m.id) (P i) ≡ true) is_left first)) in
          subst (InOrder P) same (
            insert_behind-All (λ x. before (P m.id) (P x.id) ≡ true) seq node ms s child o.0 found,
            insert_behind-InOrder ms s known.1 o.1 found,
          )
    ]
  ]
