-- ===== src/Rga/Paths.antt =====
-- Routes: `rootAncestor` finds the character on an id's route that stands directly below the target.
use cs4730_collaborative_tex.Base.{
  ℕ, zero, suc, ◌≤◌, ◌≡◌, ◌≢◌, ◌⊎◌, inl, inr, refl, sym, ap, subst, ◌∙◌, true, List, [], ◌∷◌, ◌++◌,
  append_assoc, some, arith, length, length-append, All, Bool-cases, Option-cases,
}
use cs4730_collaborative_tex.Base.Eq.{◌==◌}
use cs4730_collaborative_tex.Rga.{
  CharId, id_beq_iff, id_eq, sentinel, Node, find, contains, root_loop, root_ancestor,
}
use cs4730_collaborative_tex.Rga.Roots.{root_ancestor_found, root_ancestor_lost}
use cs4730_collaborative_tex.Rga.Order.{Route}

-- A node's route is its left neighbour's and its own id behind it.
abbrev pub RouteTo : (CharId → Route) → Node → Type 0
RouteTo P n = ((n.id ≡ sentinel) × (n.left ≡ sentinel)) ⊎ (P n.id ≡ P n.left ++ n.id ∷ [])

-- The routes of the nodes of a sequence, whose left neighbours are all in it.
pub record IsRouting (P : CharId → Route) (seq : List Node) : Type 0 where
  pub from_sentinel : P sentinel ≡ []
  pub routes : All (RouteTo P) seq
  pub closed : All (λ n. contains n.left seq ≡ true) seq

pub find-All :
    (Q : Node → Type 0) (id : CharId) (ns : List Node) (n : Node)
    → All Q ns
    → find id ns ≡ some n
    → Q n
unfolding find
find-All Q id [] n h e = absurd (cc)
find-All Q id (m ∷ ns) n h e = elim (Bool-cases (m.id == id)) [
  | inl here ↦ let same : m ≡ n = ground (arith, here) in subst Q same h.0
  | inr further ↦ find-All Q id ns n h.1 (ground (arith, further))
]

pub find-id : (id : CharId) (ns : List Node) (n : Node) → find id ns ≡ some n → n.id ≡ id
unfolding find
find-id id [] n e = absurd (cc)
find-id id (m ∷ ns) n e = elim (Bool-cases (m.id == id)) [
  | inl here ↦ ground (arith, here, id_beq_iff m.id id)
  | inr further ↦ find-id id ns n (ground (arith, further))
]

pub contains-found :
    (id : CharId) (ns : List Node) → contains id ns ≡ true → (n : Node) × (find id ns ≡ some n)
contains-found id ns h = elim (Option-cases (find id ns)) [
  | inl lost ↦ absurd (ground (arith, lost))
  | inr found ↦ found
]

snoc_inj : (p q : Route) (x y : CharId) → p ++ x ∷ [] ≡ q ++ y ∷ [] → (p ≡ q) × (x ≡ y)
snoc_inj [] [] x y e = ground arith
snoc_inj [] (b ∷ []) x y e = absurd (cc)
snoc_inj [] (b ∷ c ∷ q) x y e = absurd (cc)
snoc_inj (a ∷ []) [] x y e = absurd (cc)
snoc_inj (a ∷ c ∷ p) [] x y e = absurd (cc)
snoc_inj (a ∷ p) (b ∷ q) x y e =
    let tails : p ++ x ∷ [] ≡ q ++ y ∷ [] = cc in
    let (same, last) = snoc_inj p q x y tails in (ground (arith, same), last)

-- The empty route, or a route and a last id.
snoc_cases : (s : Route) → (s ≡ []) ⊎ ((t : Route) × (x : CharId) × (s ≡ t ++ x ∷ []))
snoc_cases [] = inl refl
snoc_cases (a ∷ s) = elim (snoc_cases s) [
  | inl e ↦ inr ([], a, ap (λ r. a ∷ r) e)
  | inr (t, x, e) ↦ inr (a ∷ t, x, ap (λ r. a ∷ r) e)
]

longer : (p : Route) (x : CharId) (s : Route) → p ≡ p ++ x ∷ s → ⊥
longer p x s e = omega (arith, ap length e, length-append p (x ∷ s))

module _ (P : CharId → Route) (seq : List Node) (v : IsRouting P seq) where
  -- What `rootAncestor` finds stands on the route, directly below the target.
  pub root_ancestor-below :
      (f : ℕ) (id target r : CharId)
      → root_ancestor f seq id target ≡ r
      → r ≢ sentinel
      → (s : Route) × (P id ≡ P target ++ r ∷ s)
  root_ancestor-below zero id target r e ne =
      absurd (ne (sym e ∙ unfold root_ancestor root_loop in refl))
  root_ancestor-below (suc f) id target r e ne = elim (Option-cases (find id seq)) [
    | inl lost ↦ absurd (ne (sym e ∙ root_ancestor_lost f seq id target lost))
    | inr (n, found) ↦
        let walked = sym (root_ancestor_found f seq id target n found) ∙ e in
        let here = find-id id seq n found in
        elim (Bool-cases (n.left == target)) [
          | inl direct ↦
              let root : id ≡ r = ground (arith, direct) in
              let left : n.left ≡ target = (id_beq_iff n.left target).0 direct in
              elim (find-All (RouteTo P) id seq n v.routes found) [
                | inl (first, _) ↦ absurd (ne (sym root ∙ sym here ∙ first))
                | inr route ↦ (
                  [],
                  ap P (sym here)
                      ∙ route
                      ∙ ap (λ i. P i ++ n.id ∷ []) left
                      ∙ ap (λ i. P target ++ i ∷ []) (here ∙ root),
                )
              ]
          | inr indirect ↦ elim (Bool-cases (n.left == sentinel)) [
            | inl stop ↦ absurd (ne (ground (arith, indirect, stop)))
            | inr go ↦
                let up : root_ancestor f seq n.left target ≡ r = ground (arith, indirect, go) in
                let (s, eq) = root_ancestor-below f n.left target r up ne in
                elim (find-All (RouteTo P) id seq n v.routes found) [
                  | inl (_, first) ↦ absurd (ground (arith, go, id_beq_iff n.left sentinel, first))
                  | inr route ↦ (
                    s ++ n.id ∷ [],
                    ap P (sym here)
                        ∙ route
                        ∙ ap (λ p. p ++ n.id ∷ []) eq
                        ∙ append_assoc (P target) (r ∷ s) (n.id ∷ []),
                  )
                ]
          ]
        ]
  ]

  empty-ne-snoc : (p : Route) (x : CharId) (s : Route) → [] ≡ p ++ x ∷ s → ⊥
  empty-ne-snoc [] x s e = cc
  empty-ne-snoc (a ∷ p) x s e = cc

  -- Two ids of the sequence with the same route are the same.
  pub routes_inj :
      (a b : CharId) → contains a seq ≡ true → contains b seq ≡ true → P a ≡ P b → a ≡ b
  routes_inj a b ha hb e =
      let (m, found) = contains-found a seq ha in
      let (n, found') = contains-found b seq hb in
      let ma = find-id a seq m found in
      let nb = find-id b seq n found' in
      let both : P m.id ≡ P n.id = ap P ma ∙ e ∙ ap P (sym nb) in
      elim (find-All (RouteTo P) a seq m v.routes found) [
        | inl (first, _) ↦ elim (find-All (RouteTo P) b seq n v.routes found') [
          | inl (first', _) ↦ sym ma ∙ first ∙ sym first' ∙ nb
          | inr route ↦ absurd (
              empty-ne-snoc (P n.left) n.id []
                (sym v.from_sentinel ∙ ap P (sym first) ∙ both ∙ route))
        ]
        | inr route ↦ elim (find-All (RouteTo P) b seq n v.routes found') [
          | inl (first', _) ↦ absurd (
              empty-ne-snoc (P m.left) m.id []
                (sym v.from_sentinel ∙ ap P (sym first') ∙ sym both ∙ route))
          | inr route' ↦
              sym ma ∙ (snoc_inj (P m.left) (P n.left) m.id n.id (sym route ∙ both ∙ route')).1 ∙ nb
        ]
      ]

  -- The converse: the character directly below the target is found.
  pub root_ancestor-of :
      (f : ℕ) (id target r : CharId) (s : Route)
      → length (P id) ≤ f
      → contains id seq ≡ true
      → contains target seq ≡ true
      → P id ≡ P target ++ r ∷ s
      → (root_ancestor f seq id target ≡ r) × (contains r seq ≡ true) × (r ≢ sentinel)
  root_ancestor-of zero id target r s enough known inside e =
      absurd (omega (arith, ap length e, length-append (P target) (r ∷ s)))
  root_ancestor-of (suc f) id target r s enough known inside e =
      let (n, found) = contains-found id seq known in
      let here = find-id id seq n found in
      let step = root_ancestor_found f seq id target n found in
      elim (find-All (RouteTo P) id seq n v.routes found) [
        | inl (first, _) ↦
            absurd
              (empty-ne-snoc (P target) r s (sym v.from_sentinel ∙ ap P (sym first ∙ here) ∙ e))
        | inr route ↦
            let parts : P n.left ++ n.id ∷ [] ≡ P target ++ r ∷ s = sym route ∙ ap P here ∙ e in
            let left_known = find-All (λ m. contains m.left seq ≡ true) id seq n v.closed found in
            elim (snoc_cases s) [
              | inl last ↦
                  let (same, root) =
                    snoc_inj (P n.left) (P target) n.id r
                      (parts ∙ ap (λ t. P target ++ r ∷ t) last) in
                  let left = routes_inj n.left target left_known inside same in
                  let is_root : id ≡ r = sym here ∙ root in
                  (
                    step ∙ ground (arith, left, id_beq_iff n.left target, is_root),
                    subst (λ i. contains i seq ≡ true) is_root known,
                    λ first.
                        empty-ne-snoc (P target) r s
                          (sym v.from_sentinel ∙ ap P (sym (is_root ∙ first)) ∙ e),
                  )
              | inr (t, x, last) ↦
                  let (up, _) = snoc_inj (P n.left) (P target ++ r ∷ t) n.id x (
                    parts
                    ∙ ap (λ u. P target ++ r ∷ u) last
                    ∙ sym (append_assoc (P target) (r ∷ t) (x ∷ []))) in
                  let shorter : length (P n.left) ≤ f = omega (
                    arith,
                    ap length (sym (ap P here) ∙ route),
                    length-append (P n.left) (n.id ∷ []),
                  ) in
                  let (root, in_seq, ne) =
                    root_ancestor-of f n.left target r t shorter left_known inside up in
                  let other : n.left ≢ target =
                    λ same. longer (P target) r t (ap P (sym same) ∙ up) in
                  let deeper : n.left ≢ sentinel = λ first.
                    empty-ne-snoc (P target) r t (sym v.from_sentinel ∙ ap P (sym first) ∙ up) in
                  (
                    step
                        ∙ ground (
                          arith,
                          id_beq_iff n.left target,
                          id_beq_iff n.left sentinel,
                          other,
                          deeper,
                          root,
                        ),
                    in_seq,
                    ne,
                  )
            ]
      ]
