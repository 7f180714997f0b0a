-- ===== src/Rga/Agree.antt =====
-- Engines that know the same characters hold them in the same order.
use cs4730_collaborative_tex.Base.{
  ◌≡◌, ◌≢◌, refl, sym, ap, subst, ◌∙◌, ◌⊎◌, inl, inr, true, List, [], ◌∷◌, ◌++◌, none, some, arith,
  Bool-cases, Option-cases, All,
}
use cs4730_collaborative_tex.Base.Eq.{◌==◌}
use cs4730_collaborative_tex.Rga.{CharId, id_beq_iff, id_eq, sentinel, Node, find}
use cs4730_collaborative_tex.Rga.Sequence.{Absent, Unique}
use cs4730_collaborative_tex.Rga.Roots.{Linked}
use cs4730_collaborative_tex.Rga.Order.{Route, before, before_irrefl, before_trans}
use cs4730_collaborative_tex.Rga.Paths.{RouteTo, find-All, find-id}
use cs4730_collaborative_tex.Rga.Preorder.{InOrder, All-imp}
use cs4730_collaborative_tex.Rga.Trees.{IsTree, InOrder-agree}

find_self : (n : Node) (ns : List Node) → find n.id (n ∷ ns) ≡ some n
unfolding find
find_self n ns = ground (arith, id_beq_iff n.id n.id)

find-skip : (i : CharId) (n : Node) (ns : List Node) → n.id ≢ i → find i (n ∷ ns) ≡ find i ns
unfolding find
find-skip i n ns ne = ground (arith, id_beq_iff n.id i)

-- In a list without repetitions each node is found by its id.
pub selves-found : (ns : List Node) → Unique ns → All (λ n. find n.id ns ≡ some n) ns
selves-found [] u = tt
selves-found (n ∷ ns) u = (find_self n ns, later ns u.0 (selves-found ns u.1))
  where
    later :
        (ms : List Node)
        → Absent n.id ms
        → All (λ m. find m.id ns ≡ some m) ms
        → All (λ m. find m.id (n ∷ ns) ≡ some m) ms
    later [] a h = tt
    later (m ∷ ms) a h = (find-skip m.id n ns (λ e. a.0 (sym e)) ∙ h.0, later ms a.1 h.1)

behind-absent :
    (P : CharId → Route) (n : Node) (ns : List Node)
    → All (λ m. before (P n.id) (P m.id) ≡ true) ns
    → find n.id ns ≡ none
behind-absent P n ns h = elim (Option-cases (find n.id ns)) [
  | inl lost ↦ lost
  | inr (m, found) ↦
      let behind : before (P n.id) (P m.id) ≡ true =
        find-All (λ x. before (P n.id) (P x.id) ≡ true) n.id ns m h found in
      let same = find-id n.id ns m found in
      let self = before_irrefl (P n.id) in
      absurd (let self' = ap (λ i. before (P n.id) (P i)) same in cc)
]

-- The first of two lists in the same order with the same nodes.
same_head :
    (P : CharId → Route) (m n : Node) (ms ns : List Node)
    → InOrder P (m ∷ ms)
    → InOrder P (n ∷ ns)
    → ((i : CharId) → find i (m ∷ ms) ≡ find i (n ∷ ns))
    → m ≡ n
same_head P m n ms ns a b same = elim (Bool-cases (m.id == n.id)) [
  | inl e ↦
      let eq : m.id ≡ n.id = (id_beq_iff m.id n.id).0 e in
      let left = find_self m ms in
      let right : find m.id (n ∷ ns) ≡ some n =
        subst (λ i. find i (n ∷ ns) ≡ some n) (sym eq) (find_self n ns) in
      let both = same m.id in cc
  | inr e ↦
      let ne : m.id ≢ n.id = λ eq. ground (arith, id_beq_iff m.id n.id, eq, e) in
      let later : find m.id ns ≡ some m =
        sym (find-skip m.id n ns (λ eq. ne (sym eq))) ∙ sym (same m.id) ∙ find_self m ms in
      let later' : find n.id ms ≡ some n =
        sym (find-skip n.id m ms ne) ∙ same n.id ∙ find_self n ns in
      let one : before (P n.id) (P m.id) ≡ true =
        find-All (λ x. before (P n.id) (P x.id) ≡ true) m.id ns m b.0 later in
      let two : before (P m.id) (P n.id) ≡ true =
        find-All (λ x. before (P m.id) (P x.id) ≡ true) n.id ms n a.0 later' in
      absurd (
        let loop = before_trans (P m.id) (P n.id) (P m.id) two one in
        let none_such = before_irrefl (P m.id) in cc)
]

same_tail :
    (P : CharId → Route) (n : Node) (ms ns : List Node)
    → InOrder P (n ∷ ms)
    → InOrder P (n ∷ ns)
    → ((i : CharId) → find i (n ∷ ms) ≡ find i (n ∷ ns))
    → (i : CharId) → find i ms ≡ find i ns
same_tail P n ms ns a b same i = elim (Bool-cases (n.id == i)) [
  | inl e ↦
      let eq : n.id ≡ i = (id_beq_iff n.id i).0 e in
      subst (λ j. find j ms ≡ find j ns) eq
        (behind-absent P n ms a.0 ∙ sym (behind-absent P n ns b.0))
  | inr e ↦
      let ne : n.id ≢ i = λ eq. ground (arith, id_beq_iff n.id i, eq, e) in
      sym (find-skip i n ms ne) ∙ same i ∙ find-skip i n ns ne
]

find-nil : (i : CharId) → none ≡ find i []
unfolding find
find-nil i = refl

never-found : (n : Node) (ns : List Node) → ((i : CharId) → none ≡ find i (n ∷ ns)) → ⊥
never-found n ns h = let lost = h n.id in let found = find_self n ns in cc

-- Two lists in the same order with the same nodes are equal.
pub same_order :
    (P : CharId → Route) (a b : List Node)
    → InOrder P a
    → InOrder P b
    → ((i : CharId) → find i a ≡ find i b)
    → a ≡ b
same_order P [] [] ha hb same = refl
same_order P [] (n ∷ ns) ha hb same = absurd (never-found n ns (λ i. find-nil i ∙ same i))
same_order P (m ∷ ms) [] ha hb same = absurd (never-found m ms (λ i. find-nil i ∙ sym (same i)))
same_order P (m ∷ ms) (n ∷ ns) ha hb same =
    let first = same_head P m n ms ns ha hb same in
    let hb' : InOrder P (m ∷ ns) = subst (λ x. InOrder P (x ∷ ns)) (sym first) hb in
    let same' : (i : CharId) → find i (m ∷ ms) ≡ find i (m ∷ ns) =
      λ i. same i ∙ ap (λ x. find i (x ∷ ns)) (sym first) in
    let rest = same_order P ms ns ha.1 hb'.1 (same_tail P m ms ns ha hb' same') in
    ap (λ x. x ∷ ms) first ∙ ap (λ xs. n ∷ xs) rest

-- Two routings of the same nodes are the same on them.
routings-agree :
    (P Q : CharId → Route) (known : CharId → Type 0) (ns : List Node)
    → P sentinel ≡ []
    → Q sentinel ≡ []
    → ((i : CharId) → known i → P i ≡ Q i)
    → Linked known ns
    → All (RouteTo P) ns
    → All (RouteTo Q) ns
    → All (λ n. P n.id ≡ Q n.id) ns
routings-agree P Q known [] p q k l a b = tt
routings-agree P Q known (n ∷ ns) p q k l a b =
    let left : P n.left ≡ Q n.left = elim l.0 [
      | inl first ↦ ap P first ∙ p ∙ sym q ∙ ap Q (sym first)
      | inr before_it ↦ k n.left before_it
    ] in
    let here : P n.id ≡ Q n.id = here_agree left a.0 b.0 in
    (
      here,
      routings-agree P Q (λ i. (i ≡ n.id) ⊎ known i) ns p q
          (λ i h. elim h [ inl e ↦ ap P e ∙ here ∙ ap Q (sym e) | inr h' ↦ k i h' ]) l.1 a.1 b.1,
    )
  where
    here_agree : P n.left ≡ Q n.left → RouteTo P n → RouteTo Q n → P n.id ≡ Q n.id
    here_agree left (inl (i, _)) way' = ap P i ∙ p ∙ sym q ∙ ap Q (sym i)
    here_agree left (inr way) (inl (i, _)) = ap P i ∙ p ∙ sym q ∙ ap Q (sym i)
    here_agree left (inr way) (inr way') = way ∙ ap (λ r. r ++ n.id ∷ []) left ∙ sym way'

-- Two trees with the same nodes are listed in the same order.
pub same_tree :
    (a b : List Node)
    → IsTree a
    → IsTree b
    → Linked (λ _. ⊥) a
    → Unique a
    → ((i : CharId) → find i a ≡ find i b)
    → a ≡ b
same_tree a b ta tb la ua same =
    let there : All (RouteTo tb.route) a =
      All-imp a
        (λ n h. find-All (RouteTo tb.route) n.id b n tb.routing.routes (sym (same n.id) ∙ h))
        (selves-found a ua) in
    let agree =
      routings-agree ta.route tb.route (λ _. ⊥) a ta.routing.from_sentinel tb.routing.from_sentinel
        (λ i no. absurd no) la ta.routing.routes there in
    same_order tb.route a b (InOrder-agree ta.route tb.route a agree ta.in_order) tb.in_order same
