-- ===== src/Rga/Trees.antt =====
-- The sequence of an engine lists the tree of left neighbours: each operation keeps this.
use cs4730_collaborative_tex.Base.{
  ◌≡◌, ◌≢◌, refl, sym, ap, subst, ◌∙◌, ◌⊎◌, inl, inr, ◌<◌, true, false, List, [], ◌∷◌, ◌++◌, some,
  arith, Bool-cases, is_some, if◌then◌else◌, All, length,
}
use cs4730_collaborative_tex.Base.Eq.{◌==◌}
use cs4730_collaborative_tex.Rga.{
  CharId, id_beq_iff, id_eq, sentinel, Node, find, contains, insert_behind, tombstone,
}
use cs4730_collaborative_tex.Rga.Roots.{Linked}
use cs4730_collaborative_tex.Rga.Invariant.{insert_behind-All}
use cs4730_collaborative_tex.Rga.Order.{Route, before}
use cs4730_collaborative_tex.Rga.Paths.{RouteTo, IsRouting}
use cs4730_collaborative_tex.Rga.Preorder.{InOrder, All-imp, insert_behind-InOrder}
use cs4730_collaborative_tex.Rga.Index.{contains-tombstone, find-insert_behind_other}

-- The nodes have routes, and stand in their order.
pub record IsTree (seq : List Node) : Type 0 where
  pub route : CharId → Route
  pub routing : IsRouting route seq
  pub in_order : InOrder route seq

pub InOrder-agree :
    (P Q : CharId → Route) (ns : List Node)
    → All (λ n. P n.id ≡ Q n.id) ns
    → InOrder P ns
    → InOrder Q ns
InOrder-agree P Q [] h o = tt
InOrder-agree P Q (n ∷ ns) h o = (rest ns h.1 o.0, InOrder-agree P Q ns h.1 o.1)
  where
    rest :
        (ms : List Node)
        → All (λ m. P m.id ≡ Q m.id) ms
        → All (λ m. before (P n.id) (P m.id) ≡ true) ms
        → All (λ m. before (Q n.id) (Q m.id) ≡ true) ms
    rest [] k b = tt
    rest (m ∷ ms) k b = (rw (sym h.0, sym k.0) b.0, rest ms k.1 b.1)

-- A property of ids and left neighbours is kept by a tombstone.
tombstone-All :
    (Q : CharId → CharId → Type 0) (id : CharId) (ns : List Node)
    → All (λ n. Q n.id n.left) ns
    → All (λ n. Q n.id n.left) (tombstone id ns)
unfolding tombstone
tombstone-All Q id [] h = tt
tombstone-All Q id (n ∷ ns) h = elim (Bool-cases (n.id == id)) [
  | inl e ↦ rw e h
  | inr e ↦ rw e (h.0, tombstone-All Q id ns h.1)
]

tombstone-InOrder :
    (P : CharId → Route) (id : CharId) (ns : List Node) → InOrder P ns → InOrder P (tombstone id ns)
unfolding tombstone
tombstone-InOrder P id [] h = tt
tombstone-InOrder P id (n ∷ ns) h = elim (Bool-cases (n.id == id)) [
  | inl e ↦ rw e h
  | inr e ↦
      rw e (
        tombstone-All (λ i l. before (P n.id) (P i) ≡ true) id ns h.0,
        tombstone-InOrder P id ns h.1,
      )
]

pub tombstone-IsTree : (id : CharId) (ns : List Node) → IsTree ns → IsTree (tombstone id ns)
tombstone-IsTree id ns t = record {
  route = t.route;
  routing = record {
    from_sentinel = t.routing.from_sentinel;
    routes =
        tombstone-All (λ i l. ((i ≡ sentinel) × (l ≡ sentinel)) ⊎ (t.route i ≡ t.route l ++ i ∷ []))
          id ns t.routing.routes;
    closed =
        tombstone-All (λ i l. contains l (tombstone id ns) ≡ true) id ns
          (All-imp ns (λ n h. contains-tombstone n.left id ns ∙ h) t.routing.closed);
  };
  in_order = tombstone-InOrder t.route id ns t.in_order;
}

pub new_engine-IsTree :
    (ns : List Node) (n : Node) → ns ≡ n ∷ [] → n.id ≡ sentinel → n.left ≡ sentinel → IsTree ns
new_engine-IsTree ns n same i l = subst IsTree (sym same) (record {
  route = λ _. [];
  routing = record {
    from_sentinel = refl;
    routes = (inl (i, l), tt);
    closed = (unfold find in ground (arith, i, l, id_beq_iff n.id n.left), tt);
  };
  in_order = (tt, tt);
})

-- The routes with one more node.
abbrev extend : (CharId → Route) → Node → CharId → Route
extend P node i = if i == node.id then P node.left ++ node.id ∷ [] else P i

extend-new :
    (P : CharId → Route) (node : Node) → extend P node node.id ≡ P node.left ++ node.id ∷ []
extend-new P node = ground (arith, id_beq_iff node.id node.id)

extend-old : (P : CharId → Route) (node : Node) (i : CharId) → i ≢ node.id → extend P node i ≡ P i
extend-old P node i ne = ground (arith, id_beq_iff i node.id)

All-zip :
    (P Q R : Node → Type 0) (ns : List Node)
    → ((n : Node) → P n → Q n → R n)
    → All P ns
    → All Q ns
    → All R ns
All-zip P Q R [] f h k = tt
All-zip P Q R (n ∷ ns) f h k = (f n h.0 k.0, All-zip P Q R ns f h.1 k.1)

known-other :
    (ns : List Node) (new i : CharId) → contains new ns ≡ false → contains i ns ≡ true → i ≢ new
known-other ns new i h k e = let same = ap (λ j. contains j ns) e in cc

section_new :
    (P : CharId → Route) (node n : Node)
    → n.id ≢ node.id
    → n.left ≢ node.id
    → RouteTo P n
    → RouteTo (extend P node) n
section_new P node n ni nl (inl first) = inl first
section_new P node n ni nl (inr way) =
    inr (
      extend-old P node n.id ni
      ∙ way
      ∙ ap (λ p. p ++ n.id ∷ []) (sym (extend-old P node n.left nl)))

module _ (seq : List Node) (t : IsTree seq) (linked : Linked (λ _. ⊥) seq)
    (some_node : 0 < length seq) (known : contains sentinel seq ≡ true)
    (selves : All (λ n. contains n.id seq ≡ true) seq) (node : Node)
    (new : contains node.id seq ≡ false) (left_known : contains node.left seq ≡ true)
    (r : List Node) (ran : insert_behind seq node seq ≡ some r) where
  new_routes : All (RouteTo (extend t.route node)) seq
  new_routes =
      All-zip (λ n. n.id ≢ node.id) (λ n. RouteTo t.route n × (n.left ≢ node.id))
        (RouteTo (extend t.route node)) seq (λ n ni p. section_new t.route node n ni p.1 p.0)
        (All-imp seq (λ n h. known-other seq node.id n.id new h) selves)
        (All-zip (RouteTo t.route) (λ n. contains n.left seq ≡ true)
          (λ n. RouteTo t.route n × (n.left ≢ node.id)) seq
          (λ n w h. (w, known-other seq node.id n.left new h)) t.routing.routes t.routing.closed)

  new-IsRouting : IsRouting (extend t.route node) seq
  new-IsRouting = record {
    from_sentinel =
        extend-old t.route node sentinel (known-other seq node.id sentinel new known)
        ∙ t.routing.from_sentinel;
    routes = new_routes;
    closed = t.routing.closed;
  }

  new_route : extend t.route node node.id ≡ extend t.route node node.left ++ node.id ∷ []
  new_route =
      extend-new t.route node
      ∙ ap (λ p. p ++ node.id ∷ [])
          (sym
            (extend-old t.route node node.left (known-other seq node.id node.left new left_known)))

  still_known : (i : CharId) → contains i seq ≡ true → contains i r ≡ true
  still_known i h =
      ap is_some (find-insert_behind_other i seq node seq r (known-other seq node.id i new h) ran)
      ∙ h

  pub insert_behind-IsTree : IsTree r
  insert_behind-IsTree = record {
    route = extend t.route node;
    routing = record {
      from_sentinel = new-IsRouting.from_sentinel;
      routes =
          insert_behind-All (RouteTo (extend t.route node)) seq node seq r (inr new_route)
            new_routes ran;
      closed =
          insert_behind-All (λ n. contains n.left r ≡ true) seq node seq r
            (still_known node.left left_known)
            (All-imp seq (λ n h. still_known n.left h) t.routing.closed) ran;
    };
    in_order =
        insert_behind-InOrder (extend t.route node) seq new-IsRouting linked some_node node
          new_route left_known new seq r selves
          (InOrder-agree t.route (extend t.route node) seq
            (All-imp seq
              (λ n h. sym (extend-old t.route node n.id (known-other seq node.id n.id new h)))
              selves)
            t.in_order)
          ran;
  }
