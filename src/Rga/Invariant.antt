-- ===== src/Rga/Invariant.antt =====
-- The invariant of the engine: the sentinel stands first and is tombstoned, no id stands twice, the
-- clock is at least every node's, and each node's left neighbour stands before it.
use cs4730_collaborative_tex.Base.{
  ℕ, ◌+◌, ◌≤◌, ◌<◌, ◌≡◌, ◌≢◌, refl, sym, ap, subst, ◌⊎◌, inl, inr, true, false, List, [], ◌∷◌, some,
  arith, length, All, Bool-cases, Option-cases,
}
use cs4730_collaborative_tex.Base.Eq.{◌==◌}
use cs4730_collaborative_tex.Base.Int.{ℤ}
use cs4730_collaborative_tex.Rga.{
  CharId, id_eq, sentinel, Node, Engine, new_engine, Operation, root_loop, root_ancestor,
  goes_behind, place, insert_behind, insert_node, visible_at, local_insert, pred_int,
}
use cs4730_collaborative_tex.Rga.Sequence.{Absent, Unique, ClocksBelow}
use cs4730_collaborative_tex.Rga.Roots.{Linked, insert_behind-Linked, root_loop_linked}

-- The sentinel stands first.
abbrev pub Headed : List Node → Type 0
Headed [] = ⊥
Headed (n ∷ ns) = (n.id ≡ sentinel) × (n.tombstoned ≡ true)

pub record IsValid (e : Engine) : Type 0 where
  pub headed : Headed e.seq
  pub unique : Unique e.seq
  pub clocks : ClocksBelow e.clock e.seq
  pub linked : Linked (λ _. ⊥) e.seq

pub insert_behind-cons :
    (seq : List Node) (node m : Node) (ms r : List Node)
    → insert_behind seq node (m ∷ ms) ≡ some r
    → (r ≡ m ∷ place seq node ms)
      ⊎ ((s : List Node) × (insert_behind seq node ms ≡ some s) × (r ≡ m ∷ s))
unfolding insert_behind
insert_behind-cons seq node m ms r e = elim (Bool-cases (m.id == node.left)) [
  | inl here ↦ inl (ground arith)
  | inr further ↦ elim (Option-cases (insert_behind seq node ms)) [
    | inl lost ↦ absurd (ground arith)
    | inr (s, found) ↦ inr (s, found, ground arith)
  ]
]

module _ (P : Node → Type 0) where
  pub place-All :
      (seq : List Node) (node : Node) (ms : List Node)
      → P node
      → All P ms
      → All P (place seq node ms)
  unfolding place
  place-All seq node [] p h = (p, tt)
  place-All seq node (m ∷ ms) p h = elim (Bool-cases (goes_behind seq node.id node.left m.id)) [
    | inl e ↦ rw e (h.0, place-All seq node ms p h.1)
    | inr e ↦ rw e (p, h)
  ]

  pub insert_behind-All :
      (seq : List Node) (node : Node) (ms r : List Node)
      → P node
      → All P ms
      → insert_behind seq node ms ≡ some r
      → All P r
  unfolding insert_behind
  insert_behind-All seq node [] r p h e = absurd (cc)
  insert_behind-All seq node (m ∷ ms) r p h e = elim (insert_behind-cons seq node m ms r e) [
    | inl here ↦ subst (All P) (sym here) (h.0, place-All seq node ms p h.1)
    | inr (s, found, further) ↦
        subst (All P) (sym further) (h.0, insert_behind-All seq node ms s p h.1 found)
  ]

place-Unique :
    (seq : List Node) (node : Node) (ms : List Node)
    → Absent node.id ms
    → Unique ms
    → Unique (place seq node ms)
unfolding place
place-Unique seq node [] a u = (tt, tt)
place-Unique seq node (m ∷ ms) a u = elim (Bool-cases (goes_behind seq node.id node.left m.id)) [
  | inl e ↦ rw e (
    place-All (λ n. n.id ≢ m.id) seq node ms (λ same. a.0 (sym same)) u.0,
    place-Unique seq node ms a.1 u.1,
  )
  | inr e ↦ rw e (a, u)
]

insert_behind-Unique :
    (seq : List Node) (node : Node) (ms r : List Node)
    → Absent node.id ms
    → Unique ms
    → insert_behind seq node ms ≡ some r
    → Unique r
unfolding insert_behind
insert_behind-Unique seq node [] r a u e = absurd (cc)
insert_behind-Unique seq node (m ∷ ms) r a u e = elim (insert_behind-cons seq node m ms r e) [
  | inl here ↦ subst Unique (sym here) (
    place-All (λ n. n.id ≢ m.id) seq node ms (λ same. a.0 (sym same)) u.0,
    place-Unique seq node ms a.1 u.1,
  )
  | inr (s, found, further) ↦ subst Unique (sym further) (
    insert_behind-All (λ n. n.id ≢ m.id) seq node ms s (λ same. a.0 (sym same)) u.0 found,
    insert_behind-Unique seq node ms s a.1 u.1 found,
  )
]

insert_behind-Headed :
    (seq : List Node) (node : Node) (ms r : List Node)
    → Headed ms
    → insert_behind seq node ms ≡ some r
    → Headed r
insert_behind-Headed seq node [] r h e = absurd h
insert_behind-Headed seq node (m ∷ ms) r h e = elim (insert_behind-cons seq node m ms r e) [
  | inl here ↦ subst Headed (sym here) h
  | inr (s, found, further) ↦ subst Headed (sym further) h
]

pub ClocksBelow-mono : (a b : ℕ) (ns : List Node) → a ≤ b → ClocksBelow a ns → ClocksBelow b ns
ClocksBelow-mono a b [] le h = tt
ClocksBelow-mono a b (n ∷ ns) le h = (omega arith, ClocksBelow-mono a b ns le h.1)

-- A node with a new id under a clock that covers it keeps the invariant.
pub insert_node-IsValid :
    (new left : CharId) (value bound : ℕ) (e : Engine) (r : List Node)
    → IsValid e
    → Absent new e.seq
    → e.clock ≤ bound
    → new.clock ≤ bound
    → insert_node new value left e.seq ≡ some r
    → IsValid (record e { clock = bound; seq = r })
unfolding insert_node
insert_node-IsValid new left value bound e r v a le le' eq =
    let node : Node = record { id = new; value = value; tombstoned = false; left = left } in
    record {
      headed = insert_behind-Headed e.seq node e.seq r v.headed eq;
      unique = insert_behind-Unique e.seq node e.seq r a v.unique eq;
      clocks =
          insert_behind-All (λ n. n.id.clock ≤ bound) e.seq node e.seq r le'
            (ClocksBelow-mono e.clock bound e.seq le v.clocks) eq;
      linked = insert_behind-Linked (λ _. ⊥) e.seq node e.seq r v.linked eq;
    }

pub clock-IsValid :
    (bound : ℕ) (e : Engine) → IsValid e → e.clock ≤ bound → IsValid (record e { clock = bound })
clock-IsValid bound e v le = record {
  headed = v.headed;
  unique = v.unique;
  clocks = ClocksBelow-mono e.clock bound e.seq le v.clocks;
  linked = v.linked;
}

pub newest-Absent :
    (bound : ℕ) (id : CharId) (ns : List Node)
    → ClocksBelow bound ns
    → bound < id.clock
    → Absent id ns
newest-Absent bound id [] h newer = tt
newest-Absent bound id (n ∷ ns) h newer = (
  λ same. let c : n.id.clock ≡ id.clock = ap (λ i. i.clock) same in absurd (omega arith),
  newest-Absent bound id ns h.1 newer,
)

-- A new document is valid.
pub new_engine-IsValid : (site : ℕ) → IsValid (new_engine site)
new_engine-IsValid site = record {
  headed = (refl, refl);
  unique = (tt, tt);
  clocks = (omega arith, tt);
  linked = (inl refl, tt);
}

-- `localInsert` keeps the invariant.
pub local_insert-IsValid :
    (p : ℤ) (c : ℕ) (e e' : Engine) (op : Operation)
    → IsValid e
    → local_insert p c e ≡ some (e', op)
    → IsValid e'
unfolding local_insert
local_insert-IsValid p c e e' op v h =
    let left = visible_at (pred_int p) e.seq in
    let new : CharId = record { clock = e.clock + 1; site = e.site } in
    elim (Option-cases (insert_node new c left e.seq)) [
      | inl lost ↦ absurd (ground (arith))
      | inr (r, found) ↦
          let same : e' ≡ record e { clock = e.clock + 1; seq = r } = ground arith in
          subst IsValid (sym same) (
            insert_node-IsValid new left c (e.clock + 1) e r v
              (newest-Absent e.clock new e.seq v.clocks (omega arith)) (omega arith) (omega arith)
              found)
    ]

pub length-Headed : (ns : List Node) → Headed ns → 0 < length ns
length-Headed [] h = absurd h
length-Headed (n ∷ ns) h = omega arith

-- In a valid engine the loop of `rootAncestor` returns, within as many rounds as the sequence has
-- nodes, and what it returns is the result of the model.
pub root_ancestor_enough :
    (e : Engine) (id target : CharId) (f : ℕ)
    → IsValid e
    → length e.seq ≤ f
    → root_loop f e.seq id target ≡ some (root_ancestor (length e.seq) e.seq id target)
root_ancestor_enough e id target f v enough =
    root_loop_linked e.seq target v.linked f id (length-Headed e.seq v.headed) enough
