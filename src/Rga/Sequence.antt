-- ===== src/Rga/Sequence.antt =====
-- Ids in a sequence, and where a node with a new, greatest id goes.
use cs4730_collaborative_tex.Base.{
  Any, inl, inr, ℕ, zero, suc, ◌≤◌, ◌<◌, ◌≡◌, ◌≢◌, refl, subst, inl, inr, false, List, [], ◌∷◌,
  Option, none, some, arith, length, All, Bool-cases, Option-cases, if◌then◌else◌, ◌>>=◌,
}
use cs4730_collaborative_tex.Base.Eq.{◌==◌}
use cs4730_collaborative_tex.Rga.{
  CharId, id_beq_iff, id_eq, Node, find, root_loop, root_ancestor, goes_behind, place,
  insert_behind, insert_node,
}

-- No node has the id.
abbrev pub Absent : CharId → List Node → Type 0
Absent id = All (λ n. n.id ≢ id)

-- No id stands twice.
abbrev pub Unique : List Node → Type 0
Unique [] = Unit
Unique (n ∷ ns) = Absent n.id ns × Unique ns

-- Every clock is at most `bound`.
abbrev pub ClocksBelow : ℕ → List Node → Type 0
ClocksBelow bound = All (λ n. n.id.clock ≤ bound)

pub Any-Absent : (id : CharId) (ns : List Node) → Absent id ns → Any (λ m. m.id ≡ id) ns → ⊥
Any-Absent id [] a h = h
Any-Absent id (n ∷ ns) a (inl e) = a.0 e
Any-Absent id (n ∷ ns) a (inr h) = Any-Absent id ns a.1 h

pub find-Absent : (id : CharId) (ns : List Node) → Absent id ns → find id ns ≡ none
unfolding find
find-Absent id [] h = refl
find-Absent id (n ∷ ns) h = ground (arith, id_beq_iff n.id id, find-Absent id ns h.1)

pub Absent-find : (id : CharId) (ns : List Node) → find id ns ≡ none → Absent id ns
unfolding find
Absent-find id [] h = tt
Absent-find id (n ∷ ns) h = (
  λ e. ground (arith, id_beq_iff n.id id),
  Absent-find id ns (ground (arith, id_beq_iff n.id id)),
)

find-clock :
    (bound : ℕ) (id : CharId) (ns : List Node) (n : Node)
    → ClocksBelow bound ns
    → find id ns ≡ some n
    → id.clock ≤ bound
unfolding find
find-clock bound id [] n h e = cc
find-clock bound id (m ∷ ns) n h e = elim (Bool-cases (m.id == id)) [
  | inl same ↦
      let eq : m.id ≡ id = (id_beq_iff m.id id).0 same in subst (λ i. i.clock ≤ bound) eq h.0
  | inr other ↦ find-clock bound id ns n h.1 (ground arith)
]

-- A root is the sentinel, or the id of a node.
root_ancestor-clock :
    (bound f : ℕ) (seq : List Node) (id target : CharId)
    → ClocksBelow bound seq
    → (root_ancestor f seq id target).clock ≤ bound
unfolding root_ancestor root_loop
root_ancestor-clock bound zero seq id target h = omega arith
root_ancestor-clock bound (suc f) seq id target h = elim (Option-cases (find id seq)) [
  | inl lost ↦ ground (arith, lost)
  | inr (n, found) ↦
      let here = find-clock bound id seq n h found in
      let up = root_ancestor-clock bound f seq n.left target h in ground (arith, here, up, found)
]

-- No node stands before a new node whose clock is above all others.
goes_behind_newest :
    (bound : ℕ) (seq : List Node) (new left id : CharId)
    → ClocksBelow bound seq
    → bound < new.clock
    → goes_behind seq new left id ≡ false
unfolding goes_behind
goes_behind_newest bound seq new left id h newer =
    let root = root_ancestor-clock bound (length seq) seq id left h in ground (arith, root)

place_newest :
    (bound : ℕ) (seq : List Node) (node : Node) (ms : List Node)
    → ClocksBelow bound seq
    → bound < node.id.clock
    → place seq node ms ≡ node ∷ ms
unfolding place
place_newest bound seq node [] h newer = refl
place_newest bound seq node (m ∷ ms) h newer =
    rw (goes_behind_newest bound seq node.id node.left m.id h newer)

-- A node goes directly behind its left neighbour.
unfoldable pub put_behind : Node → List Node → Option (List Node)
put_behind node [] = none
put_behind node (m ∷ ms) =
    let later = put_behind node ms in
    if m.id == node.left then some (m ∷ node ∷ ms) else do rest ← later; some (m ∷ rest)

insert_behind_newest :
    (bound : ℕ) (seq : List Node) (node : Node) (ms : List Node)
    → ClocksBelow bound seq
    → bound < node.id.clock
    → insert_behind seq node ms ≡ put_behind node ms
unfolding insert_behind put_behind
insert_behind_newest bound seq node [] h newer = refl
insert_behind_newest bound seq node (m ∷ ms) h newer =
    rw (place_newest bound seq node ms h newer, insert_behind_newest bound seq node ms h newer)

-- `insertNode` puts a node whose clock is above all others directly behind its left neighbour.
pub insert_node_newest :
    (bound : ℕ) (new left : CharId) (value : ℕ) (seq : List Node)
    → ClocksBelow bound seq
    → bound < new.clock
    → insert_node new value left seq
      ≡ put_behind (record { id = new; value = value; tombstoned = false; left = left }) seq
unfolding insert_node
insert_node_newest bound new left value seq h newer =
    insert_behind_newest bound seq
      (record { id = new; value = value; tombstoned = false; left = left }) seq h newer
