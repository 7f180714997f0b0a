-- ===== src/Rga.antt =====
-- The replicated growable array: `CharID`, `Operation` and `CRDTEngine` of include/rga.h and
-- src/rga.cpp. `seq_` is a list of nodes; `index_` is kept in step with it (each node that goes in
-- is indexed, none is taken out), so a look-up in it finds the node with the id. Lamport clocks are
-- unbounded: the C++ `int` overflows only after 2^31 - 1 operations.
pub mod Sequence
pub mod Invariant
pub mod Tombstones
pub mod Insertion
pub mod Deletion
pub mod Roots
pub mod Remote
pub mod Delivery
pub mod Commute
pub mod Order
pub mod Paths
pub mod Preorder
pub mod Index
pub mod Trees
pub mod Agree
pub mod Histories
pub mod Steps
pub mod Converge
pub mod Queries
use cs4730_collaborative_tex.Base.{
  ℕ, zero, suc, ◌+◌, ◌≡◌, ◌↔◌, Bool, true, false, not, ◌&&◌, List, [], ◌∷◌, Option, none, some,
  or_else, arith, ltb, leb, nat_beq, length, if◌then◌else◌, ◌>>=◌, is_some,
}
use cs4730_collaborative_tex.Base.Eq.{Eq, ◌==◌}
use cs4730_collaborative_tex.Base.Int.{ℤ, pos, negsuc}

-- `CharID`
pub record CharId : Type 0 where
  pub clock : ℕ
  pub site : ℕ

-- `operator==`
abbrev pub id_beq : CharId → CharId → Bool
id_beq a b = nat_beq a.clock b.clock && nat_beq a.site b.site

pub id_beq_iff : (a b : CharId) → (id_beq a b ≡ true) ↔ (a ≡ b)
id_beq_iff a b = ground arith

instance abbrev pub id_eq : Eq CharId
id_eq = record { same = id_beq; beq_iff = id_beq_iff }

-- `operator<`
abbrev pub id_ltb : CharId → CharId → Bool
id_ltb a b = if not (nat_beq a.clock b.clock) then ltb a.clock b.clock else ltb a.site b.site

-- `SENTINEL_ID`
abbrev pub sentinel : CharId
sentinel = record { clock = 0; site = 0 }

-- `CRDTEngine::Node`
pub record Node : Type 0 where
  pub id : CharId
  pub value : ℕ
  pub tombstoned : Bool
  pub left : CharId

pub data OpType : Type 0 where
  insert_op delete_op : OpType

pub record Operation : Type 0 where
  pub type : OpType
  pub id : CharId
  pub left : CharId
  pub value : ℕ

pub record Engine : Type 0 where
  pub site : ℕ
  pub clock : ℕ
  pub seq : List Node

-- `CRDTEngine(siteID)`
abbrev pub new_engine : ℕ → Engine
new_engine site = record {
  site = site;
  clock = 0;
  seq = record { id = sentinel; value = 0; tombstoned = true; left = sentinel } ∷ [];
}

-- `index_.find(id)`
unfoldable pub find : CharId → List Node → Option Node
find id [] = none
find id (n ∷ ns) = if n.id == id then some n else find id ns

-- `index_.count(id) > 0`
abbrev pub contains : CharId → List Node → Bool
contains id ns = is_some (find id ns)

-- The `while (true)` loop of `rootAncestor` for so many rounds: `none` means that it has not returned.
unfoldable pub root_loop : ℕ → List Node → CharId → CharId → Option CharId
unfolding find
root_loop zero seq id target = none
root_loop (suc f) seq id target = elim (find id seq) [
  | none ↦ some sentinel
  | some n ↦
      let up = root_loop f seq n.left target in
      if n.left == target then some id else if n.left == sentinel then some sentinel else up
]

-- `rootAncestor`, for an engine in which the loop returns within so many rounds. In another one, which
-- is not valid, C++ does not go on from here, and the sentinel stands for no result.
unfoldable pub root_ancestor : ℕ → List Node → CharId → CharId → CharId
unfolding root_loop
root_ancestor f seq id target = or_else (root_loop f seq id target) sentinel

-- `root != SENTINEL_ID && root > newID`, for the node at the insert position.
unfoldable pub goes_behind : List Node → CharId → CharId → CharId → Bool
unfolding root_ancestor
goes_behind seq new left id =
    let root = root_ancestor (length seq) seq id left in not (root == sentinel) && id_ltb new root

-- The `while` loop of `insertNode`, from the insert position on, and the insertion.
unfoldable pub place : List Node → Node → List Node → List Node
unfolding goes_behind
place seq node [] = node ∷ []
place seq node (m ∷ ms) =
    if goes_behind seq node.id node.left m.id then m ∷ place seq node ms else node ∷ m ∷ ms

-- `std::next(index_.at(leftID))`; `none` is the `std::out_of_range` of `at`.
unfoldable pub insert_behind : List Node → Node → List Node → Option (List Node)
unfolding place
insert_behind seq node [] = none
insert_behind seq node (m ∷ ms) =
    let later = insert_behind seq node ms in
    if m.id == node.left then some (m ∷ place seq node ms) else do rest ← later; some (m ∷ rest)

-- `insertNode`
unfoldable pub insert_node : CharId → ℕ → CharId → List Node → Option (List Node)
unfolding insert_behind
insert_node new value left seq =
    insert_behind seq (record { id = new; value = value; tombstoned = false; left = left }) seq

-- `getDocument`
unfoldable pub document : List Node → List ℕ
document [] = []
document (n ∷ ns) = let rest = document ns in if n.tombstoned then rest else n.value ∷ rest

-- The loop of `visibleAt`, with the visible nodes still to pass.
unfoldable pub visible_from : ℕ → List Node → CharId
visible_from n [] = sentinel
visible_from n (m ∷ ms) = elim (m.tombstoned) [
  | true ↦ visible_from n ms
  | false ↦ elim n [ zero ↦ m.id | suc k ↦ visible_from k ms ]
]

-- `visibleAt(n)`
unfoldable pub visible_at : ℤ → List Node → CharId
unfolding visible_from
visible_at (pos n) seq = visible_from n seq
visible_at (negsuc _) seq = sentinel

-- `pos - 1`
abbrev pub pred_int : ℤ → ℤ
pred_int (pos zero) = negsuc 0
pred_int (pos (suc n)) = pos n
pred_int (negsuc n) = negsuc (suc n)

-- `localInsert(pos, c)`
unfoldable pub local_insert : ℤ → ℕ → Engine → Option (Engine × Operation)
unfolding insert_node visible_at
local_insert p c e =
    let left = visible_at (pred_int p) e.seq in
    let new : CharId = record { clock = e.clock + 1; site = e.site } in
    do
      seq ← insert_node new c left e.seq
      some (
        record e { clock = e.clock + 1; seq = seq },
        record { type = insert_op; id = new; left = left; value = c },
      )

-- `visibleIter(n)` and `it->tombstoned = true`: the node's id and the new sequence.
unfoldable pub delete_from : ℕ → List Node → Option (CharId × List Node)
delete_from n [] = none
delete_from n (m ∷ ms) = elim (m.tombstoned) [
  | true ↦ do (id, rest) ← delete_from n ms; some (id, m ∷ rest)
  | false ↦ elim n [
    | zero ↦ some (m.id, record m { tombstoned = true } ∷ ms)
    | suc k ↦ do (id, rest) ← delete_from k ms; some (id, m ∷ rest)
  ]
]

-- `localDelete(pos)`: the clock goes up before the position is looked for; no operation is the
-- `std::out_of_range`.
unfoldable pub local_delete : ℤ → Engine → Engine × Option Operation
unfolding delete_from
local_delete (negsuc _) e = (record e { clock = e.clock + 1 }, none)
local_delete (pos n) e = elim (delete_from n e.seq) [
  | none ↦ (record e { clock = e.clock + 1 }, none)
  | some (id, seq) ↦ (
    record e { clock = e.clock + 1; seq = seq },
    some (record { type = delete_op; id = id; left = sentinel; value = 0 }),
  )
]

-- `it->second->tombstoned = true`, if the id is indexed.
unfoldable pub tombstone : CharId → List Node → List Node
tombstone id [] = []
tombstone id (n ∷ ns) =
    if n.id == id then record n { tombstoned = true } ∷ ns else n ∷ tombstone id ns

-- `clock_` after an operation with a clock.
abbrev pub advance : ℕ → ℕ → ℕ
advance clock seen = if leb clock seen then seen + 1 else clock

-- `applyRemote(op)`; `none` is the `std::out_of_range` for an unknown left neighbour.
unfoldable pub apply_remote : Operation → Engine → Option Engine
unfolding find insert_node tombstone
apply_remote op e =
    let clock = advance e.clock op.id.clock in
    elim (op.type) [
      | insert_op ↦ if contains op.id e.seq then some (record e { clock = clock }) else do
        seq ← insert_node op.id op.value op.left e.seq
        some (record e { clock = clock; seq = seq })
      | delete_op ↦ some (record e { clock = clock; seq = tombstone op.id e.seq })
    ]

-- `canApply(op)`
unfoldable pub can_apply : Operation → Engine → Bool
unfolding find
can_apply op e = elim (op.type) [ delete_op ↦ true | insert_op ↦ contains op.left e.seq ]
