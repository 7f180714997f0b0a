-- ===== src/Rga/Insertion.antt =====
-- What `localInsert` does to the text that the editor shows.
use cs4730_collaborative_tex.Base.{
  ℕ, zero, suc, ◌+◌, ◌≤◌, ◌<◌, ◌≡◌, ◌≢◌, refl, sym, ap, ◌∙◌, inl, inr, false, List, [], ◌∷◌, some,
  arith, length, Any, Bool-cases,
}
use cs4730_collaborative_tex.Base.Int.{ℤ, pos}
use cs4730_collaborative_tex.Document.{insert_at}
use cs4730_collaborative_tex.Rga.{
  CharId, id_beq_iff, id_eq, sentinel, Node, Engine, Operation, insert_op, document, visible_from,
  visible_at, pred_int, local_insert,
}
use cs4730_collaborative_tex.Rga.Sequence.{Any-Absent, Unique, put_behind, insert_node_newest}
use cs4730_collaborative_tex.Rga.Invariant.{Headed, IsValid, local_insert-IsValid}

-- The id of a visible node is in the sequence.
visible_from-Any :
    (k : ℕ) (ns : List Node) (i : CharId)
    → k < length (document ns)
    → visible_from k ns ≡ i
    → Any (λ m. m.id ≡ i) ns
unfolding visible_from document
visible_from-Any k [] i h e = absurd (omega arith)
visible_from-Any zero (m ∷ ns) i h e = elim (Bool-cases (m.tombstoned)) [
  | inl gone ↦ inr (visible_from-Any zero ns i (ground (arith, gone)) (ground (arith, gone)))
  | inr seen ↦ inl (ground (arith, seen))
]
visible_from-Any (suc k) (m ∷ ns) i h e = elim (Bool-cases (m.tombstoned)) [
  | inl gone ↦ inr (visible_from-Any (suc k) ns i (ground (arith, gone)) (ground (arith, gone)))
  | inr seen ↦ inr (visible_from-Any k ns i (ground (arith, seen)) (ground (arith, seen)))
]

-- Behind the last visible node there is none.
visible_from_beyond :
    (k : ℕ) (ns : List Node) → length (document ns) ≤ k → visible_from k ns ≡ sentinel
unfolding visible_from document
visible_from_beyond k [] h = refl
visible_from_beyond zero (m ∷ ns) h = elim (Bool-cases (m.tombstoned)) [
  | inl gone ↦ ground (arith, gone, visible_from_beyond zero ns)
  | inr seen ↦ absurd (ground (arith, seen))
]
visible_from_beyond (suc k) (m ∷ ns) h = elim (Bool-cases (m.tombstoned)) [
  | inl gone ↦ ground (arith, gone, visible_from_beyond (suc k) ns)
  | inr seen ↦ ground (arith, seen, visible_from_beyond k ns)
]

-- A node that is put behind a visible one inserts its character.
put_behind-visible :
    (k : ℕ) (node : Node) (ns : List Node)
    → Unique ns
    → node.tombstoned ≡ false
    → k < length (document ns)
    → visible_from k ns ≡ node.left
    → (r : List Node) × (put_behind node ns ≡ some r)
      × (insert_at (suc k) node.value (document ns) ≡ some (document r))
unfolding put_behind document visible_from insert_at
put_behind-visible k node [] u v h e = absurd (omega arith)
put_behind-visible zero node (m ∷ ns) u v h e = elim (Bool-cases (m.tombstoned)) [
  | inl gone ↦
      let found : visible_from zero ns ≡ node.left = ground (arith, gone) in
      let inside : 0 < length (document ns) = ground (arith, gone) in
      let other : m.id ≢ node.left =
        λ same. Any-Absent m.id ns u.0 (visible_from-Any zero ns m.id inside (found ∙ sym same)) in
      let (r, put, shown) = put_behind-visible zero node ns u.1 v inside found in
      (m ∷ r, ground (arith, id_beq_iff m.id node.left, other, put), ground (arith, gone, shown))
  | inr seen ↦
      (m ∷ node ∷ ns, ground (arith, seen, id_beq_iff m.id node.left), ground (arith, seen, v))
]
put_behind-visible (suc k) node (m ∷ ns) u v h e = elim (Bool-cases (m.tombstoned)) [
  | inl gone ↦
      let found : visible_from (suc k) ns ≡ node.left = ground (arith, gone) in
      let inside : suc k < length (document ns) = ground (arith, gone) in
      let other : m.id ≢ node.left = λ same.
        Any-Absent m.id ns u.0 (visible_from-Any (suc k) ns m.id inside (found ∙ sym same)) in
      let (r, put, shown) = put_behind-visible (suc k) node ns u.1 v inside found in
      (m ∷ r, ground (arith, id_beq_iff m.id node.left, other, put), ground (arith, gone, shown))
  | inr seen ↦
      let found : visible_from k ns ≡ node.left = ground (arith, seen) in
      let inside : k < length (document ns) = ground (arith, seen) in
      let other : m.id ≢ node.left =
        λ same. Any-Absent m.id ns u.0 (visible_from-Any k ns m.id inside (found ∙ sym same)) in
      let (r, put, shown) = put_behind-visible k node ns u.1 v inside found in
      (m ∷ r, ground (arith, id_beq_iff m.id node.left, other, put), ground (arith, seen, shown))
]

-- A node that is put behind the sentinel goes to the front of the text.
put_behind-sentinel :
    (node : Node) (ns : List Node)
    → Headed ns
    → node.tombstoned ≡ false
    → node.left ≡ sentinel
    → (r : List Node) × (put_behind node ns ≡ some r) × (document r ≡ node.value ∷ document ns)
unfolding put_behind document
put_behind-sentinel node [] h v e = absurd h
put_behind-sentinel node (m ∷ ns) (here, gone) v e =
    (m ∷ node ∷ ns, ground (arith, id_beq_iff m.id node.left), ground (arith, gone, v))

-- The id that `localInsert` gives to a character.
abbrev new_id : Engine → CharId
new_id e = record { clock = e.clock + 1; site = e.site }

-- The node of that character.
abbrev typed : Engine → CharId → ℕ → Node
typed e left c = record { id = new_id e; value = c; tombstoned = false; left = left }

local_insert-put_behind :
    (p : ℤ) (c : ℕ) (e : Engine) (r : List Node)
    → IsValid e
    → put_behind (typed e (visible_at (pred_int p) e.seq) c) e.seq ≡ some r
    → local_insert p c e
      ≡ some (
        record e { clock = e.clock + 1; seq = r },
        record { type = insert_op; id = new_id e; left = visible_at (pred_int p) e.seq; value = c },
      )
unfolding local_insert
local_insert-put_behind p c e r v put = rw (
    insert_node_newest e.clock (new_id e) (visible_at (pred_int p) e.seq) c e.seq v.clocks
      (omega arith)
    ∙ put)

-- `localInsert` at a position up to the length of the text throws nothing and inserts the character
-- there, and the engine stays valid.
pub local_insert-insert_at :
    (p c : ℕ) (e : Engine)
    → IsValid e
    → p ≤ length (document e.seq)
    → (e' : Engine) × (op : Operation) × (local_insert (pos p) c e ≡ some (e', op))
      × IsValid e'
      × (insert_at p c (document e.seq) ≡ some (document e'.seq))
unfolding visible_at insert_at
local_insert-insert_at zero c e v h =
    let (r, put, shown) = put_behind-sentinel (typed e sentinel c) e.seq v.headed refl refl in
    let ran = local_insert-put_behind (pos 0) c e r v put in
    (_, _, ran, local_insert-IsValid (pos 0) c e _ _ v ran, ap some (sym shown))
local_insert-insert_at (suc p) c e v h =
    let (r, put, shown) =
      put_behind-visible p (typed e (visible_from p e.seq) c) e.seq v.unique refl (omega arith)
        refl in
    let ran = local_insert-put_behind (pos (suc p)) c e r v put in
    (_, _, ran, local_insert-IsValid (pos (suc p)) c e _ _ v ran, shown)

-- At a position beyond the end of the text `localInsert` throws nothing either: the character
-- becomes the first one.
pub local_insert_beyond :
    (p c : ℕ) (e : Engine)
    → IsValid e
    → length (document e.seq) < p
    → (e' : Engine) × (op : Operation) × (local_insert (pos p) c e ≡ some (e', op))
      × (document e'.seq ≡ c ∷ document e.seq)
unfolding visible_at
local_insert_beyond zero c e v h = absurd (omega arith)
local_insert_beyond (suc p) c e v h =
    let (r, put, shown) =
      put_behind-sentinel (typed e (visible_from p e.seq) c) e.seq v.headed refl
        (visible_from_beyond p e.seq (omega arith)) in
    (_, _, local_insert-put_behind (pos (suc p)) c e r v put, shown)
