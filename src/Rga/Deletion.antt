-- ===== src/Rga/Deletion.antt =====
-- What `localDelete` does to the text that the editor shows.
use mathlib.Core.Option
use cs4730_collaborative_tex.Base.{
  ℕ, zero, suc, ◌+◌, ◌≤◌, ◌≡◌, refl, sym, ap, subst, ◌∙◌, inl, inr, List, [], ◌∷◌, Option, none,
  some, arith, length, Bool-cases, Option-cases,
}
use cs4730_collaborative_tex.Base.Int.{ℤ, pos, negsuc}
use cs4730_collaborative_tex.Document.{delete_at}
use cs4730_collaborative_tex.Rga.{
  CharId, id_eq, sentinel, Node, Engine, Operation, delete_op, document, delete_from, local_delete,
}
use cs4730_collaborative_tex.Rga.Invariant.{clock-IsValid, IsValid}
use cs4730_collaborative_tex.Rga.Tombstones.{
  tombstone-IsValid, document-delete_from, delete_from-tombstone,
}

pub local_delete_found :
    (p : ℕ) (e : Engine) (i : CharId) (r : List Node)
    → delete_from p e.seq ≡ some (i, r)
    → local_delete (pos p) e ≡ (
      record e { clock = e.clock + 1; seq = r },
      some (record { type = delete_op; id = i; left = sentinel; value = 0 }),
    )
unfolding local_delete
local_delete_found p e i r found = rw (local_delete, found) refl

pub local_delete_lost :
    (p : ℕ) (e : Engine)
    → delete_from p e.seq ≡ none
    → local_delete (pos p) e ≡ (record e { clock = e.clock + 1 }, none)
unfolding local_delete
local_delete_lost p e lost = rw (local_delete, lost) refl

-- The text after a deletion that returns an operation.
abbrev pub text_after : Engine × Option Operation → Option (List ℕ)
text_after (e, none) = none
text_after (e, some _) = some (document e.seq)

-- `localDelete` deletes the character at the position from the text, and throws exactly where the
-- text has no such position.
pub local_delete-delete_at :
    (p : ℕ) (e : Engine) → text_after (local_delete (pos p) e) ≡ delete_at p (document e.seq)
local_delete-delete_at p e = elim (Option-cases (delete_from p e.seq)) [
  | inl lost ↦
      ap text_after (local_delete_lost p e lost)
      ∙ ap (Option.map (λ q. document q.1)) (sym lost)
      ∙ document-delete_from p e.seq
  | inr ((i, r), found) ↦
      ap text_after (local_delete_found p e i r found)
      ∙ ap (Option.map (λ q. document q.1)) (sym found)
      ∙ document-delete_from p e.seq
]

delete_from_beyond : (p : ℕ) (ns : List Node) → length (document ns) ≤ p → delete_from p ns ≡ none
unfolding delete_from document
delete_from_beyond p [] h = refl
delete_from_beyond zero (m ∷ ns) h = elim (Bool-cases (m.tombstoned)) [
  | inl gone ↦ ground (arith, gone, delete_from_beyond zero ns)
  | inr seen ↦ absurd (ground (arith, seen))
]
delete_from_beyond (suc p) (m ∷ ns) h = elim (Bool-cases (m.tombstoned)) [
  | inl gone ↦ ground (arith, gone, delete_from_beyond (suc p) ns)
  | inr seen ↦ ground (arith, seen, delete_from_beyond p ns)
]

-- Where the text has no such position, `localDelete` throws after it advanced the clock; the
-- sequence stays as it was.
pub local_delete_beyond :
    (p : ℕ) (e : Engine)
    → length (document e.seq) ≤ p
    → local_delete (pos p) e ≡ (record e { clock = e.clock + 1 }, none)
local_delete_beyond p e h = local_delete_lost p e (delete_from_beyond p e.seq h)

-- `localDelete` keeps the invariant, whether it throws or not.
pub local_delete-IsValid : (p : ℤ) (e : Engine) → IsValid e → IsValid (local_delete p e).0
unfolding local_delete
local_delete-IsValid (negsuc _) e v = clock-IsValid (e.clock + 1) e v (omega arith)
local_delete-IsValid (pos p) e v = elim (Option-cases (delete_from p e.seq)) [
  | inl lost ↦
      subst (λ q. IsValid q.0) (sym (local_delete_lost p e lost))
        (clock-IsValid (e.clock + 1) e v (omega arith))
  | inr ((i, r), found) ↦
      let (same, _) = delete_from-tombstone p e.seq i r v.unique found in
      subst (λ q. IsValid q.0) (sym (local_delete_found p e i r found))
        (subst (λ s. IsValid (record e { clock = e.clock + 1; seq = s })) (sym same)
          (tombstone-IsValid i (e.clock + 1) e v (omega arith)))
]
