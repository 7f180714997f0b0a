-- ===== src/Tests/Documents.antt =====
-- Concrete runs of the theorems about the replicated array.
use cs4730_collaborative_tex.Base.{
  suc, ◌≡◌, refl, ap, List, [], ◌∷◌, ◌++◌, some, none, arith, length, true, false, ◌>>=◌,
}
use cs4730_collaborative_tex.Base.Int.{pos}
use cs4730_collaborative_tex.Document.{insert_at, delete_at}
use cs4730_collaborative_tex.Rga.{
  CharId, sentinel, Node, Engine, Operation, insert_op, delete_op, new_engine, root_loop,
  root_ancestor, can_apply, find, local_insert, local_delete, apply_remote, document,
}
use cs4730_collaborative_tex.Rga.Invariant.{
  IsValid, new_engine-IsValid, local_insert-IsValid, root_ancestor_enough,
}
use cs4730_collaborative_tex.Rga.Insertion.{local_insert-insert_at, local_insert_beyond}
use cs4730_collaborative_tex.Rga.Deletion.{text_after, local_delete-delete_at}
use cs4730_collaborative_tex.Rga.Remote.{apply_remote-IsValid, apply_remote_twice}
use cs4730_collaborative_tex.Rga.Roots.{root_loop_hangs}
use cs4730_collaborative_tex.Rga.Delivery.{apply_remote-local_insert, delete_overtakes_insert}

abbrev pub first_id : CharId
first_id = record { clock = 1; site = 7 }

-- The document of site 7 after it typed one letter.
abbrev pub one_letter : Engine
one_letter = record {
  site = 7;
  clock = 1;
  seq =
      record { id = sentinel; value = 0; tombstoned = true; left = sentinel }
      ∷ record { id = first_id; value = b'a'; tombstoned = false; left = sentinel }
      ∷ [];
}

typed_one :
    local_insert (pos 0) b'a' (new_engine 7)
    ≡ some (one_letter, record { type = insert_op; id = first_id; left = sentinel; value = b'a' })
unfolding local_insert
typed_one = refl

pub one_letter-IsValid : IsValid one_letter
one_letter-IsValid =
    local_insert-IsValid (pos 0) b'a' (new_engine 7) one_letter
      (record { type = insert_op; id = first_id; left = sentinel; value = b'a' })
      (new_engine-IsValid 7) typed_one

local_insert-insert_at_example :
    (e' : Engine) × (op : Operation) × (local_insert (pos 1) b'b' one_letter ≡ some (e', op))
    × IsValid e'
    × (insert_at 1 b'b' (document one_letter.seq) ≡ some (document e'.seq))
unfolding document
local_insert-insert_at_example =
    local_insert-insert_at 1 b'b' one_letter one_letter-IsValid (omega arith)

local_insert_beyond_example :
    (e' : Engine) × (op : Operation) × (local_insert (pos 9) b'b' one_letter ≡ some (e', op))
    × (document e'.seq ≡ b'b' ∷ document one_letter.seq)
unfolding document
local_insert_beyond_example = local_insert_beyond 9 b'b' one_letter one_letter-IsValid (omega arith)

local_delete-delete_at_example :
    text_after (local_delete (pos 0) one_letter) ≡ delete_at 0 (document one_letter.seq)
local_delete-delete_at_example = local_delete-delete_at 0 one_letter

root_ancestor_enough_example :
    root_loop 9 one_letter.seq first_id first_id
    ≡ some (root_ancestor (length one_letter.seq) one_letter.seq first_id first_id)
root_ancestor_enough_example =
    root_ancestor_enough one_letter first_id first_id 9 one_letter-IsValid (omega arith)

-- Another peer's operations, and the letter with its deletion as they travel.
abbrev other_insert : Operation
other_insert = record {
  type = insert_op;
  id = record { clock = 1; site = 9 };
  left = first_id;
  value = b'z';
}

abbrev first_insert : Operation
first_insert = record { type = insert_op; id = first_id; left = sentinel; value = b'a' }

abbrev first_delete : Operation
first_delete = record { type = delete_op; id = first_id; left = sentinel; value = 0 }

abbrev two_letters : Engine
two_letters = record one_letter {
  clock = 2;
  seq =
      one_letter.seq
      ++ record { id = other_insert.id; value = b'z'; tombstoned = false; left = first_id } ∷ [];
}

received : apply_remote other_insert one_letter ≡ some two_letters
unfolding apply_remote
received = refl

apply_remote-IsValid_example : IsValid two_letters
apply_remote-IsValid_example =
    apply_remote-IsValid other_insert one_letter two_letters one_letter-IsValid received

apply_remote_twice_example : apply_remote other_insert two_letters ≡ some two_letters
apply_remote_twice_example = apply_remote_twice other_insert one_letter two_letters received

apply_remote-local_insert_example :
    (peer' : Engine) × (apply_remote first_insert (new_engine 9) ≡ some peer')
    × (peer'.seq ≡ one_letter.seq)
apply_remote-local_insert_example =
    apply_remote-local_insert (pos 0) b'a' (new_engine 7) one_letter (new_engine 9) first_insert
      (new_engine-IsValid 7) refl typed_one

abbrev gone : List Node
gone =
    record { id = sentinel; value = 0; tombstoned = true; left = sentinel }
    ∷ record { id = first_id; value = b'a'; tombstoned = true; left = sentinel }
    ∷ []

deleted_one :
    local_delete (pos 0) one_letter
    ≡ (record one_letter { clock = 2; seq = gone }, some first_delete)
unfolding local_delete
deleted_one = refl

first_received :
    apply_remote first_insert (new_engine 9) ≡ some (record one_letter { site = 9; clock = 2 })
unfolding apply_remote
first_received = refl

delete_overtakes_insert_example :
    (in_order overtaken : Engine) × ((apply_remote first_insert (new_engine 9)
        >>= apply_remote first_delete)
      ≡ some in_order)
    × ((apply_remote first_delete (new_engine 9) >>= apply_remote first_insert) ≡ some overtaken)
    × (length (document overtaken.seq) ≡ suc (length (document in_order.seq)))
    × (can_apply first_delete (new_engine 9) ≡ true)
    × (can_apply first_delete (record one_letter { site = 9; clock = 2 }) ≡ true)
delete_overtakes_insert_example =
    delete_overtakes_insert first_insert first_delete (new_engine 9)
      (record one_letter { site = 9; clock = 2 }) (new_engine-IsValid 9) refl refl refl
      (λ e. let c : 0 ≡ 1 = ap (λ i. i.clock) e in cc, tt) first_received

-- A snapshot can hold a node that is its own left neighbour.
abbrev cyclic : List Node
cyclic =
    record { id = sentinel; value = 0; tombstoned = true; left = sentinel }
    ∷ record { id = first_id; value = b'a'; tombstoned = false; left = first_id }
    ∷ []

root_loop_hangs_example : root_loop 1000000 cyclic first_id sentinel ≡ none
unfolding find
root_loop_hangs_example =
    root_loop_hangs 1000000 cyclic first_id sentinel
      (record { id = first_id; value = b'a'; tombstoned = false; left = first_id }) refl refl
      (λ e. let c : 1 ≡ 0 = ap (λ i. i.clock) e in cc)
      (λ e. let c : 1 ≡ 0 = ap (λ i. i.clock) e in cc)
