-- ===== src/Tests/Converging.antt =====
-- Two peers that type at the same place and read each other's operations.
use cs4730_collaborative_tex.Base.{◌≡◌, ◌↔◌, refl, List, [], ◌∷◌, arith, true, false}
use cs4730_collaborative_tex.Base.Int.{pos}
use cs4730_collaborative_tex.Rga.{
  CharId, id_eq, sentinel, Node, Engine, Operation, insert_op, delete_op, new_engine, local_insert,
  local_delete, apply_remote,
}
use cs4730_collaborative_tex.Rga.Histories.{IsIn, overtakes}
use cs4730_collaborative_tex.Rga.Steps.{Run, idle, then_run, received, typed, erased}
use cs4730_collaborative_tex.Rga.Trees.{IsTree}
use cs4730_collaborative_tex.Rga.Converge.{Run-convergence, Run-listing}

abbrev pub type_a : Operation
type_a = record {
  type = insert_op;
  id = record { clock = 1; site = 1 };
  left = sentinel;
  value = b'a';
}

abbrev pub type_b : Operation
type_b = record {
  type = insert_op;
  id = record { clock = 1; site = 2 };
  left = sentinel;
  value = b'b';
}

abbrev erase_a : Operation
erase_a = record {
  type = delete_op;
  id = record { clock = 1; site = 1 };
  left = sentinel;
  value = 0;
}

abbrev pub both_typed : List Node
both_typed =
    record { id = sentinel; value = 0; tombstoned = true; left = sentinel }
    ∷ record { id = type_b.id; value = b'b'; tombstoned = false; left = sentinel }
    ∷ record { id = type_a.id; value = b'a'; tombstoned = true; left = sentinel }
    ∷ []

abbrev pub first_peer : Engine
first_peer = record { site = 1; clock = 3; seq = both_typed }

abbrev second_peer : Engine
second_peer = record { site = 2; clock = 2; seq = both_typed }

first-Run : Run (new_engine 1) (type_a ∷ type_b ∷ erase_a ∷ []) first_peer
unfolding local_insert local_delete apply_remote
first-Run = then_run (typed (pos 0) b'a' type_a _ _ refl) (
    then_run (received type_b _ _ refl)
      (then_run (erased (pos 1) erase_a _ _ refl) (idle first_peer)))

second-Run : Run (new_engine 2) (type_b ∷ type_a ∷ type_a ∷ erase_a ∷ []) second_peer
unfolding local_insert local_delete apply_remote
second-Run = then_run (typed (pos 0) b'b' type_b _ _ refl) (
    then_run (received type_a _ _ refl) (
      then_run (received type_a _ _ refl)
        (then_run (received erase_a _ _ refl) (idle second_peer))))

same_operations :
    (op : Operation)
    → IsIn op (type_a ∷ type_b ∷ erase_a ∷ []) ↔ IsIn op (type_b ∷ type_a ∷ type_a ∷ erase_a ∷ [])
same_operations op = ground arith

one_each :
    (i j : Operation)
    → IsIn i (type_a ∷ type_b ∷ erase_a ∷ [])
    → IsIn j (type_a ∷ type_b ∷ erase_a ∷ [])
    → i.type ≡ insert_op
    → j.type ≡ insert_op
    → i.id ≡ j.id
    → i ≡ j
one_each i j h k ti tj e = ground arith

first_ordered : (id : CharId) → overtakes id (type_a ∷ type_b ∷ erase_a ∷ []) ≡ false
unfolding overtakes
first_ordered id = ground (arith)

second_ordered : (id : CharId) → overtakes id (type_b ∷ type_a ∷ type_a ∷ erase_a ∷ []) ≡ false
unfolding overtakes
second_ordered id = ground (arith)

Run-convergence_example : first_peer.seq ≡ second_peer.seq
Run-convergence_example =
    Run-convergence 1 2 (type_a ∷ type_b ∷ erase_a ∷ []) (type_b ∷ type_a ∷ type_a ∷ erase_a ∷ [])
      first_peer second_peer first-Run second-Run same_operations one_each first_ordered
      second_ordered

Run-listing_example : IsTree both_typed
Run-listing_example = Run-listing 1 (type_a ∷ type_b ∷ erase_a ∷ []) first_peer first-Run
