-- ===== src/Script.antt =====
-- Random editing scripts: scripts/gen_convergence_script.py. Python's generator `random.Random` is an
-- interface; a float from `random()` is a multiple of 2^-53.
pub mod Replay
use cs4730_collaborative_tex.Base.{
  ℕ, zero, suc, ◌+◌, ◌-◌, ◌*◌, ◌%◌, ◌^◌, ◌≤◌, Bool, false, ◌&&◌, List, [], ◌∷◌, ◌++◌, Option, none,
  some, ltb, if◌then◌else◌,
}
use cs4730_collaborative_tex.Base.Int.{ℤ, pos, negsuc, leb_ℤ, ltb_ℤ, pos_part}
use cs4730_collaborative_tex.Text.{Text, codes}
use cs4730_collaborative_tex.Text.Decimal.{print, print_int}

-- `random.Random`: `random` gives the `k` of a float `k / 2^53`; `randint s high` is
-- `randint(0, high)`, which is documented to lie between its bounds.
pub record Rng : Type 1 where
  pub State : Type 0
  pub seeded : Option ℤ → State
  pub random : State → ℕ × State
  pub randint : State → ℕ → ℕ × State
  pub randint-le : (s : State) (high : ℕ) → (randint s high).0 ≤ high

-- The options; the probability is the fraction `prob_num / prob_den`, which `nan` and the infinities
-- are not.
pub record Options : Type 0 where
  pub ops : ℤ
  pub prob_num : ℤ
  pub prob_den : ℕ
  pub peer_id : ℤ
  pub seed : Option ℤ
  pub start_delay : ℤ
  pub batch : ℤ
  pub sleep_ms : ℤ
  pub drain_ms : ℤ

-- A line of a script.
pub data Command : Type 0 where
  sleep : ℤ → Command
  insert : ℕ → ℕ → Command
  delete : ℕ → Command
  dump quit : Command

-- The text that is printed for it.
unfoldable pub command_line : Command → Text
unfolding print print_int
command_line (sleep n) = codes "SLEEP " ++ print_int n
command_line (insert p c) = codes "INSERT " ++ (print p ++ (codes " " ++ c ∷ []))
command_line (delete p) = codes "DELETE " ++ print p
command_line dump = codes "DUMP"
command_line quit = codes "QUIT"

-- The text of the lines that `print` writes.
unfoldable pub script_text : List Command → Text
unfolding command_line
script_text [] = []
script_text (c ∷ cs) = command_line c ++ 0xa ∷ script_text cs

-- `0.0 < args.insert_prob <= 1.0`
unfoldable pub prob_in_range : Options → Bool
prob_in_range o = ltb_ℤ (pos 0) o.prob_num && leb_ℤ o.prob_num (pos o.prob_den)

-- `(peer_id * 7) % 26`, which Python takes from 0 to 25.
unfoldable pub char_offset : ℤ → ℕ
char_offset (pos n) = (n * 7) % 26
char_offset (negsuc n) = (26 - (suc n * 7) % 26) % 26

-- `chars[(i + char_offset) % 26]`, a letter from `a` to `z`.
unfoldable pub letter : ℕ → ℕ → ℕ
letter i offset = b'a' + (i + offset) % 26

module _ (rng : Rng) (o : Options) where
  open rng use {State, seeded, random, randint}

  -- The loop's variables.
  pub record Loop : Type 0 where
    pub state : State
    pub local_len : ℕ
    pub batch_count : ℕ

  -- `rng.random() > args.insert_prob`
  above_prob : ℕ → Bool
  above_prob k = ltb_ℤ (pos (pos_part o.prob_num * 2 ^ 53)) (pos (k * o.prob_den))

  -- Whether round `i` deletes: `local_len > 0 and rng.random() > insert_prob`. The generator is only
  -- asked where there is something to delete.
  pub deletes : Loop → Bool × State
  deletes l =
      if ltb 0 l.local_len
      then (above_prob (random l.state).0, (random l.state).1)
      else (false, l.state)

  -- `pos = rng.randint(0, local_len - 1)`, a deletion there.
  unfoldable pub delete_edit : Loop → State → Command × Loop
  delete_edit l s = (
    delete (randint s (l.local_len - 1)).0,
    record l {
      state = (randint s (l.local_len - 1)).1;
      local_len = l.local_len - 1;
      batch_count = l.batch_count + 1;
    },
  )

  -- `pos = rng.randint(0, local_len)`, an insertion there.
  unfoldable pub insert_edit : ℕ → Loop → State → Command × Loop
  insert_edit i l s = (
    insert (randint s l.local_len).0 (letter i (char_offset o.peer_id)),
    record l {
      state = (randint s l.local_len).1;
      local_len = l.local_len + 1;
      batch_count = l.batch_count + 1;
    },
  )

  -- The edit of round `i`.
  unfoldable pub edit : ℕ → Loop → Command × Loop
  edit i l = if (deletes l).0 then delete_edit l (deletes l).1 else insert_edit i l (deletes l).1

  -- The sleep that ends a batch, not after the last round; `left` rounds are left.
  unfoldable pub pause : ℕ → Loop → List Command × Loop
  pause left l =
      if leb_ℤ o.batch (pos l.batch_count) && ltb 0 left
      then (sleep o.sleep_ms ∷ [], record l { batch_count = 0 })
      else ([], l)

  -- `for i in range(args.ops): …`, with the rounds that are left and the next `i`.
  unfoldable pub rounds : ℕ → ℕ → Loop → List Command
  rounds zero i l = []
  rounds (suc left) i l =
      let (c, l1) = edit i l in
      let (pauses, l2) = pause left l1 in c ∷ (pauses ++ rounds left (suc i) l2)

  -- `main`: the printed lines; `none` is the exit with an error.
  unfoldable pub generate : Option (List Command)
  unfolding rounds edit delete_edit insert_edit pause deletes above_prob
  generate =
      if prob_in_range o
      then some (
          sleep o.start_delay
          ∷ (rounds (pos_part o.ops) 0
                (record { state = seeded o.seed; local_len = 0; batch_count = 0 })
              ++ sleep o.drain_ms ∷ dump ∷ quit ∷ []))
      else none
