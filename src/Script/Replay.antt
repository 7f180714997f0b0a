-- ===== src/Script/Replay.antt =====
-- A generated script can be replayed on a document that nobody else edits.
use cs4730_collaborative_tex.Base.{
  ℕ, zero, suc, ◌+◌, ◌-◌, ◌<◌, ◌≡◌, refl, ap, ◌∙◌, sym, ltb→lt, ◌&&◌, true, List, [], ◌∷◌, ◌++◌,
  append_assoc, Option, some, arith, ltb, length, Bool-cases, inl, inr, ◌>>=◌,
}
use cs4730_collaborative_tex.Base.Int.{pos, pos_part, leb_ℤ}
use cs4730_collaborative_tex.Document.{insert_at, delete_at, insert_at_inside, delete_at_inside}
use cs4730_collaborative_tex.Script.{
  Rng, Options, Command, sleep, insert, delete, dump, quit, Loop, edit, pause, rounds, generate,
  prob_in_range, char_offset, letter, deletes, delete_edit, insert_edit,
}

-- One command on a document; `none` where a position is out of range.
abbrev pub apply : Command → List ℕ → Option (List ℕ)
apply (sleep _) s = some s
apply (insert p c) s = insert_at p c s
apply (delete p) s = delete_at p s
apply dump s = some s
apply quit s = some s

abbrev pub replay : List Command → List ℕ → Option (List ℕ)
replay [] s = some s
replay (c ∷ cs) s = apply c s >>= replay cs

-- The command edits the document.
abbrev pub is_edit : Command → ℕ
is_edit (sleep _) = 0
is_edit (insert _ _) = 1
is_edit (delete _) = 1
is_edit dump = 0
is_edit quit = 0

abbrev pub count_edits : List Command → ℕ
count_edits [] = 0
count_edits (c ∷ cs) = is_edit c + count_edits cs

pub count_edits-append :
    (cs ds : List Command) → count_edits (cs ++ ds) ≡ count_edits cs + count_edits ds
count_edits-append [] ds = omega arith
count_edits-append (c ∷ cs) ds = omega (arith, count_edits-append cs ds)

module _ (rng : Rng) (o : Options) where
  open rng use {State, randint, randint-le}

  -- What one edit does to a document of the tracked length.
  abbrev Fits : List ℕ → Command × Loop rng o → Type 0
  Fits s (c, l) = (r : List ℕ) × (apply c s ≡ some r) × (length r ≡ l.local_len) × (is_edit c ≡ 1)

  delete_edit-Fits :
      (l : Loop rng o) (st : State) (s : List ℕ)
      → length s ≡ l.local_len
      → 0 < l.local_len
      → Fits s (delete_edit rng o l st)
  unfolding delete_edit
  delete_edit-Fits l st s h some_text =
      let place = randint-le st (l.local_len - 1) in
      let (r, e, n) = delete_at_inside (randint st (l.local_len - 1)).0 s (omega arith) in
      (r, e, omega arith, refl)

  insert_edit-Fits :
      (i : ℕ) (l : Loop rng o) (st : State) (s : List ℕ)
      → length s ≡ l.local_len
      → Fits s (insert_edit rng o i l st)
  unfolding insert_edit
  insert_edit-Fits i l st s h =
      let place = randint-le st l.local_len in
      let c = letter i (char_offset o.peer_id) in
      let (r, e, n) = insert_at_inside (randint st l.local_len).0 c s (omega arith) in
      (r, e, omega arith, refl)

  deletes_text : (l : Loop rng o) → (deletes rng o l).0 ≡ true → 0 < l.local_len
  unfolding deletes
  deletes_text l h = elim (Bool-cases (ltb 0 l.local_len)) [
    | inl e ↦ ltb→lt 0 l.local_len e
    | inr e ↦ absurd (ground arith)
  ]

  edit-Fits :
      (i : ℕ) (l : Loop rng o) (s : List ℕ) → length s ≡ l.local_len → Fits s (edit rng o i l)
  unfolding edit
  edit-Fits i l s h = elim (Bool-cases ((deletes rng o l).0)) [
    | inl e ↦ rw e (delete_edit-Fits l (deletes rng o l).1 s h (deletes_text l e))
    | inr e ↦ rw e (insert_edit-Fits i l (deletes rng o l).1 s h)
  ]

  -- A batch's sleep edits nothing.
  abbrev Quiet : Loop rng o → List Command × Loop rng o → Type 0
  Quiet l (cs, l') =
      ((s : List ℕ) (more : List Command) → replay (cs ++ more) s ≡ replay more s)
      × (l'.local_len ≡ l.local_len)
      × (count_edits cs ≡ 0)

  pause-Quiet : (left : ℕ) (l : Loop rng o) → Quiet l (pause rng o left l)
  unfolding pause
  pause-Quiet left l = elim (Bool-cases (leb_ℤ o.batch (pos l.batch_count) && ltb 0 left)) [
    | inl e ↦ rw e (λ s more. refl, refl, refl)
    | inr e ↦ rw e (λ s more. refl, refl, refl)
  ]

  pub rounds_fit :
      (left i : ℕ) (l : Loop rng o) (s : List ℕ)
      → length s ≡ l.local_len
      → (r : List ℕ) × ((more : List Command)
          → replay (rounds rng o left i l ++ more) s ≡ replay more r)
        × (count_edits (rounds rng o left i l) ≡ left)
  unfolding rounds
  rounds_fit zero i l s h = (s, λ more. refl, refl)
  rounds_fit (suc left) i l s h =
      let (r, applied, fits, counted) = edit-Fits i l s h in
      let l1 = (edit rng o i l).1 in
      let (quiet, same, none_counted) = pause-Quiet left l1 in
      let l2 = (pause rng o left l1).1 in
      let pauses = (pause rng o left l1).0 in
      let rest = rounds rng o left (suc i) l2 in
      let (final, replayed, count) = rounds_fit left (suc i) l2 r (fits ∙ sym same) in
      (
        final,
        λ more.
            ap (λ t. t >>= replay ((pauses ++ rest) ++ more)) applied
            ∙ ap (λ cs. replay cs r) (append_assoc pauses rest more)
            ∙ quiet r (rest ++ more)
            ∙ replayed more,
        omega (arith, counted, none_counted, count, count_edits-append pauses rest),
      )

-- Where the probability is above 0 and at most 1, a script is generated, and it can be replayed on an
-- empty document that nobody else edits: no insertion or deletion is out of range. It has as many
-- edits as `--ops` says, none for a negative number.
pub generate_replays :
    (rng : Rng) (o : Options)
    → prob_in_range o ≡ true
    → (cs : List Command) × (r : List ℕ) × (generate rng o ≡ some cs)
      × (replay cs [] ≡ some r)
      × (count_edits cs ≡ pos_part o.ops)
unfolding generate
generate_replays rng o e =
    let l : Loop rng o = record { state = rng.seeded o.seed; local_len = 0; batch_count = 0 } in
    let tail = sleep o.drain_ms ∷ dump ∷ quit ∷ [] in
    let body = rounds rng o (pos_part o.ops) 0 l in
    let (r, replayed, count) = rounds_fit rng o (pos_part o.ops) 0 l [] refl in
    (
      sleep o.start_delay ∷ (body ++ tail),
      r,
      rw e,
      replayed tail,
      omega (arith, count, count_edits-append body tail),
    )
