-- ===== src/Headless/Generated.antt =====
-- From scripts/gen_convergence_script.py through `runHeadless` to the document.
use cs4730_collaborative_tex.Base.{
  ℕ, zero, suc, ◌+◌, ◌^◌, ◌<◌, ◌≡◌, refl, sym, ap, ◌∙◌, inl, inr, ◌&&◌, true, false, Bool-cases,
  List, [], ◌∷◌, ◌++◌, map, append_assoc, All, All-append, some, arith, ltb, length,
}
use cs4730_collaborative_tex.Base.Int.{pos, pos_part, leb_ℤ}
use cs4730_collaborative_tex.Text.{Text}
use cs4730_collaborative_tex.Rga.{document}
use cs4730_collaborative_tex.Pipeline.{Pipeline}
use cs4730_collaborative_tex.Serializer.RoundTrip.{IsInt32}
use cs4730_collaborative_tex.Script.{
  Rng, Options, Command, Loop, prob_in_range, letter, char_offset, deletes, edit, insert_edit,
  delete_edit, pause, rounds, generate, command_line, script_text,
}
use cs4730_collaborative_tex.Script.Replay.{replay, count_edits, count_edits-append, rounds_fit}
use cs4730_collaborative_tex.Headless.{ended, is_blank, run_lines, run_headless}
use cs4730_collaborative_tex.Headless.Parsing.{IsReadable, parse_line-command_line}
use cs4730_collaborative_tex.Headless.Lines.{get_lines-script_text}
use cs4730_collaborative_tex.Headless.Replaying.{IsWritten, run-commands}
use cs4730_collaborative_tex.Headless.Running.{Holds, run_lines-dump, run_lines-quit}

letter_filled : (i offset : ℕ) → is_blank (letter i offset) ≡ false
unfolding letter
letter_filled i offset = ground arith

module _ (rng : Rng) (o : Options) (h : IsInt32 o.sleep_ms) where
  edit-IsWritten : (i : ℕ) (l : Loop rng o) → IsWritten (edit rng o i l).0
  unfolding edit insert_edit delete_edit
  edit-IsWritten i l = elim (Bool-cases (deletes rng o l).0) [
    | inl e ↦ rw e tt
    | inr e ↦ rw e (letter_filled i (char_offset o.peer_id))
  ]

  pause-IsWritten : (left : ℕ) (l : Loop rng o) → All IsWritten (pause rng o left l).0
  unfolding pause
  pause-IsWritten left l = elim (Bool-cases (leb_ℤ o.batch (pos l.batch_count) && ltb 0 left)) [
    | inl e ↦ rw e (h, tt)
    | inr e ↦ rw e tt
  ]

  rounds-IsWritten : (left i : ℕ) (l : Loop rng o) → All IsWritten (rounds rng o left i l)
  unfolding rounds
  rounds-IsWritten zero i l = tt
  rounds-IsWritten (suc left) i l =
      let l1 = (edit rng o i l).1 in
      let l2 = (pause rng o left l1).1 in
      (
        edit-IsWritten i l,
        All-append IsWritten (pause rng o left l1).0 (rounds rng o left (suc i) l2)
            (pause-IsWritten left l1) (rounds-IsWritten left (suc i) l2),
      )

map-append :
    (cs ds : List Command)
    → map command_line (cs ++ ds) ≡ map command_line cs ++ map command_line ds
map-append [] ds = refl
map-append (c ∷ cs) ds = ap (λ ls. command_line c ∷ ls) (map-append cs ds)

-- The last two lines of a script print the document and end the run.
run-end :
    (p : Pipeline) (out : Text)
    → run_lines (map command_line (Command.dump ∷ Command.quit ∷ [])) p out
      ≡ ended p (out ++ document p.engine.seq)
run-end p out =
    run_lines-dump (command_line Command.dump) (command_line Command.quit ∷ []) p out
      (parse_line-command_line Command.dump tt)
    ∙ run_lines-quit (command_line Command.quit) [] p (out ++ document p.engine.seq)
        (parse_line-command_line Command.quit tt)

-- Commands, with a dump and the end behind them, as the text of a script.
run-script :
    (cs : List Command) (r : List ℕ) (p : Pipeline)
    → All IsWritten cs
    → replay cs [] ≡ some r
    → count_edits cs < 2 ^ 31
    → Holds [] p
    → (p' : Pipeline) × (run_headless (script_text (cs ++ Command.dump ∷ Command.quit ∷ [])) p
        ≡ ended p' r)
      × Holds r p'
      × (length p'.outgoing ≡ count_edits cs + length p.outgoing)
unfolding run_headless
run-script cs r p ws e le k =
    let last = Command.dump ∷ Command.quit ∷ [] in
    let (p', ran, held, sent, hs) =
      run-commands cs [] r p (map command_line last) [] ws e (omega (arith, le)) k in
    (
      p',
      ap (λ ls. run_lines ls p [])
            (get_lines-script_text (cs ++ last) (All-append IsReadable cs last hs (tt, (tt, tt)))
              ∙ map-append cs last)
          ∙ ran
          ∙ run-end p' []
          ∙ ap (ended p') held.text,
      held,
      sent,
    )

-- A script that is generated and then run by `runHeadless`, on an empty document that nobody else
-- edits, throws no exception and ends. It prints the text that the script's commands make of an empty
-- one, which the engine then holds, and it sends one operation for each edit. The probability is in
-- its range, the sleeps fit in 32 bits and there are fewer than 2^31 edits.
pub run_headless-generate :
    (rng : Rng) (o : Options) (p : Pipeline)
    → prob_in_range o ≡ true
    → IsInt32 o.start_delay
    → IsInt32 o.sleep_ms
    → IsInt32 o.drain_ms
    → pos_part o.ops < 2 ^ 31
    → Holds [] p
    → (cs : List Command) × (r : List ℕ) × (p' : Pipeline) × (generate rng o ≡ some cs)
      × (replay cs [] ≡ some r)
      × (run_headless (script_text cs) p ≡ ended p' r)
      × Holds r p'
      × (length p'.outgoing ≡ pos_part o.ops + length p.outgoing)
unfolding generate
run_headless-generate rng o p e start pause_fits drain le k =
    let l : Loop rng o = record { state = rng.seeded o.seed; local_len = 0; batch_count = 0 } in
    let body = rounds rng o (pos_part o.ops) 0 l in
    let last = Command.sleep o.drain_ms ∷ [] in
    let stop = Command.dump ∷ Command.quit ∷ [] in
    let front = Command.sleep o.start_delay ∷ (body ++ last) in
    let (r, replayed, count) = rounds_fit rng o (pos_part o.ops) 0 l [] refl in
    let edits : count_edits front ≡ pos_part o.ops =
      omega (arith, count, count_edits-append body last) in
    let (p', ran, held, sent) =
      run-script front r p
        (
          start,
          All-append IsWritten body last (rounds-IsWritten rng o pause_fits (pos_part o.ops) 0 l)
              (drain, tt),
        )
        (replayed last) (omega (arith, edits, le)) k in
    let whole : front ++ stop ≡ Command.sleep o.start_delay ∷ (body ++ (last ++ stop)) =
      ap (λ cs. Command.sleep o.start_delay ∷ cs) (append_assoc body last stop) in
    (
      Command.sleep o.start_delay ∷ (body ++ (last ++ stop)),
      r,
      p',
      rw e refl,
      replayed (last ++ stop),
      ap (λ cs. run_headless (script_text cs) p) (sym whole) ∙ ran,
      held,
      omega (arith, sent, edits),
    )
