-- ===== src/Headless/Replaying.antt =====
-- A generated script, run by `runHeadless` on a document that nobody else edits.
use cs4730_collaborative_tex.Base.{
  ℕ, zero, suc, ◌+◌, ◌^◌, ◌≤◌, ◌<◌, ◌≡◌, refl, sym, ap, subst, ◌∙◌, inl, inr, false, List, [], ◌∷◌,
  ◌++◌, map, All, Option, none, some, Option-cases, arith, length, length-append,
}
use cs4730_collaborative_tex.Base.Int.{ℤ, pos}
use cs4730_collaborative_tex.Document.{insert_at, delete_at}
use cs4730_collaborative_tex.Text.{Text}
use cs4730_collaborative_tex.Rga.{Engine, Operation, document, local_insert, local_delete}
use cs4730_collaborative_tex.Rga.Insertion.{local_insert-insert_at}
use cs4730_collaborative_tex.Rga.Deletion.{text_after, local_delete-delete_at, local_delete-IsValid}
use cs4730_collaborative_tex.Pipeline.{Pipeline, enqueue_insert, enqueue_delete}
use cs4730_collaborative_tex.Script.{Command, command_line}
use cs4730_collaborative_tex.Script.Replay.{apply, replay, is_edit, count_edits}
use cs4730_collaborative_tex.Serializer.RoundTrip.{IsInt32}
use cs4730_collaborative_tex.Headless.{run_lines, parse_line, Line, is_blank}
use cs4730_collaborative_tex.Headless.Parsing.{IsReadable, parse_line-command_line}
use cs4730_collaborative_tex.Headless.Running.{
  some_inj, insert_at-inside, Holds, run_lines-insert, run_lines-delete, run_lines-sleep,
}

enqueue_insert-some :
    (at : ℤ) (c : ℕ) (p : Pipeline) (e : Engine) (op : Operation)
    → local_insert at c p.engine ≡ some (e, op)
    → enqueue_insert at c p ≡ some (record p { engine = e; outgoing = p.outgoing ++ op ∷ [] })
unfolding enqueue_insert
enqueue_insert-some at c p e op ran = rw (enqueue_insert, ran) refl

enqueue_delete-some :
    (at : ℤ) (p : Pipeline) (op : Operation)
    → (local_delete at p.engine).1 ≡ some op
    → enqueue_delete at p
      ≡ record p { engine = (local_delete at p.engine).0; outgoing = p.outgoing ++ op ∷ [] }
unfolding enqueue_delete
enqueue_delete-some at p op sent = rw (enqueue_delete, sent) refl

text_after-some :
    (q : Engine × Option Operation) (op : Operation)
    → q.1 ≡ some op
    → text_after q ≡ some (document q.0.seq)
text_after-some (e, none) op h = absurd (cc)
text_after-some (e, some _) op h = refl

text_after-none : (q : Engine × Option Operation) → q.1 ≡ none → text_after q ≡ none
text_after-none (e, none) h = refl
text_after-none (e, some _) h = absurd (cc)

length-snoc : (ops : List Operation) (op : Operation) → length (ops ++ op ∷ []) ≡ 1 + length ops
length-snoc ops op = omega (arith, length-append ops (op ∷ []))

-- What a line of a script leaves.
abbrev Leaves : List ℕ → ℕ → Text → List Text → Pipeline → Text → Type 0
Leaves r edits line lines p out =
    (p' : Pipeline) × (run_lines (line ∷ lines) p out ≡ run_lines lines p' out)
    × Holds r p'
    × (length p'.outgoing ≡ edits + length p.outgoing)

run-insert :
    (at c : ℕ) (s r : List ℕ) (p : Pipeline) (line : Text) (lines : List Text) (out : Text)
    → parse_line line ≡ Line.insert (pos at) c
    → insert_at at c s ≡ some r
    → Holds s p
    → Leaves r 1 line lines p out
run-insert at c s r p line lines out says put k =
    let (inside, _) = insert_at-inside at c s r put in
    let (e, op, ran, v, now) =
      local_insert-insert_at at c p.engine k.valid
        (subst (λ t. at ≤ length t) (sym k.text) inside) in
    let text : document e.seq ≡ r = some_inj (sym now ∙ ap (insert_at at c) k.text ∙ put) in
    (
      record p { engine = e; outgoing = p.outgoing ++ op ∷ [] },
      run_lines-insert line lines p out (pos at) c _ says
          (enqueue_insert-some (pos at) c p e op ran),
      record { valid = v; text = text },
      length-snoc p.outgoing op,
    )

run-delete :
    (at : ℕ) (s r : List ℕ) (p : Pipeline) (line : Text) (lines : List Text) (out : Text)
    → parse_line line ≡ Line.delete (pos at)
    → delete_at at s ≡ some r
    → Holds s p
    → Leaves r 1 line lines p out
run-delete at s r p line lines out says cut k =
    let q = local_delete (pos at) p.engine in
    let after = local_delete-delete_at at p.engine ∙ ap (delete_at at) k.text ∙ cut in
    elim (Option-cases q.1) [
      | inl thrown ↦ let gone = text_after-none q thrown in absurd (cc)
      | inr (op, sent) ↦ (
        record p { engine = q.0; outgoing = p.outgoing ++ op ∷ [] },
        run_lines-delete line lines p out (pos at) op says sent
            ∙ ap (λ x. run_lines lines x out) (enqueue_delete-some (pos at) p op sent),
        record {
          valid = local_delete-IsValid (pos at) p.engine k.valid;
          text = some_inj (sym (text_after-some q op sent) ∙ after);
        },
        length-snoc p.outgoing op,
      )
    ]

-- What a script has in front of its end: no position is garbled, and the text stays short.
abbrev pub IsWritten : Command → Type 0
IsWritten (Command.sleep n) = IsInt32 n
IsWritten (Command.insert p c) = is_blank c ≡ false
IsWritten (Command.delete p) = Unit
IsWritten Command.dump = ⊥
IsWritten Command.quit = ⊥

-- One command, whose position is one of the text's and whose text has fewer than 2^31 characters.
run-command :
    (c : Command) (s r : List ℕ) (p : Pipeline) (lines : List Text) (out : Text)
    → IsReadable c
    → IsWritten c
    → apply c s ≡ some r
    → Holds s p
    → Leaves r (is_edit c) (command_line c) lines p out
run-command (Command.sleep n) s r p lines out h w e k =
    let says = parse_line-command_line (Command.sleep n) h in
    (
      p,
      run_lines-sleep (command_line (Command.sleep n)) lines p out n says,
      record { valid = k.valid; text = k.text ∙ some_inj e },
      omega arith,
    )
run-command (Command.insert at c) s r p lines out h w e k =
    run-insert at c s r p (command_line (Command.insert at c)) lines out
      (parse_line-command_line (Command.insert at c) h) e k
run-command (Command.delete at) s r p lines out h w e k =
    run-delete at s r p (command_line (Command.delete at)) lines out
      (parse_line-command_line (Command.delete at) h) e k
run-command Command.dump s r p lines out h w e k = absurd w
run-command Command.quit s r p lines out h w e k = absurd w

delete_at-inside :
    (p : ℕ) (s r : List ℕ) → delete_at p s ≡ some r → (p < length s) × (suc (length r) ≡ length s)
unfolding delete_at
delete_at-inside p [] r e = absurd (cc)
delete_at-inside zero (d ∷ s) r e = (omega arith, ap (λ t. suc (length t)) (sym (some_inj e)))
delete_at-inside (suc p) (d ∷ s) r e = elim (Option-cases (delete_at p s)) [
  | inl beyond ↦ absurd (ground (arith, beyond, e))
  | inr (t, cut) ↦
      let (le, size) = delete_at-inside p s t cut in
      let same : d ∷ t ≡ r = ground (arith, cut, e) in
      let n = ap length same in (omega (arith, le), omega (arith, n, size))
]

-- A command that applies to a text has a position that fits, and the text grows by one at most.
apply-IsReadable :
    (c : Command) (s r : List ℕ) (room : ℕ)
    → IsWritten c
    → apply c s ≡ some r
    → length s + (is_edit c + room) < 2 ^ 31
    → IsReadable c × (length r + room < 2 ^ 31)
apply-IsReadable (Command.sleep n) s r room w e le =
    let n = ap length (some_inj e) in (w, omega (arith, le, n))
apply-IsReadable (Command.insert at c) s r room w e le =
    let (inside, size) = insert_at-inside at c s r e in
    ((omega (arith, inside, le), w), omega (arith, size, le))
apply-IsReadable (Command.delete at) s r room w e le =
    let (inside, size) = delete_at-inside at s r e in
    (omega (arith, inside, le), omega (arith, size, le))
apply-IsReadable Command.dump s r room w e le = absurd w
apply-IsReadable Command.quit s r room w e le = absurd w

-- Commands that can be replayed run to the same text, without an exception.
pub run-commands :
    (cs : List Command) (s r : List ℕ) (p : Pipeline) (lines : List Text) (out : Text)
    → All IsWritten cs
    → replay cs s ≡ some r
    → length s + count_edits cs < 2 ^ 31
    → Holds s p
    → (p' : Pipeline) × (run_lines (map command_line cs ++ lines) p out ≡ run_lines lines p' out)
      × Holds r p'
      × (length p'.outgoing ≡ count_edits cs + length p.outgoing)
      × All IsReadable cs
run-commands [] s r p lines out w e le k =
    (p, refl, record { valid = k.valid; text = k.text ∙ some_inj e }, omega arith, tt)
run-commands (c ∷ cs) s r p lines out (w, ws) e le k = elim (Option-cases (apply c s)) [
  | inl beyond ↦ absurd (ground (arith, beyond, e))
  | inr (t, done) ↦
      let (h, le') = apply-IsReadable c s t (count_edits cs) w done le in
      let (p1, ran, k1, sent) = run-command c s t p (map command_line cs ++ lines) out h w done k in
      let rest : replay cs t ≡ some r = ground (arith, done, e) in
      let (p2, ran', k2, sent', hs) = run-commands cs t r p1 lines out ws rest le' k1 in
      (p2, ran ∙ ran', k2, omega (arith, sent, sent'), (h, hs))
]
