-- ===== src/Headless/Running.antt =====
-- What each kind of line does when `runHeadless` runs it.
use cs4730_collaborative_tex.Base.{
  ℕ, zero, suc, ◌≤◌, ◌≡◌, refl, sym, ap, inl, inr, List, [], ◌∷◌, ◌++◌, some, Option-cases, arith,
  length,
}
use cs4730_collaborative_tex.Base.Int.{ℤ}
use cs4730_collaborative_tex.Document.{insert_at}
use cs4730_collaborative_tex.Text.{Text}
use cs4730_collaborative_tex.Rga.{Operation, document, local_delete}
use cs4730_collaborative_tex.Rga.Invariant.{IsValid}
use cs4730_collaborative_tex.Pipeline.{Pipeline, enqueue_insert, enqueue_delete}
use cs4730_collaborative_tex.Headless.{ended, run_lines, parse_line, Line}

pub some_inj : {A : Type 0} {x y : A} → some x ≡ some y → x ≡ y
some_inj e = cc

pub insert_at-inside :
    (p c : ℕ) (s r : List ℕ)
    → insert_at p c s ≡ some r
    → (p ≤ length s) × (length r ≡ suc (length s))
unfolding insert_at
insert_at-inside zero c s r e = (omega arith, ap length (sym (some_inj e)))
insert_at-inside (suc p) c [] r e = absurd (cc)
insert_at-inside (suc p) c (d ∷ s) r e = elim (Option-cases (insert_at p c s)) [
  | inl beyond ↦ absurd (ground (arith, beyond, e))
  | inr (t, put) ↦
      let (le, size) = insert_at-inside p c s t put in
      let same : d ∷ t ≡ r = ground (arith, put, e) in
      let n = ap length same in (omega (arith, le), omega (arith, n, size))
]

-- A pipeline that holds a text.
pub record Holds (s : List ℕ) (p : Pipeline) : Type 0 where
  pub valid : IsValid p.engine
  pub text : document p.engine.seq ≡ s

module _ (line : Text) (lines : List Text) (p : Pipeline) (out : Text) where
  pub run_lines-insert :
      (at : ℤ) (c : ℕ) (p' : Pipeline)
      → parse_line line ≡ Line.insert at c
      → enqueue_insert at c p ≡ some p'
      → run_lines (line ∷ lines) p out ≡ run_lines lines p' out
  unfolding run_lines
  run_lines-insert at c p' says done = rw (run_lines, says, done) refl

  pub run_lines-delete :
      (at : ℤ) (op : Operation)
      → parse_line line ≡ Line.delete at
      → (local_delete at p.engine).1 ≡ some op
      → run_lines (line ∷ lines) p out ≡ run_lines lines (enqueue_delete at p) out
  unfolding run_lines
  run_lines-delete at op says done = rw (run_lines, says, done) refl

  pub run_lines-sleep :
      (n : ℤ)
      → parse_line line ≡ Line.sleep n
      → run_lines (line ∷ lines) p out ≡ run_lines lines p out
  unfolding run_lines
  run_lines-sleep n says = rw (run_lines, says) refl

  pub run_lines-dump :
      parse_line line ≡ Line.dump
      → run_lines (line ∷ lines) p out ≡ run_lines lines p (out ++ document p.engine.seq)
  unfolding run_lines
  run_lines-dump says = rw (run_lines, says) refl

  pub run_lines-quit : parse_line line ≡ Line.quit → run_lines (line ∷ lines) p out ≡ ended p out
  unfolding run_lines
  run_lines-quit says = rw (run_lines, says) refl
