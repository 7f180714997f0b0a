-- ===== src/Printing/Warned.antt =====
-- How often the table of scripts/analyze_results.py warns of dumps that differ.
use cs4730_collaborative_tex.Base.{
  ℕ, ◌+◌, ◌≡◌, ◌≢◌, refl, ap, sym, ◌∙◌, Bool, true, false, List, [], ◌∷◌, ◌++◌, some, concat, arith,
  All, Bool-cases, inl, inr, ltb, if◌then◌else◌,
}
use cs4730_collaborative_tex.Base.Eq.{text_eq, text_beq_iff, ◌==◌}
use cs4730_collaborative_tex.Text.{Text, codes}
use cs4730_collaborative_tex.Sort.Laws.{count_if}
use cs4730_collaborative_tex.Stats.{Number, Ratio}
use cs4730_collaborative_tex.Latency.{Summary, Verdict, not_applicable, agreed, diverged, summarise}
use cs4730_collaborative_tex.Tables.{Numerals, each_row}
use cs4730_collaborative_tex.Tables.Written.{Analysed, percentile-some}
use cs4730_collaborative_tex.Printing.{title_lines, rule}
use cs4730_collaborative_tex.Printing.Latencies.{
  latency_header, latency_line, last_column, divergence_line, divergence_lines, negative_lines,
  drop_lines, summary_line, summary_lines, result_lines, print_summary_table,
}

-- The last character; the divergence line ends with an exclamation mark, and no other line does.
abbrev last : Text → ℕ
last [] = 0
last (c ∷ []) = c
last (_ ∷ d ∷ s) = last (d ∷ s)

last-append : (xs : Text) (c : ℕ) (s : Text) → last (xs ++ c ∷ s) ≡ last (c ∷ s)
last-append [] c s = refl
last-append (x ∷ []) c s = refl
last-append (x ∷ y ∷ xs) c s = last-append (y ∷ xs) c s

abbrev pub says_diverged : Text → Bool
says_diverged line = line == divergence_line

abbrev pub is_diverged : Summary × Verdict → Bool
is_diverged (r, not_applicable) = false
is_diverged (r, agreed) = false
is_diverged (r, diverged) = true

abbrev IsOther : Text → Type 0
IsOther line = says_diverged line ≡ false

last-IsOther : (line : Text) → last line ≢ b'!' → IsOther line
last-IsOther line h = elim (Bool-cases (says_diverged line)) [
  | inl same ↦ absurd (h (ap last ((text_beq_iff line divergence_line).0 same)))
  | inr other ↦ other
]

-- A line that ends with a known text.
ending-IsOther : (xs : Text) (c : ℕ) (s : Text) → last (c ∷ s) ≢ b'!' → IsOther (xs ++ c ∷ s)
ending-IsOther xs c s h = last-IsOther (xs ++ c ∷ s) (λ e. h (sym (last-append xs c s) ∙ e))

count_if-append {ℓ} :
    {A : Type ℓ} (p : A → Bool) (xs ys : List A)
    → count_if p (xs ++ ys) ≡ count_if p xs + count_if p ys
count_if-append p [] ys = omega arith
count_if-append p (x ∷ xs) ys = omega (arith, count_if-append p xs ys)

divergence_lines-count :
    (r : Summary) (v : Verdict)
    → count_if says_diverged (divergence_lines v) ≡ (if is_diverged (r, v) then 1 else 0)
divergence_lines-count r not_applicable = refl
divergence_lines-count r agreed = refl
divergence_lines-count r diverged = refl

negative_lines-count : (r : Summary) → count_if says_diverged (negative_lines r) ≡ 0
negative_lines-count r = elim (Bool-cases (ltb 0 r.negative)) [ inl e ↦ rw e | inr e ↦ rw e ]

module _ (n : Numerals) where
  drop_lines-count :
      (behind : Text) (q : Ratio) → count_if says_diverged (drop_lines n behind q) ≡ 0
  drop_lines-count behind q = elim (Bool-cases (ltb q.den q.num)) [ inl e ↦ rw e | inr e ↦ rw e ]

  summary_line-IsOther :
      (r : Summary) (v : Verdict) (a b c : Number ℕ) → IsOther (summary_line n r v a b c)
  summary_line-IsOther r not_applicable a b c =
      ending-IsOther (latency_line n r a b c) b' ' (codes "   N/A") (omega arith)
  summary_line-IsOther r agreed a b c =
      ending-IsOther (latency_line n r a b c) b' ' (codes "  true") (omega arith)
  summary_line-IsOther r diverged a b c =
      ending-IsOther (latency_line n r a b c) b' ' (codes " false") (omega arith)

  summary_lines-count :
      (r : Summary) (v : Verdict) (a b c : Number ℕ)
      → count_if says_diverged (summary_lines n r v a b c) ≡ (if is_diverged (r, v) then 1 else 0)
  summary_lines-count r v a b c =
      let behind = codes "% > 1% — results may not be representative" in
      let drops = drop_lines n behind r.drop_pct in
      rw (summary_line-IsOther r v a b c) (
        omega (
          arith,
          count_if-append says_diverged drops (negative_lines r ++ divergence_lines v),
          count_if-append says_diverged (negative_lines r) (divergence_lines v),
          drop_lines-count behind r.drop_pct,
          negative_lines-count r,
          divergence_lines-count r v,
        ))

  result_lines-some :
      (r : Summary × Verdict)
      → Analysed r.0
      → (lines : List Text) × (result_lines n r ≡ some lines)
        × (count_if says_diverged lines ≡ (if is_diverged r then 1 else 0))
  unfolding result_lines summarise
  result_lines-some (r, v) (label, log, same) =
      let xs = (summarise label log).latencies in
      let (a, p50) = percentile-some xs 50 (omega arith) in
      let (b, p95) = percentile-some xs 95 (omega arith) in
      let (c, p99) = percentile-some xs 99 (omega arith) in
      (
        summary_lines n r v a b c,
        rw (ap (λ x. x.p50) same ∙ p50, ap (λ x. x.p95) same ∙ p95, ap (λ x. x.p99) same ∙ p99)
            refl,
        summary_lines-count r v a b c,
      )

  each_row-count :
      (results : List (Summary × Verdict))
      → All (λ r. Analysed r.0) results
      → (groups : List (List Text)) × (each_row (result_lines n) results ≡ some groups)
        × (count_if says_diverged (concat groups) ≡ count_if is_diverged results)
  unfolding each_row
  each_row-count [] h = ([], refl, refl)
  each_row-count (r ∷ results) (h, hs) =
      let (lines, made, here) = result_lines-some r h in
      let (groups, later, there) = each_row-count results hs in
      (
        lines ∷ groups,
        rw (made, later) refl,
        omega (arith, count_if-append says_diverged lines (concat groups), here, there),
      )

-- After an analysis no percentile raises an exception in `print_summary_table` of analyze_results.py,
-- and among the texts that it calls `print` with, the warning that dump files differ is there as often
-- as there are results whose dumps do: no other such text equals it, whatever the labels are. What a
-- terminal makes of a text, such as a line feed in a label or a character that it cannot encode, comes
-- after it.
pub print_summary_table_warns :
    (n : Numerals) (results : List (Summary × Verdict))
    → All (λ r. Analysed r.0) results
    → (lines : List Text) × (print_summary_table n results ≡ some lines)
      × (count_if says_diverged lines ≡ count_if is_diverged results)
unfolding print_summary_table
print_summary_table_warns n results h =
    let (groups, made, counted) = each_row-count n results h in
    let front = title_lines 106 (codes "P2P Editor Evaluation — Summary") in
    let head = latency_header ++ last_column (codes "Conv") in
    (
      front ++ (head ∷ rule 102 ∷ (concat groups ++ [] ∷ [])),
      rw made refl,
      omega (arith, count_if-append says_diverged (concat groups) ([] ∷ []), counted),
    )
