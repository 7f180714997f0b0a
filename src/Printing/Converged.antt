-- ===== src/Printing/Converged.antt =====
-- When the reports of scripts/analyze_convergence.py and scripts/analyze_results.py say that all
-- trials converged.
use cs4730_collaborative_tex.Base.{
  ℕ, zero, suc, ◌+◌, ◌-◌, ◌≡◌, ◌≢◌, refl, ap, subst, ◌↔◌, true, List, [], ◌∷◌, ◌++◌, concat, map,
  length, length-append, arith, append_assoc, All, All-append, Any, Bool-cases, inl, inr,
}
use cs4730_collaborative_tex.Base.Int.{ℤ, pos, negsuc, leb_ℤ}
use cs4730_collaborative_tex.Text.{Text, codes, digit_value}
use cs4730_collaborative_tex.Text.Decimal.{print, print_int, print-IsDigit, print-ne-nil, IsDigit}
use cs4730_collaborative_tex.Dict.{Dict, keys}
use cs4730_collaborative_tex.Sort.{sorted}
use cs4730_collaborative_tex.Sort.Laws.{count_if}
use cs4730_collaborative_tex.Convergence.{
  Failure, Bucket, Results, Totals, no_results, add_trials, count_trial, count_trials, judge,
  failure_of,
}
use cs4730_collaborative_tex.Convergence.Counting.{
  Trial, passes, fails, length-failure_of, count_trial-judge, add_trials_counts,
}
use cs4730_collaborative_tex.Convergence.Rows.{bucket_row}
use cs4730_collaborative_tex.Tables.{Numerals}
use cs4730_collaborative_tex.Printing.{replicate, pad_left, title_lines}
use cs4730_collaborative_tex.Printing.Trials.{
  failure_line, failure_lines, diff_line, converged_line, divergent_lines, count_lines, bucket_line,
  bucket_lines, print_report, print_convergence_report,
}

-- The third character tells the line from the others, which have no `A` there.
abbrev head : Text → ℕ
head [] = 0
head (c ∷ _) = c

abbrev third : Text → ℕ
third [] = 0
third (_ ∷ []) = 0
third (_ ∷ _ ∷ s) = head s

abbrev IsOther : Text → Type 0
IsOther line = third line ≢ b'A'

IsDigit-ne : (c : ℕ) → IsDigit c → c ≢ b'A'
unfolding digit_value
IsDigit-ne c h e = let h' : IsDigit b'A' = subst IsDigit e h in cc

print-ne : (k : ℕ) (s : Text) → head (print k ++ s) ≢ b'A'
print-ne k s = go (print k) (print-IsDigit k) (print-ne-nil k)
  where
    go : (t : Text) → All IsDigit t → t ≢ [] → head (t ++ s) ≢ b'A'
    go [] h some_digit = absurd (some_digit refl)
    go (c ∷ t) h some_digit = IsDigit-ne c h.0

print_int-ne : (k : ℤ) (s : Text) → head (print_int k ++ s) ≢ b'A'
unfolding print_int
print_int-ne (pos k) s = print-ne k s
print_int-ne (negsuc k) s = omega arith

replicate-ne : (k : ℕ) (s : Text) → head s ≢ b'A' → head (replicate k b' ' ++ s) ≢ b'A'
replicate-ne zero s h = h
replicate-ne (suc k) s h = omega arith

line-ne : (k c : ℕ) → c ≢ b'A' → head (replicate k c) ≢ b'A'
line-ne zero c h = omega arith
line-ne (suc k) c h = h

-- A number that is padded.
pad_left-ne : (w : ℕ) (k : ℤ) (s : Text) → head (pad_left w (print_int k) ++ s) ≢ b'A'
pad_left-ne w k s =
    let p = print_int k in
    let blanks = replicate (w - length p) b' ' in
    rw (append_assoc blanks p s) (replicate-ne (w - length p) (p ++ s) (print_int-ne k s))

failure_line-IsOther : (d : Failure) → IsOther (failure_line d)
unfolding failure_line
failure_line-IsOther d = pad_left-ne 6 d.trial _

failure_lines-IsOther : (ds : List Failure) → All IsOther (concat (map failure_lines ds))
failure_lines-IsOther [] = tt
failure_lines-IsOther (d ∷ ds) = (
  failure_line-IsOther d,
  All-append IsOther (map diff_line d.diffs) (concat (map failure_lines ds)) (each d.diffs)
      (failure_lines-IsOther ds),
)
  where
    each : (diffs : List Text) → All IsOther (map diff_line diffs)
    each [] = tt
    each (_ ∷ diffs) = (omega arith, each diffs)

module _ (n : Numerals) where
  bucket_lines-IsOther : (d : Dict ℤ Bucket) → All IsOther (bucket_lines n d)
  unfolding bucket_lines
  bucket_lines-IsOther [] = tt
  bucket_lines-IsOther (b ∷ d) =
      (omega arith, (omega arith, (omega arith, each (sorted leb_ℤ (keys (b ∷ d))))))
    where
      each : (ks : List ℤ) → All IsOther (map (λ k. bucket_line n k (bucket_row (b ∷ d) k)) ks)
      each [] = tt
      each (k ∷ ks) = (pad_left-ne 5 k _, each ks)

  count_lines-IsOther : (p f : ℕ) → All IsOther (count_lines n p f)
  count_lines-IsOther p f = (omega arith, (omega arith, (omega arith, (omega arith, tt))))

-- Whether a list of lines says so.
abbrev pub SaysConverged : List Text → Type 0
SaysConverged lines = Any (λ line. line ≡ converged_line) lines

silent : (lines : List Text) → All IsOther lines → SaysConverged lines → ⊥
silent [] h a = a
silent (l ∷ ls) (h, hs) (inl same) = h (ap third same)
silent (l ∷ ls) (h, hs) (inr later) = silent ls hs later

said : (front lines : List Text) → SaysConverged lines → SaysConverged (front ++ lines)
said [] lines a = a
said (_ ∷ front) lines a = inr (said front lines a)

-- Behind lines that do not say it, the part about the failures does exactly if there is none.
divergent_lines_iff :
    (front : List Text) (w : ℕ) (ds : List Failure)
    → All IsOther front
    → SaysConverged (front ++ ([] ∷ (divergent_lines w ds ++ [] ∷ []))) ↔ (length ds ≡ 0)
divergent_lines_iff front w [] h = (λ _. refl, λ _. said front _ (inr (inl refl)))
divergent_lines_iff front w (d ∷ ds) h = (
  λ a. absurd (
      silent _
        (All-append IsOther front _ h (
          omega arith,
          All-append IsOther (divergent_lines w (d ∷ ds)) ([] ∷ [])
              (omega arith, (line-ne w b'-' (omega arith), failure_lines-IsOther (d ∷ ds)))
              (omega arith, tt),
        ))
        a),
  λ e. absurd (omega (arith, e)),
)

module _ (n : Numerals) where
  print_report_iff : (r : Results) → SaysConverged (print_report n r) ↔ (length r.divergent ≡ 0)
  unfolding print_report
  print_report_iff r =
      let title = title_lines 62 (codes "P2P Editor — Convergence Trial Results") in
      let counts = count_lines n r.passed r.failed in
      let buckets = bucket_lines n r.by_peers in
      divergent_lines_iff (title ++ (counts ++ buckets)) 58 r.divergent (
        All-append IsOther title (counts ++ buckets)
          (omega arith, (omega arith, (omega arith, (omega arith, tt))))
          (All-append IsOther counts buckets (count_lines-IsOther n r.passed r.failed)
            (bucket_lines-IsOther n r.by_peers)))

  print_convergence_report_iff :
      (t : Totals) → SaysConverged (print_convergence_report n t) ↔ (length t.divergent ≡ 0)
  unfolding print_convergence_report
  print_convergence_report_iff t =
      let title = title_lines 60 (codes "Convergence Trial Results") in
      let counts = count_lines n t.trials_passed t.trials_failed in
      divergent_lines_iff (title ++ counts) 56 t.divergent (
        All-append IsOther title counts
          (omega arith, (omega arith, (omega arith, (omega arith, tt))))
          (count_lines-IsOther n t.trials_passed t.trials_failed))

fails-zero_iff : (ts : List Trial) → (count_if fails ts ≡ 0) ↔ All (λ t. passes t ≡ true) ts
fails-zero_iff [] = (λ _. tt, λ _. refl)
fails-zero_iff (t ∷ ts) =
    let ih = fails-zero_iff ts in
    elim (Bool-cases (passes t)) [
      | inl pass ↦ (λ e. (pass, ih.0 (ground (arith, pass))), λ h. ground (arith, pass, ih.1 h.1))
      | inr fail ↦ (λ e. absurd (ground (arith, fail)), λ h. absurd (let a = h.0 in cc))
    ]

count_trials-divergent :
    (t : Totals) (ts : List Trial)
    → length (count_trials t ts).divergent ≡ length t.divergent + count_if fails ts
unfolding count_trials
count_trials-divergent t [] = omega arith
count_trials-divergent t ((m, dumps) ∷ ts) =
    let verb = codes " dump(s) collected (expected " in
    ground (
      arith,
      count_trials-divergent (count_trial t m dumps) ts,
      count_trial-judge t m dumps,
      length-append t.divergent (failure_of verb m (judge dumps)),
      length-failure_of verb m (judge dumps),
    )

abbrev pub no_totals : Totals
no_totals = record { trials_passed = 0; trials_failed = 0; divergent = [] }

through : {A B C : Type 0} → A ↔ B → B ↔ C → A ↔ C
through f g = (λ a. g.0 (f.0 a), λ c. f.1 (g.1 c))

-- The report of analyze_convergence.py and that of analyze_results.py on a list of trials each say
-- that all trials converged exactly if every trial passed, whatever the trials' texts are.
pub print_reports_converged :
    (n : Numerals) (ts : List Trial)
    → (SaysConverged (print_report n (add_trials no_results ts)) ↔ All (λ t. passes t ≡ true) ts)
      × (SaysConverged (print_convergence_report n (count_trials no_totals ts))
          ↔ All (λ t. passes t ≡ true) ts)
print_reports_converged n ts =
    let r = add_trials no_results ts in
    let t = count_trials no_totals ts in
    let (_, f, _, d, _, _) = add_trials_counts ts (pos 0) in
    let d' = count_trials-divergent no_totals ts in
    let same : (length r.divergent ≡ 0) ↔ (count_if fails ts ≡ 0) =
      (λ e. omega (arith, e, f, d), λ e. omega (arith, e, f, d)) in
    let same' : (length t.divergent ≡ 0) ↔ (count_if fails ts ≡ 0) =
      (λ e. omega (arith, e, d'), λ e. omega (arith, e, d')) in
    (
      through (print_report_iff n r) (through same (fails-zero_iff ts)),
      through (print_convergence_report_iff n t) (through same' (fails-zero_iff ts)),
    )
