-- ===== src/Tables/Written.antt =====
-- What a reader finds in the CSV file of scripts/analyze_results.py.
use cs4730_collaborative_tex.Base.{
  ℕ, ◌≤◌, ◌≡◌, refl, sym, ap, subst, ◌∙◌, List, [], ◌∷◌, ◌++◌, Option, some, none, map, arith,
  length, All, All-append,
}
use cs4730_collaborative_tex.Text.{Text}
use cs4730_collaborative_tex.Stats.{Number, nan, number, percentile}
use cs4730_collaborative_tex.Stats.Percentile.{percentile-IsPercentile}
use cs4730_collaborative_tex.Logs.Parse.{Log}
use cs4730_collaborative_tex.Latency.{Summary, Verdict, summarise}
use cs4730_collaborative_tex.Convergence.{Totals}
use cs4730_collaborative_tex.Scalability.{Figures}
use cs4730_collaborative_tex.Csv.{write_rows}
use cs4730_collaborative_tex.Csv.Reading.{read_rows}
use cs4730_collaborative_tex.Csv.RoundTrip.{read_rows-write_rows, IsRow}
use cs4730_collaborative_tex.Tables.{Numerals, each_row}
use cs4730_collaborative_tex.Tables.Combined.{
  summary_fields, result_cells, result_row, trials_row, peers_row, trials_rows, peers_rows,
  write_csv,
}

pub percentile-some : (xs : List ℕ) (p : ℕ) → p ≤ 100 → (v : Number ℕ) × (percentile xs p ≡ some v)
percentile-some [] p le = (nan, unfold percentile in refl)
percentile-some (x ∷ xs) p le =
    let (v, found, _) = percentile-IsPercentile (x ∷ xs) p (λ e. cc) le in (number v, found)

-- What an analysis returned.
abbrev pub Analysed : Summary → Type 0
Analysed r = (label : Text) × (log : Log) × (r ≡ summarise label log)

-- The name of a row, its first cell.
abbrev pub first_cell : List Text → Text
first_cell [] = []
first_cell (c ∷ _) = c

abbrev HasCells : List Text → Type 0
HasCells r = length r ≡ length summary_fields

module _ (n : Numerals) where
  result_row_of :
      (r : Summary) (v : Verdict) (a b c : Number ℕ)
      → r.p50 ≡ some a
      → r.p95 ≡ some b
      → r.p99 ≡ some c
      → (row : List Text) × (result_row n (r, v) ≡ some row)
        × HasCells row
        × (first_cell row ≡ r.label)
  unfolding result_row result_cells
  result_row_of r v a b c p50 p95 p99 =
      (result_cells n r v a b c, rw (p50, p95, p99) refl, refl, refl)

  result_row-some :
      (r : Summary × Verdict)
      → Analysed r.0
      → (row : List Text) × (result_row n r ≡ some row)
        × HasCells row
        × (first_cell row ≡ r.0.label)
  unfolding summarise
  result_row-some (r, v) (label, log, same) =
      let xs = (summarise label log).latencies in
      let (a, p50) = percentile-some xs 50 (omega arith) in
      let (b, p95) = percentile-some xs 95 (omega arith) in
      let (c, p99) = percentile-some xs 99 (omega arith) in
      result_row_of r v a b c (ap (λ x. x.p50) same ∙ p50) (ap (λ x. x.p95) same ∙ p95)
        (ap (λ x. x.p99) same ∙ p99)

  each_row-some :
      (results : List (Summary × Verdict))
      → All (λ r. Analysed r.0) results
      → (rows : List (List Text)) × (each_row (result_row n) results ≡ some rows)
        × All HasCells rows
        × (map first_cell rows ≡ map (λ r. r.0.label) results)
  unfolding each_row
  each_row-some [] h = ([], refl, tt, refl)
  each_row-some (r ∷ results) (h, hs) =
      let (row, made, cells, name) = result_row-some r h in
      let (rows, later, all_cells, names) = each_row-some results hs in
      (row ∷ rows, rw (made, later) refl, (cells, all_cells), rw (name, names) refl)

  trials_rows-HasCells : (t : Option Totals) → All HasCells (trials_rows n t)
  unfolding trials_row
  trials_rows-HasCells none = tt
  trials_rows-HasCells (some t) = (refl, tt)

  peers_rows-HasCells : (rs : Option (List Figures)) → All HasCells (peers_rows n rs)
  unfolding peers_row
  peers_rows-HasCells none = tt
  peers_rows-HasCells (some rs) = each rs
    where
      each : (rs : List Figures) → All HasCells (map (peers_row n) rs)
      each [] = tt
      each (r ∷ rs) = (unfold peers_row in refl, each rs)

  All-IsRow : (rows : List (List Text)) → All HasCells rows → All IsRow rows
  All-IsRow [] h = tt
  All-IsRow (row ∷ rows) (h, hs) = ((λ e. absurd (omega (arith, ap length e))), All-IsRow rows hs)

-- After an analysis no percentile raises an exception while `write_csv` of analyze_results.py makes
-- its rows, and a reader finds in the text that it hands to the file the header and then, each with a
-- cell for every field of the header, a row for each result in order, with its label first, and behind
-- them the rows of the convergence trials and of the numbers of peers, also where labels hold commas,
-- quotes or line ends. This is about the text: opening the file, and encoding the text, which raises
-- for a label with a lone surrogate, come after it.
pub write_csv_read :
    (n : Numerals) (results : List (Summary × Verdict)) (conv_results : Option Totals)
    (scale_results : Option (List Figures))
    → All (λ r. Analysed r.0) results
    → (text : Text) × (first : List (List Text)) × (write_csv n results conv_results scale_results
        ≡ some text)
      × (read_rows text
          ≡ summary_fields ∷ (first ++ (trials_rows n conv_results ++ peers_rows n scale_results)))
      × (map first_cell first ≡ map (λ r. r.0.label) results)
      × All (λ r. length r ≡ length summary_fields) (read_rows text)
unfolding write_csv
write_csv_read n results conv_results scale_results h =
    let (first, made, cells, names) = each_row-some n results h in
    let last = trials_rows n conv_results ++ peers_rows n scale_results in
    let all_cells : All HasCells (summary_fields ∷ (first ++ last)) = (
      refl,
      All-append HasCells first last cells (
          All-append HasCells (trials_rows n conv_results) (peers_rows n scale_results)
            (trials_rows-HasCells n conv_results) (peers_rows-HasCells n scale_results)),
    ) in
    let read =
      read_rows-write_rows (summary_fields ∷ (first ++ last))
        (All-IsRow n (summary_fields ∷ (first ++ last)) all_cells) in
    (
      write_rows (summary_fields ∷ (first ++ last)),
      first,
      rw made refl,
      read,
      names,
      subst (All HasCells) (sym read) all_cells,
    )
