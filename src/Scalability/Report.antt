-- ===== src/Scalability/Report.antt =====
-- What `analyze_scalability` of scripts/analyze_results.py reports.
use cs4730_collaborative_tex.Base.{
  ℕ, ◌≤◌, ◌<◌, ◌≡◌, refl, sym, ap, subst, ◌∙◌, ◌⊎◌, inl, inr, List, [], ◌∷◌, none, some, arith, leb,
  map, length, All, Option-cases, ◌>>=◌,
}
use cs4730_collaborative_tex.Text.{Text}
use cs4730_collaborative_tex.Files.{FileSystem}
use cs4730_collaborative_tex.Sort.{sorted, insert_sorted}
use cs4730_collaborative_tex.Sort.Laws.{IsSorted, sorted-IsSorted}
use cs4730_collaborative_tex.Dict.{Dict}
use cs4730_collaborative_tex.Base.Eq.{pair_eq}
use cs4730_collaborative_tex.Logs.{Key}
use cs4730_collaborative_tex.Logs.Merge.{load_scalability_subdir}
use cs4730_collaborative_tex.Scalability.{
  Figures, metrics, parse_cpu, compute_scalability_metrics, metrics_of, matched,
}
use cs4730_collaborative_tex.Scalability.Directories.{
  peer_count, sort_key, by_key, peer_dirs, analyze_each, report_of, analyze_scalability,
}

key-insert_sorted :
    (x : Text) (ys : List Text)
    → map sort_key (insert_sorted by_key x ys) ≡ insert_sorted leb (sort_key x) (map sort_key ys)
unfolding insert_sorted
key-insert_sorted x [] = refl
key-insert_sorted x (y ∷ ys) = ground (arith, key-insert_sorted x ys)

key-sorted : (xs : List Text) → map sort_key (sorted by_key xs) ≡ sorted leb (map sort_key xs)
unfolding sorted
key-sorted [] = refl
key-sorted (x ∷ xs) =
    key-insert_sorted x (sorted by_key xs) ∙ ap (insert_sorted leb (sort_key x)) (key-sorted xs)

-- The numbers of peers of the directories.
abbrev pub counts : List (ℕ × Text) → List ℕ
counts = map (λ d. d.0)

peer_dirs-All :
    (low : ℕ) (dir : Text) (names : List Text)
    → All (λ k. low ≤ k) (map sort_key names)
    → All (λ n. low ≤ n) (counts (peer_dirs dir names))
unfolding peer_dirs sort_key
peer_dirs-All low dir [] h = tt
peer_dirs-All low dir (name ∷ names) h = elim (Option-cases (peer_count name)) [
  | inl other ↦ rw (peer_dirs, other) (peer_dirs-All low dir names h.1)
  | inr (n, named) ↦
      let here : low ≤ n = let k = h.0 in ground (arith, named) in
      rw (peer_dirs, named) (here, peer_dirs-All low dir names h.1)
]

peer_dirs-IsSorted :
    (dir : Text) (names : List Text)
    → IsSorted (map sort_key names)
    → IsSorted (counts (peer_dirs dir names))
unfolding peer_dirs sort_key
peer_dirs-IsSorted dir [] h = tt
peer_dirs-IsSorted dir (name ∷ names) h = elim (Option-cases (peer_count name)) [
  | inl other ↦ rw (peer_dirs, other) (peer_dirs-IsSorted dir names h.1)
  | inr (n, named) ↦
      let key : sort_key name ≡ n = ground (arith, named) in
      rw (peer_dirs, named)
        (
          peer_dirs-All n dir names (subst (λ k. All (λ y. k ≤ y) (map sort_key names)) key h.0),
          peer_dirs-IsSorted dir names h.1,
        )
]

pub metrics_of-n_peers :
    (n : ℕ) (cpu : List ℕ) (sends : Dict Key ℕ) (ts : List ℕ) (r : Figures)
    → metrics_of n cpu sends ts ≡ some r
    → (r.n_peers ≡ n) × (0 < r.delivered)
unfolding metrics_of
metrics_of-n_peers n cpu [] ts r e = absurd (cc)
metrics_of-n_peers n cpu (s ∷ sends) [] r e = absurd (cc)
metrics_of-n_peers n cpu (s ∷ sends) (t ∷ ts) r e = ground arith

-- The metrics of a directory name its number of peers, and an operation that arrived.
compute_scalability_metrics-n_peers :
    (fs : FileSystem) (subdir : Text) (n : ℕ) (r : Figures)
    → compute_scalability_metrics fs subdir n ≡ some (some r)
    → (r.n_peers ≡ n) × (0 < r.delivered)
unfolding compute_scalability_metrics metrics metrics_of
compute_scalability_metrics-n_peers fs subdir n r e =
    elim (Option-cases (load_scalability_subdir fs subdir)) [
      | inl raised ↦ absurd (ground (arith, raised))
      | inr (log, loaded) ↦
          let found : metrics n log (parse_cpu fs subdir) ≡ some r = ground (arith, loaded) in
          unfold metrics in
          metrics_of-n_peers n (parse_cpu fs subdir) log.sends (matched log.applies log.sends) r
            found
    ]

analyze_each-cons :
    (fs : FileSystem) (n : ℕ) (subdir : Text) (dirs : List (ℕ × Text)) (rs : List Figures)
    → analyze_each fs ((n, subdir) ∷ dirs) ≡ some rs
    → (rest : List Figures) × (analyze_each fs dirs ≡ some rest)
      × ((rs ≡ rest) ⊎ ((r : Figures) × (rs ≡ r ∷ rest) × (r.n_peers ≡ n) × (0 < r.delivered)))
unfolding analyze_each
analyze_each-cons fs n subdir dirs rs e =
    elim (Option-cases (compute_scalability_metrics fs subdir n)) [
      | inl raised ↦ absurd (ground (arith, raised))
      | inr (found, computed) ↦ elim (Option-cases (analyze_each fs dirs)) [
        | inl raised ↦ absurd (ground (arith, computed, raised))
        | inr (rest, others) ↦ elim (Option-cases found) [
          | inl skipped ↦ (rest, others, inl (ground (arith, computed, others, skipped)))
          | inr (r, kept) ↦
              let (peers, arrived) =
                compute_scalability_metrics-n_peers fs subdir n r (computed ∙ ap some kept) in
              (rest, others, inr (r, ground (arith, computed, others, kept), peers, arrived))
        ]
      ]
    ]

-- Ascending in the number of peers, with an operation that arrived in each.
abbrev pub IsReport : List Figures → Type 0
IsReport rs = IsSorted (map (λ r. r.n_peers) rs) × All (λ r. 0 < r.delivered) rs

analyze_each-All :
    (low : ℕ) (fs : FileSystem) (dirs : List (ℕ × Text)) (rs : List Figures)
    → All (λ n. low ≤ n) (counts dirs)
    → analyze_each fs dirs ≡ some rs
    → All (λ n. low ≤ n) (map (λ r. r.n_peers) rs)
unfolding analyze_each
analyze_each-All low fs [] [] h e = tt
analyze_each-All low fs [] (r ∷ rs) h e = absurd (cc)
analyze_each-All low fs ((n, subdir) ∷ dirs) rs h e =
    let (rest, others, how) = analyze_each-cons fs n subdir dirs rs e in
    let ih = analyze_each-All low fs dirs rest h.1 others in
    elim how [
      | inl same ↦ subst (λ l. All (λ n. low ≤ n) (map (λ r. r.n_peers) l)) (sym same) ih
      | inr (r, same, peers, _) ↦
          subst (λ l. All (λ n. low ≤ n) (map (λ r. r.n_peers) l)) (sym same)
            (omega (arith, peers, h.0), ih)
    ]

analyze_each-IsReport :
    (fs : FileSystem) (dirs : List (ℕ × Text)) (rs : List Figures)
    → IsSorted (counts dirs)
    → analyze_each fs dirs ≡ some rs
    → IsReport rs
unfolding analyze_each
analyze_each-IsReport fs [] [] h e = (tt, tt)
analyze_each-IsReport fs [] (r ∷ rs) h e = absurd (cc)
analyze_each-IsReport fs ((n, subdir) ∷ dirs) rs h e =
    let (rest, others, how) = analyze_each-cons fs n subdir dirs rs e in
    let (ordered, arrived) = analyze_each-IsReport fs dirs rest h.1 others in
    elim how [
      | inl same ↦ subst IsReport (sym same) (ordered, arrived)
      | inr (r, same, peers, one) ↦
          let low : All (λ k. r.n_peers ≤ k) (counts dirs) =
            subst (λ i. All (λ k. i ≤ k) (counts dirs)) (sym peers) h.0 in
          subst IsReport (sym same)
            ((analyze_each-All r.n_peers fs dirs rest low others, ordered), (one, arrived))
    ]

-- The directories, in the order of the keys.
abbrev pub found_dirs : Text → List Text → List (ℕ × Text)
found_dirs dir names = peer_dirs dir (sorted by_key names)

pub found_dirs-IsSorted :
    (dir : Text) (names : List Text) → IsSorted (counts (found_dirs dir names))
found_dirs-IsSorted dir names =
    peer_dirs-IsSorted dir (sorted by_key names)
      (subst IsSorted (sym (key-sorted names)) (sorted-IsSorted (map sort_key names)))

report_of-some : (rs qs : List Figures) → report_of rs ≡ some qs → (rs ≡ qs) × (0 < length qs)
unfolding report_of
report_of-some [] qs e = absurd (cc)
report_of-some (r ∷ rs) qs e = ground arith

-- What `analyze_scalability` reports is not empty, ascends in the number of peers, and has an
-- operation that arrived in each configuration.
pub analyze_scalability-IsReport :
    (fs : FileSystem) (dir : Text) (rs : List Figures)
    → analyze_scalability fs dir ≡ some (some rs)
    → (0 < length rs) × IsReport rs
unfolding analyze_scalability
analyze_scalability-IsReport fs dir rs e = elim (Option-cases (fs.listdir dir)) [
  | inl lost ↦ absurd (ground (arith, lost))
  | inr (names, listed) ↦
      reported (found_dirs dir names) (found_dirs-IsSorted dir names) (ground (arith, listed))
]
  where
    reported :
        (dirs : List (ℕ × Text))
        → IsSorted (counts dirs)
        → (elim dirs [
          | [] ↦ some none
          | d ∷ dirs ↦ do results ← analyze_each fs (d ∷ dirs); some (report_of results)
        ])
          ≡ some (some rs)
        → (0 < length rs) × IsReport rs
    reported [] ordered e = absurd (cc)
    reported (d ∷ dirs) ordered e = elim (Option-cases (analyze_each fs (d ∷ dirs))) [
      | inl raised ↦ absurd (ground (arith, raised))
      | inr (results, analyzed) ↦
          let kept : report_of results ≡ some rs = ground (arith, analyzed) in
          let (same, one) = report_of-some results rs kept in
          (one, subst IsReport same (analyze_each-IsReport fs (d ∷ dirs) results ordered analyzed))
    ]
