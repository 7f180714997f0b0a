-- ===== src/Scalability/Metrics.antt =====
-- What the metrics of one experiment say.
use cs4730_collaborative_tex.Base.{
  ℕ, ◌+◌, ◌≤◌, ◌<◌, ◌≡◌, refl, sym, subst, ◌∙◌, ◌↔◌, inl, inr, Bool, List, [], ◌∷◌, none, some,
  arith, length, All, Option-cases, is_some,
}
use cs4730_collaborative_tex.Base.Eq.{pair_eq}
use cs4730_collaborative_tex.Base.Int.{ℤ, sub_ℕ, ◌≤ℤ◌, sub_ℕ-parts}
use cs4730_collaborative_tex.Dict.{Dict, lookup, values}
use cs4730_collaborative_tex.Logs.{Key}
use cs4730_collaborative_tex.Logs.Parse.{Log}
use cs4730_collaborative_tex.Sort.Laws.{count_if}
use cs4730_collaborative_tex.Stats.{min_from, max_from}
use cs4730_collaborative_tex.Stats.Summary.{min_from-le, min_from-All, max_from-ge, max_from-All}
use cs4730_collaborative_tex.Scalability.{matched, Figures, metrics_of, metrics}

-- A log applied the operation.
abbrev pub was_applied : Dict Key ℕ → Key × ℕ → Bool
was_applied applies (key, _) = is_some (lookup key applies)

length-matched :
    (applies sends : Dict Key ℕ)
    → length (matched applies sends) ≡ count_if (was_applied applies) sends
unfolding matched
length-matched applies [] = refl
length-matched applies ((k, s) ∷ sends) = ground (arith, length-matched applies sends)

count_if-le-length :
    (applies sends : Dict Key ℕ) → count_if (was_applied applies) sends ≤ length sends
count_if-le-length applies [] = omega arith
count_if-le-length applies ((k, s) ∷ sends) = ground (arith, count_if-le-length applies sends)

-- Every applied operation was sent after `low` and applied before `high`.
abbrev pub Within : Dict Key ℕ → ℤ → Dict Key ℕ → Type 0
Within applies us sends =
    All (λ e. (ts : ℕ) → lookup e.0 applies ≡ some ts → sub_ℕ ts e.1 ≤ℤ us) sends

matched_lost :
    (applies : Dict Key ℕ) (key : Key) (s : ℕ) (sends : Dict Key ℕ)
    → lookup key applies ≡ none
    → matched applies ((key, s) ∷ sends) ≡ matched applies sends
unfolding matched
matched_lost applies key s sends e = ground arith

matched_found :
    (applies : Dict Key ℕ) (key : Key) (s : ℕ) (sends : Dict Key ℕ) {t : ℕ}
    → lookup key applies ≡ some t
    → matched applies ((key, s) ∷ sends) ≡ t ∷ matched applies sends
unfolding matched
matched_found applies key s sends e = ground arith

span-le : (low high s t : ℕ) → low ≤ s → t ≤ high → sub_ℕ t s ≤ℤ sub_ℕ high low
span-le low high s t h k = omega (arith, sub_ℕ-parts t s, sub_ℕ-parts high low)

Within-of :
    (applies sends : Dict Key ℕ) (low high : ℕ)
    → All (λ s. low ≤ s) (values sends)
    → All (λ t. t ≤ high) (matched applies sends)
    → Within applies (sub_ℕ high low) sends
Within-of applies [] low high h k = tt
Within-of applies ((key, s) ∷ sends) low high h k = elim (Option-cases (lookup key applies)) [
  | inl lost ↦ (
    λ ts e. absurd (cc),
    Within-of applies sends low high h.1
        (subst (All (λ t. t ≤ high)) (matched_lost applies key s sends lost) k),
  )
  | inr (t, found) ↦
      let k' : All (λ t. t ≤ high) (t ∷ matched applies sends) =
        subst (All (λ t. t ≤ high)) (matched_found applies key s sends found) k in
      (
        λ ts e.
            let same : t ≡ ts = cc in span-le low high s ts h.0 (subst (λ x. x ≤ high) same k'.0),
        Within-of applies sends low high h.1 k'.1,
      )
]

metrics_of-Within :
    (n : ℕ) (cpu : List ℕ) (applies sends : Dict Key ℕ) (ms : List ℕ) {m : Figures}
    → matched applies sends ≡ ms
    → metrics_of n cpu sends ms ≡ some m
    → Within applies m.convergence_us sends
unfolding metrics_of
metrics_of-Within n cpu applies [] ms same e = tt
metrics_of-Within n cpu applies (s ∷ sends) [] same e = cc
metrics_of-Within n cpu applies (s ∷ sends) (t ∷ ts) {m} same e =
    let us = sub_ℕ (max_from t ts) (min_from s.1 (values sends)) in
    let eq : us ≡ m.convergence_us = cc in
    subst (λ u. Within applies u (s ∷ sends)) eq
      (Within-of applies (s ∷ sends) (min_from s.1 (values sends)) (max_from t ts)
        (min_from-le s.1 (values sends), min_from-All s.1 (values sends))
        (subst (All (λ x. x ≤ max_from t ts)) (sym same) (max_from-ge t ts, max_from-All t ts)))

metrics_of-counts :
    (n : ℕ) (cpu : List ℕ) (sends : Dict Key ℕ) (ms : List ℕ) {m : Figures}
    → length ms ≤ length sends
    → metrics_of n cpu sends ms ≡ some m
    → (m.total_sent ≡ length sends)
      × (m.delivered ≡ length ms)
      × (m.delivered + m.dropped ≡ m.total_sent)
      × (0 < m.delivered)
unfolding metrics_of
metrics_of-counts n cpu [] ms le e = cc
metrics_of-counts n cpu (s ∷ sends) [] le e = cc
metrics_of-counts n cpu (s ∷ sends) (t ∷ ts) le e = ground arith

-- The metrics of an experiment count its operations (`delivered` those that a log applied, at least
-- one, and delivered and dropped make up all that were sent), and its convergence time covers the
-- delay of each: none was applied later after being sent than the time says.
pub metrics_cover :
    (n : ℕ) (log : Log) (cpu : List ℕ) {m : Figures}
    → metrics n log cpu ≡ some m
    → (m.total_sent ≡ length log.sends)
      × (m.delivered ≡ count_if (was_applied log.applies) log.sends)
      × (m.delivered + m.dropped ≡ m.total_sent)
      × (0 < m.delivered)
      × Within log.applies m.convergence_us log.sends
unfolding metrics
metrics_cover n log cpu e =
    let counted = length-matched log.applies log.sends in
    let (total, delivered, parts, some_one) =
      metrics_of-counts n cpu log.sends (matched log.applies log.sends)
        (omega (arith, counted, count_if-le-length log.applies log.sends)) e in
    (
      total,
      delivered ∙ counted,
      parts,
      some_one,
      metrics_of-Within n cpu log.applies log.sends _ refl e,
    )

metrics_of-none :
    (n : ℕ) (cpu : List ℕ) (sends : Dict Key ℕ) (ms : List ℕ)
    → length ms ≤ length sends
    → (metrics_of n cpu sends ms ≡ none) ↔ (length ms ≡ 0)
unfolding metrics_of
metrics_of-none n cpu [] [] le = (λ e. refl, λ e. refl)
metrics_of-none n cpu [] (t ∷ ts) le = absurd (omega arith)
metrics_of-none n cpu (s ∷ sends) [] le = (λ e. refl, λ e. refl)
metrics_of-none n cpu (s ∷ sends) (t ∷ ts) le = (λ e. cc, λ e. absurd (omega arith))

-- There are no metrics exactly if no sent operation was applied, an experiment with no send
-- included: then no quotient by a missing time is taken.
pub metrics-none_iff :
    (n : ℕ) (log : Log) (cpu : List ℕ)
    → (metrics n log cpu ≡ none) ↔ (count_if (was_applied log.applies) log.sends ≡ 0)
unfolding metrics
metrics-none_iff n log cpu =
    let counted = length-matched log.applies log.sends in
    let (to, from) =
      metrics_of-none n cpu log.sends (matched log.applies log.sends)
        (omega (arith, counted, count_if-le-length log.applies log.sends)) in
    (λ e. sym counted ∙ to e, λ e. from (counted ∙ e))
