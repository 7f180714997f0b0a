-- ===== src/Latency/Accounting.antt =====
-- Every sent operation is counted once, and the reported figures are in order.
use cs4730_collaborative_tex.Base.{
  ℕ, ◌+◌, ◌-◌, ◌*◌, ◌≤◌, ◌<◌, ◌≡◌, ◌≢◌, sym, ap, Option-cases, inl, inr, Bool, true, false, List,
  [], ◌∷◌, ◌++◌, append_assoc, append-nil, none, some, arith, leb, length, if◌then◌else◌,
}
use cs4730_collaborative_tex.Base.Eq.{pair_eq}
use cs4730_collaborative_tex.Text.{Text}
use cs4730_collaborative_tex.Dict.{Dict, lookup}
use cs4730_collaborative_tex.Logs.{Key}
use cs4730_collaborative_tex.Logs.Parse.{Log}
use cs4730_collaborative_tex.Sort.Laws.{count_if}
use cs4730_collaborative_tex.Stats.{Ratio, number}
use cs4730_collaborative_tex.Stats.Percentile.{percentile_mono}
use cs4730_collaborative_tex.Stats.Summary.{percentile_between, average_between}
use cs4730_collaborative_tex.Latency.{Tally, no_tally, tally_op, tally_sends, summarise}

-- An operation that no log applied.
abbrev pub was_dropped : Dict Key ℕ → Key × ℕ → Bool
was_dropped applies (key, _) = elim (lookup key applies) [ none ↦ true | some _ ↦ false ]

-- An operation that a log applied before it was sent, as clock skew makes it seem.
abbrev pub went_back : Dict Key ℕ → Key × ℕ → Bool
went_back applies (key, send_us) = elim (lookup key applies) [
  | none ↦ false
  | some apply_us ↦ if leb send_us apply_us then false else true
]

-- The delays of the other operations, in the order of the sends.
abbrev pub delays : Dict Key ℕ → Dict Key ℕ → List ℕ
delays applies [] = []
delays applies ((key, send_us) ∷ sends) = elim (lookup key applies) [
  | none ↦ delays applies sends
  | some apply_us ↦
      if leb send_us apply_us
      then (apply_us - send_us) ∷ delays applies sends
      else delays applies sends
]

tally_sends-delays :
    (applies : Dict Key ℕ) (t : Tally) (sends : Dict Key ℕ)
    → ((tally_sends applies t sends).latencies ≡ t.latencies ++ delays applies sends)
      × ((tally_sends applies t sends).dropped ≡ t.dropped + count_if (was_dropped applies) sends)
      × ((tally_sends applies t sends).negative ≡ t.negative + count_if (went_back applies) sends)
unfolding tally_sends
tally_sends-delays applies t [] = (sym (append-nil t.latencies), omega arith, omega arith)
tally_sends-delays applies t ((key, send_us) ∷ sends) =
    let ih = tally_sends-delays applies (tally_op applies t key send_us) sends in
    elim (Option-cases (lookup key applies)) [
      | inl dropped ↦ ground (arith, ih)
      | inr (apply_us, found) ↦
          ground
            (arith, ih, append_assoc t.latencies ((apply_us - send_us) ∷ []) (delays applies sends))
    ]

-- The classes of operations cover the sends, and no two of them overlap.
delays-count :
    (applies sends : Dict Key ℕ)
    → length (delays applies sends)
        + count_if (was_dropped applies) sends
        + count_if (went_back applies) sends
      ≡ length sends
delays-count applies [] = omega arith
delays-count applies ((key, send_us) ∷ sends) = elim (Option-cases (lookup key applies)) [
  | inl dropped ↦ ground (arith, delays-count applies sends)
  | inr (apply_us, found) ↦ ground (arith, delays-count applies sends)
]

-- The report of an experiment accounts for every sent operation: the reported latencies are the
-- delays of the operations that were applied no earlier than they were sent, in the order of the
-- sends; `dropped` counts those that no log applied, `negative` those applied before they were sent;
-- and delivered, dropped and negative add up to the total.
pub summarise_accounts :
    (label : Text) (log : Log)
    → let r = summarise label log in
      (r.latencies ≡ delays log.applies log.sends)
      × (r.dropped ≡ count_if (was_dropped log.applies) log.sends)
      × (r.negative ≡ count_if (went_back log.applies) log.sends)
      × (r.delivered + r.dropped + r.negative ≡ r.total)
unfolding summarise
summarise_accounts label log =
    let (ls, ds, ns) = tally_sends-delays log.applies no_tally log.sends in
    (
      ls,
      omega (arith, ds),
      omega (arith, ns),
      omega (arith, ap length ls, ds, ns, delays-count log.applies log.sends),
    )

length-ne-nil : (xs : List ℕ) → 0 < length xs → xs ≢ []
length-ne-nil [] h = absurd (omega arith)
length-ne-nil (x ∷ xs) h = λ e. cc

-- Where at least one operation was delivered, no statistic of a report is `nan` and no percentile
-- raises, and they are in order: `min`, P50, P95, P99, `max`, with the mean between `min` and `max`.
pub summarise_ordered :
    (label : Text) (log : Log)
    → 0 < (summarise label log).delivered
    → let r = summarise label log in
      (low a b c high : ℕ) × (mean : Ratio) × (r.min ≡ number low)
      × (r.p50 ≡ some (number a))
      × (r.p95 ≡ some (number b))
      × (r.p99 ≡ some (number c))
      × (r.max ≡ number high)
      × (r.avg ≡ number mean)
      × (low ≤ a)
      × (a ≤ b)
      × (b ≤ c)
      × (c ≤ high)
      × (low * mean.den ≤ mean.num)
      × (mean.num ≤ high * mean.den)
unfolding summarise
summarise_ordered label log h =
    let xs = (summarise label log).latencies in
    let ne = length-ne-nil xs h in
    let (low, a, _, lo, p50, _, under, _) = percentile_between xs 50 ne (omega arith) in
    let (_, b, _, _, p95, _, _, _) = percentile_between xs 95 ne (omega arith) in
    let (_, c, high, _, p99, hi, _, over) = percentile_between xs 99 ne (omega arith) in
    let (low', mean, high', lo', av, hi', pos_den, above, below) = average_between xs ne in
    let same_low : low' ≡ low = cc in
    let same_high : high' ≡ high = cc in
    (
      low,
      a,
      b,
      c,
      high,
      mean,
      lo,
      p50,
      p95,
      p99,
      hi,
      av,
      under,
      percentile_mono xs 50 95 (omega arith) (omega arith) p50 p95,
      percentile_mono xs 95 99 (omega arith) (omega arith) p95 p99,
      over,
      rw same_low at above,
      rw same_high at below,
    )
