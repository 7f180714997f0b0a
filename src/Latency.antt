-- ===== src/Latency.antt =====
-- The latency of one experiment: `analyze_subdir` of scripts/analyze_latency.py and of
-- scripts/analyze_results.py.
pub mod Accounting
use mathlib.Core.Option
use cs4730_collaborative_tex.Base.{
  ℕ, ◌+◌, ◌-◌, Bool, ◌&&◌, true, List, [], ◌∷◌, ◌++◌, Option, none, some, leb, length, or_else,
  keep, map, if◌then◌else◌, ◌>>=◌,
}
use cs4730_collaborative_tex.Base.Eq.{pair_eq, text_eq, ◌==◌}
use cs4730_collaborative_tex.Text.{Text, codes, strip_prefix, ends_with, strip}
use cs4730_collaborative_tex.Text.Decimal.{int}
use cs4730_collaborative_tex.Text.Regex.{digits, search}
use cs4730_collaborative_tex.Dict.{Dict, lookup}
use cs4730_collaborative_tex.Files.{FileSystem, content, missing, failed, join, text_leb}
use cs4730_collaborative_tex.Sort.{sorted}
use cs4730_collaborative_tex.Stats.{Ratio, Number, percentile, min_of, max_of, average, percent_of}
use cs4730_collaborative_tex.Logs.{Key}
use cs4730_collaborative_tex.Logs.Parse.{Log}
use cs4730_collaborative_tex.Logs.Merge.{load_subdir, load_subdir_latency}

-- The loop's variables: `latencies_us` in order, `dropped` and `negative`.
pub record Tally : Type 0 where
  pub latencies : List ℕ
  pub dropped : ℕ
  pub negative : ℕ

abbrev pub no_tally : Tally
no_tally = record { latencies = []; dropped = 0; negative = 0 }

-- One round: the operation `key` was sent at `send_us`.
unfoldable pub tally_op : Dict Key ℕ → Tally → Key → ℕ → Tally
tally_op applies t key send_us = elim (lookup key applies) [
  | none ↦ record t { dropped = t.dropped + 1 }
  | some apply_us ↦
      if leb send_us apply_us
      then record t { latencies = t.latencies ++ (apply_us - send_us) ∷ [] }
      else record t { negative = t.negative + 1 }
]

-- `for key, send_us in sends.items(): …`
unfoldable pub tally_sends : Dict Key ℕ → Tally → Dict Key ℕ → Tally
unfolding tally_op
tally_sends applies t [] = t
tally_sends applies t ((key, send_us) ∷ sends) =
    tally_sends applies (tally_op applies t key send_us) sends

-- `(\d+)peer`
peers_at : Text → Option ℕ
peers_at s = do (n, s) ← digits s; _ ← strip_prefix (codes "peer") s; some (int n)

-- The number of peers that a label names, or 0.
unfoldable pub peers_of : Text → ℕ
unfolding peers_at digits search int
peers_of label = or_else (search peers_at label) 0

-- The dict that `analyze_subdir` of analyze_latency.py returns; the percentiles are `none` where
-- Python raises an `IndexError`.
pub record Summary : Type 0 where
  pub label : Text
  pub n_peers : ℕ
  pub total : ℕ
  pub delivered : ℕ
  pub dropped : ℕ
  pub negative : ℕ
  pub drop_pct : Ratio
  pub min : Number ℕ
  pub avg : Number Ratio
  pub p50 : Option (Number ℕ)
  pub p95 : Option (Number ℕ)
  pub p99 : Option (Number ℕ)
  pub max : Number ℕ
  pub latencies : List ℕ

-- The statistics of loaded logs.
unfoldable pub summarise : Text → Log → Summary
unfolding tally_sends peers_of
summarise label log =
    let t = tally_sends log.applies no_tally log.sends in
    let total = length log.sends in
    record {
      label = label;
      n_peers = peers_of label;
      total = total;
      delivered = length t.latencies;
      dropped = t.dropped;
      negative = t.negative;
      drop_pct = percent_of t.dropped total;
      min = min_of t.latencies;
      avg = average t.latencies;
      p50 = percentile t.latencies 50;
      p95 = percentile t.latencies 95;
      p99 = percentile t.latencies 99;
      max = max_of t.latencies;
      latencies = t.latencies;
    }

-- `analyze_subdir` of analyze_latency.py.
unfoldable pub analyze_subdir_latency : FileSystem → Text → Text → Summary
unfolding summarise load_subdir_latency
analyze_subdir_latency fs subdir label = summarise label (load_subdir_latency fs subdir)

-- The stripped text of a dump; `none` if it cannot be opened or is blank.
unfoldable pub read_dump : FileSystem → Text → Option Text
unfolding strip
read_dump fs path = elim (fs.read path) [
  | content s ↦ elim (strip s) [ [] ↦ none | c ∷ t ↦ some (c ∷ t) ]
  | missing ↦ none
  | failed ↦ none
]

-- The dumps that hold a text, in the order of the paths.
unfoldable pub collect_dumps : FileSystem → List Text → List Text
unfolding read_dump
collect_dumps fs [] = []
collect_dumps fs (p ∷ ps) = elim (read_dump fs p) [
  | none ↦ collect_dumps fs ps
  | some text ↦ text ∷ collect_dumps fs ps
]

-- `converged`: `"N/A"`, `"true"` or `"false"`.
pub data Verdict : Type 0 where
  not_applicable agreed diverged : Verdict

-- `all(d == first for d in dumps)`
unfoldable pub all_equal : Text → List Text → Bool
all_equal first [] = true
all_equal first (d ∷ ds) = d == first && all_equal first ds

unfoldable pub verdict : List Text → Verdict
unfolding all_equal
verdict [] = not_applicable
verdict (d ∷ []) = not_applicable
verdict (d ∷ e ∷ ds) = if all_equal d (d ∷ e ∷ ds) then agreed else diverged

abbrev pub is_dump : Text → Bool
is_dump name = ends_with name (codes "_dump.txt")

-- `analyze_subdir` of analyze_results.py: the same statistics and the verdict on the dumps. `none`
-- is an `OSError` that `parse_log` lets through.
unfoldable pub analyze_subdir : FileSystem → Text → Text → Option (Summary × Verdict)
unfolding summarise load_subdir verdict collect_dumps sorted join
analyze_subdir fs subdir label = do
  log ← load_subdir fs subdir
  let names = keep is_dump (sorted text_leb (or_else (fs.listdir subdir) []))
  some (summarise label log, verdict (collect_dumps fs (map (join subdir) names)))
