-- ===== src/Logs/Parse.antt =====
-- One log file: `parse_log` of analyze_results.py, and `_parse_log` of analyze_latency.py and of
-- analyze_scalability.py.
use cs4730_collaborative_tex.Base.{
  ℕ, Bool, List, [], ◌∷◌, Option, none, some, map, ltb, if◌then◌else◌,
}
use cs4730_collaborative_tex.Base.Eq.{pair_eq}
use cs4730_collaborative_tex.Text.{Text, rstrip}
use cs4730_collaborative_tex.Dict.{Dict, lookup, insert}
use cs4730_collaborative_tex.Files.{FileSystem, content, missing, failed, split_lines}
use cs4730_collaborative_tex.Logs.{Key, Event, sent, applied, read_line, read_line_us}

-- `(sends, applies)`: the timestamp of each operation, in microseconds.
pub record Log : Type 0 where
  pub sends : Dict Key ℕ
  pub applies : Dict Key ℕ

abbrev pub empty : Log
empty = record { sends = []; applies = [] }

-- `if key not in d or better(ts, d[key]): d[key] = ts`
unfoldable pub keep_best : (ℕ → ℕ → Bool) → Key → ℕ → Dict Key ℕ → Dict Key ℕ
keep_best better k ts d = elim (lookup k d) [
  | none ↦ insert k ts d
  | some old ↦ if better ts old then insert k ts d else d
]

abbrev pub earlier : ℕ → ℕ → Bool
earlier ts old = ltb ts old

abbrev pub later : ℕ → ℕ → Bool
later ts old = ltb old ts

-- A line is stored; one that matches no expression changes nothing.
unfoldable pub absorb : Log → Option Event → Log
absorb log none = log
absorb log (some (sent k ts)) = record log { sends = insert k ts log.sends }
absorb log (some (applied k ts)) = record log { applies = insert k ts log.applies }

-- analyze_scalability.py keeps the latest time of an operation.
unfoldable pub absorb_latest : Log → Option Event → Log
unfolding keep_best
absorb_latest log none = log
absorb_latest log (some (sent k ts)) = record log { sends = insert k ts log.sends }
absorb_latest log (some (applied k ts)) = record log { applies = keep_best later k ts log.applies }

-- The loop over the lines.
unfoldable pub absorb_all : (Log → Option Event → Log) → Log → List (Option Event) → Log
absorb_all step log [] = log
absorb_all step log (e ∷ es) = absorb_all step (step log e) es

-- `parse_log` of analyze_results.py: only a missing file is caught. `none` is an `OSError` that is
-- raised.
unfoldable pub parse_log : FileSystem → Text → Option Log
unfolding absorb_all absorb
parse_log fs path = elim (fs.read path) [
  | content s ↦
      some (absorb_all absorb empty (map (λ line. read_line (rstrip line)) (split_lines s)))
  | missing ↦ some empty
  | failed ↦ none
]

-- `_parse_log` of analyze_latency.py.
unfoldable pub parse_log_latency : FileSystem → Text → Log
unfolding absorb_all absorb
parse_log_latency fs path = elim (fs.read path) [
  | content s ↦ absorb_all absorb empty (map read_line (split_lines s))
  | missing ↦ empty
  | failed ↦ empty
]

-- `_parse_log` of analyze_scalability.py.
unfoldable pub parse_log_scalability : FileSystem → Text → Log
unfolding absorb_all absorb_latest
parse_log_scalability fs path = elim (fs.read path) [
  | content s ↦ absorb_all absorb_latest empty (map read_line_us (split_lines s))
  | missing ↦ empty
  | failed ↦ empty
]
