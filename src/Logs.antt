-- ===== src/Logs.antt =====
-- The log lines of an experiment: scripts/analyze_results.py, scripts/analyze_latency.py and
-- scripts/analyze_scalability.py hold the same regular expressions for them.
pub mod Message
pub mod RoundTrip
pub mod Parse
pub mod Merge
pub mod ParseLaws
pub mod MergeLaws
pub mod Lines
pub mod Padding
pub mod Stripping
pub mod Directory
use mathlib.Core.Option
use cs4730_collaborative_tex.Base.{ℕ, ◌*◌, Option, none, some, ◌>>=◌}
use cs4730_collaborative_tex.Text.{Text, codes, strip_prefix}
use cs4730_collaborative_tex.Text.Decimal.{int}
use cs4730_collaborative_tex.Text.Regex.{gap, digits, search}

-- `(siteID, clock)`, the identity of an operation.
abbrev pub Key : Type 0
Key = ℕ × ℕ

-- `TAG\s+siteID=(\d+)\s+clock=(\d+)\s+UNIT=(\d+)` at the front of a text.
unfoldable pub record_at : Text → Text → Text → Option (Key × ℕ)
unfolding gap digits int
record_at tag unit s = do
  s ← strip_prefix tag s
  s ← gap (codes "siteID=") s
  (site, s) ← digits s
  s ← gap (codes "clock=") s
  (clock, s) ← digits s
  s ← gap unit s
  (ts, _) ← digits s
  some ((int site, int clock), int ts)

abbrev pub send_tag : Text
send_tag = codes "LATENCY_SEND"

abbrev pub apply_tag : Text
apply_tag = codes "LATENCY_APPLY"

abbrev pub us : Text
us = codes "ts_us="

abbrev pub ms : Text
ms = codes "ts_ms="

-- `_SEND_RE.search(line)`, and the other three expressions.
unfoldable pub send_us : Text → Option (Key × ℕ)
unfolding search record_at
send_us = search (record_at send_tag us)

unfoldable pub apply_us : Text → Option (Key × ℕ)
unfolding search record_at
apply_us = search (record_at apply_tag us)

unfoldable pub send_ms : Text → Option (Key × ℕ)
unfolding search record_at
send_ms = search (record_at send_tag ms)

unfoldable pub apply_ms : Text → Option (Key × ℕ)
unfolding search record_at
apply_ms = search (record_at apply_tag ms)

-- What one line of a log says; timestamps are in microseconds.
pub data Event : Type 0 where
  sent applied : Key → ℕ → Event

abbrev sent_at : ℕ → Key × ℕ → Event
sent_at scale (k, ts) = sent k (ts * scale)

abbrev applied_at : ℕ → Key × ℕ → Event
applied_at scale (k, ts) = applied k (ts * scale)

-- The first reading that succeeds: a `continue` skips the later expressions.
abbrev first_event : Option Event → Option Event → Option Event
first_event none later = later
first_event (some e) _ = some e

-- The body of the loop in `parse_log`: the current format in microseconds, then the old one in
-- milliseconds.
unfoldable pub read_line : Text → Option Event
unfolding send_us apply_us send_ms apply_ms
read_line line = first_event (Option.map (sent_at 1) (send_us line)) (
    first_event (Option.map (applied_at 1) (apply_us line)) (
      first_event (Option.map (sent_at 1000) (send_ms line))
        (Option.map (applied_at 1000) (apply_ms line))))

-- The same in analyze_scalability.py, which knows only microseconds.
unfoldable pub read_line_us : Text → Option Event
unfolding send_us apply_us
read_line_us line =
    first_event (Option.map (sent_at 1) (send_us line)) (Option.map (applied_at 1) (apply_us line))
