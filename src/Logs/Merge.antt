-- ===== src/Logs/Merge.antt =====
-- All log files of an experiment: `load_subdir` and `_load_scalability_subdir` of
-- analyze_results.py, and `_load_subdir` of analyze_latency.py and of analyze_scalability.py.
use cs4730_collaborative_tex.Base.{
  ℕ, Bool, ◌&&◌, List, [], ◌∷◌, Option, some, keep, map, ◌>>=◌, or_else,
}
use cs4730_collaborative_tex.Base.Eq.{pair_eq}
use cs4730_collaborative_tex.Text.{Text, codes, starts_with, ends_with}
use cs4730_collaborative_tex.Dict.{Dict, update}
use cs4730_collaborative_tex.Files.{FileSystem, join, text_leb}
use cs4730_collaborative_tex.Sort.{sorted}
use cs4730_collaborative_tex.Logs.{Key}
use cs4730_collaborative_tex.Logs.Parse.{
  Log, empty, keep_best, earlier, later, parse_log, parse_log_latency, parse_log_scalability,
}

-- `for key, ts in applies.items(): …`
unfoldable pub merge_best : (ℕ → ℕ → Bool) → Dict Key ℕ → Dict Key ℕ → Dict Key ℕ
unfolding keep_best
merge_best better d [] = d
merge_best better d ((k, ts) ∷ new) = merge_best better (keep_best better k ts d) new

-- One file's dicts go into the directory's: a later send replaces an earlier one.
unfoldable pub add_log : (ℕ → ℕ → Bool) → Log → Log → Log
unfolding merge_best
add_log better all log = record {
  sends = update all.sends log.sends;
  applies = merge_best better all.applies log.applies;
}

unfoldable pub add_logs : (ℕ → ℕ → Bool) → Log → List Log → Log
unfolding add_log
add_logs better all [] = all
add_logs better all (log ∷ logs) = add_logs better (add_log better all log) logs

abbrev pub is_log : Text → Bool
is_log name = ends_with name (codes ".log")

abbrev pub is_peer_log : Text → Bool
is_peer_log name = starts_with name (codes "peer_") && ends_with name (codes ".log")

-- The paths of the log files of a directory, in sorted order; none if it cannot be listed.
unfoldable pub log_paths : FileSystem → (Text → Bool) → Text → List Text
unfolding sorted join
log_paths fs wanted subdir =
    map (join subdir) (keep wanted (sorted text_leb (or_else (fs.listdir subdir) [])))

-- A call that may raise, for each path in turn.
unfoldable pub parse_each : (Text → Option Log) → List Text → Option (List Log)
parse_each parse [] = some []
parse_each parse (p ∷ ps) = do log ← parse p; logs ← parse_each parse ps; some (log ∷ logs)

-- `load_subdir` of analyze_results.py.
unfoldable pub load_subdir : FileSystem → Text → Option Log
unfolding add_logs log_paths parse_each parse_log
load_subdir fs subdir = do
  logs ← parse_each (parse_log fs) (log_paths fs is_log subdir)
  some (add_logs earlier empty logs)

-- `_load_scalability_subdir` of analyze_results.py.
unfoldable pub load_scalability_subdir : FileSystem → Text → Option Log
unfolding add_logs log_paths parse_each parse_log
load_scalability_subdir fs subdir = do
  logs ← parse_each (parse_log fs) (log_paths fs is_peer_log subdir)
  some (add_logs later empty logs)

-- `_load_subdir` of analyze_latency.py.
unfoldable pub load_subdir_latency : FileSystem → Text → Log
unfolding add_logs log_paths parse_log_latency
load_subdir_latency fs subdir =
    add_logs earlier empty (map (parse_log_latency fs) (log_paths fs is_log subdir))

-- `_load_subdir` of analyze_scalability.py.
unfoldable pub load_subdir_scalability : FileSystem → Text → Log
unfolding add_logs log_paths parse_log_scalability
load_subdir_scalability fs subdir =
    add_logs later empty (map (parse_log_scalability fs) (log_paths fs is_peer_log subdir))
