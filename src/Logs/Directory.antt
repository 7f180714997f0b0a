-- ===== src/Logs/Directory.antt =====
-- What `load_subdir` and its variants return for a directory of log files.
use cs4730_collaborative_tex.Base.{
  ℕ, ◌≤◌, ◌≡◌, ◌≢◌, refl, true, false, List, [], ◌∷◌, map, Option, none, some, arith, All, Any, inl,
  inr, ◌⊎◌, sym, ◌∙◌, ◌>>=◌,
}
use cs4730_collaborative_tex.Base.Eq.{pair_eq}
use cs4730_collaborative_tex.Text.{Text}
use cs4730_collaborative_tex.Dict.{lookup}
use cs4730_collaborative_tex.Files.{FileSystem, content, missing, failed, split_lines}
use cs4730_collaborative_tex.Logs.{Key, Event, read_line, read_line_us}
use cs4730_collaborative_tex.Logs.Parse.{
  Log, empty, earlier, later, absorb, absorb_latest, absorb_all, parse_log, parse_log_latency,
  parse_log_scalability,
}
use cs4730_collaborative_tex.Logs.ParseLaws.{
  IsLog, applies_to, absorb-IsLog, absorb_latest-IsLog, absorb_all-IsLog,
}
use cs4730_collaborative_tex.Logs.Merge.{
  log_paths, is_log, is_peer_log, parse_each, load_subdir, load_subdir_latency,
  load_subdir_scalability,
}
use cs4730_collaborative_tex.Logs.MergeLaws.{IsBest, Bounds, add_logs-IsBest}
use cs4730_collaborative_tex.Logs.Lines.{
  last_applied, first_of-none, lookup-absorb_all, NotBefore, All-NotBefore, absorb_all-latest,
}
use cs4730_collaborative_tex.Logs.Stripping.{parse_log-cases}

earliest_of : (a b : ℕ) → earlier a b ≡ true → a ≤ b
earliest_of a b h = ground arith

earliest_of_not : (a b : ℕ) → earlier a b ≡ false → b ≤ a
earliest_of_not a b h = ground arith

latest_of : (a b : ℕ) → later a b ≡ true → b ≤ a
latest_of a b h = ground arith

latest_of_not : (a b : ℕ) → later a b ≡ false → a ≤ b
latest_of_not a b h = ground arith

-- The lines of a log file as the script reads them, none where the file cannot be opened.
abbrev pub log_lines : (Text → Option Event) → FileSystem → Text → List (Option Event)
log_lines read_one fs path = elim (fs.read path) [
  | content s ↦ map read_one (split_lines s)
  | missing ↦ []
  | failed ↦ []
]

-- `o` is the earliest of the times that the last lines on `k` give, file by file, and none where no
-- line is on `k`.
abbrev pub Earliest : Key → List (List (Option Event)) → Option ℕ → Type 0
Earliest k files o =
    All (λ es. Bounds ◌≤◌ o (last_applied k es)) files
    × ((o ≡ none) ⊎ Any (λ es. last_applied k es ≡ o) files)

-- `o` is the latest of the times that all the lines of all the files give `k`, and none where no
-- line is on `k`.
abbrev pub Latest : Key → List (List (Option Event)) → Option ℕ → Type 0
Latest k files o =
    All (λ es. All (λ e. Bounds NotBefore o (applies_to k e)) es) files
    × ((o ≡ none) ⊎ Any (λ es. Any (λ e. applies_to k e ≡ o) es) files)

empty-IsLog : IsLog empty
empty-IsLog = record { sends_once = tt; applies_once = tt }

parse_log_latency-lines :
    (fs : FileSystem) (path : Text)
    → parse_log_latency fs path ≡ absorb_all absorb empty (log_lines read_line fs path)
unfolding parse_log_latency absorb_all
parse_log_latency-lines fs path = ground arith

parse_log_scalability-lines :
    (fs : FileSystem) (path : Text)
    → parse_log_scalability fs path
      ≡ absorb_all absorb_latest empty (log_lines read_line_us fs path)
unfolding parse_log_scalability absorb_all
parse_log_scalability-lines fs path = ground arith

parse_log_latency-IsLog : (fs : FileSystem) (path : Text) → IsLog (parse_log_latency fs path)
parse_log_latency-IsLog fs path =
    rw (parse_log_latency-lines fs path)
      (absorb_all-IsLog absorb absorb-IsLog empty (log_lines read_line fs path) empty-IsLog)

parse_log_scalability-IsLog :
    (fs : FileSystem) (path : Text) → IsLog (parse_log_scalability fs path)
parse_log_scalability-IsLog fs path = rw (parse_log_scalability-lines fs path) (
    absorb_all-IsLog absorb_latest absorb_latest-IsLog empty (log_lines read_line_us fs path)
      empty-IsLog)

-- What the parser stores of a file is the time of the file's last line on the operation.
lookup-parse_log_latency :
    (fs : FileSystem) (path : Text) (k : Key)
    → lookup k (parse_log_latency fs path).applies ≡ last_applied k (log_lines read_line fs path)
unfolding lookup
lookup-parse_log_latency fs path k = rw (parse_log_latency-lines fs path) (
    lookup-absorb_all k empty (log_lines read_line fs path)
    ∙ first_of-none (last_applied k (log_lines read_line fs path)))

-- What the parser stores of a file is the latest time of the file's lines on the operation.
lookup-parse_log_scalability :
    (fs : FileSystem) (path : Text) (k : Key)
    → let o = lookup k (parse_log_scalability fs path).applies in
      let es = log_lines read_line_us fs path in
      All (λ e. Bounds NotBefore o (applies_to k e)) es
      × ((o ≡ none) ⊎ Any (λ e. applies_to k e ≡ o) es)
unfolding lookup
lookup-parse_log_scalability fs path k =
    let (_, bounds, attained) = absorb_all-latest k empty (log_lines read_line_us fs path) in
    rw (parse_log_scalability-lines fs path) (bounds, attained)

All-map : (f : Text → Log) → ((p : Text) → IsLog (f p)) → (ps : List Text) → All IsLog (map f ps)
All-map f h [] = tt
All-map f h (p ∷ ps) = (h p, All-map f h ps)

module _ (parse : Text → Log) (lines : Text → List (Option Event)) where
  All-lines :
      (P : Log → Type 0) (Q : List (Option Event) → Type 0)
      → ((p : Text) → P (parse p) → Q (lines p))
      → (ps : List Text) → All P (map parse ps)
      → All Q (map lines ps)
  All-lines P Q h [] all = tt
  All-lines P Q h (p ∷ ps) (here, all) = (h p here, All-lines P Q h ps all)

  Any-lines :
      (P : Log → Type 0) (Q : List (Option Event) → Type 0) (R : Type 0)
      → ((p : Text) → P (parse p) → R ⊎ Q (lines p))
      → (ps : List Text) → Any P (map parse ps)
      → R ⊎ Any Q (map lines ps)
  Any-lines P Q R h [] any = absurd any
  Any-lines P Q R h (p ∷ ps) (inl here) = elim (h p here) [ inl r ↦ inl r | inr q ↦ inr (inl q) ]
  Any-lines P Q R h (p ∷ ps) (inr any) = elim (Any-lines P Q R h ps any) [
    | inl r ↦ inl r
    | inr q ↦ inr (inr q)
  ]

-- `_load_subdir` of analyze_latency.py gives each operation the earliest of the apply times that the
-- directory's log files give it, where a file gives the time of its last line on the operation, and
-- none exactly if no line of a log file says that it was applied.
pub load_subdir_latency-Earliest :
    (fs : FileSystem) (subdir : Text) (k : Key)
    → Earliest k
        (map (log_lines read_line fs) (log_paths fs is_log subdir))
        (lookup k (load_subdir_latency fs subdir).applies)
unfolding load_subdir_latency
load_subdir_latency-Earliest fs subdir k =
    let parse = parse_log_latency fs in
    let lines = log_lines read_line fs in
    let ps = log_paths fs is_log subdir in
    let o = lookup k (load_subdir_latency fs subdir).applies in
    let best : IsBest ◌≤◌ k (map parse ps) o =
      add_logs-IsBest earlier ◌≤◌ (λ a. omega arith) (λ a b c h l. omega arith) earliest_of
        earliest_of_not k _ (All-map parse (parse_log_latency-IsLog fs) ps) in
    (
      All-lines parse lines (λ log. Bounds ◌≤◌ o (lookup k log.applies))
          (λ es. Bounds ◌≤◌ o (last_applied k es))
          (λ p h. rw (← (lookup-parse_log_latency fs p k)) h) ps best.0,
      elim best.1 [
        | inl absent ↦ inl absent
        | inr any ↦
            Any-lines parse lines (λ log. lookup k log.applies ≡ o) (λ es. last_applied k es ≡ o)
              (o ≡ none) (λ p h. inr (sym (lookup-parse_log_latency fs p k) ∙ h)) ps any
      ],
    )

-- `_load_subdir` of analyze_scalability.py gives each operation the latest of the apply times that
-- all the lines of all the peers' log files give it, and none exactly if no such line says that it
-- was applied.
pub load_subdir_scalability-Latest :
    (fs : FileSystem) (subdir : Text) (k : Key)
    → Latest k
        (map (log_lines read_line_us fs) (log_paths fs is_peer_log subdir))
        (lookup k (load_subdir_scalability fs subdir).applies)
unfolding load_subdir_scalability
load_subdir_scalability-Latest fs subdir k =
    let parse = parse_log_scalability fs in
    let lines = log_lines read_line_us fs in
    let ps = log_paths fs is_peer_log subdir in
    let o = lookup k (load_subdir_scalability fs subdir).applies in
    let best : IsBest NotBefore k (map parse ps) o =
      add_logs-IsBest later NotBefore (λ a. omega arith) (λ a b c h l. omega arith) latest_of
        latest_of_not k _ (All-map parse (parse_log_scalability-IsLog fs) ps) in
    (
      All-lines parse lines (λ log. Bounds NotBefore o (lookup k log.applies))
          (All (λ e. Bounds NotBefore o (applies_to k e)))
          (λ p h. All-NotBefore k o _ h (lines p) (lookup-parse_log_scalability fs p k).0) ps
          best.0,
      elim best.1 [
        | inl absent ↦ inl absent
        | inr any ↦
            Any-lines parse lines (λ log. lookup k log.applies ≡ o) (Any (λ e. applies_to k e ≡ o))
              (o ≡ none) (λ p h. rw h at (lookup-parse_log_scalability fs p k).1) ps any
      ],
    )

parse_each-map :
    (fs : FileSystem) (ps : List Text)
    → All (λ p. fs.read p ≢ failed) ps
    → parse_each (parse_log fs) ps ≡ some (map (parse_log_latency fs) ps)
unfolding parse_each
parse_each-map fs [] h = refl
parse_each-map fs (p ∷ ps) (here, h) = rw ((parse_log-cases fs p).0 here, parse_each-map fs ps h)

parse_each_failed :
    (fs : FileSystem) (ps : List Text)
    → Any (λ p. fs.read p ≡ failed) ps
    → parse_each (parse_log fs) ps ≡ none
unfolding parse_each
parse_each_failed fs [] h = absurd h
parse_each_failed fs (p ∷ ps) (inl e) = rw ((parse_log-cases fs p).1 e).0
parse_each_failed fs (p ∷ ps) (inr h) = go (parse_each_failed fs ps h) (parse_log fs p)
  where
    go :
        parse_each (parse_log fs) ps ≡ none
        → (o : Option Log)
        → (o >>= λ log. parse_each (parse_log fs) ps >>= λ logs. some (log ∷ logs)) ≡ none
    go rest none = refl
    go rest (some log) = rw rest

-- Where no log file of the directory fails to open, `load_subdir` of analyze_results.py returns what
-- `_load_subdir` of analyze_latency.py returns.
pub load_subdir-eq-latency :
    (fs : FileSystem) (subdir : Text)
    → All (λ p. fs.read p ≢ failed) (log_paths fs is_log subdir)
    → load_subdir fs subdir ≡ some (load_subdir_latency fs subdir)
unfolding load_subdir load_subdir_latency
load_subdir-eq-latency fs subdir h = rw (parse_each-map fs _ h)

-- Where one log file fails to open in another way than being absent, `load_subdir` raises, whatever
-- the other files hold.
load_subdir_failed :
    (fs : FileSystem) (subdir : Text)
    → Any (λ p. fs.read p ≡ failed) (log_paths fs is_log subdir)
    → load_subdir fs subdir ≡ none
unfolding load_subdir
load_subdir_failed fs subdir h = rw (parse_each_failed fs _ h)
