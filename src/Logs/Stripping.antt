-- ===== src/Logs/Stripping.antt =====
-- `line.rstrip()` in `parse_log` of analyze_results.py changes nothing that the expressions read, so
-- its parser and the one of analyze_latency.py agree.
use cs4730_collaborative_tex.Base.{
  ◌≡◌, ◌≢◌, refl, sym, ap, ◌∙◌, List, [], ◌∷◌, ◌++◌, Option, none, some, map, arith, All,
  Bool-cases, inl, inr,
}
use cs4730_collaborative_tex.Text.{Text, is_space, rstrip}
use cs4730_collaborative_tex.Files.{FileSystem, Contents, content, missing, failed, split_lines}
use cs4730_collaborative_tex.Logs.{read_line}
use cs4730_collaborative_tex.Logs.Parse.{empty, parse_log, parse_log_latency}
use cs4730_collaborative_tex.Logs.Padding.{IsSpace, read_line-padded}

-- what `rstrip` takes off
tail_spaces : (s : Text) → (ws : Text) × All IsSpace ws × (s ≡ rstrip s ++ ws)
unfolding rstrip
tail_spaces [] = ([], tt, refl)
tail_spaces (c ∷ s) = go (rstrip s) refl (tail_spaces s)
  where
    go :
        (r : Text)
        → rstrip s ≡ r
        → (ws : Text) × All IsSpace ws × (s ≡ rstrip s ++ ws)
        → (ws : Text) × All IsSpace ws × (c ∷ s ≡ rstrip (c ∷ s) ++ ws)
    go [] e (ws, blank, eq) = elim (Bool-cases (is_space c)) [
      | inl yes_space ↦ (c ∷ ws, (yes_space, blank), ground arith)
      | inr no_space ↦ (ws, blank, ground arith)
    ]
    go (d ∷ t) e (ws, blank, eq) = (ws, blank, ground arith)

read_line-rstrip : (line : Text) → read_line (rstrip line) ≡ read_line line
read_line-rstrip line =
    let (ws, blank, eq) = tail_spaces line in
    sym (ap read_line eq ∙ read_line-padded (rstrip line) ws blank)

map-read_line-rstrip :
    (lines : List Text) → map (λ line. read_line (rstrip line)) lines ≡ map read_line lines
map-read_line-rstrip [] = refl
map-read_line-rstrip (l ∷ ls) = rw (read_line-rstrip l, map-read_line-rstrip ls)

pub parse_log-cases :
    (fs : FileSystem) (path : Text)
    → (fs.read path ≢ failed → parse_log fs path ≡ some (parse_log_latency fs path))
      × (fs.read path ≡ failed → (parse_log fs path ≡ none) × (parse_log_latency fs path ≡ empty))
unfolding parse_log parse_log_latency
parse_log-cases fs path = go (fs.read path) refl
  where
    go :
        (c : Contents)
        → fs.read path ≡ c
        → (fs.read path ≢ failed → parse_log fs path ≡ some (parse_log_latency fs path))
          × (fs.read path ≡ failed
              → (parse_log fs path ≡ none) × (parse_log_latency fs path ≡ empty))
    go (content s) e =
        (λ _. rw (e, parse_log, parse_log_latency, map-read_line-rstrip (split_lines s)), λ h. cc)
    go missing e = (λ _. rw (e, parse_log, parse_log_latency), λ h. cc)
    go failed e = (λ h. absurd (h e), λ _. (rw (e, parse_log), rw (e, parse_log_latency)))

-- The value, unless reading failed in another way than the file being absent.
abbrev unless_failed : {A : Type 0} → Contents → A → Option A
unless_failed (content _) a = some a
unless_failed missing a = some a
unless_failed failed a = none

-- On every file that can be read, and on every missing one, `parse_log` of analyze_results.py
-- returns what `_parse_log` of analyze_latency.py returns, though it does not strip the lines; where
-- reading fails in another way, it raises.
parse_log-eq-latency :
    (fs : FileSystem) (path : Text)
    → parse_log fs path ≡ unless_failed (fs.read path) (parse_log_latency fs path)
parse_log-eq-latency fs path = go (fs.read path) refl
  where
    go :
        (c : Contents)
        → fs.read path ≡ c
        → parse_log fs path ≡ unless_failed c (parse_log_latency fs path)
    go (content s) e = (parse_log-cases fs path).0 (λ h. cc)
    go missing e = (parse_log-cases fs path).0 (λ h. cc)
    go failed e = ((parse_log-cases fs path).1 e).0
