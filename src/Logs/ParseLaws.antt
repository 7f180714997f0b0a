-- ===== src/Logs/ParseLaws.antt =====
-- What one parsed log answers.
use cs4730_collaborative_tex.Base.{
  ℕ, ◌≡◌, ◌∙◌, refl, Bool, List, [], ◌∷◌, ◌++◌, Option, none, some, arith, All, if◌then◌else◌,
}
use cs4730_collaborative_tex.Base.Eq.{pair_eq, ◌==◌, pair_beq_iff}
use cs4730_collaborative_tex.Dict.{Dict, lookup}
use cs4730_collaborative_tex.Dict.Laws.{IsDict, lookup-insert, insert-IsDict}
use cs4730_collaborative_tex.Logs.{Key, Event, sent, applied}
use cs4730_collaborative_tex.Logs.Parse.{Log, keep_best, later, absorb, absorb_latest, absorb_all}

-- The better of a time that may be known and a new one.
abbrev pub best : (ℕ → ℕ → Bool) → Option ℕ → ℕ → ℕ
best better none ts = ts
best better (some old) ts = if better ts old then ts else old

pub lookup-keep_best :
    (better : ℕ → ℕ → Bool) (j k : Key) (ts : ℕ) (d : Dict Key ℕ)
    → lookup j (keep_best better k ts d)
      ≡ (if k == j then some (best better (lookup k d) ts) else lookup j d)
unfolding keep_best
lookup-keep_best better j k ts d = ground (arith, lookup-insert j k ts d, pair_beq_iff k j)

pub keep_best-IsDict :
    (better : ℕ → ℕ → Bool) (k : Key) (ts : ℕ) (d : Dict Key ℕ)
    → IsDict d
    → IsDict (keep_best better k ts d)
unfolding keep_best
keep_best-IsDict better k ts d h = ground (arith, insert-IsDict k ts d h)

pub record IsLog (log : Log) : Type 0 where
  pub sends_once : IsDict log.sends
  pub applies_once : IsDict log.applies

pub absorb-IsLog : (log : Log) (e : Option Event) → IsLog log → IsLog (absorb log e)
unfolding absorb
absorb-IsLog log none h = h
absorb-IsLog log (some (sent k ts)) h = record {
  sends_once = insert-IsDict k ts log.sends h.sends_once;
  applies_once = h.applies_once;
}
absorb-IsLog log (some (applied k ts)) h = record {
  sends_once = h.sends_once;
  applies_once = insert-IsDict k ts log.applies h.applies_once;
}

pub absorb_latest-IsLog : (log : Log) (e : Option Event) → IsLog log → IsLog (absorb_latest log e)
unfolding absorb_latest
absorb_latest-IsLog log none h = h
absorb_latest-IsLog log (some (sent k ts)) h = record {
  sends_once = insert-IsDict k ts log.sends h.sends_once;
  applies_once = h.applies_once;
}
absorb_latest-IsLog log (some (applied k ts)) h = record {
  sends_once = h.sends_once;
  applies_once = keep_best-IsDict later k ts log.applies h.applies_once;
}

pub absorb_all-IsLog :
    (step : Log → Option Event → Log)
    → ((log : Log) (e : Option Event) → IsLog log → IsLog (step log e))
    → (log : Log) (es : List (Option Event)) → IsLog log
    → IsLog (absorb_all step log es)
unfolding absorb_all
absorb_all-IsLog step keeps log [] h = h
absorb_all-IsLog step keeps log (e ∷ es) h =
    absorb_all-IsLog step keeps (step log e) es (keeps log e h)

-- The line says that the operation was applied.
abbrev pub applies_to : Key → Option Event → Option ℕ
applies_to k none = none
applies_to k (some (sent _ _)) = none
applies_to k (some (applied j ts)) = if j == k then some ts else none

lookup-absorb_silent :
    (k : Key) (log : Log) (e : Option Event)
    → applies_to k e ≡ none
    → lookup k (absorb log e).applies ≡ lookup k log.applies
unfolding absorb
lookup-absorb_silent k log none h = refl
lookup-absorb_silent k log (some (sent j ts)) h = refl
lookup-absorb_silent k log (some (applied j ts)) h =
    ground (arith, lookup-insert k j ts log.applies)

lookup-absorb_all_silent :
    (k : Key) (log : Log) (es : List (Option Event))
    → All (λ e. applies_to k e ≡ none) es
    → lookup k (absorb_all absorb log es).applies ≡ lookup k log.applies
unfolding absorb_all
lookup-absorb_all_silent k log [] h = refl
lookup-absorb_all_silent k log (e ∷ es) (here, h) =
    lookup-absorb_all_silent k (absorb log e) es h ∙ lookup-absorb_silent k log e here

-- In `parse_log` the last line of a log that names an operation decides its apply time, whatever
-- the earlier lines said.
lookup-absorb_all_last :
    (k : Key) (ts : ℕ) (log : Log) (before after : List (Option Event))
    → All (λ e. applies_to k e ≡ none) after
    → lookup k (absorb_all absorb log (before ++ some (applied k ts) ∷ after)).applies ≡ some ts
unfolding absorb_all
lookup-absorb_all_last k ts log [] after h =
    lookup-absorb_all_silent k _ after h
    ∙ (unfold absorb in ground (arith, lookup-insert k k ts log.applies, pair_beq_iff k k))
lookup-absorb_all_last k ts log (e ∷ before) after h =
    lookup-absorb_all_last k ts (absorb log e) before after h
