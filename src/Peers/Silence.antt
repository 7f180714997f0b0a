-- ===== src/Peers/Silence.antt =====
-- When a peer is active: what it depends on.
use mathlib.Core.Option
use cs4730_collaborative_tex.Base.{
  ℕ, ◌≡◌, ◌≢◌, refl, ap, ◌∙◌, inl, inr, Bool-cases, List, [], ◌∷◌, Option, none, some, Option-cases,
  ltb, arith, if◌then◌else◌,
}
use cs4730_collaborative_tex.Base.Eq.{nat_eq, ◌==◌}
use cs4730_collaborative_tex.Text.{Text}
use cs4730_collaborative_tex.Dict.{lookup}
use cs4730_collaborative_tex.Peers.{
  PeerInfo, PeerManager, dead_threshold_ms, ms_between, leave_type, read_message, take_message,
  process_message, check_dead, RunState, Input, handle_datagram, run_once, run,
}
use cs4730_collaborative_tex.Peers.Map.{IsMap, unless_dead, lookup-split_dead}
use cs4730_collaborative_tex.Peers.Messages.{take_message-lookup}
use cs4730_collaborative_tex.Peers.Callbacks.{handle_datagram-IsMap, run_once-IsMap}

-- The specification of one site at a time: when it was heard last, if it is active.
abbrev pub hear_fields : ℕ → ℕ → Option (ℕ × ℕ × ℕ) → Option ℕ → Option ℕ
hear_fields site now none seen = seen
hear_fields site now (some (type, sender, port)) seen =
    if sender == site then if type == leave_type then none else some now else seen

abbrev pub hear : ℕ → ℕ → Option (List ℕ × Text) → Option ℕ → Option ℕ
hear site now none seen = seen
hear site now (some (bytes, addr)) seen = hear_fields site now (read_message bytes) seen

abbrev pub expire : ℕ → Option ℕ → Option ℕ
expire now none = none
expire now (some seen) = if ltb dead_threshold_ms (ms_between seen now) then none else some seen

abbrev pub last_heard : ℕ → List Input → Option ℕ → Option ℕ
last_heard site [] seen = seen
last_heard site (i ∷ is) seen =
    last_heard site is (expire i.at_check (hear site i.at_message i.datagram seen))

abbrev pub seen_at : ℕ → PeerManager → Option ℕ
seen_at site m = Option.map (λ p. p.last_seen) (lookup site m.peers)

take_message-hear :
    (now type sender port : ℕ) (addr : Text) (m : PeerManager)
    → IsMap m.peers
    → (site : ℕ) → site ≢ m.site
    → seen_at site (take_message now (type, sender, port) addr m).0
      ≡ (if sender == site then if type == leave_type then none else some now else seen_at site m)
unfolding take_message
take_message-hear now type sender port addr m h site foreign =
    elim (Bool-cases (sender == m.site)) [
      | inl own ↦ rw (take_message, own) (ground (arith, own, foreign))
      | inr other ↦
          ap (Option.map (λ p. p.last_seen))
            (take_message-lookup now type sender port addr m (λ e. ground (arith, other, e)) h site)
          ∙ ground arith
    ]

handle_datagram-hear :
    (now : ℕ) (datagram : Option (List ℕ × Text)) (m : PeerManager)
    → IsMap m.peers
    → (site : ℕ) → site ≢ m.site
    → seen_at site (handle_datagram now datagram m).0 ≡ hear site now datagram (seen_at site m)
unfolding handle_datagram
handle_datagram-hear now none m h site foreign = refl
handle_datagram-hear now (some (bytes, addr)) m h site foreign =
    elim (Option-cases (read_message bytes)) [
      | inl short ↦ rw (process_message, short) refl
      | inr ((type, sender, port), read) ↦
          rw (process_message, read) (take_message-hear now type sender port addr m h site foreign)
    ]

expire-unless_dead :
    (now : ℕ) (o : Option PeerInfo)
    → Option.map (λ p. p.last_seen) (unless_dead now o)
      ≡ expire now (Option.map (λ p. p.last_seen) o)
expire-unless_dead now none = refl
expire-unless_dead now (some p) = ground arith

run_once-hear :
    (i : Input) (l : RunState)
    → IsMap l.manager.peers
    → (site : ℕ) → site ≢ l.manager.site
    → seen_at site (run_once i l).0.manager
      ≡ expire i.at_check (hear site i.at_message i.datagram (seen_at site l.manager))
unfolding run_once check_dead
run_once-hear i l h site foreign =
    let m = (handle_datagram i.at_message i.datagram l.manager).0 in
    ap (Option.map (λ p. p.last_seen)) (
      lookup-split_dead site i.at_check m.peers
        (handle_datagram-IsMap i.at_message i.datagram l.manager h))
    ∙ expire-unless_dead i.at_check (lookup site m.peers)
    ∙ ap (expire i.at_check) (handle_datagram-hear i.at_message i.datagram l.manager h site foreign)

take_message-site :
    (now : ℕ) (fields : ℕ × ℕ × ℕ) (addr : Text) (m : PeerManager)
    → (take_message now fields addr m).0.site ≡ m.site
unfolding take_message
take_message-site now (type, sender, port) addr m = ground arith

handle_datagram-site :
    (now : ℕ) (datagram : Option (List ℕ × Text)) (m : PeerManager)
    → (handle_datagram now datagram m).0.site ≡ m.site
unfolding handle_datagram
handle_datagram-site now none m = refl
handle_datagram-site now (some (bytes, addr)) m = elim (Option-cases (read_message bytes)) [
  | inl short ↦ rw (process_message, short) refl
  | inr (fields, read) ↦ rw (process_message, read) (take_message-site now fields addr m)
]

run_once-site : (i : Input) (l : RunState) → (run_once i l).0.manager.site ≡ l.manager.site
unfolding run_once check_dead
run_once-site i l = handle_datagram-site i.at_message i.datagram l.manager

-- Whether another site is a peer, and when it was seen last, depends on nothing but the site's own
-- messages and the time, if the map of peers is in order at first: it is a peer from a JOIN or
-- HEARTBEAT of its own until a LEAVE of its own, or until a check finds that it was last seen more
-- than 6,000 ms before.
pub run-last_heard :
    (is : List Input) (l : RunState)
    → IsMap l.manager.peers
    → (site : ℕ) → site ≢ l.manager.site
    → seen_at site (run is l).0.manager ≡ last_heard site is (seen_at site l.manager)
unfolding run
run-last_heard [] l h site foreign = refl
run-last_heard (i ∷ is) l h site foreign =
    run-last_heard is (run_once i l).0 (run_once-IsMap i l h) site
      (λ e. foreign (e ∙ run_once-site i l))
    ∙ ap (last_heard site is) (run_once-hear i l h site foreign)
