-- ===== src/Peers/Callbacks.antt =====
-- The callbacks of the peer manager tell which sites are active.
use cs4730_collaborative_tex.Base.{
  ℕ, ◌≡◌, refl, ap, ◌∙◌, inl, inr, Bool, true, false, Bool-cases, List, [], ◌∷◌, ◌++◌, Option, none,
  some, Option-cases, is_some, arith, ◌>>=◌, if◌then◌else◌,
}
use cs4730_collaborative_tex.Base.Eq.{nat_eq, ◌==◌}
use cs4730_collaborative_tex.Text.{Text}
use cs4730_collaborative_tex.Text.Decimal.{print}
use cs4730_collaborative_tex.Dict.{Dict, lookup}
use cs4730_collaborative_tex.Peers.{
  PeerInfo, PeerManager, Action, send, on_join, on_leave, ip_of, leave_type, message,
  heartbeat_type, read_message, take_message, process_message, is_due, split_dead, check_dead,
  RunState, Input, handle_datagram, run_once, run,
}
use cs4730_collaborative_tex.Peers.Map.{
  IsMap, lookup-Above_self, lookup-store_peer, lookup-remove, lookup-split_dead, store_peer-IsMap,
  remove-IsMap, split_dead-IsMap,
}

-- Whether a site is active after some actions, if it was `active` before; `none` where a callback does
-- not fit: a site joins that is active, or one leaves that is not.
abbrev pub follow : ℕ → Bool → List Action → Option Bool
follow site active [] = some active
follow site active (send _ ∷ done) = follow site active done
follow site active (on_join s _ ∷ done) =
    if s == site then if active then none else follow site true done else follow site active done
follow site active (on_leave s _ ∷ done) =
    if s == site then if active then follow site false done else none else follow site active done

abbrev pub is_active : ℕ → PeerManager → Bool
is_active site m = is_some (lookup site m.peers)

follow-append :
    (site : ℕ) (active : Bool) (done more : List Action)
    → follow site active (done ++ more) ≡ (follow site active done >>= λ b. follow site b more)
follow-append site active [] more = refl
follow-append site active (send _ ∷ done) more = follow-append site active done more
follow-append site active (on_join s _ ∷ done) more =
    ground (arith, follow-append site true done more, follow-append site active done more)
follow-append site active (on_leave s _ ∷ done) more =
    ground (arith, follow-append site false done more, follow-append site active done more)

follow_silent :
    (site : ℕ) (active due : Bool) (bytes : List ℕ) (more : List Action)
    → follow site active ((if due then send bytes ∷ [] else []) ++ more) ≡ follow site active more
follow_silent site active true bytes more = refl
follow_silent site active false bytes more = refl

-- The actions lead from the one set of active sites to the other.
abbrev Leads : PeerManager → PeerManager × List Action → Type 0
Leads m (m', done) = (site : ℕ) → follow site (is_active site m) done ≡ some (is_active site m')

take_message-Leads :
    (now : ℕ) (fields : ℕ × ℕ × ℕ) (addr : Text) (m : PeerManager)
    → IsMap m.peers
    → Leads m (take_message now fields addr m)
unfolding take_message
take_message-Leads now (type, sender, port) addr m h site = elim (Bool-cases (sender == m.site)) [
  | inl own ↦ rw own refl
  | inr other ↦ elim (Bool-cases (type == leave_type)) [
    | inl leave ↦ elim (Option-cases (lookup sender m.peers)) [
      | inl absent ↦ rw (other, leave, absent) refl
      | inr (p, there) ↦
          rw (other, leave, there) (ground (arith, lookup-remove site sender m.peers h))
    ]
    | inr alive ↦ elim (Option-cases (lookup sender m.peers)) [
      | inl absent ↦
          let canon = ip_of addr ++ (b':' ∷ print port) in
          let info : PeerInfo = record { addr = canon; last_seen = now } in
          rw (other, alive, absent)
            (ground (arith, absent, lookup-store_peer site sender info m.peers))
      | inr (p, there) ↦
          rw (other, alive, there)
            (ground
              (arith, there, lookup-store_peer site sender (record p { last_seen = now }) m.peers))
    ]
  ]
]

process_message-Leads :
    (now : ℕ) (bytes : List ℕ) (addr : Text) (m : PeerManager)
    → IsMap m.peers
    → Leads m (process_message now bytes addr m)
unfolding process_message
process_message-Leads now bytes addr m h site = elim (Option-cases (read_message bytes)) [
  | inl short ↦ rw (process_message, short) refl
  | inr (fields, read) ↦ rw (process_message, read) (take_message-Leads now fields addr m h site)
]

handle_datagram-Leads :
    (now : ℕ) (datagram : Option (List ℕ × Text)) (m : PeerManager)
    → IsMap m.peers
    → Leads m (handle_datagram now datagram m)
unfolding handle_datagram
handle_datagram-Leads now none m h site = refl
handle_datagram-Leads now (some (bytes, addr)) m h site =
    process_message-Leads now bytes addr m h site

-- The dead peers are those of the map.
follow_absent :
    (now site : ℕ) (active : Bool) (d : Dict ℕ PeerInfo)
    → lookup site d ≡ none
    → follow site active (split_dead now d).1 ≡ some active
unfolding split_dead lookup
follow_absent now site active [] h = refl
follow_absent now site active ((k, p) ∷ d) h = ground (arith, h, follow_absent now site active d)

follow-split_dead :
    (now site : ℕ) (d : Dict ℕ PeerInfo)
    → IsMap d
    → follow site (is_some (lookup site d)) (split_dead now d).1
      ≡ some (is_some (lookup site (split_dead now d).0))
unfolding split_dead lookup
follow-split_dead now site [] h = refl
follow-split_dead now site ((k, p) ∷ d) (above, h) = elim (Bool-cases (k == site)) [
  | inl same ↦
      let absent : lookup site d ≡ none = ground (arith, same, lookup-Above_self k d above) in
      let gone = lookup-split_dead site now d h in
      ground (
        arith,
        same,
        absent,
        gone,
        follow_absent now site true d absent,
        follow_absent now site false d absent,
      )
  | inr other ↦ ground (arith, other, follow-split_dead now site d h)
]

check_dead-Leads : (now : ℕ) (m : PeerManager) → IsMap m.peers → Leads m (check_dead now m)
unfolding check_dead
check_dead-Leads now m h site = follow-split_dead now site m.peers h

take_message-IsMap :
    (now : ℕ) (fields : ℕ × ℕ × ℕ) (addr : Text) (m : PeerManager)
    → IsMap m.peers
    → IsMap (take_message now fields addr m).0.peers
unfolding take_message
take_message-IsMap now (type, sender, port) addr m h = elim (Bool-cases (sender == m.site)) [
  | inl own ↦ rw own h
  | inr other ↦ elim (Bool-cases (type == leave_type)) [
    | inl leave ↦ elim (Option-cases (lookup sender m.peers)) [
      | inl absent ↦ rw (other, leave, absent) h
      | inr (p, there) ↦ rw (other, leave, there) (remove-IsMap sender m.peers h)
    ]
    | inr alive ↦ elim (Option-cases (lookup sender m.peers)) [
      | inl absent ↦ rw (other, alive, absent) (store_peer-IsMap sender _ m.peers h)
      | inr (p, there) ↦ rw (other, alive, there) (store_peer-IsMap sender _ m.peers h)
    ]
  ]
]

pub handle_datagram-IsMap :
    (now : ℕ) (datagram : Option (List ℕ × Text)) (m : PeerManager)
    → IsMap m.peers
    → IsMap (handle_datagram now datagram m).0.peers
unfolding handle_datagram process_message
handle_datagram-IsMap now none m h = h
handle_datagram-IsMap now (some (bytes, addr)) m h = elim (Option-cases (read_message bytes)) [
  | inl short ↦ rw (process_message, short) h
  | inr (fields, read) ↦ rw (process_message, read) (take_message-IsMap now fields addr m h)
]

pub run_once-IsMap :
    (i : Input) (l : RunState) → IsMap l.manager.peers → IsMap (run_once i l).0.manager.peers
unfolding run_once check_dead
run_once-IsMap i l h =
    split_dead-IsMap i.at_check (handle_datagram i.at_message i.datagram l.manager).0.peers
      (handle_datagram-IsMap i.at_message i.datagram l.manager h)

run_once-Leads :
    (i : Input) (l : RunState)
    → IsMap l.manager.peers
    → Leads l.manager ((run_once i l).0.manager, (run_once i l).1)
unfolding run_once
run_once-Leads i l h site =
    let (m, first) = handle_datagram i.at_message i.datagram l.manager in
    let dead = (check_dead i.at_check m).1 in
    let due = is_due i.at_heartbeat l in
    let beat = if due then send (message heartbeat_type m) ∷ [] else [] in
    follow-append site (is_active site l.manager) first (beat ++ dead)
    ∙ ap (λ o. o >>= λ b. follow site b (beat ++ dead))
        (handle_datagram-Leads i.at_message i.datagram l.manager h site)
    ∙ follow_silent site (is_active site m) due (message heartbeat_type m) dead
    ∙ check_dead-Leads i.at_check m (handle_datagram-IsMap i.at_message i.datagram l.manager h) site

-- Whatever datagrams come and however the time passes, the callbacks of each site alternate and tell
-- whether it is active, if the map of peers is in order at first: a peer joins only when it is not
-- active, leaves only when it is, and is active in the end if and only if it was and none of them
-- came, or the last of them was its joining.
pub run_alternates :
    (is : List Input) (l : RunState)
    → IsMap l.manager.peers
    → (site : ℕ)
    → follow site (is_active site l.manager) (run is l).1
      ≡ some (is_active site (run is l).0.manager)
unfolding run
run_alternates [] l h site = refl
run_alternates (i ∷ is) l h site =
    let ih = run_alternates is (run_once i l).0 (run_once-IsMap i l h) site in
    follow-append site (is_active site l.manager) (run_once i l).1 (run is (run_once i l).0).1
    ∙ ap (λ o. o >>= λ b. follow site b (run is (run_once i l).0).1) (run_once-Leads i l h site)
    ∙ ih
