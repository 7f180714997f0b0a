-- ===== src/Peers/Messages.antt =====
-- What one peer manager makes of the message of another.
use cs4730_collaborative_tex.Base.{
  ℕ, ◌<◌, ◌^◌, ◌*◌, ◌+◌, ◌/◌, ◌%◌, ◌≡◌, ◌≢◌, refl, ap, subst, ◌∙◌, inl, inr, false, Bool-cases,
  List, [], ◌∷◌, ◌++◌, All, Option, none, some, Option-cases, nat_beq, ltb, length, arith,
  if◌then◌else◌,
}
use cs4730_collaborative_tex.Base.Eq.{nat_eq, ◌==◌}
use cs4730_collaborative_tex.Text.{Text, digit_value}
use cs4730_collaborative_tex.Text.Decimal.{print, IsDigit, print-IsDigit}
use cs4730_collaborative_tex.Dict.{lookup}
use cs4730_collaborative_tex.Serializer.{ok, write_uint16, read_uint16, write_uint32, read_byte}
use cs4730_collaborative_tex.Serializer.RoundTrip.{read_uint32-write_uint32}
use cs4730_collaborative_tex.Peers.{
  PeerInfo, PeerManager, leave_type, message, before_colon, ip_of, read_fields, read_message,
  take_message, process_message,
}
use cs4730_collaborative_tex.Peers.Map.{IsMap, lookup-store_peer, lookup-remove}

read_uint16-write_uint16 : (v : ℕ) → v < 2 ^ 16 → read_uint16 (write_uint16 v) ≡ ok (v, [])
unfolding read_uint16 write_uint16
read_uint16-write_uint16 v h =
    let same : (v / 2 ^ 8) % 256 * 2 ^ 8 + v % 256 ≡ v = omega arith in ap (λ w. ok (w, [])) same

read_message_of :
    (bytes : List ℕ) (fields : ℕ × ℕ × ℕ)
    → ltb (length bytes) 7 ≡ false
    → read_fields bytes ≡ ok fields
    → read_message bytes ≡ some fields
unfolding read_message
read_message_of bytes fields long read = rw (read_message, long, read) refl

message-length : (type : ℕ) (m : PeerManager) → ltb (length (message type m)) 7 ≡ false
unfolding message write_uint32 write_uint16
message-length type m = refl

read_fields-message :
    (type : ℕ) (m : PeerManager)
    → m.site < 2 ^ 32
    → m.port < 2 ^ 16
    → read_fields (message type m) ≡ ok (type, m.site, m.port)
unfolding read_fields message read_byte
read_fields-message type m h k =
    rw (read_uint32-write_uint32 m.site (write_uint16 m.port) h, read_uint16-write_uint16 m.port k)
      refl

read_message-message :
    (type : ℕ) (m : PeerManager)
    → m.site < 2 ^ 32
    → m.port < 2 ^ 16
    → read_message (message type m) ≡ some (type, m.site, m.port)
read_message-message type m h k =
    read_message_of (message type m) (type, m.site, m.port) (message-length type m)
      (read_fields-message type m h k)

colon_digit : (c : ℕ) → c ≡ b':' → IsDigit c → ⊥
unfolding digit_value
colon_digit c e h = let h' = subst IsDigit e h in cc

before_colon-digits : (s : Text) → All IsDigit s → before_colon s ≡ none
unfolding before_colon
before_colon-digits [] h = refl
before_colon-digits (c ∷ s) (h, hs) = elim (Bool-cases (nat_beq c b':')) [
  | inl colon ↦ absurd (colon_digit c (ground (arith, colon)) h)
  | inr other ↦ ground (arith, other, before_colon-digits s hs)
]

before_colon-append :
    (ip s : Text) → before_colon s ≡ none → before_colon (ip ++ b':' ∷ s) ≡ some ip
unfolding before_colon
before_colon-append [] s h = ground (arith, h)
before_colon-append (c ∷ ip) s h = ground (arith, before_colon-append ip s h)

ip_of-append : (ip : Text) (n : ℕ) → ip_of (ip ++ b':' ∷ print n) ≡ ip
unfolding ip_of
ip_of-append ip n =
    rw (ip_of, before_colon-append ip (print n) (before_colon-digits (print n) (print-IsDigit n)))
      refl

-- The address that a peer is known under, or else another.
abbrev pub known_or : Option PeerInfo → Text → Text
known_or none addr = addr
known_or (some p) addr = p.addr

pub take_message-lookup :
    (now type sender port : ℕ) (addr : Text) (m : PeerManager)
    → sender ≢ m.site
    → IsMap m.peers
    → (site : ℕ)
    → lookup site (take_message now (type, sender, port) addr m).0.peers ≡ (
        if sender == site
        then if type == leave_type
          then none
          else some (record {
            addr = known_or (lookup sender m.peers) (ip_of addr ++ (b':' ∷ print port));
            last_seen = now;
          })
        else lookup site m.peers)
unfolding take_message
take_message-lookup now type sender port addr m foreign h site =
    elim (Bool-cases (sender == m.site)) [
      | inl own ↦ absurd (foreign (ground (arith, own)))
      | inr other ↦ elim (Bool-cases (type == leave_type)) [
        | inl leave ↦ elim (Option-cases (lookup sender m.peers)) [
          | inl absent ↦ rw (other, leave, absent) (ground (arith, absent))
          | inr (p, there) ↦ rw (other, leave, there) (lookup-remove site sender m.peers h)
        ]
        | inr alive ↦ elim (Option-cases (lookup sender m.peers)) [
          | inl absent ↦ rw (other, alive, absent) (lookup-store_peer site sender _ m.peers)
          | inr (p, there) ↦ rw (other, alive, there) (lookup-store_peer site sender _ m.peers)
        ]
      ]
    ]

process_message_read :
    (now : ℕ) (bytes : List ℕ) (fields : ℕ × ℕ × ℕ) (addr : Text) (m : PeerManager)
    → read_message bytes ≡ some fields
    → process_message now bytes addr m ≡ take_message now fields addr m
unfolding process_message
process_message_read now bytes fields addr m read = rw (process_message, read) refl

-- A message of another site, whose number and port fit in 32 and 16 bits, does what it says at a
-- receiver whose map of peers is in order, and nothing to the other peers there: after a JOIN or a
-- HEARTBEAT the site is a peer that was seen just then, under the address that it had before or, if
-- it is new, under the one that the datagram came from with the port that it names; after a LEAVE it
-- is no peer.
pub process_message-message :
    (now type port : ℕ) (ip : Text) (sender m : PeerManager)
    → sender.site < 2 ^ 32
    → sender.port < 2 ^ 16
    → sender.site ≢ m.site
    → IsMap m.peers
    → (site : ℕ)
    → lookup site (process_message now (message type sender) (ip ++ b':' ∷ print port) m).0.peers
      ≡ (if sender.site == site
          then if type == leave_type
            then none
            else some (record {
              addr = known_or (lookup sender.site m.peers) (ip ++ b':' ∷ print sender.port);
              last_seen = now;
            })
          else lookup site m.peers)
process_message-message now type port ip sender m h k foreign map site =
    let addr = ip ++ b':' ∷ print port in
    ap (λ q. lookup site q.0.peers)
      (process_message_read now (message type sender) (type, sender.site, sender.port) addr m
        (read_message-message type sender h k))
    ∙ take_message-lookup now type sender.site sender.port addr m foreign map site
    ∙ ap
        (λ x.
          if sender.site == site
          then if type == leave_type
            then none
            else some (record {
              addr = known_or (lookup sender.site m.peers) (x ++ b':' ∷ print sender.port);
              last_seen = now;
            })
          else lookup site m.peers)
        (ip_of-append ip port)
