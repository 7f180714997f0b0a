-- ===== src/Cursor.antt =====
-- The cursors of the other peers: src/cursor_sync.cpp and include/cursor_sync.h. The receive thread
-- calls `receive` for each datagram; `start` and `stop` set `running`.
use cs4730_collaborative_tex.Base.{
  ℕ, ◌<◌, ◌^◌, ◌≡◌, ◌≢◌, ◌⊎◌, refl, ap, subst, ◌∙◌, inl, inr, Bool, true, false, List, [], ◌∷◌,
  Option, none, some, arith, Bool-cases, if◌then◌else◌,
}
use cs4730_collaborative_tex.Base.Eq.{nat_eq, ◌==◌}
use cs4730_collaborative_tex.Base.Int.{ℤ}
use cs4730_collaborative_tex.Dict.{Dict, lookup, insert}
use cs4730_collaborative_tex.Dict.Laws.{lookup-insert}
use cs4730_collaborative_tex.Serializer.{ok, fault, encode_cursor, decode_cursor}
use cs4730_collaborative_tex.Serializer.RoundTrip.{IsInt32, decode_cursor-encode_cursor}

-- `CursorSync`, without its socket.
pub record CursorSync : Type 0 where
  pub site : ℕ
  pub running : Bool
  pub remote_cursors : Dict ℕ ℤ

-- `broadcast(pos)`: what is sent, if anything.
unfoldable pub broadcast : ℤ → CursorSync → Option (List ℕ)
broadcast at c = if c.running then some (encode_cursor c.site at) else none

-- `remoteCursors_.erase(siteID)`
unfoldable pub erase : ℕ → Dict ℕ ℤ → Dict ℕ ℤ
erase site [] = []
erase site ((s, at) ∷ d) = if s == site then erase site d else (s, at) ∷ erase site d

-- `removePeer(siteID)`
unfoldable pub remove_peer : ℕ → CursorSync → CursorSync
remove_peer site c = record c { remote_cursors = erase site c.remote_cursors }

-- The body of `recvLoop` for one datagram, and whether it calls `onUpdate_`.
unfoldable pub receive : List ℕ → CursorSync → CursorSync × Bool
receive bytes c = elim (decode_cursor bytes) [
  | fault _ ↦ (c, false)
  | ok (site, at) ↦
      if site == c.site
      then (c, false)
      else (record c { remote_cursors = insert site at c.remote_cursors }, true)
]

receive_own :
    (bytes : List ℕ) (site : ℕ) (at : ℤ) (c : CursorSync)
    → decode_cursor bytes ≡ ok (site, at)
    → (site == c.site) ≡ true
    → receive bytes c ≡ (c, false)
unfolding receive
receive_own bytes site at c read own = rw (receive, read, own) refl

receive_other :
    (bytes : List ℕ) (site : ℕ) (at : ℤ) (c : CursorSync)
    → decode_cursor bytes ≡ ok (site, at)
    → (site == c.site) ≡ false
    → receive bytes c ≡ (record c { remote_cursors = insert site at c.remote_cursors }, true)
unfolding receive
receive_other bytes site at c read other = rw (receive, read, other) refl

-- What is broadcast by another running peer sets that peer's cursor to its position and no other, and
-- calls the callback; a peer that receives its own broadcast ignores it.
pub receive-broadcast :
    (at : ℤ) (sender c : CursorSync) (bytes : List ℕ)
    → sender.site < 2 ^ 32
    → IsInt32 at
    → broadcast at sender ≡ some bytes
    → ((sender.site ≡ c.site) × (receive bytes c ≡ (c, false)))
      ⊎ ((sender.site ≢ c.site)
          × ((receive bytes c).1 ≡ true)
          × ((site : ℕ)
              → lookup site (receive bytes c).0.remote_cursors
                ≡ (if sender.site == site then some at else lookup site c.remote_cursors)))
unfolding broadcast
receive-broadcast at sender c bytes h k sent = elim (Bool-cases sender.running) [
  | inr stopped ↦ absurd (ground (arith, stopped))
  | inl running ↦
      let frame : encode_cursor sender.site at ≡ bytes = ground (arith, running) in
      let read : decode_cursor bytes ≡ ok (sender.site, at) =
        subst (λ b. decode_cursor b ≡ ok (sender.site, at)) frame
          (decode_cursor-encode_cursor sender.site at h k) in
      elim (Bool-cases (sender.site == c.site)) [
        | inl own ↦ inl (ground (arith, own), receive_own bytes sender.site at c read own)
        | inr other ↦
            let done = receive_other bytes sender.site at c read other in
            inr (
              λ e. ground (arith, other, e),
              ap (λ q. q.1) done,
              λ site.
                  ap (λ q. lookup site q.0.remote_cursors) done
                  ∙ lookup-insert site sender.site at c.remote_cursors,
            )
      ]
]

lookup-erase :
    (j site : ℕ) (d : Dict ℕ ℤ) → lookup j (erase site d) ≡ (if site == j then none else lookup j d)
unfolding erase lookup
lookup-erase j site [] = ground arith
lookup-erase j site ((s, at) ∷ d) = ground (arith, lookup-erase j site d)

-- `removePeer` takes away the cursor of the peer and no other.
pub remove_peer-lookup :
    (j site : ℕ) (c : CursorSync)
    → lookup j (remove_peer site c).remote_cursors
      ≡ (if site == j then none else lookup j c.remote_cursors)
unfolding remove_peer
remove_peer-lookup j site c = lookup-erase j site c.remote_cursors
