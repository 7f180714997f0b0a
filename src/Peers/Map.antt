-- ===== src/Peers/Map.antt =====
-- The laws of the map of peers.
use cs4730_collaborative_tex.Base.{
  ℕ, ◌≡◌, refl, inl, inr, Bool-cases, true, [], ◌∷◌, Option, none, some, arith, ltb, if◌then◌else◌,
}
use cs4730_collaborative_tex.Base.Eq.{nat_eq, ◌==◌}
use cs4730_collaborative_tex.Dict.{Dict, lookup}
use cs4730_collaborative_tex.Peers.{PeerInfo, store_peer, remove, is_dead, split_dead}

abbrev pub Above : ℕ → Dict ℕ PeerInfo → Type 0
Above k [] = Unit
Above k ((j, _) ∷ d) = (ltb k j ≡ true) × Above k d

-- The keys ascend, as in every `std::map`.
abbrev pub IsMap : Dict ℕ PeerInfo → Type 0
IsMap [] = Unit
IsMap ((k, _) ∷ d) = Above k d × IsMap d

lookup-Above : (k j : ℕ) (d : Dict ℕ PeerInfo) → Above k d → ltb j k ≡ true → lookup j d ≡ none
unfolding lookup
lookup-Above k j [] h below = refl
lookup-Above k j ((i, p) ∷ d) (h, hs) below = ground (arith, lookup-Above k j d hs below)

pub lookup-Above_self : (k : ℕ) (d : Dict ℕ PeerInfo) → Above k d → lookup k d ≡ none
unfolding lookup
lookup-Above_self k [] h = refl
lookup-Above_self k ((i, p) ∷ d) (h, hs) = ground (arith, lookup-Above_self k d hs)

pub lookup-store_peer :
    (j k : ℕ) (v : PeerInfo) (d : Dict ℕ PeerInfo)
    → lookup j (store_peer k v d) ≡ (if k == j then some v else lookup j d)
unfolding lookup store_peer
lookup-store_peer j k v [] = refl
lookup-store_peer j k v ((i, w) ∷ d) = ground (arith, lookup-store_peer j k v d)

pub lookup-remove :
    (j k : ℕ) (d : Dict ℕ PeerInfo)
    → IsMap d
    → lookup j (remove k d) ≡ (if k == j then none else lookup j d)
unfolding lookup remove
lookup-remove j k [] h = ground arith
lookup-remove j k ((i, w) ∷ d) h =
    ground (arith, lookup-remove j k d h.1, lookup-Above_self i d h.0)

store_peer-Above :
    (i k : ℕ) (v : PeerInfo) (d : Dict ℕ PeerInfo)
    → ltb i k ≡ true
    → Above i d
    → Above i (store_peer k v d)
unfolding store_peer
store_peer-Above i k v [] below h = (below, tt)
store_peer-Above i k v ((j, w) ∷ d) below h = ground (arith, store_peer-Above i k v d below h.1)

-- What ascends above a key ascends above every lower one.
Above-lower : (i k : ℕ) (d : Dict ℕ PeerInfo) → ltb i k ≡ true → Above k d → Above i d
Above-lower i k [] below h = tt
Above-lower i k ((j, w) ∷ d) below h = (ground (arith, h.0), Above-lower i k d below h.1)

pub store_peer-IsMap :
    (k : ℕ) (v : PeerInfo) (d : Dict ℕ PeerInfo) → IsMap d → IsMap (store_peer k v d)
unfolding store_peer
store_peer-IsMap k v [] h = (tt, tt)
store_peer-IsMap k v ((j, w) ∷ d) (above, h) = elim (Bool-cases (j == k)) [
  | inl same ↦ rw same (above, h)
  | inr other ↦ elim (Bool-cases (ltb k j)) [
    | inl below ↦ rw (other, below) ((below, Above-lower k j d below above), (above, h))
    | inr not_below ↦
        rw (other, not_below)
          (
            store_peer-Above j k v d (ground (arith, other, not_below)) above,
            store_peer-IsMap k v d h,
          )
  ]
]

remove-Above : (i k : ℕ) (d : Dict ℕ PeerInfo) → Above i d → Above i (remove k d)
unfolding remove
remove-Above i k [] h = h
remove-Above i k ((j, w) ∷ d) h = ground (arith, remove-Above i k d h.1)

pub remove-IsMap : (k : ℕ) (d : Dict ℕ PeerInfo) → IsMap d → IsMap (remove k d)
unfolding remove
remove-IsMap k [] h = h
remove-IsMap k ((j, w) ∷ d) (above, h) = elim (Bool-cases (j == k)) [
  | inl same ↦ rw same h
  | inr other ↦ rw other (remove-Above j k d above, remove-IsMap k d h)
]

split_dead-Above : (i now : ℕ) (d : Dict ℕ PeerInfo) → Above i d → Above i (split_dead now d).0
unfolding split_dead
split_dead-Above i now [] h = h
split_dead-Above i now ((j, w) ∷ d) h = elim (Bool-cases (is_dead now w)) [
  | inl dead ↦ rw dead (split_dead-Above i now d h.1)
  | inr alive ↦ rw alive (h.0, split_dead-Above i now d h.1)
]

pub split_dead-IsMap : (now : ℕ) (d : Dict ℕ PeerInfo) → IsMap d → IsMap (split_dead now d).0
unfolding split_dead
split_dead-IsMap now [] h = h
split_dead-IsMap now ((j, w) ∷ d) (above, h) = elim (Bool-cases (is_dead now w)) [
  | inl dead ↦ rw dead (split_dead-IsMap now d h)
  | inr alive ↦ rw alive (split_dead-Above j now d above, split_dead-IsMap now d h)
]

-- The entry of a peer, unless the peer is dead.
abbrev pub unless_dead : ℕ → Option PeerInfo → Option PeerInfo
unless_dead now none = none
unless_dead now (some p) = if is_dead now p then none else some p

pub lookup-split_dead :
    (j now : ℕ) (d : Dict ℕ PeerInfo)
    → IsMap d
    → lookup j (split_dead now d).0 ≡ unless_dead now (lookup j d)
unfolding lookup split_dead
lookup-split_dead j now [] h = refl
lookup-split_dead j now ((k, p) ∷ d) (above, h) =
    let absent = lookup-Above_self k d above in
    elim (Bool-cases (is_dead now p)) [
      | inl dead ↦ ground (arith, dead, absent, lookup-split_dead j now d h)
      | inr alive ↦ ground (arith, alive, absent, lookup-split_dead j now d h)
    ]
