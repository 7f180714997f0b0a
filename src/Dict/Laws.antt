-- ===== src/Dict/Laws.antt =====
-- What a dict answers after it was changed.
use cs4730_collaborative_tex.Base.{◌≡◌, refl, [], ◌∷◌, Option, none, some, arith, if◌then◌else◌}
use cs4730_collaborative_tex.Base.Eq.{Eq, ◌==◌}
use cs4730_collaborative_tex.Dict.{Dict, lookup, insert, update}

-- The first answer, or else the second.
abbrev pub or_lookup {ℓ} : {V : Type ℓ} → Option V → Option V → Option V
or_lookup none o = o
or_lookup (some v) _ = some v

-- No key stands twice.
abbrev pub IsDict {ℓ κ} : {K : Type ℓ} {V : Type κ} ⦃e : Eq K⦄ → Dict K V → Type κ
IsDict [] = Unit
IsDict ((k, v) ∷ d) = (lookup k d ≡ none) × IsDict d

module _ {ℓ κ} {K : Type ℓ} {V : Type κ} ⦃e : Eq K⦄ where
  pub lookup-insert :
      (j k : K) (v : V) (d : Dict K V)
      → lookup j (insert k v d) ≡ (if k == j then some v else lookup j d)
  unfolding lookup insert
  lookup-insert j k v [] = refl
  lookup-insert j k v ((i, w) ∷ d) =
      ground (arith, e.beq_iff k j, e.beq_iff i k, e.beq_iff i j, lookup-insert j k v d)

  pub lookup-insert_self : (k : K) (v : V) (d : Dict K V) → lookup k (insert k v d) ≡ some v
  lookup-insert_self k v d = ground (arith, e.beq_iff k k, lookup-insert k k v d)

  pub insert-IsDict : (k : K) (v : V) (d : Dict K V) → IsDict d → IsDict (insert k v d)
  unfolding lookup insert
  insert-IsDict k v [] h = (refl, tt)
  insert-IsDict k v ((i, w) ∷ d) h =
      ground (arith, e.beq_iff i k, e.beq_iff k i, lookup-insert i k v d, insert-IsDict k v d h.1)

  pub update-IsDict : (d new : Dict K V) → IsDict d → IsDict (update d new)
  unfolding update
  update-IsDict d [] h = h
  update-IsDict d ((k, v) ∷ new) h = update-IsDict (insert k v d) new (insert-IsDict k v d h)

  -- After an update the new entries answer first.
  pub lookup-update :
      (j : K) (d new : Dict K V)
      → IsDict new
      → lookup j (update d new) ≡ or_lookup (lookup j new) (lookup j d)
  unfolding update lookup
  lookup-update j d [] _ = refl
  lookup-update j d ((k, v) ∷ new) h =
      ground (arith, e.beq_iff k j, lookup-insert j k v d, lookup-update j (insert k v d) new h.1)
