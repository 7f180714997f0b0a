-- ===== src/Rga/Roots.antt =====
-- Left neighbours stand before their nodes, so that the walk of `rootAncestor` ends.
use cs4730_collaborative_tex.Base.{
  ℕ, zero, suc, ◌+◌, ◌-◌, ◌≤◌, ◌<◌, ◌≡◌, ◌≢◌, refl, sym, ap, subst, ◌∙◌, ◌⊎◌, inl, inr, List, [],
  ◌∷◌, none, some, arith, length, Bool-cases, Option-cases, or_else, if◌then◌else◌,
}
use cs4730_collaborative_tex.Base.Eq.{◌==◌}
use cs4730_collaborative_tex.Rga.{
  CharId, id_beq_iff, id_eq, sentinel, Node, find, root_loop, root_ancestor, goes_behind, place,
  insert_behind, tombstone,
}

-- Each node's left neighbour is the sentinel, a node before it, or one of `known`.
abbrev pub Linked : (CharId → Type 0) → List Node → Type 0
Linked known [] = Unit
Linked known (n ∷ ns) = ((n.left ≡ sentinel) ⊎ known n.left) × Linked (λ i. (i ≡ n.id) ⊎ known i) ns

pub Linked-mono :
    (P Q : CharId → Type 0) (ns : List Node)
    → ((i : CharId) → P i → Q i)
    → Linked P ns
    → Linked Q ns
Linked-mono P Q [] f h = tt
Linked-mono P Q (n ∷ ns) f (here, h) = (
  elim here [ inl e ↦ inl e | inr k ↦ inr (f n.left k) ],
  Linked-mono (λ i. (i ≡ n.id) ⊎ P i) (λ i. (i ≡ n.id) ⊎ Q i) ns
      (λ i q. elim q [ inl e ↦ inl e | inr k ↦ inr (f i k) ]) h,
)

place-Linked :
    (P : CharId → Type 0) (seq : List Node) (node : Node) (ms : List Node)
    → P node.left
    → Linked P ms
    → Linked P (place seq node ms)
unfolding place
place-Linked P seq node [] p h = (inr p, tt)
place-Linked P seq node (m ∷ ms) p h = elim (Bool-cases (goes_behind seq node.id node.left m.id)) [
  | inl e ↦ rw e (h.0, place-Linked (λ i. (i ≡ m.id) ⊎ P i) seq node ms (inr p) h.1)
  | inr e ↦ rw e (inr p, Linked-mono P (λ i. (i ≡ node.id) ⊎ P i) (m ∷ ms) (λ i k. inr k) h)
]

pub insert_behind-Linked :
    (P : CharId → Type 0) (seq : List Node) (node : Node) (ms r : List Node)
    → Linked P ms
    → insert_behind seq node ms ≡ some r
    → Linked P r
unfolding insert_behind
insert_behind-Linked P seq node [] r h e = absurd (cc)
insert_behind-Linked P seq node (m ∷ ms) r h e = elim (Bool-cases (m.id == node.left)) [
  | inl here ↦
      let same : m ∷ place seq node ms ≡ r = ground (arith, here) in
      let left : node.left ≡ m.id = sym ((id_beq_iff m.id node.left).0 here) in
      subst (Linked P) same (h.0, place-Linked (λ i. (i ≡ m.id) ⊎ P i) seq node ms (inl left) h.1)
  | inr further ↦ elim (Option-cases (insert_behind seq node ms)) [
    | inl lost ↦ absurd (ground (arith, further, lost))
    | inr (s, found) ↦
        let same : m ∷ s ≡ r = ground (arith, further, found) in
        subst (Linked P) same
          (h.0, insert_behind-Linked (λ i. (i ≡ m.id) ⊎ P i) seq node ms s h.1 found)
  ]
]

pub tombstone-Linked :
    (P : CharId → Type 0) (id : CharId) (ns : List Node) → Linked P ns → Linked P (tombstone id ns)
unfolding tombstone
tombstone-Linked P id [] h = tt
tombstone-Linked P id (n ∷ ns) h = elim (Bool-cases (n.id == id)) [
  | inl e ↦ rw e h
  | inr e ↦ rw e (h.0, tombstone-Linked (λ i. (i ≡ n.id) ⊎ P i) id ns h.1)
]

-- The number of nodes before the one with the id.
position : CharId → List Node → ℕ
position id [] = 0
position id (n ∷ ns) = let p = position id ns in if n.id == id then 0 else suc p

find-Linked :
    (P : CharId → Type 0) (id : CharId) (ns : List Node) (n : Node)
    → Linked P ns
    → find id ns ≡ some n
    → (n.left ≡ sentinel) ⊎ (P n.left ⊎ (position n.left ns < position id ns))
unfolding find position
find-Linked P id [] n h e = absurd (cc)
find-Linked P id (m ∷ ns) n h e = elim (Bool-cases (m.id == id)) [
  | inl here ↦
      let same : m ≡ n = ground (arith, here) in
      subst
        (λ x. (x.left ≡ sentinel) ⊎ (P x.left ⊎ (position x.left (m ∷ ns) < position id (m ∷ ns))))
        same (elim h.0 [ inl e ↦ inl e | inr k ↦ inr (inl k) ])
  | inr further ↦ elim (find-Linked (λ i. (i ≡ m.id) ⊎ P i) id ns n h.1 (ground (arith, further))) [
    | inl e ↦ inl e
    | inr (inl (inl left)) ↦ inr (inr (ground (arith, further, left, id_beq_iff m.id n.left)))
    | inr (inl (inr k)) ↦ inr (inl k)
    | inr (inr before) ↦ inr (inr (ground (arith, further, before)))
  ]
]

find-position-lt-length :
    (id : CharId) (ns : List Node) (n : Node) → find id ns ≡ some n → position id ns < length ns
unfolding find position
find-position-lt-length id [] n e = absurd (cc)
find-position-lt-length id (m ∷ ns) n e = elim (Bool-cases (m.id == id)) [
  | inl here ↦ ground (arith, here)
  | inr further ↦ ground (arith, further, find-position-lt-length id ns n)
]

pub root_ancestor_found :
    (f : ℕ) (seq : List Node) (id target : CharId) (n : Node)
    → find id seq ≡ some n
    → root_ancestor (suc f) seq id target ≡ (
        if n.left == target
        then id
        else if n.left == sentinel
        then sentinel
        else root_ancestor f seq n.left target)
unfolding root_ancestor root_loop
root_ancestor_found f seq id target n found = ground (arith, found)

pub root_ancestor_lost :
    (f : ℕ) (seq : List Node) (id target : CharId)
    → find id seq ≡ none
    → root_ancestor (suc f) seq id target ≡ sentinel
unfolding root_ancestor root_loop
root_ancestor_lost f seq id target lost = ground (arith, lost)

module _ (seq : List Node) (target : CharId) (linked : Linked (λ _. ⊥) seq) where
  -- One round of the loop, at a node with the id.
  abbrev walk : ℕ → CharId → Node → CharId
  walk f id n =
      if n.left == target
      then id
      else if n.left == sentinel
      then sentinel
      else root_ancestor f seq n.left target

  walk-step :
      (f : ℕ) (id : CharId) (n : Node)
      → position id seq < suc f
      → ((i : CharId)
          → position i seq < f
          → root_ancestor (suc f) seq i target ≡ root_ancestor f seq i target)
      → (n.left ≡ sentinel) ⊎ (⊥ ⊎ (position n.left seq < position id seq))
      → walk (suc f) id n ≡ walk f id n
  walk-step f id n h step (inl e) = ground (arith, e, id_beq_iff n.left sentinel)
  walk-step f id n h step (inr (inl k)) = absurd k
  walk-step f id n h step (inr (inr before)) =
      ap (λ r. if n.left == target then id else if n.left == sentinel then sentinel else r)
        (step n.left (omega arith))

  root_ancestor-step :
      (f : ℕ) (id : CharId)
      → position id seq < f
      → root_ancestor (suc f) seq id target ≡ root_ancestor f seq id target
  root_ancestor-step zero id h = absurd (omega arith)
  root_ancestor-step (suc f) id h = elim (Option-cases (find id seq)) [
    | inl lost ↦
        root_ancestor_lost (suc f) seq id target lost
        ∙ sym (root_ancestor_lost f seq id target lost)
    | inr (n, found) ↦
        root_ancestor_found (suc f) seq id target n found
        ∙ walk-step f id n h (root_ancestor-step f) (find-Linked (λ _. ⊥) id seq n linked found)
        ∙ sym (root_ancestor_found f seq id target n found)
  ]

  root_ancestor-add :
      (k f : ℕ) (id : CharId)
      → position id seq < f
      → root_ancestor (k + f) seq id target ≡ root_ancestor f seq id target
  root_ancestor-add zero f id h =
      let none_more : 0 + f ≡ f = omega arith in ap (λ g. root_ancestor g seq id target) none_more
  root_ancestor-add (suc k) f id h =
      let one_more : suc k + f ≡ suc (k + f) = omega arith in
      ap (λ g. root_ancestor g seq id target) one_more
      ∙ root_ancestor-step (k + f) id (omega arith)
      ∙ root_ancestor-add k f id h

  root_ancestor_all_lost :
      (f : ℕ) (id : CharId) → find id seq ≡ none → 0 < f → root_ancestor f seq id target ≡ sentinel
  root_ancestor_all_lost zero id lost h = absurd (omega arith)
  root_ancestor_all_lost (suc f) id lost h = root_ancestor_lost f seq id target lost

  -- More rounds than there are nodes change nothing.
  pub root_ancestor_linked :
      (f : ℕ) (id : CharId)
      → 0 < length seq
      → length seq ≤ f
      → root_ancestor f seq id target ≡ root_ancestor (length seq) seq id target
  root_ancestor_linked f id some_node enough = elim (Option-cases (find id seq)) [
    | inl lost ↦
        root_ancestor_all_lost f id lost (omega arith)
        ∙ sym (root_ancestor_all_lost (length seq) id lost some_node)
    | inr (n, found) ↦
        let parts : f ≡ (f - length seq) + length seq = omega arith in
        ap (λ g. root_ancestor g seq id target) parts
        ∙ root_ancestor-add (f - length seq) (length seq) id
            (find-position-lt-length id seq n found)
  ]

  lost_returns :
      (f : ℕ) (id : CharId)
      → find id seq ≡ none
      → 0 < f
      → (r : CharId) × (root_loop f seq id target ≡ some r)
  unfolding root_loop
  lost_returns zero id lost h = absurd (omega arith)
  lost_returns (suc f) id lost h = (sentinel, ground (arith, lost))

  -- The loop returns, if its node stands before so many others.
  root_loop_returns :
      (f : ℕ) (id : CharId)
      → position id seq < f
      → (r : CharId) × (root_loop f seq id target ≡ some r)
  unfolding root_loop
  root_loop_returns zero id h = absurd (omega arith)
  root_loop_returns (suc f) id h = elim (Option-cases (find id seq)) [
    | inl lost ↦ (sentinel, ground (arith, lost))
    | inr (n, found) ↦ elim (Bool-cases (n.left == target)) [
      | inl direct ↦ (id, ground (arith, found, direct))
      | inr indirect ↦ elim (find-Linked (λ _. ⊥) id seq n linked found) [
        | inl stop ↦ (sentinel, ground (arith, found, indirect, stop, id_beq_iff n.left sentinel))
        | inr (inl k) ↦ absurd k
        | inr (inr before) ↦ elim (Bool-cases (n.left == sentinel)) [
          | inl stop ↦ (sentinel, ground (arith, found, indirect, stop))
          | inr go ↦
              let (r, up) = root_loop_returns f n.left (omega arith) in
              (r, ground (arith, found, indirect, go, up))
        ]
      ]
    ]
  ]

  pub root_loop_linked :
      (f : ℕ) (id : CharId)
      → 0 < length seq
      → length seq ≤ f
      → root_loop f seq id target ≡ some (root_ancestor (length seq) seq id target)
  unfolding root_ancestor
  root_loop_linked f id some_node enough =
      let more = root_ancestor_linked f id some_node enough in
      let (r, returned) = returns in
      returned ∙ ap some (sym (ap (λ o. or_else o sentinel) returned) ∙ more)
    where
      returns : (r : CharId) × (root_loop f seq id target ≡ some r)
      returns = elim (Option-cases (find id seq)) [
        | inl lost ↦ lost_returns f id lost (omega arith)
        | inr (n, found) ↦
            let inside = find-position-lt-length id seq n found in
            root_loop_returns f id (omega arith)
      ]

-- The loop of `rootAncestor`, from a node that is its own left neighbour and is neither the target nor
-- the sentinel, has not returned after any number of rounds.
pub root_loop_hangs :
    (f : ℕ) (seq : List Node) (id target : CharId) (n : Node)
    → find id seq ≡ some n
    → n.left ≡ id
    → id ≢ target
    → id ≢ sentinel
    → root_loop f seq id target ≡ none
unfolding root_loop
root_loop_hangs zero seq id target n found cycle other inner = refl
root_loop_hangs (suc f) seq id target n found cycle other inner =
    let again = ap (λ i. root_loop f seq i target) cycle in
    ground (
      arith,
      found,
      cycle,
      id_beq_iff n.left target,
      id_beq_iff n.left sentinel,
      again,
      root_loop_hangs f seq id target n found cycle other inner,
    )
