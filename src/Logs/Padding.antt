-- ===== src/Logs/Padding.antt =====
-- What the expressions of the scripts read in a line with spaces behind it.
use mathlib.Core.Option
use cs4730_collaborative_tex.Base.{
  ℕ, ◌≡◌, refl, sym, ap, subst, ◌∙◌, Bool, true, false, List, [], ◌∷◌, ◌++◌, Option, none, some,
  arith, nat_beq, nat_beq_iff, All, is_some, ◌>>=◌, if◌then◌else◌, Bool-cases, inl, inr,
}
use cs4730_collaborative_tex.Text.{
  Text, codes, elem, space_codes, is_space, digit_value, lstrip, strip_prefix,
}
use cs4730_collaborative_tex.Text.Regex.{gap, span_digits, some_group, digits, search}
use cs4730_collaborative_tex.Logs.{Key, record_at, read_line}

abbrev pub IsSpace : ℕ → Type 0
IsSpace c = is_space c ≡ true

abbrev NoSpace : ℕ → Type 0
NoSpace c = is_space c ≡ false

-- no space is a digit
abbrev none_digit : List ℕ → Bool
none_digit [] = true
none_digit (c ∷ cs) = if is_some (digit_value c) then false else none_digit cs

elem-none_digit :
    (c : ℕ) (cs : List ℕ)
    → none_digit cs ≡ true
    → elem c cs ≡ true
    → is_some (digit_value c) ≡ false
elem-none_digit c [] h e = cc
elem-none_digit c (d ∷ cs) h e = elim (Bool-cases (nat_beq c d)) [
  | inl same ↦ rw ((nat_beq_iff c d).0 same) (ground arith)
  | inr other ↦ elem-none_digit c cs (ground arith) (rw other at e)
]

space_codes-none_digit : none_digit space_codes ≡ true
unfolding digit_value
space_codes-none_digit = refl

IsSpace-no_digit : (c : ℕ) → IsSpace c → is_some (digit_value c) ≡ false
unfolding is_space
IsSpace-no_digit c h = elem-none_digit c space_codes space_codes-none_digit h

space_ne : (c d : ℕ) → NoSpace c → IsSpace d → nat_beq c d ≡ false
space_ne c d hc hd = elim (Bool-cases (nat_beq c d)) [
  | inl same ↦ let e = (nat_beq_iff c d).0 same in let h : NoSpace d = subst NoSpace e hc in cc
  | inr other ↦ other
]

site_NoSpace : All NoSpace (codes "siteID=")
unfolding is_space
site_NoSpace = (refl, (refl, (refl, (refl, (refl, (refl, (refl, tt)))))))

clock_NoSpace : All NoSpace (codes "clock=")
unfolding is_space
clock_NoSpace = (refl, (refl, (refl, (refl, (refl, (refl, tt))))))

us_NoSpace : All NoSpace (codes "ts_us=")
unfolding is_space
us_NoSpace = (refl, (refl, (refl, (refl, (refl, (refl, tt))))))

ms_NoSpace : All NoSpace (codes "ts_ms=")
unfolding is_space
ms_NoSpace = (refl, (refl, (refl, (refl, (refl, (refl, tt))))))

send_NoSpace : All NoSpace (codes "LATENCY_SEND")
unfolding is_space
send_NoSpace = (
  refl,
  (refl, (refl, (refl, (refl, (refl, (refl, (refl, (refl, (refl, (refl, (refl, tt))))))))))),
)

apply_NoSpace : All NoSpace (codes "LATENCY_APPLY")
unfolding is_space
apply_NoSpace = (
  refl,
  (
    refl,
    (refl, (refl, (refl, (refl, (refl, (refl, (refl, (refl, (refl, (refl, (refl, tt))))))))))),
  ),
)

module _ (ws : Text) (blank : All IsSpace ws) where
  -- the text with spaces behind it
  abbrev padded : Option Text → Option Text
  padded = Option.map (λ s. s ++ ws)

  bind-padded {ℓ} :
      {B : Type ℓ} (o : Option Text) (k : Text → Option B)
      → ((s : Text) → k (s ++ ws) ≡ k s)
      → (padded o >>= k) ≡ (o >>= k)
  bind-padded none k h = refl
  bind-padded (some s) k h = h s

  strip_prefix-ws :
      (c : ℕ) (p : Text) (v : Text) → NoSpace c → All IsSpace v → strip_prefix (c ∷ p) v ≡ none
  strip_prefix-ws c p [] hc hv = refl
  strip_prefix-ws c p (d ∷ v) hc (hd, _) = rw (space_ne c d hc hd)

  strip_prefix-padded :
      (p s : Text) → All NoSpace p → strip_prefix p (s ++ ws) ≡ padded (strip_prefix p s)
  strip_prefix-padded [] s h = refl
  strip_prefix-padded (c ∷ p) [] (hc, h) = strip_prefix-ws c p ws hc blank
  strip_prefix-padded (c ∷ p) (d ∷ s) (hc, h) = ground (arith, strip_prefix-padded p s h)

  lstrip-ws : (v : Text) → All IsSpace v → lstrip v ≡ []
  unfolding lstrip
  lstrip-ws [] h = refl
  lstrip-ws (c ∷ v) (hc, h) = rw hc (lstrip-ws v h)

  strip_prefix-lstrip-padded :
      (c : ℕ) (p s : Text)
      → All NoSpace (c ∷ p)
      → strip_prefix (c ∷ p) (lstrip (s ++ ws)) ≡ padded (strip_prefix (c ∷ p) (lstrip s))
  unfolding lstrip
  strip_prefix-lstrip-padded c p [] h = rw (lstrip-ws ws blank)
  strip_prefix-lstrip-padded c p (d ∷ s) h = elim (Bool-cases (is_space d)) [
    | inl yes_space ↦ rw yes_space (strip_prefix-lstrip-padded c p s h)
    | inr no_space ↦ rw no_space (strip_prefix-padded (c ∷ p) (d ∷ s) h)
  ]

  gap-ws : (c : ℕ) (p v : Text) → All IsSpace v → gap (c ∷ p) v ≡ none
  unfolding gap
  gap-ws c p [] h = refl
  gap-ws c p (d ∷ v) (hd, h) = rw (hd, lstrip-ws v h)

  gap-padded :
      (c : ℕ) (p s : Text) → All NoSpace (c ∷ p) → gap (c ∷ p) (s ++ ws) ≡ padded (gap (c ∷ p) s)
  unfolding gap
  gap-padded c p [] h = gap-ws c p ws blank
  gap-padded c p (d ∷ s) h = elim (Bool-cases (is_space d)) [
    | inl yes_space ↦ rw yes_space (strip_prefix-lstrip-padded c p s h)
    | inr no_space ↦ rw no_space
  ]

  span_digits-ws : (v : Text) → All IsSpace v → span_digits v ≡ ([], v)
  unfolding span_digits
  span_digits-ws [] h = refl
  span_digits-ws (c ∷ v) (hc, h) = rw (IsSpace-no_digit c hc)

  span_digits-padded :
      (s : Text) → span_digits (s ++ ws) ≡ ((span_digits s).0, (span_digits s).1 ++ ws)
  unfolding span_digits
  span_digits-padded [] = span_digits-ws ws blank
  span_digits-padded (c ∷ s) = ground (arith, span_digits-padded s)

  abbrev padded_group : Option (Text × Text) → Option (Text × Text)
  padded_group = Option.map (λ g. (g.0, g.1 ++ ws))

  some_group-padded : (g r : Text) → some_group (g, r ++ ws) ≡ padded_group (some_group (g, r))
  unfolding some_group
  some_group-padded [] r = refl
  some_group-padded (c ∷ g) r = refl

  digits-padded : (s : Text) → digits (s ++ ws) ≡ padded_group (digits s)
  unfolding digits
  digits-padded s =
      ap some_group (span_digits-padded s) ∙ some_group-padded (span_digits s).0 (span_digits s).1

  bind-padded_group {ℓ} :
      {B : Type ℓ} (o : Option (Text × Text)) (k : Text × Text → Option B)
      → ((g r : Text) → k (g, r ++ ws) ≡ k (g, r))
      → (padded_group o >>= k) ≡ (o >>= k)
  bind-padded_group none k h = refl
  bind-padded_group (some (g, r)) k h = h g r

  -- An expression of a record matches with spaces behind the text as it does without.
  record_at-padded :
      (tag : Text) (c : ℕ) (u s : Text)
      → All NoSpace tag
      → All NoSpace (c ∷ u)
      → record_at tag (c ∷ u) (s ++ ws) ≡ record_at tag (c ∷ u) s
  unfolding record_at
  record_at-padded tag c u s ht hu = rw (strip_prefix-padded tag s ht) (
      bind-padded (strip_prefix tag s) _ λ s1.
        rw (gap-padded b's' (codes "iteID=") s1 site_NoSpace) (
          bind-padded (gap (codes "siteID=") s1) _ λ s2. rw (digits-padded s2) (
            bind-padded_group (digits s2) _ λ g r.
              rw (gap-padded b'c' (codes "lock=") r clock_NoSpace) (
                bind-padded (gap (codes "clock=") r) _ λ s3. rw (digits-padded s3) (
                  bind-padded_group (digits s3) _ λ g2 r2. rw (gap-padded c u r2 hu) (
                    bind-padded (gap (c ∷ u) r2) _ λ s4.
                      rw (digits-padded s4) (bind-padded_group (digits s4) _ λ g3 r3. refl)))))))

search-ws :
    (m : Text → Option (Key × ℕ)) (ws : Text)
    → ((v : Text) → All IsSpace v → m v ≡ none)
    → All IsSpace ws
    → search m ws ≡ none
unfolding search
search-ws m [] h _ = h [] tt
search-ws m (c ∷ v) h (hc, hv) = ground (arith, h (c ∷ v) (hc, hv), search-ws m v h hv)

search-padded :
    (m : Text → Option (Key × ℕ)) (ws s : Text)
    → All IsSpace ws
    → ((v : Text) → All IsSpace v → m v ≡ none)
    → ((t : Text) → m (t ++ ws) ≡ m t)
    → search m (s ++ ws) ≡ search m s
unfolding search
search-padded m ws [] blank h same = search-ws m ws h blank ∙ sym (h [] tt)
search-padded m ws (c ∷ s) blank h same =
    ground (arith, same (c ∷ s), search-padded m ws s blank h same)

record_at-ws : (c : ℕ) (tag u v : Text) → NoSpace c → All IsSpace v → record_at (c ∷ tag) u v ≡ none
unfolding record_at
record_at-ws c tag u v hc hv = rw (strip_prefix-ws [] tt c tag v hc hv)

record-padded :
    (c d : ℕ) (tag u ws s : Text)
    → All NoSpace (c ∷ tag)
    → All NoSpace (d ∷ u)
    → All IsSpace ws
    → search (record_at (c ∷ tag) (d ∷ u)) (s ++ ws) ≡ search (record_at (c ∷ tag) (d ∷ u)) s
record-padded c d tag u ws s ht hu blank =
    search-padded (record_at (c ∷ tag) (d ∷ u)) ws s blank
      (λ v hv. record_at-ws c tag (d ∷ u) v ht.0 hv)
      (λ t. record_at-padded ws blank (c ∷ tag) d u t ht hu)

pub read_line-padded : (s ws : Text) → All IsSpace ws → read_line (s ++ ws) ≡ read_line s
unfolding read_line
read_line-padded s ws blank = rw (
  record-padded b'L' b't' (codes "ATENCY_SEND") (codes "s_us=") ws s send_NoSpace us_NoSpace blank,
  record-padded b'L' b't' (codes "ATENCY_APPLY") (codes "s_us=") ws s apply_NoSpace us_NoSpace
      blank,
  record-padded b'L' b't' (codes "ATENCY_SEND") (codes "s_ms=") ws s send_NoSpace ms_NoSpace blank,
  record-padded b'L' b't' (codes "ATENCY_APPLY") (codes "s_ms=") ws s apply_NoSpace ms_NoSpace
      blank,
)
