-- ===== src/Logs/RoundTrip.antt =====
-- The analysis scripts read back what the editor logs.
use cs4730_collaborative_tex.Base.{
  ℕ, ◌≡◌, ◌≢◌, refl, subst, [], ◌∷◌, ◌++◌, none, some, arith, All, All-append, append_assoc,
}
use cs4730_collaborative_tex.Text.{Text, codes, digit_value}
use cs4730_collaborative_tex.Text.Decimal.{print, int-print, print-IsDigit, print-ne-nil, IsDigit}
use cs4730_collaborative_tex.Text.Regex.{
  gap, digits, search, digits-append, strip_prefix-append, search_skip, search_hit, NoDigitFirst,
}
use cs4730_collaborative_tex.Logs.{
  record_at, send_tag, apply_tag, us, send_us, apply_us, sent, applied, read_line, read_line_us,
}
use cs4730_collaborative_tex.Logs.Message.{latency_message, sent_message, applied_message, log_line}

digits-print : (n : ℕ) (r : Text) → NoDigitFirst r → digits (print n ++ r) ≡ some (print n, r)
digits-print n r = digits-append (print n) r (print-ne-nil n) (print-IsDigit n)

-- the message followed by any text that begins with no digit
record_at-message :
    (tag : Text) (site clock ts : ℕ) (r : Text)
    → NoDigitFirst r
    → record_at tag us (
        tag
        ++ (codes " siteID="
            ++ (print site
                ++ (codes " clock=" ++ (print clock ++ (codes " ts_us=" ++ (print ts ++ r)))))))
      ≡ some ((site, clock), ts)
unfolding record_at gap digit_value
record_at-message tag site clock ts r h = rw (
  strip_prefix-append tag,
  digits-print site,
  digits-print clock,
  digits-print ts r h,
  int-print site,
  int-print clock,
  int-print ts,
)

-- No `L` stands in the text, as in a time, a level, a site in hexadecimal and a module's name.
abbrev pub LacksL : Text → Type 0
LacksL = All (λ c. c ≢ b'L')

record_at_other : (t u : Text) (c : ℕ) (r : Text) → c ≢ b'L' → record_at (b'L' ∷ t) u (c ∷ r) ≡ none
unfolding record_at
record_at_other t u c r h = ground arith

All-skips :
    (t u : Text) (p : Text)
    → LacksL p
    → All (λ c. (r : Text) → record_at (b'L' ∷ t) u (c ∷ r) ≡ none) p
All-skips t u [] h = tt
All-skips t u (c ∷ p) (here, h) = (λ r. record_at_other t u c r here, All-skips t u p h)

module _ (t u : Text) where
  skip :
      (p s : Text)
      → LacksL p
      → search (record_at (b'L' ∷ t) u) (p ++ s) ≡ search (record_at (b'L' ∷ t) u) s
  skip p s h = search_skip (record_at (b'L' ∷ t) u) p s (All-skips t u p h)

  search-LacksL : (s : Text) → LacksL s → search (record_at (b'L' ∷ t) u) s ≡ none
  unfolding search record_at
  search-LacksL [] h = refl
  search-LacksL (c ∷ s) (here, h) = ground (arith, search-LacksL s h, record_at_other t u c s here)

  search-log_line :
      (time level site component message : Text)
      → LacksL time
      → LacksL level
      → LacksL site
      → LacksL component
      → search (record_at (b'L' ∷ t) u) (log_line time level site component message)
        ≡ search (record_at (b'L' ∷ t) u) (message ++ codes "\n")
  unfolding log_line
  search-log_line time level site component message ht hl hs hc =
      let bracket : LacksL (codes "] [") = omega arith in
      let last : LacksL (codes "] ") = omega arith in
      rw (
        skip (codes "[") _ (omega arith),
        skip time _ ht,
        skip (codes "] [") _ bracket,
        skip level _ hl,
        skip (codes "] [") _ bracket,
        skip site _ hs,
        skip (codes "] [") _ bracket,
        skip component _ hc,
        skip (codes "] ") _ last,
      )

IsDigit-ne-L : (c : ℕ) → IsDigit c → c ≢ b'L'
unfolding digit_value
IsDigit-ne-L c h e = let f : IsDigit b'L' = subst IsDigit e h in cc

digits-LacksL : (s : Text) → All IsDigit s → LacksL s
digits-LacksL [] h = tt
digits-LacksL (c ∷ s) (here, h) = (IsDigit-ne-L c here, digits-LacksL s h)

print-LacksL : (n : ℕ) → LacksL (print n)
print-LacksL n = digits-LacksL (print n) (print-IsDigit n)

-- what stands behind the tag
fields : ℕ → ℕ → ℕ → Text → Text
fields site clock ts r =
    codes " siteID="
    ++ (print site ++ (codes " clock=" ++ (print clock ++ (codes " ts_us=" ++ (print ts ++ r)))))

latency_message-append :
    (tag : Text) (site clock ts : ℕ) (r : Text)
    → latency_message tag site clock ts ++ r ≡ tag ++ fields site clock ts r
unfolding latency_message fields
latency_message-append tag site clock ts r = simp append_assoc

fields-LacksL : (site clock ts : ℕ) → LacksL (fields site clock ts (codes "\n"))
unfolding fields
fields-LacksL site clock ts = All-append _ (codes " siteID=") _ (omega arith) (
    All-append _ (print site) _ (print-LacksL site) (
      All-append _ (codes " clock=") _ (omega arith) (
        All-append _ (print clock) _ (print-LacksL clock) (
          All-append _ (codes " ts_us=") _ (omega arith)
            (All-append _ (print ts) _ (print-LacksL ts) (omega arith))))))

search-fields :
    (tag : Text) (site clock ts : ℕ)
    → search (record_at tag us) (tag ++ fields site clock ts (codes "\n"))
      ≡ some ((site, clock), ts)
unfolding fields digit_value
search-fields tag site clock ts =
    search_hit (record_at tag us) _ (record_at-message tag site clock ts (codes "\n") refl)

-- the expression for sent operations does not match an applied one
send-applied :
    (site clock ts : ℕ)
    → search (record_at send_tag us) (apply_tag ++ fields site clock ts (codes "\n")) ≡ none
unfolding search record_at
send-applied site clock ts = search-LacksL (codes "ATENCY_SEND") us _ (fields-LacksL site clock ts)

module _ (time level site component : Text) (ht : LacksL time) (hl : LacksL level)
    (hs : LacksL site) (hc : LacksL component) where
  -- Each line that the logger writes for a sent operation is read back as that operation, with its
  -- site, clock and timestamp, by the loop of `parse_log` and by that of analyze_scalability.py. The
  -- line's time, level, site and module may be any texts with no `L`.
  pub read_line-sent_message :
      (id clock ts : ℕ)
      → let line = log_line time level site component (sent_message id clock ts) in
        (read_line line ≡ some (sent (id, clock) ts))
        × (read_line_us line ≡ some (sent (id, clock) ts))
  unfolding read_line read_line_us sent_message
  read_line-sent_message id clock ts =
      let found : send_us (log_line time level site component (sent_message id clock ts))
          ≡ some ((id, clock), ts) =
        unfold send_us sent_message in
        rw
          (
            search-log_line (codes "ATENCY_SEND") us time level site component _ ht hl hs hc,
            latency_message-append,
          )
          (search-fields send_tag id clock ts) in
      (ground (arith, found), ground (arith, found))

  -- Each line that the logger writes for an applied operation is read back as that operation, and is
  -- not taken for a sent one, by both loops; the texts in brackets may be any with no `L`.
  pub read_line-applied_message :
      (id clock ts : ℕ)
      → let line = log_line time level site component (applied_message id clock ts) in
        (read_line line ≡ some (applied (id, clock) ts))
        × (read_line_us line ≡ some (applied (id, clock) ts))
  unfolding read_line read_line_us applied_message
  read_line-applied_message id clock ts =
      let missed : send_us (log_line time level site component (applied_message id clock ts))
          ≡ none =
        unfold send_us applied_message in
        rw
          (
            search-log_line (codes "ATENCY_SEND") us time level site component _ ht hl hs hc,
            latency_message-append,
          )
          (send-applied id clock ts) in
      let found : apply_us (log_line time level site component (applied_message id clock ts))
          ≡ some ((id, clock), ts) =
        unfold apply_us applied_message in
        rw
          (
            search-log_line (codes "ATENCY_APPLY") us time level site component _ ht hl hs hc,
            latency_message-append,
          )
          (search-fields apply_tag id clock ts) in
      (ground (arith, missed, found), ground (arith, missed, found))
