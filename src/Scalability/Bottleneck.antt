-- ===== src/Scalability/Bottleneck.antt =====
-- The bottleneck flags: `detect_bottleneck` of analyze_scalability.py and `_detect_bottleneck` of
-- analyze_results.py.
use cs4730_collaborative_tex.Base.{
  ℕ, ◌*◌, ◌<◌, ◌≡◌, refl, Bool, List, [], ◌∷◌, ◌++◌, Option, none, some, arith, leb, nat_beq, All,
  if◌then◌else◌, ◌>>=◌,
}
use cs4730_collaborative_tex.Base.Int.{ℤ, pos, leb_ℤ, ltb_ℤ, ◌*ℕ◌, pos_part}
use cs4730_collaborative_tex.Stats.{Ratio, nan, number}
use cs4730_collaborative_tex.Scalability.{Figures}

-- A reason of a flag, with the numbers that its text shows: the growth of the convergence time and
-- of the peers since the configuration before, or the CPU load.
pub data Flag : Type 0 where
  grew : ℕ → ℤ → ℕ → ℕ → ℕ → Flag
  busy : ℕ → Ratio → Flag

-- `grew n time time' peers peers'` for the ratios time / time' and peers / peers'.
abbrev pub growth : Figures → Figures → ℤ → ℕ → List Flag
growth prev r time time' = grew r.n_peers time time' r.n_peers prev.n_peers ∷ []

-- `ratio_conv >= 2 * ratio_peers`, with the divisors, which are positive, multiplied out.
doubled : Figures → Figures → ℤ → ℕ → Bool
doubled prev r time time' = leb_ℤ (pos (2 * r.n_peers * time')) (time *ℕ prev.n_peers)

-- The comparison with the configuration before in analyze_results.py; `none` is a
-- `ZeroDivisionError`.
unfoldable pub growth_flag : Figures → Figures → Option (List Flag)
unfolding doubled
growth_flag prev r =
    if ltb_ℤ (pos 0) prev.convergence_us
    then if nat_beq prev.n_peers 0
      then none
      else if doubled prev r r.convergence_us (pos_part prev.convergence_us)
      then some (growth prev r r.convergence_us (pos_part prev.convergence_us))
      else some []
    else some []

-- The same in analyze_scalability.py: the ratio of the times is 0 unless the earlier is positive.
unfoldable pub growth_flag_scalability : Figures → Figures → Option (List Flag)
unfolding doubled
growth_flag_scalability prev r =
    if nat_beq prev.n_peers 0
    then none
    else if ltb_ℤ (pos 0) prev.convergence_us
    then if doubled prev r r.convergence_us (pos_part prev.convergence_us)
      then some (growth prev r r.convergence_us (pos_part prev.convergence_us))
      else some []
    else if doubled prev r (pos 0) 1
    then some (growth prev r (pos 0) 1)
    else some []

-- `not math.isnan(cpu) and cpu >= 80`
unfoldable pub cpu_flag : Figures → List Flag
cpu_flag r = elim (r.avg_cpu_pct) [
  | nan ↦ []
  | number load ↦ if leb (80 * load.den) load.num then busy r.n_peers load ∷ [] else []
]

-- The loop over the configurations, `prev` being the one before.
module _ (against : Figures → Figures → Option (List Flag)) where
  flags_from : Figures → List Figures → Option (List Flag)
  flags_from prev [] = some []
  flags_from prev (r ∷ rs) = do
    grown ← against prev r
    later ← flags_from r rs
    some (grown ++ (cpu_flag r ++ later))

  flags_of : List Figures → Option (List Flag)
  flags_of [] = some []
  flags_of (r ∷ rs) = do later ← flags_from r rs; some (cpu_flag r ++ later)

-- `_detect_bottleneck(results)`
unfoldable pub detect_bottleneck : List Figures → Option (List Flag)
unfolding flags_of flags_from growth_flag cpu_flag
detect_bottleneck = flags_of growth_flag

-- `detect_bottleneck(results)`
unfoldable pub detect_bottleneck_scalability : List Figures → Option (List Flag)
unfolding flags_of flags_from growth_flag_scalability cpu_flag
detect_bottleneck_scalability = flags_of growth_flag_scalability

-- The configuration has a peer.
abbrev pub HasPeers : Figures → Type 0
HasPeers r = 0 < r.n_peers

growth_flags_agree :
    (prev r : Figures)
    → HasPeers prev
    → HasPeers r
    → growth_flag_scalability prev r ≡ growth_flag prev r
unfolding growth_flag growth_flag_scalability doubled
growth_flags_agree prev r hp hr = ground arith

flags_from-agree :
    (prev : Figures) (rs : List Figures)
    → HasPeers prev
    → All HasPeers rs
    → flags_from growth_flag_scalability prev rs ≡ flags_from growth_flag prev rs
unfolding flags_from
flags_from-agree prev [] hp h = refl
flags_from-agree prev (r ∷ rs) hp h =
    rw (growth_flags_agree prev r hp h.0, flags_from-agree r rs h.0 h.1)

-- On configurations that have a peer each, the two bottleneck analyses return the same flags, though
-- they treat a convergence time that is not positive in two ways.
pub detect_bottleneck_agree :
    (rs : List Figures) → All HasPeers rs → detect_bottleneck_scalability rs ≡ detect_bottleneck rs
unfolding detect_bottleneck detect_bottleneck_scalability flags_of
detect_bottleneck_agree [] h = refl
detect_bottleneck_agree (r ∷ rs) h = rw (flags_from-agree r rs h.0 h.1)
