-- ===== src/Convergence/Meta.antt =====
-- `_read_meta`: the pairs that `(\w+)=(\S+)` finds in meta.txt. Which characters beyond ASCII are
-- word characters is Unicode's, and a parameter.
pub mod Pairs
use cs4730_collaborative_tex.Base.{
  ℕ, zero, suc, Bool, ◌||◌, ◌&&◌, not, List, [], ◌∷◌, Option, none, some, length, or_else, leb,
  nat_beq, if◌then◌else◌, ◌>>=◌,
}
use cs4730_collaborative_tex.Base.Eq.{text_eq}
use cs4730_collaborative_tex.Base.Int.{ℤ, pos}
use cs4730_collaborative_tex.Text.{Text, codes, is_space, strip_prefix}
use cs4730_collaborative_tex.Text.Decimal.{parse_int}
use cs4730_collaborative_tex.Dict.{Dict, lookup, insert}
use cs4730_collaborative_tex.Files.{FileSystem, content, missing, failed, join}
use cs4730_collaborative_tex.Convergence.{TrialMeta}

-- The longest run of characters of a class, and what follows it.
span : (ℕ → Bool) → Text → Text × Text
span p [] = ([], [])
span p (c ∷ s) = if p c then (c ∷ (span p s).0, (span p s).1) else ([], c ∷ s)

-- One or more characters of a class.
run_of : (ℕ → Bool) → Text → Option (Text × Text)
run_of p s = elim ((span p s).0) [ [] ↦ none | c ∷ w ↦ some (c ∷ w, (span p s).1) ]

module _ (wide_word : ℕ → Bool) where
  -- `\w`
  is_word : ℕ → Bool
  is_word c =
      if leb 128 c
      then wide_word c
      else (leb b'0' c && leb c b'9')
        || (leb b'A' c && leb c b'Z')
        || (leb b'a' c && leb c b'z')
        || nat_beq c b'_'

  -- `(\w+)=(\S+)` at the front: the two groups and the rest.
  pair_at : Text → Option (Text × Text × Text)
  pair_at s = do
    (key, s) ← run_of is_word s
    s ← strip_prefix (codes "=") s
    (value, s) ← run_of (λ c. not (is_space c)) s
    some (key, value, s)

  -- `_META_RE.finditer(text)`; each round takes a character at least.
  pub find_pairs : ℕ → Text → List (Text × Text)
  find_pairs zero s = []
  find_pairs (suc f) s = elim (pair_at s) [
    | some (key, value, rest) ↦ (key, value) ∷ find_pairs f rest
    | none ↦ elim s [ [] ↦ [] | c ∷ r ↦ find_pairs f r ]
  ]

  -- `meta[m.group(1)] = m.group(2)`
  store : Dict Text Text → List (Text × Text) → Dict Text Text
  store meta [] = meta
  store meta ((key, value) ∷ pairs) = store (insert key value meta) pairs

  -- `_read_meta(trial_dir)`
  unfoldable pub read_meta : FileSystem → Text → Dict Text Text
  unfolding store find_pairs pair_at is_word run_of span join insert
  read_meta fs tdir = elim (fs.read (join tdir (codes "meta.txt"))) [
    | content s ↦ store [] (find_pairs (suc (length s)) s)
    | missing ↦ []
    | failed ↦ []
  ]

-- `int(meta.get(key, 0))`
int_field : Text → Dict Text Text → Option ℤ
int_field key meta = elim (lookup key meta) [ none ↦ some (pos 0) | some text ↦ parse_int text ]

-- The four fields that a trial reads; `none` is a `ValueError`.
unfoldable pub trial_meta : Dict Text Text → Option TrialMeta
unfolding int_field lookup parse_int
trial_meta meta = do
  trial ← int_field (codes "trial") meta
  n_peers ← int_field (codes "n_peers") meta
  some (record {
    trial = trial;
    n_peers = n_peers;
    seed = or_else (lookup (codes "seed") meta) (codes "?");
    ops = or_else (lookup (codes "ops") meta) (codes "?");
  })
