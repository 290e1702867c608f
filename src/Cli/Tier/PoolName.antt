-- ===== src/Cli/Tier/PoolName.antt =====
-- The pool's name in a tier.
use flockdb.Prelude.{◌≡◌, refl, inl, inr, Bool, true, false, [], ◌∷◌, Bool-cases, ℕ}
use flockdb.Foreign.{Text, FilePath}
use flockdb.Core.Pool.{is_ascii_alphanumeric, all_chars, is_empty}
use flockdb.Cli.Tier.{TierFs, is_pool_char, filter_chars, or_flock, name_of, pool_name}

filter_chars-all : (p : ℕ → Bool) (cs : Text) → all_chars p (filter_chars p cs) ≡ true
unfolding filter_chars all_chars
filter_chars-all p [] = refl
filter_chars-all p (c ∷ cs) = elim (Bool-cases (p c)) [
  | inl kept ↦ rw kept (rw kept (filter_chars-all p cs))
  | inr out ↦ rw out (filter_chars-all p cs)
]

or_flock-fine :
    (cs : Text)
    → all_chars is_pool_char cs ≡ true
    → (is_empty (or_flock cs) ≡ false) × (all_chars is_pool_char (or_flock cs) ≡ true)
unfolding all_chars is_pool_char is_ascii_alphanumeric
or_flock-fine [] h = (refl, refl)
or_flock-fine (c ∷ cs) h = (refl, h)

-- The name under which a pool's objects are kept in a tier, whatever the pool's directory is called
-- and whether or not that can be found out: it is not empty, and has only letters, digits, `-` and `_`.
pub pool_name_lem :
    {S Backend Tier Token : Type 0} (fs : TierFs S Backend Tier Token) (root : FilePath) (s : S)
    → (is_empty (pool_name fs root s) ≡ false)
      × (all_chars is_pool_char (pool_name fs root s) ≡ true)
unfolding pool_name
pool_name_lem fs root s =
    let cs = name_of (fs.canonicalize root s) in
    or_flock-fine (filter_chars is_pool_char cs) (filter_chars-all is_pool_char cs)
