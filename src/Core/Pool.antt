-- ===== src/Core/Pool.antt =====
-- crates/flock-core/src/pool.rs: the layout of a pool and the names of its databases. A path is its
-- components under the root; the file system has state `S` and may fail at any call.
pub mod Names
pub mod Linked
use flockdb.Prelude.{
  ℕ, String, Bool, true, false, ◌&&◌, ◌||◌, List, [], ◌∷◌, ◌++◌, Result, ok, err, ltb, leb, ◌==◌,
  if◌then◌else◌, contains,
}
use flockdb.Prelude.Texts.{same_text}
use flockdb.Foreign.{IoError, Text, FilePath}
use flockdb.Core.Error.{FlockError, bad_name, pool, unsupported}

unfoldable pub is_ascii_alphanumeric : ℕ → Bool
is_ascii_alphanumeric c =
    (leb b'0' c && leb c b'9') || (leb b'A' c && leb c b'Z') || (leb b'a' c && leb c b'z')

unfoldable pub is_name_char : ℕ → Bool
unfolding is_ascii_alphanumeric
is_name_char c = is_ascii_alphanumeric c || c == b'-' || c == b'_' || c == b'.'

unfoldable pub all_chars : (ℕ → Bool) → Text → Bool
all_chars p [] = true
all_chars p (c ∷ cs) = p c && all_chars p cs

abbrev pub is_empty : Text → Bool
is_empty [] = true
is_empty (_ ∷ _) = false

abbrev pub dot : Text
dot = b'.' ∷ []

abbrev pub dot_dot : Text
dot_dot = b'.' ∷ b'.' ∷ []

unfoldable pub validate_name : Text → Result FlockError (Unit {0})
unfolding is_name_char all_chars same_text
validate_name name =
    if is_empty name
    then err (bad_name name "it is empty")
    else if same_text name dot || same_text name dot_dot
    then err (bad_name name "'.' and '..' are directories that already mean something else")
    else if contains b'/' name || contains b'\\' name
    then err (
        bad_name name
          "it contains a path separator, which would place the database outside its pool")
    else if contains 0 name
    then err (bad_name name "it contains a NUL byte")
    else if all_chars is_name_char name
    then ok tt
    else err (bad_name name "it contains characters outside [A-Za-z0-9._-]")

abbrev pub cas : Text
cas = b'c' ∷ b'a' ∷ b's' ∷ []

abbrev pub dbs : Text
dbs = b'd' ∷ b'b' ∷ b's' ∷ []

abbrev pub pages : Text
pages = b'p' ∷ b'a' ∷ b'g' ∷ b'e' ∷ b's' ∷ []

abbrev pub manifests : Text
manifests = b'm' ∷ b'a' ∷ b'n' ∷ b'i' ∷ b'f' ∷ b'e' ∷ b's' ∷ b't' ∷ b's' ∷ []

unfoldable pub cas_dir : FilePath → FilePath
cas_dir root = root ++ cas ∷ []

unfoldable pub db_dir : FilePath → Text → FilePath
db_dir root name = root ++ dbs ∷ name ∷ []

pub data Metadata : Type 0 where
  present not_found : Metadata
  failed : IoError → Metadata

pub record PoolFs (S : Type 0) : Type 0 where
  -- Whether the build is for Unix.
  pub unix : Bool
  pub create_dir_all : FilePath → S → Result IoError (Unit {0}) × S
  pub symlink_metadata : FilePath → S → Metadata
  pub symlink : (target link : FilePath) → S → Result IoError (Unit {0}) × S

abbrev pub up : Text
up = dot_dot

-- Relative, so that a pool can be moved.
abbrev pub link_target : Text → FilePath
link_target sub = up ∷ up ∷ cas ∷ sub ∷ []

module _ {S : Type 0} where
  abbrev pub made :
      String → FilePath → Result IoError (Unit {0}) × S → Result FlockError (Unit {0}) × S
  made op path (ok done, s) = (ok tt, s)
  made op path (err e, s) = (err (pool op path e), s)

  abbrev pub and_then {ℓ} :
      {A : Type ℓ}
      → Result FlockError (Unit {0}) × S
      → (S → Result FlockError A × S)
      → Result FlockError A × S
  and_then (ok done, s) k = k s
  and_then (err e, s) k = (err e, s)

module _ {S : Type 0} (fs : PoolFs S) where
  -- The first loop: the shared targets.
  unfoldable pub create_shared : FilePath → List Text → S → Result FlockError (Unit {0}) × S
  create_shared root [] s = (ok tt, s)
  create_shared root (sub ∷ subs) s =
      let target = cas_dir root ++ sub ∷ [] in
      and_then (made "create shared CAS" target (fs.create_dir_all target s))
        (create_shared root subs)

  unfoldable pub link_sub : FilePath → Text → S → Result FlockError (Unit {0}) × S
  link_sub dir sub s =
      let link = dir ++ sub ∷ [] in
      elim (fs.symlink_metadata link s) [
        | present ↦ (ok tt, s)
        | failed e ↦ (err (pool "inspect database directory" link e), s)
        | not_found ↦
            if fs.unix
            then made "link database to the shared CAS" link (fs.symlink (link_target sub) link s)
            else (
              err (unsupported "sharing one CAS between databases on this platform" "symlinks"),
              s,
            )
      ]

  -- The second loop: the links.
  unfoldable pub link_subs : FilePath → List Text → S → Result FlockError (Unit {0}) × S
  unfolding link_sub
  link_subs dir [] s = (ok tt, s)
  link_subs dir (sub ∷ subs) s = and_then (link_sub dir sub s) (link_subs dir subs)

  unfoldable pub link_db_to_shared_cas : FilePath → Text → S → Result FlockError FilePath × S
  unfolding create_shared link_subs cas_dir db_dir
  link_db_to_shared_cas root name s =
      let subs = pages ∷ manifests ∷ [] in
      let dir = db_dir root name in
      and_then (create_shared root subs s) (λ s.
        and_then (made "create database directory" dir (fs.create_dir_all dir s))
          (λ s. and_then (link_subs dir subs s) (λ s. (ok dir, s))))
