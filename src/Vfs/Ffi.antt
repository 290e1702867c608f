-- ===== src/Vfs/Ffi.antt =====
-- crates/flock-vfs/src/ffi.rs: the C ABI. A pointer argument is null or points to what it names; a
-- returned pointer is `none` where it is null. Memory that C owns comes back beside the result. What
-- goes to stderr is not modelled. Errors carry the variable part of their text.
pub mod Pread
use flockdb.Prelude.{
  ℕ, String, Bool, ◌==◌, ◌-◌, ltb, if◌then◌else◌, length, take, drop, ◌++◌, Option, none, some,
  Result, ok, err, ◌>>=◌, ◌>>◌, map_err,
}
use flockdb.Prelude.Int.{ℤ, pos, negsuc, i64_bound, as_isize}
use flockdb.Foreign.{ManifestId, Bytes, StoreError, IoError}
use flockdb.Vfs.Error.{VfsError, wake, runtime, bad_ffi_argument}
use flockdb.Vfs.Source.{PageSource}
use flockdb.Vfs.Read.{serve_read}
use flockdb.Vfs.Backend.{TierEnv, RemoteTier, remote_tier}

-- A `*const c_char` as `cstr` sees it.
pub data CStr : Type 0 where
  null not_utf8 : CStr
  text : String → CStr

pub record WakeToken : Type 0 where
  pub pool : String
  pub manifest : ManifestId
  pub page_size : ℕ

-- A handle over a woken store with state `S`: the source that reads it, the file's length and the
-- store's counters of tier misses and cache hits.
pub record FlockVfs (S : Type 0) : Type 0 where
  pub source : PageSource S
  pub total_len : ℕ
  pub misses : S → ℕ
  pub hits : S → ℕ

-- What `open_inner` calls outside the repository: the parser of manifest ids, the file system, the
-- tokio runtime, `TieredStore::wake`, and the source over a woken store.
pub record OpenEnv (Client Store : Type 0) : Type 0 where
  pub tiers : TierEnv Client
  pub from_hex : String → Result String ManifestId
  pub create_dir_all : String → Result IoError (Unit {0})
  pub runtime_build : Result String (Unit {0})
  pub wake_store : String → RemoteTier Client → WakeToken → Result StoreError Store

unfoldable pub cstr : CStr → String → Result VfsError String
cstr CStr.null what =
    err (bad_ffi_argument what "it was a null pointer — pass a valid NUL-terminated string")
cstr CStr.not_utf8 what = err (bad_ffi_argument what "it was not valid UTF-8")
cstr (CStr.text s) what = ok s

abbrev pub check_page_size : ℕ → Result VfsError (Unit {0})
check_page_size page_size =
    if page_size == 0
    then err (
        bad_ffi_argument "page size"
          "it was 0 — pass the `page_size` from the database's WakeToken")
    else ok tt

module _ {Client Store : Type 0} (env : OpenEnv Client Store) where
  -- The woken store and the length that its source is given.
  unfoldable pub open_inner :
      (remote_dir cache_dir pool manifest_hex : CStr) (page_size total_len : ℕ)
      → Result VfsError (Store × ℕ)
  unfolding cstr
  open_inner remote_dir cache_dir pool manifest_hex page_size total_len = do
    remote_dir ← cstr remote_dir "remote directory path"
    cache_dir ← cstr cache_dir "cache directory path"
    pool ← cstr pool "pool name"
    manifest_hex ← cstr manifest_hex "manifest id"
    check_page_size page_size
    manifest ← map_err (bad_ffi_argument "manifest id") (env.from_hex manifest_hex)
    map_err (bad_ffi_argument "cache directory path") (env.create_dir_all cache_dir)
    remote ← remote_tier env.tiers remote_dir pool
    map_err runtime env.runtime_build
    store ← map_err wake (
        env.wake_store cache_dir remote
          (record { pool = pool; manifest = manifest; page_size = page_size }))
    ok (store, total_len)

  unfoldable pub flock_vfs_open :
      (remote_dir cache_dir pool manifest_hex : CStr) (page_size total_len : ℕ) → Option (Store × ℕ)
  unfolding open_inner
  flock_vfs_open remote_dir cache_dir pool manifest_hex page_size total_len =
      elim (open_inner remote_dir cache_dir pool manifest_hex page_size total_len) [
        | ok handle ↦ some handle
        | err e ↦ none
      ]

-- i64::try_from(n).unwrap_or(d)
abbrev pub try_i64 : ℕ → ℤ → ℤ
try_i64 n d = if ltb n i64_bound then pos n else d

abbrev pub minus_one : ℤ
minus_one = negsuc 0

abbrev pub i64_max : ℤ
i64_max = pos (i64_bound - 1)

abbrev pub count_or_error : Result VfsError ℕ → ℤ
count_or_error (ok n) = as_isize n
count_or_error (err e) = minus_one

module _ {S : Type 0} where
  unfoldable pub flock_vfs_len : Option (FlockVfs S) → ℤ
  flock_vfs_len (some h) = try_i64 h.total_len minus_one
  flock_vfs_len none = minus_one

  unfoldable pub flock_vfs_tier_misses : Option (FlockVfs S) → S → ℤ
  flock_vfs_tier_misses (some h) s = try_i64 (h.misses s) i64_max
  flock_vfs_tier_misses none s = minus_one

  unfoldable pub flock_vfs_tier_hits : Option (FlockVfs S) → S → ℤ
  flock_vfs_tier_hits (some h) s = try_i64 (h.hits s) i64_max
  flock_vfs_tier_hits none s = minus_one

  -- The slice of `len` bytes over the caller's memory, and the memory behind it.
  abbrev pub read_into : FlockVfs S → (offset len : ℕ) → Bytes → S → ℤ × Option Bytes × S
  read_into h offset len memory s =
      let (r, out, s') = serve_read h.source h.total_len offset (take len memory) s in
      (count_or_error r, some (out ++ drop len memory), s')

  -- `buf` is the memory that the pointer leads to, at least `len` bytes by the caller's contract.
  unfoldable pub flock_vfs_pread :
      Option (FlockVfs S)
      → (offset : ℤ) → (buf : Option Bytes) → (len : ℕ) → S
      → ℤ × Option Bytes × S
  flock_vfs_pread none offset buf len s = (minus_one, buf, s)
  flock_vfs_pread (some h) (negsuc _) buf len s = (minus_one, buf, s)
  flock_vfs_pread (some h) (pos offset) none len s =
      if len == 0 then (pos 0, none, s) else (minus_one, none, s)
  flock_vfs_pread (some h) (pos offset) (some memory) len s =
      if len == 0 then (pos 0, some memory, s) else read_into h offset len memory s
