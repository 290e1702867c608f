-- ===== src/Cli/Tier.antt =====
-- crates/flock-cli/src/cmd/tier.rs: `flock sleep` and `flock wake`. The file system calls that only
-- these make, the runtime and the local object store are the record `TierFs`; what is printed is left
-- out. The cache directory that is copied is the command's own, so that its contents are read as one
-- tree.
pub mod PoolName
pub mod Fate
pub mod Adopted
pub mod Ordered
use flockdb.Prelude.{
  ℕ, suc, ◌+◌, Bool, true, false, ◌||◌, ◌&&◌, List, [], ◌∷◌, ◌++◌, Option, none, some, String,
  Result, ok, err, map_err, ◌==◌, if◌then◌else◌,
}
use flockdb.Prelude.Texts.{codes, contains_text}
use flockdb.Prelude.Steps.{Step, ◌>>=◌, ◌>>◌, give, fail, look, on_err, on_left}
use flockdb.Foreign.{ManifestId, StoreError, IoError, Text, FilePath}
use flockdb.Kernel.Duck.{DuckDb}
use flockdb.Core.Pool.{is_ascii_alphanumeric, is_empty, cas_dir}
use flockdb.Core.Store as Store
use flockdb.Core.Db.{Substrate, Db, Database, open_with, wake_with, restore}
use flockdb.Core.Db as Db
use flockdb.Cli.Error.{
  CliError, flock, no_pool, unknown_branch, branch_awake, tier_not_supported, io, tier, store,
}
use flockdb.Cli.Workspace.{
  CliEnv, SleepRecord, exists, branches, is_asleep, resolve, read_sleep_record, write_sleep_record,
  remove_sleep_record, remove_branch_dir,
}
use flockdb.Cli.Import.{file_name}
use flockdb.Cli.Command.{default_opts, open_db}

-- What `read_dir` finds under a path; a directory's entries end at the first that cannot be read.
mutual
  pub data Tree : Type 0 where
    no_directory : Tree
    unreadable : IoError → Tree
    directory : Entries → Tree

  pub data Entries : Type 0 where
    done : Entries
    failed : IoError → Entries
    file : Text → Entries → Entries
    sub_dir : Text → Tree → Entries → Entries

pub record TierFs (S Backend Tier Token : Type 0) : Type 0 where
  pub temp_dir : Step S IoError FilePath
  pub canonicalize : FilePath → S → Result IoError FilePath
  pub exists : FilePath → S → Bool
  pub tree : FilePath → S → Tree
  pub create_dir_all : FilePath → Step S IoError (Unit {0})
  pub copy : FilePath → FilePath → Step S IoError (Unit {0})
  pub runtime : Step S IoError (Unit {0})
  pub local_file_system : FilePath → Step S String Backend
  pub new_remote : Backend → Text → Tier
  pub to_json : Token → Result StoreError Text
  pub from_json : Text → Result StoreError Token
  pub display : FilePath → Text

-- `text.contains(part)`
unfoldable pub has_prefix : Text → Text → Bool
has_prefix [] text = true
has_prefix (p ∷ ps) [] = false
has_prefix (p ∷ ps) (c ∷ cs) = p == c && has_prefix ps cs

unfoldable pub has_part : Text → Text → Bool
unfolding has_prefix
has_part part [] = has_prefix part []
has_part part (c ∷ cs) = has_prefix part (c ∷ cs) || has_part part cs

unfoldable pub is_pool_char : ℕ → Bool
unfolding is_ascii_alphanumeric
is_pool_char c = is_ascii_alphanumeric c || c == b'-' || c == b'_'

unfoldable pub filter_chars : (ℕ → Bool) → Text → Text
filter_chars p [] = []
filter_chars p (c ∷ cs) = if p c then c ∷ filter_chars p cs else filter_chars p cs

abbrev pub or_flock : Text → Text
or_flock [] = codes "flock"
or_flock (c ∷ cs) = c ∷ cs

abbrev pub name_of : Result IoError FilePath → Text
name_of (ok path) = file_name path
name_of (err e) = []

abbrev pub pages_name : Text
pages_name = codes "pages"

abbrev pub manifests_name : Text
manifests_name = codes "manifests"

module _ {S Backend Tier Token : Type 0} (fs : TierFs S Backend Tier Token) where
  unfoldable pub pool_name : FilePath → S → Text
  unfolding is_pool_char filter_chars file_name
  pool_name root s = or_flock (filter_chars is_pool_char (name_of (fs.canonicalize root s)))

  unfoldable pub prepare_tier_dir : FilePath → Step S CliError FilePath
  unfolding has_part
  prepare_tier_dir dir =
      if has_part (codes "://") (fs.display dir)
      then fail (tier_not_supported (fs.display dir))
      else (do
        on_err (io "create the tier directory" dir) (fs.create_dir_all dir)
        look (λ s. map_err (io "resolve the tier directory" dir) (fs.canonicalize dir s)))

  unfoldable pub remote_tier : FilePath → Text → Step S CliError Tier
  remote_tier dir pool = do
    backend ← on_err (tier dir) (fs.local_file_system dir)
    give (fs.new_remote backend pool)

  unfoldable pub runtime : Step S CliError (Unit {0})
  runtime = on_err (io "start the async runtime" (codes "." ∷ [])) fs.runtime

  abbrev pub adopt_file : (from to : FilePath) → Step S CliError ℕ
  adopt_file from to s =
      if fs.exists to s
      then (ok 0, s)
      else (on_err (io "adopt a page into the pool" to) (fs.copy from to) >>= λ done. give 1) s

  unfoldable mutual
    pub copy_tree : Tree → (src dst : FilePath) → Step S CliError ℕ
    copy_tree no_directory src dst = give 0
    copy_tree (unreadable e) src dst = do
      on_err (io "create the pool's store" dst) (fs.create_dir_all dst)
      fail (io "read the page cache" src e)
    copy_tree (directory entries) src dst = do
      on_err (io "create the pool's store" dst) (fs.create_dir_all dst)
      copy_entries entries src dst 0

    pub copy_entries : Entries → (src dst : FilePath) → ℕ → Step S CliError ℕ
    copy_entries done src dst copied = give copied
    copy_entries (failed e) src dst copied = fail (io "read the page cache" src e)
    copy_entries (file name rest) src dst copied = do
      n ← adopt_file (src ++ name ∷ []) (dst ++ name ∷ [])
      copy_entries rest src dst (copied + n)
    copy_entries (sub_dir name tree rest) src dst copied = do
      n ← copy_tree tree (src ++ name ∷ []) (dst ++ name ∷ [])
      copy_entries rest src dst (copied + n)

  -- The tree at a path, copied.
  unfoldable pub copy_at : (src dst : FilePath) → Step S CliError ℕ
  unfolding copy_tree
  copy_at src dst s = copy_tree (fs.tree src s) src dst s

module _ {S Txn Manifest Page Token Tier Source F Conn Config Stmt Schema Batch Backend : Type 0}
    (sub : Substrate S Txn Manifest Page Token Tier Source)
    (duck : DuckDb F Conn Config Stmt Schema Batch) (env : CliEnv S)
    (fs : TierFs S Backend Tier Token) where
  abbrev pub or_cold : FilePath → Option FilePath → FilePath
  or_cold root none = root ++ codes "cold" ∷ []
  or_cold root (some dir) = dir

  -- What follows the library's `sleep`: the record first, and only then the branch's directory.
  abbrev pub settle :
      FilePath → Text → FilePath → Text → Option Token → Step S CliError (Option (Unit {0}))
  settle root branch dir pool none = give none
  settle root branch dir pool (some token) = do
    json ← look (λ _. map_err (store "encode the WakeToken") (fs.to_json token))
    let rec : SleepRecord = record { tier = dir; pool = pool; token = json }
    write_sleep_record env root branch rec
    remove_branch_dir env root branch
    give (some tt)

  -- From the opening of the database on.
  abbrev pub sleep_in :
      ℕ → FilePath → Text → FilePath → Text → Tier → Step (S × F) CliError (Option (Unit {0}))
  sleep_in fuel root b dir pool remote = do
    db ← open_db sub duck env root b
    on_left (runtime fs)
    token ← on_err flock (Db.sleep sub duck fuel db remote)
    on_left (settle root b dir pool token)

  -- `none` where the walk of the library's `sleep` has no fuel left.
  unfoldable pub sleep :
      ℕ → FilePath → Option Text → Option FilePath → Step (S × F) CliError (Option (Unit {0}))
  unfolding resolve prepare_tier_dir pool_name remote_tier open_with runtime Db.sleep
      write_sleep_record remove_branch_dir
  sleep fuel root branch tier_dir = do
    b ← look (λ w. resolve env root branch w.0)
    dir ← on_left (prepare_tier_dir fs (or_cold root tier_dir))
    pool ← look (λ w. ok (pool_name fs root w.0))
    remote ← on_left (remote_tier fs dir pool)
    sleep_in fuel root b dir pool remote

  abbrev pub asleep_branch : FilePath → Text → S → Result CliError (Unit {0})
  asleep_branch root branch s =
      if exists env root s
      then elim (branches env root s) [
        | err e ↦ err e
        | ok known ↦
            if contains_text branch known
            then if is_asleep env root branch s then ok tt else err (branch_awake branch)
            else err (unknown_branch branch known)
      ]
      else err (no_pool root)

  -- The adopted pages, and the branch's database at the woken head; the record is removed last.
  abbrev pub adopt : FilePath → Text → FilePath → ManifestId → Step (S × F) CliError ℕ
  adopt root branch cache manifest = do
    pages ← on_left (copy_at fs (cache ++ pages_name ∷ []) (cas_dir root ++ pages_name ∷ []))
    others ←
        on_left (copy_at fs (cache ++ manifests_name ∷ []) (cas_dir root ++ manifests_name ∷ []))
    db ← open_db sub duck env root branch
    restored ← on_err flock (restore sub duck db manifest)
    on_left (remove_sleep_record env root branch)
    give pages

  -- From the waking of the database on.
  abbrev pub wake_in : FilePath → Text → FilePath → Tier → Token → Step (S × F) CliError ℕ
  wake_in root branch cache remote token = do
    db ← on_err flock (wake_with sub duck cache branch remote token default_opts)
    manifest ← look (λ w. ok (Store.head db.store w.0))
    adopt root branch cache manifest

  unfoldable pub wake : FilePath → Text → Step (S × F) CliError ℕ
  unfolding exists branches contains_text is_asleep read_sleep_record remote_tier runtime wake_with
      copy_at cas_dir open_with restore remove_sleep_record Store.head
  wake root branch = do
    look (λ w. asleep_branch root branch w.0)
    rec ← look (λ w. read_sleep_record env root branch w.0)
    remote ← on_left (remote_tier fs rec.tier rec.pool)
    token ← look (λ _. map_err (store "decode the WakeToken") (fs.from_json rec.token))
    cache ← on_left (on_err (io "create a page cache for the wake" []) fs.temp_dir)
    on_left (runtime fs)
    wake_in root branch cache remote token
