-- ===== src/Core/Db.antt =====
-- crates/flock-core/src/db.rs: databases. The state is the stores and the pool's file system, `S`,
-- beside DuckDB and its scratch files, `F`. A call that fails leaves the handle that it was made on
-- as it was. The futures are run to their end, one call after the other.
pub mod Opened
pub mod Forked
pub mod Reopened
pub mod Restored
pub mod Slept
use flockdb.Prelude.{
  ℕ, Bool, true, false, List, [], ◌∷◌, Option, none, some, String, Result, ok, err, map_err,
  if◌then◌else◌,
}
use flockdb.Prelude.Steps.{Step, ◌>>=◌, ◌>>◌, give, fail, look, on_err, on_left, on_right}
use flockdb.Foreign.{ManifestId, WalError, StoreError, IoError, PagerError, Text, FilePath}
use flockdb.Kernel.Duck.{
  DuckDb, DuckDbKernel, KernelOpts, ArrowStream, open_kernel, checkpoint, export,
}
use flockdb.Kernel.Duck as Duck
use flockdb.Core.Error.{FlockError, kernel, wal, name_taken, unknown_snapshot, tier, unsupported}
use flockdb.Core.Error as Error
use flockdb.Core.Pool.{PoolFs, validate_name, link_db_to_shared_cas, db_dir}
use flockdb.Core.Store.{
  Pager, DurableStore, TieredStore, Store, local, tiered, pager, head, page_store,
}
use flockdb.Core.Staging.{stage}

pub record StoreConfig : Type 0 where
  pub page_size : ℕ
  pub pool : Text

-- Substrate's constructors, the pool's file system, and temporary directories.
pub record Substrate (S Txn Manifest Page Token Tier Source : Type 0) : Type 0 where
  pub fs : PoolFs S
  pub exists : FilePath → S → Bool
  pub open_durable : FilePath → Step S WalError (DurableStore S Txn Manifest Page)
  pub open_tiered :
      FilePath → Tier → StoreConfig → Step S StoreError (TieredStore S Txn Manifest Page Token)
  pub wake : FilePath → Tier → Token → Step S StoreError (TieredStore S Txn Manifest Page Token)
  pub temp_dir : Step S IoError FilePath
  pub tier_pool : Tier → Text
  -- `WalSource::open`, of the sync crate.
  pub open_wal : FilePath → Pager S Txn Manifest Page → (page_size : ℕ) → Source

pub record Db (S Txn Manifest Page Token Conn : Type 0) : Type 0 where
  pub name : Text
  pub root : FilePath
  pub store : Store S Txn Manifest Page Token
  pub kernel : DuckDbKernel S Txn Conn
  pub opts : KernelOpts

module _ {S Txn Manifest Page Token Tier Source F Conn Config Stmt Schema Batch : Type 0}
    (sub : Substrate S Txn Manifest Page Token Tier Source)
    (duck : DuckDb F Conn Config Stmt Schema Batch) where
  abbrev pub World : Type 0
  World = S × F

  abbrev pub Database : Type 0
  Database = Db S Txn Manifest Page Token Conn

  -- The kernel over a store, as every constructor opens it.
  abbrev pub open_on :
      Text
      → FilePath
      → KernelOpts
      → Store S Txn Manifest Page Token
      → Step World FlockError Database
  open_on name root opts store = do
    k ← on_err kernel (open_kernel duck (page_store store) opts)
    give (record { name = name; root = root; store = store; kernel = k; opts = opts })

  unfoldable pub open_with : FilePath → Text → KernelOpts → Step World FlockError Database
  unfolding validate_name link_db_to_shared_cas page_store open_kernel
  open_with root db_name opts = do
    look (λ _. validate_name db_name)
    dir ← on_left (link_db_to_shared_cas sub.fs root db_name)
    durable ← on_left (on_err (wal "open the durable store") (sub.open_durable dir))
    on_left (on_err (wal "replay the log") durable.recover)
    open_on db_name root opts (local durable)

  unfoldable pub wake_with :
      FilePath → Text → Tier → Token → KernelOpts → Step World FlockError Database
  unfolding validate_name page_store open_kernel
  wake_with root db_name remote token opts = do
    look (λ _. validate_name db_name)
    on_left (on_err (Error.pool "create cache root" root) (sub.fs.create_dir_all root))
    t ← on_left (on_err (tier "wake") (sub.wake root remote token))
    open_on db_name root opts (tiered t)

  unfoldable pub wal_source : Database → Result FlockError Source
  unfolding db_dir
  wal_source db = elim db.store [
    | local d ↦ ok (sub.open_wal (db_dir db.root db.name) d.pager d.pager.pages.page_size)
    | tiered t ↦ err (
        unsupported "WAL shipping from a woken (object-storage-backed) database"
          "a tiered database has no local write-ahead log")
  ]

  unfoldable pub query : Database → Text → Step World FlockError (ArrowStream Schema Batch)
  query db text = on_err kernel (Duck.query duck db.kernel text)

  unfoldable pub execute : Database → Text → Step World FlockError ℕ
  execute db text = on_err kernel (Duck.execute duck db.kernel text)

  unfoldable pub execute_batch : Database → Text → Step World FlockError (Unit {0})
  execute_batch db text = on_err kernel (on_right (Duck.execute_batch duck db.kernel.conn text))

  unfoldable pub snapshot : Database → Step World FlockError ManifestId
  unfolding checkpoint
  snapshot db = on_err kernel (checkpoint duck db.kernel)

  unfoldable pub ensure_durable : Database → Step S FlockError (Unit {0})
  ensure_durable db = elim db.store [
    | local d ↦ give tt
    | tiered t ↦ λ s.
        on_err (tier "make durable in object storage")
          (t.ensure_durable (t.pager.pages.head s ∷ [])) s
  ]

  -- What `fork` does once the name is free and the parent is snapshotted.
  abbrev pub fork_at : Database → Text → ManifestId → Step World FlockError Database
  fork_at db name head = do
    dir ← on_left (link_db_to_shared_cas sub.fs db.root name)
    forked ← on_left (on_err (wal "open the fork's durable store") (sub.open_durable dir))
    on_left (on_err (wal "replay the fork's log") forked.recover)
    on_left (on_err (Error.pager "position the fork at its parent") (forked.pager.set_head_to head))
    on_left (on_err (wal "record the fork's head") forked.checkpoint)
    open_on name db.root db.opts (local forked)

  unfoldable pub fork : Database → Text → Step World FlockError Database
  unfolding validate_name db_dir snapshot link_db_to_shared_cas page_store open_kernel
  fork db name = look (λ _. validate_name name) >>= λ _ w.
      let dir = db_dir db.root name in
      if sub.exists dir w.0
      then (err (name_taken name dir), w)
      else (snapshot db >>= fork_at db name) w

  abbrev pub record_head : Store S Txn Manifest Page Token → Step S FlockError (Unit {0})
  record_head (local d) = on_err (wal "record the restored head") d.checkpoint
  record_head (tiered t) = give tt

  unfoldable pub rewind_to : Database → ManifestId → Step S FlockError (Unit {0})
  unfolding pager
  rewind_to db m = do
    found ← look (λ s. map_err (λ _. unknown_snapshot m) ((pager db.store).manifest m s))
    on_err (Error.pager "restore") ((pager db.store).rewind m)
    record_head db.store

  -- The handle that is left has the new kernel.
  unfoldable pub restore : Database → ManifestId → Step World FlockError Database
  unfolding rewind_to page_store open_kernel
  restore db m = do on_left (rewind_to db m); open_on db.name db.root db.opts db.store

  abbrev pub sleep_staged :
      TieredStore S Txn Manifest Page Token
      → ManifestId
      → Option (Unit {0})
      → Step S FlockError (Option Token)
  sleep_staged t head none = give none
  sleep_staged t head (some done) = do
    on_err (Error.pager "position the staging store") (t.pager.set_head_to head)
    token ← on_err (tier "sleep") t.sleep
    give (some token)

  -- `none` where the fuel of the walk ran out. The kernel is dropped after the snapshot.
  unfoldable pub sleep : ℕ → Database → Tier → Step World FlockError (Option Token)
  unfolding snapshot pager stage
  sleep fuel db remote = do
    head ← snapshot db
    staging ← on_left (on_err (Error.pool "stage for sleep" db.root) sub.temp_dir)
    let config : StoreConfig = record {
      page_size = (pager db.store).pages.page_size;
      pool = sub.tier_pool remote;
    }
    t ← on_left (on_err (tier "open the staging store") (sub.open_tiered staging remote config))
    staged ← on_left (stage (pager db.store) t.pager fuel head)
    on_left (sleep_staged t head staged)

  unfoldable pub export_duckdb : Database → FilePath → Step World FlockError (Unit {0})
  unfolding export
  export_duckdb db path = on_err kernel (on_right (export duck db.kernel path))
