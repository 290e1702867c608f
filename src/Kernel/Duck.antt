-- ===== src/Kernel/Duck.antt =====
-- crates/flock-kernel/src/duck.rs and stream.rs: the SQL engine over a page store. DuckDB, its
-- connections and the scratch file system have state `F`, the page store `S`. A kernel's directory
-- is deleted when the kernel is dropped; later kernels have directories of their own, so that is
-- left out.
pub mod Quote
pub mod Sealed
pub mod Export
pub mod Opened
use flockdb.Prelude.{
  ℕ, zero, suc, ◌+◌, Bool, true, false, List, [], ◌∷◌, ◌++◌, Option, none, some, String, Result, ok,
  err, map_err, ◌==◌, if◌then◌else◌,
}
use flockdb.Prelude.Int.{ℤ}
use flockdb.Prelude.Texts.{codes, replace, rsplit_once, same_text}
use flockdb.Prelude.Steps.{Step, ◌>>=◌, ◌>>◌, give, fail, look, on_err, on_left, on_right}
use flockdb.Foreign.{ManifestId, IoError, DuckError, Text, FilePath}
use flockdb.Kernel.Error.{
  KernelError, sql, open_failed, scratch, export_failed, already_exists, refused,
}
use flockdb.Kernel.Paging.{PageStore, ScratchFile, hydrate, persist}

pub record KernelOpts : Type 0 where
  pub threads : Option ℤ
  pub max_memory : Option Text

unfoldable pub set_threads : ℤ → KernelOpts → KernelOpts
set_threads n opts = record { threads = some n; max_memory = opts.max_memory }

unfoldable pub set_max_memory : Text → KernelOpts → KernelOpts
set_max_memory limit opts = record { threads = opts.threads; max_memory = some limit }

pub record ArrowStream (Schema Batch : Type 0) : Type 0 where
  pub schema : Schema
  pub batches : List Batch

-- `std::fs::metadata` of DuckDB's log: its length, or why there is none.
pub data WalMetadata : Type 0 where
  long : ℕ → WalMetadata
  gone : WalMetadata
  unread : IoError → WalMetadata

-- DuckDB as `duckdb-rs` offers it, and the file system that it works on.
pub record DuckDb (F Conn Config Stmt Schema Batch : Type 0) : Type 0 where
  pub temp_dir : Step F IoError FilePath
  pub scratch_file : FilePath → ScratchFile F
  pub metadata : FilePath → F → WalMetadata
  pub exists : FilePath → F → Bool
  pub to_string_lossy : FilePath → Text
  pub default_config : Config
  pub threads : ℤ → Config → Result DuckError Config
  pub max_memory : Text → Config → Result DuckError Config
  pub open_with_flags : FilePath → Config → Step F DuckError Conn
  pub execute_batch : Conn → Text → Step F DuckError (Unit {0})
  pub execute : Conn → Text → Step F DuckError ℕ
  pub prepare : Conn → Text → Step F DuckError Stmt
  pub query_arrow : Stmt → Step F DuckError (ArrowStream Schema Batch)
  pub query_row : Conn → Text → Step F DuckError Text
  pub num_rows : Batch → ℕ

pub record DuckDbKernel (S Txn Conn : Type 0) : Type 0 where
  pub store : PageStore S Txn
  pub conn : Conn
  pub path : FilePath

abbrev pub scratch_name : Text
scratch_name = codes "flock.duckdb"

abbrev pub stem_of : Text → Option (Text × Text) → Text
stem_of name none = name
stem_of name (some ([], behind)) = name
stem_of name (some (c ∷ before, behind)) = c ∷ before

-- `Path::with_extension`.
unfoldable pub with_extension : Text → FilePath → FilePath
unfolding rsplit_once
with_extension ext [] = []
with_extension ext (name ∷ []) = (stem_of name (rsplit_once b'.' name) ++ b'.' ∷ ext) ∷ []
with_extension ext (dir ∷ name ∷ path) = dir ∷ with_extension ext (name ∷ path)

abbrev pub wal_path : FilePath → FilePath
wal_path path = with_extension (codes "duckdb.wal") path

unfoldable pub sql_string_literal : Text → Text
unfolding replace
sql_string_literal s = b'\'' ∷ replace b'\'' (codes "''") s ++ b'\'' ∷ []

unfoldable pub sql_identifier : Text → Text
unfolding replace
sql_identifier s = b'"' ∷ replace b'"' (b'"' ∷ b'"' ∷ []) s ++ b'"' ∷ []

unfoldable pub export_script : Text → Text → Text
unfolding sql_string_literal sql_identifier
export_script target source =
    let last = codes " TO flock_export; DETACH flock_export;" in
    let copies = codes " AS flock_export (TYPE DUCKDB); COPY FROM DATABASE " in
    codes "ATTACH " ++ (sql_string_literal target ++ (copies ++ (sql_identifier source ++ last)))

-- The `match` on the log's metadata.
abbrev pub check_wal : WalMetadata → Result KernelError (Unit {0})
check_wal gone = ok tt
check_wal (unread e) = err (scratch "stat DuckDB's WAL after CHECKPOINT" e)
check_wal (long zero) = ok tt
check_wal (long (suc n)) = err (
    scratch "verify DuckDB's WAL is empty after CHECKPOINT"
      "DuckDB left bytes in its WAL after a CHECKPOINT")

module _ {F Conn Config Stmt Schema Batch : Type 0}
    (duck : DuckDb F Conn Config Stmt Schema Batch) where
  unfoldable pub sum_rows : List Batch → ℕ
  sum_rows [] = 0
  sum_rows (b ∷ bs) = duck.num_rows b + sum_rows bs

  unfoldable pub num_rows : ArrowStream Schema Batch → ℕ
  unfolding sum_rows
  num_rows rows = sum_rows rows.batches

  unfoldable pub is_empty : ArrowStream Schema Batch → Bool
  unfolding num_rows
  is_empty rows = num_rows rows == 0

  -- An option of the configuration, where it is given.
  abbrev pub option :
      {A : Type 0}
      → FilePath
      → (A → Config → Result DuckError Config)
      → Option A
      → Config
      → Result KernelError Config
  option path set none config = ok config
  option path set (some a) config = map_err (open_failed path) (set a config)

  unfoldable pub execute_batch : Conn → Text → Step F KernelError (Unit {0})
  execute_batch conn script = on_err (sql script) (duck.execute_batch conn script)

  unfoldable pub current_database : Conn → Step F KernelError Text
  current_database conn =
      let statement = codes "SELECT current_database()" in
      on_err (sql statement) (duck.query_row conn statement)

  module _ {S Txn : Type 0} where
    abbrev pub filled : PageStore S Txn → FilePath → Step (S × F) KernelError (Unit {0})
    filled st path w =
        let out = hydrate st (duck.scratch_file path) (st.head w.0) w.1 w.0 in (out.0, (w.0, out.1))

    unfoldable pub open_kernel :
        PageStore S Txn → KernelOpts → Step (S × F) KernelError (DuckDbKernel S Txn Conn)
    unfolding hydrate
    open_kernel st opts = do
      dir ← on_right (on_err (scratch "create scratch dir") duck.temp_dir)
      let path = dir ++ scratch_name ∷ []
      filled st path
      config ← look (λ _. option path duck.threads opts.threads duck.default_config)
      config ← look (λ _. option path duck.max_memory opts.max_memory config)
      conn ← on_right (on_err (open_failed path) (duck.open_with_flags path config))
      give (record { store = st; conn = conn; path = path })

    unfoldable pub query :
        DuckDbKernel S Txn Conn → Text → Step (S × F) KernelError (ArrowStream Schema Batch)
    query k text = do
      stmt ← on_right (on_err (sql text) (duck.prepare k.conn text))
      on_right (on_err (sql text) (duck.query_arrow stmt))

    unfoldable pub execute : DuckDbKernel S Txn Conn → Text → Step (S × F) KernelError ℕ
    execute k text = on_right (on_err (sql text) (duck.execute k.conn text))

    unfoldable pub fold_wal_into_main_file : DuckDbKernel S Txn Conn → Step F KernelError (Unit {0})
    unfolding execute_batch with_extension
    fold_wal_into_main_file k = do
      execute_batch k.conn (codes "CHECKPOINT")
      look (λ f. check_wal (duck.metadata (wal_path k.path) f))

    abbrev pub persisted : DuckDbKernel S Txn Conn → Step (S × F) KernelError ManifestId
    persisted k w =
        let out = persist k.store (duck.scratch_file k.path) w.1 w.0 in (out.0, (out.1, w.1))

    unfoldable pub checkpoint : DuckDbKernel S Txn Conn → Step (S × F) KernelError ManifestId
    unfolding fold_wal_into_main_file persist
    checkpoint k = do on_right (fold_wal_into_main_file k); persisted k

    unfoldable pub export : DuckDbKernel S Txn Conn → FilePath → Step F KernelError (Unit {0})
    unfolding current_database execute_batch export_script
    export k path f =
        if duck.exists path f
        then (err (export_failed path already_exists), f)
        else ((do
          source ← current_database k.conn
          on_err (λ e. export_failed path (refused e))
              (execute_batch k.conn (export_script (duck.to_string_lossy path) source)))
            f)
