-- ===== src/Kernel/Error.antt =====
-- crates/flock-kernel/src/error.rs. DuckDB's errors are carried as their rendered texts.
use flockdb.Prelude.{ℕ, String}
use flockdb.Foreign.{ManifestId, LogicalPageNo, PagerError, IoError, Text, FilePath, DuckError}

-- `export_failed`'s reason: a text of its own, or the error that DuckDB refused with.
mutual
  pub data ExportReason : Type 0 where
    already_exists : ExportReason
    refused : KernelError → ExportReason

  pub data KernelError : Type 0 where
    sql : (sql : Text) → (source : DuckError) → KernelError
    open_failed : (path : FilePath) → (source : DuckError) → KernelError
    scratch : (op : String) → (source : IoError) → KernelError
    store : (op : String) → (source : PagerError) → KernelError
    corrupt_layout :
        (manifest : ManifestId)
        → (page_no : LogicalPageNo) → (expected_offset actual_offset : ℕ) → KernelError
    export_failed : (path : FilePath) → (reason : ExportReason) → KernelError
