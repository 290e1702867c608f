-- ===== src/Sync/Error.antt =====
-- crates/flock-sync/src/error.rs. The hexadecimal texts of ids (`to_hex`) are kept as the ids.
use flockdb.Prelude.{String}
use flockdb.Foreign.{ManifestId, PageId, LogicalPageNo, Lsn, PagerError, WalError, IoError}

pub data SyncError : Type 0 where
  pager : (op : String) → (source : PagerError) → SyncError
  wal : (op : String) → (source : WalError) → SyncError
  out_of_order : (lsn : Lsn) → (expected_base head : ManifestId) → SyncError
  diverged : (lsn : Lsn) → (expected got : ManifestId) → SyncError
  page_hash_mismatch : (page_no : LogicalPageNo) → (claimed actual : PageId) → SyncError
  missing_page : (lsn : Lsn) → (page_no : LogicalPageNo) → (page_id : PageId) → SyncError
  follower_unknown : (head : ManifestId) → SyncError
  io : (path : String) → (source : IoError) → SyncError
  unsupported : (what why : String) → SyncError
