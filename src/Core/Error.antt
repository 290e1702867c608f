-- ===== src/Core/Error.antt =====
-- crates/flock-core/src/error.rs.
use flockdb.Prelude.{String}
use flockdb.Foreign.{ManifestId, PagerError, WalError, StoreError, IoError, Text, FilePath}
use flockdb.Kernel.Error.{KernelError}
use flockdb.Sync.Error.{SyncError}

pub data FlockError : Type 0 where
  kernel : KernelError → FlockError
  pager : (op : String) → (source : PagerError) → FlockError
  wal : (op : String) → (source : WalError) → FlockError
  bad_name : (name : Text) → (reason : String) → FlockError
  name_taken : (name : Text) → (path : FilePath) → FlockError
  unknown_snapshot : (manifest : ManifestId) → FlockError
  pool : (op : String) → (path : FilePath) → (source : IoError) → FlockError
  tier : (op : String) → (source : StoreError) → FlockError
  sync : (op : String) → (source : SyncError) → FlockError
  unsupported : (what why : String) → FlockError
