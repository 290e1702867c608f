-- ===== src/Sync/Shipment.antt =====
-- crates/flock-sync/src/shipment.rs: one committed transaction with the bytes of its pages.
use flockdb.Prelude.{ℕ, List, [], ◌∷◌, Option, none, some, ◌==◌, if◌then◌else◌}
use flockdb.Foreign.{ManifestId, PageId, LogicalPageNo, Lsn, Bytes}

pub record PageWrite : Type 0 where
  pub page_no : LogicalPageNo
  pub page : Option PageId

pub record PageBlob : Type 0 where
  pub id : PageId
  pub bytes : Bytes

pub record Shipment : Type 0 where
  pub base : ManifestId
  pub manifest : ManifestId
  pub commit_lsn : Lsn
  pub created_at_ms : ℕ
  pub writes : List PageWrite
  pub pages : List PageBlob

-- The bytes of the first blob with the id.
unfoldable pub find_blob : List PageBlob → PageId → Option Bytes
find_blob [] id = none
find_blob (blob ∷ blobs) id = if blob.id == id then some blob.bytes else find_blob blobs id

unfoldable pub bytes_for : Shipment → PageId → Option Bytes
unfolding find_blob
bytes_for shipment id = find_blob shipment.pages id
