-- ===== src/Sync/Source.antt =====
-- crates/flock-sync/src/source.rs: from the write-ahead log on disk to shipments. The VFS, the log's
-- frame decoder (`Record::decode`), the page store and the empty root manifest are substrate's, and
-- are the fields of `WalSource`; a file name is its list of characters.
use flockdb.Prelude.{
  ℕ, Bool, true, false, List, [], ◌∷◌, ◌++◌, Option, none, some, Result, ok, err, ◌>>=◌, map_err,
  leb, ◌==◌, if◌then◌else◌,
}
use flockdb.Foreign.{ManifestId, PageId, LogicalPageNo, Lsn, Bytes, PagerError, IoError}
use flockdb.Sync.Error.{SyncError, pager, missing_page, io}
use flockdb.Sync.Shipment.{PageWrite, PageBlob, Shipment}

pub data RecordKind : Type 0 where
  write : LogicalPageNo → Option PageId → RecordKind
  commit : (manifest : ManifestId) → (created_at_ms : ℕ) → RecordKind
  checkpoint : (manifest : ManifestId) → RecordKind

-- `Record { lsn, kind }`
pub data WalRecord : Type 0 where
  entry : (lsn : Lsn) → (kind : RecordKind) → WalRecord

pub data ReadOutcome : Type 0 where
  complete : WalRecord → (consumed : ℕ) → ReadOutcome
  torn : ReadOutcome

pub data Listing : Type 0 where
  not_found : Listing
  failed : IoError → Listing
  -- The names of the entries; `none` where `file_name()` or `to_str()` has none.
  entries : List (Option Bytes) → Listing

pub record WalSource : Type 0 where
  pub checkpoint_exists : Bool
  pub read_checkpoint_file : Result IoError Bytes
  pub read_dir : Listing
  pub read_segment : ℕ → Result IoError Bytes
  pub decode : Bytes → ReadOutcome
  pub cas_get : PageId → Result PagerError Bytes
  pub empty_root : Result PagerError ManifestId

abbrev pub checkpoint_of : ReadOutcome → Option (ManifestId × Lsn)
checkpoint_of (complete (entry lsn (checkpoint manifest)) _) = some (manifest, lsn)
checkpoint_of _ = none

unfoldable pub read_checkpoint : WalSource → Result SyncError (Option (ManifestId × Lsn))
read_checkpoint src =
    if src.checkpoint_exists
    then map_err (io "CHECKPOINT") src.read_checkpoint_file
      >>= (λ bytes. ok (checkpoint_of (src.decode bytes)))
    else ok none

abbrev pub start_or_empty : WalSource → Option (ManifestId × Lsn) → Result SyncError ManifestId
start_or_empty src none = map_err (pager "name the empty root manifest") src.empty_root
start_or_empty src (some (manifest, lsn)) = ok manifest

unfoldable pub start_head : WalSource → Result SyncError ManifestId
unfolding read_checkpoint
start_head src = read_checkpoint src >>= start_or_empty src

-- `BTreeMap<LogicalPageNo, Option<PageId>>` in key order.
abbrev pub Pending : Type 0
Pending = List PageWrite

unfoldable pub insert_pending : LogicalPageNo → Option PageId → Pending → Pending
insert_pending p page [] = record { page_no = p; page = page } ∷ []
insert_pending p page (w ∷ ws) =
    if leb p w.page_no
    then if p == w.page_no
      then record { page_no = p; page = page } ∷ ws
      else record { page_no = p; page = page } ∷ w ∷ ws
    else w ∷ insert_pending p page ws

unfoldable pub has_blob : List PageBlob → PageId → Bool
has_blob [] id = false
has_blob (b ∷ blobs) id = if b.id == id then true else has_blob blobs id

module _ (src : WalSource) where
  -- The blobs with the one for a page that the commit set, fetched once.
  unfoldable pub fetch_blob :
      Lsn → LogicalPageNo → Option PageId → List PageBlob → Result SyncError (List PageBlob)
  unfolding has_blob
  fetch_blob lsn page_no none blobs = ok blobs
  fetch_blob lsn page_no (some id) blobs =
      if has_blob blobs id then ok blobs else elim (src.cas_get id) [
        | ok bytes ↦ ok (blobs ++ record { id = id; bytes = bytes } ∷ [])
        | err e ↦ err (missing_page lsn page_no id)
      ]

  unfoldable pub collect_blobs : Lsn → Pending → List PageBlob → Result SyncError (List PageBlob)
  unfolding fetch_blob
  collect_blobs lsn [] blobs = ok blobs
  collect_blobs lsn (w ∷ ws) blobs = fetch_blob lsn w.page_no w.page blobs >>= collect_blobs lsn ws

  unfoldable pub build_shipment :
      (base manifest : ManifestId) → Lsn → (created_at_ms : ℕ) → Pending → Result SyncError Shipment
  unfolding collect_blobs
  build_shipment base manifest commit_lsn created_at_ms writes = do
    blobs ← collect_blobs commit_lsn writes []
    ok (record {
      base = base;
      manifest = manifest;
      commit_lsn = commit_lsn;
      created_at_ms = created_at_ms;
      writes = writes;
      pages = blobs;
    })
