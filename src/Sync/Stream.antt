-- ===== src/Sync/Stream.antt =====
-- crates/flock-sync/src/source.rs: `shipments_from`, `resume_after` and `manifest_at`.
pub mod Filtered
pub mod Position
pub mod Resume
pub mod AsOf
use flockdb.Prelude.{
  ℕ, ◌+◌, Bool, true, false, List, [], ◌∷◌, Option, none, some, Result, ok, err, ◌>>=◌, leb, ltb,
  ◌==◌, if◌then◌else◌,
}
use flockdb.Foreign.{ManifestId, Lsn}
use flockdb.Sync.Error.{SyncError, follower_unknown}
use flockdb.Sync.Shipment.{Shipment}
use flockdb.Sync.Source.{
  write, commit, checkpoint, WalRecord, entry, WalSource, Pending, read_checkpoint, start_head,
  insert_pending, build_shipment,
}
use flockdb.Sync.Log.{records}

-- checkpoint_lsn.is_some_and(|cp| record.lsn <= cp)
abbrev pub is_folded : Option Lsn → Lsn → Bool
is_folded none lsn = false
is_folded (some cp) lsn = leb lsn cp

abbrev pub emit :
    Bool
    → Result SyncError Shipment
    → Result SyncError (List Shipment)
    → Result SyncError (List Shipment)
emit true built rest = do shipment ← built; shipments ← rest; ok (shipment ∷ shipments)
emit false built rest = rest

abbrev pub lsn_of : Option (ManifestId × Lsn) → Option Lsn
lsn_of none = none
lsn_of (some (manifest, lsn)) = some lsn

unfoldable pub find_head : ManifestId → List Shipment → Result SyncError Lsn
find_head head [] = err (follower_unknown head)
find_head head (s ∷ shipments) =
    if s.manifest == head then ok (s.commit_lsn + 1) else find_head head shipments

unfoldable pub last_until : Lsn → Option ManifestId → List Shipment → Option ManifestId
last_until lsn at [] = at
last_until lsn at (s ∷ shipments) =
    let rest = last_until lsn (some s.manifest) shipments in
    if leb s.commit_lsn lsn then rest else at

module _ (src : WalSource) where
  unfoldable pub fold_records :
      (from : Lsn) (checkpoint_lsn : Option Lsn) (base : ManifestId)
      → Pending
      → List WalRecord
      → Result SyncError (List Shipment)
  fold_records from checkpoint_lsn base pending [] = ok []
  fold_records from checkpoint_lsn base pending (entry lsn kind ∷ rs) =
      elim (is_folded checkpoint_lsn lsn) [
        | true ↦ fold_records from checkpoint_lsn base pending rs
        | false ↦ elim kind [
          | write page_no page ↦
              fold_records from checkpoint_lsn base (insert_pending page_no page pending) rs
          | commit manifest created_at_ms ↦
              emit (leb from lsn) (build_shipment src base manifest lsn created_at_ms pending)
                (fold_records from checkpoint_lsn manifest [] rs)
          | checkpoint manifest ↦ fold_records from checkpoint_lsn manifest [] rs
        ]
      ]

  unfoldable pub shipments_from : Lsn → Result SyncError (List Shipment)
  unfolding fold_records
  shipments_from from = do
    cp ← read_checkpoint src
    base ← start_head src
    rs ← records src
    fold_records from (lsn_of cp) base [] rs

  unfoldable pub resume_after : ManifestId → Result SyncError Lsn
  unfolding find_head
  resume_after head = do
    start ← start_head src
    if head == start then ok 0 else (shipments_from 0 >>= find_head head)

  unfoldable pub manifest_at : Lsn → Result SyncError (Option ManifestId)
  unfolding last_until
  manifest_at lsn = do shipments ← shipments_from 0; ok (last_until lsn none shipments)
