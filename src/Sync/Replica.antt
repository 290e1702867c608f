-- ===== src/Sync/Replica.antt =====
-- crates/flock-sync/src/replica.rs: a follower that applies shipments. Substrate's `DurableStore` is
-- the record below, with state `S` and transactions `Txn`; a commit reads the replay clock once.
-- The replica comes back beside an error too: what the store did before it stays done.
pub mod Outcome
pub mod Converge
pub mod Restore
pub mod Live
pub mod LiveRestore
use flockdb.Prelude.{
  ℕ, ◌+◌, max, Bool, true, false, not, String, List, [], ◌∷◌, Option, none, some, Result, ok, err,
  ◌>>=◌, map_err, ltb, ◌==◌, if◌then◌else◌,
}
use flockdb.Foreign.{ManifestId, PageId, LogicalPageNo, Lsn, Bytes, WalError}
use flockdb.Sync.Clock.{ReplayClock, new, set}
use flockdb.Sync.Error.{SyncError, wal, out_of_order, diverged, page_hash_mismatch, missing_page}
use flockdb.Sync.Shipment.{PageWrite, Shipment, bytes_for}
use flockdb.Sync.Source.{WalSource}
use flockdb.Sync.Stream.{shipments_from, resume_after}

pub record DurableStore (S Txn : Type 0) : Type 0 where
  pub head : S → ManifestId
  pub begin : S → Result WalError Txn
  pub write : Txn → LogicalPageNo → Bytes → S → Result WalError (PageId × Txn) × S
  pub remove : Txn → LogicalPageNo → S → Result WalError Txn × S
  pub commit : (now_ms : ℕ) → Txn → S → Result WalError ManifestId × S

pub data Applied : Type 0 where
  advanced already_present : Applied

pub record Replica (S : Type 0) : Type 0 where
  pub store : S
  pub clock : ReplayClock
  pub applied_lsn : Option Lsn

-- `Replica::new`, over a store that is open and recovered.
abbrev pub new_replica : {S : Type 0} → S → ReplayClock → Replica S
new_replica store clock = record { store = store; clock = clock; applied_lsn = none }

abbrev pub recovered :
    {S : Type 0} → ReplayClock → Result WalError (Unit {0}) × S → Result SyncError (Replica S)
recovered clock (err e, s) = err (wal "recover the follower store" e)
recovered clock (ok done, s) = ok (new_replica s clock)

-- `Replica::open`; the opening of the store and its recovery are substrate's.
unfoldable pub open_replica :
    {S : Type 0}
    → Result WalError S
    → (S → Result WalError (Unit {0}) × S)
    → Result SyncError (Replica S)
open_replica opened recover =
    map_err (wal "open the follower store") opened >>= λ s. recovered new (recover s)

-- `Replica::read`; the reading of a page is substrate's.
unfoldable pub read_replica :
    {S : Type 0}
    → (ManifestId → LogicalPageNo → S → Result WalError Bytes)
    → ManifestId
    → LogicalPageNo
    → Replica S
    → Result SyncError Bytes
read_replica read manifest page_no r =
    map_err (wal "read a page from the replica") (read manifest page_no r.store)

abbrev pub max_lsn : Option Lsn → Lsn → Lsn
max_lsn none lsn = lsn
max_lsn (some prev) lsn = max prev lsn

module _ {S Txn : Type 0} (st : DurableStore S Txn) where
  -- The staged page's hash against the id that the shipment claims.
  abbrev pub check_hash :
      LogicalPageNo → (id : PageId) → Result WalError (PageId × Txn) × S → Result SyncError Txn × S
  check_hash page_no id (err e, s) = (err (wal "stage a replicated page" e), s)
  check_hash page_no id (ok (staged, txn), s) =
      if staged == id then (ok txn, s) else (err (page_hash_mismatch page_no id staged), s)

  abbrev pub removed : Result WalError Txn × S → Result SyncError Txn × S
  removed (err e, s) = (err (wal "stage a replicated removal" e), s)
  removed (ok txn, s) = (ok txn, s)

  abbrev pub stage_bytes :
      Lsn → LogicalPageNo → (id : PageId) → Option Bytes → Txn → S → Result SyncError Txn × S
  stage_bytes lsn page_no id none txn s = (err (missing_page lsn page_no id), s)
  stage_bytes lsn page_no id (some bytes) txn s =
      check_hash page_no id (st.write txn page_no bytes s)

  -- One round of the loop over the writes.
  abbrev pub stage_page :
      Shipment → LogicalPageNo → Option PageId → Txn → S → Result SyncError Txn × S
  stage_page shipment page_no (some id) txn s =
      stage_bytes shipment.commit_lsn page_no id (bytes_for shipment id) txn s
  stage_page shipment page_no none txn s = removed (st.remove txn page_no s)

  abbrev pub and_then {ℓ} :
      {A : Type ℓ}
      → Result SyncError Txn × S
      → (Txn → S → Result SyncError A × S)
      → Result SyncError A × S
  and_then (ok txn, s) k = k txn s
  and_then (err e, s) k = (err e, s)

  unfoldable pub stage_writes : Shipment → List PageWrite → Txn → S → Result SyncError Txn × S
  stage_writes shipment [] txn s = (ok txn, s)
  stage_writes shipment (w ∷ ws) txn s =
      and_then (stage_page shipment w.page_no w.page txn s) (stage_writes shipment ws)

  -- The derived manifest against the one that was shipped.
  abbrev pub verify :
      Shipment → Replica S → Result WalError ManifestId × S → Result SyncError Applied × Replica S
  verify shipment r (err e, s) =
      (err (wal "commit a replicated transaction" e), record r { store = s })
  verify shipment r (ok got, s) =
      if got == shipment.manifest
      then (ok advanced, record r { store = s; applied_lsn = some shipment.commit_lsn })
      else (err (diverged shipment.commit_lsn shipment.manifest got), record r { store = s })

  abbrev pub commit_staged :
      Shipment → Replica S → Result SyncError Txn × S → Result SyncError Applied × Replica S
  commit_staged shipment r (err e, s) = (err e, record r { store = s })
  commit_staged shipment r (ok txn, s) =
      let clock = set shipment.created_at_ms r.clock in
      verify shipment (record r { clock = clock }) (st.commit clock.now_ms txn s)

  abbrev pub begun :
      Shipment → Replica S → Result WalError Txn → Result SyncError Applied × Replica S
  begun shipment r (err e) = (err (wal "begin the replica transaction" e), r)
  begun shipment r (ok txn) =
      commit_staged shipment r (stage_writes shipment shipment.writes txn r.store)

  unfoldable pub apply : Shipment → Replica S → Result SyncError Applied × Replica S
  apply shipment r =
      let head = st.head r.store in
      if head == shipment.manifest
      then (
        ok already_present,
        record r { applied_lsn = some (max_lsn r.applied_lsn shipment.commit_lsn) },
      )
      else if head == shipment.base
      then begun shipment r (st.begin r.store)
      else (err (out_of_order shipment.commit_lsn shipment.base head), r)

  abbrev pub tally : Applied → ℕ → ℕ
  tally advanced n = n + 1
  tally already_present n = n

  -- The loop of `catch_up`.
  unfoldable pub apply_all : List Shipment → ℕ → Replica S → Result SyncError ℕ × Replica S
  apply_all [] n r = (ok n, r)
  apply_all (s ∷ ss) n r =
      let (result, r') = apply s r in
      elim result [ err e ↦ (err e, r') | ok applied ↦ apply_all ss (tally applied n) r' ]

  abbrev pub on_stream {ℓ} :
      {A : Type ℓ}
      → Result SyncError (List Shipment)
      → Replica S
      → (List Shipment → Result SyncError A × Replica S)
      → Result SyncError A × Replica S
  on_stream (err e) r k = (err e, r)
  on_stream (ok ss) r k = k ss

  abbrev pub pending_stream : WalSource → Replica S → Result SyncError (List Shipment)
  pending_stream src r = resume_after src (st.head r.store) >>= shipments_from src

  unfoldable pub catch_up : WalSource → Replica S → Result SyncError ℕ × Replica S
  unfolding apply_all
  catch_up src r = on_stream (pending_stream src r) r (λ ss. apply_all ss 0 r)

  -- The loop of `restore_to`.
  unfoldable pub apply_until :
      Lsn → List Shipment → Replica S → Result SyncError (Unit {0}) × Replica S
  apply_until target [] r = (ok tt, r)
  apply_until target (s ∷ ss) r = elim (ltb target s.commit_lsn) [
    | true ↦ (ok tt, r)
    | false ↦
        let (result, r') = apply s r in
        elim result [ err e ↦ (err e, r') | ok applied ↦ apply_until target ss r' ]
  ]

  unfoldable pub restore_to : WalSource → Lsn → Replica S → Result SyncError (Unit {0}) × Replica S
  unfolding apply_until
  restore_to src target r = on_stream (pending_stream src r) r (λ ss. apply_until target ss r)
