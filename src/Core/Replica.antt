-- ===== src/Core/Replica.antt =====
-- crates/flock-core/src/replica.rs: a follower that serves queries. Its durable store is seen by the
-- SQL engine as a page store, `store`, and by the sync crate's replica as what that crate uses,
-- `follower`: one store, whose state is `S`. Calls change the handle too, also where they fail.
pub mod Visible
use flockdb.Prelude.{ℕ, String, Option, none, Result, ok, err, map_err}
use flockdb.Prelude.Steps.{Step, ◌>>=◌, ◌>>◌, give, fail, look, on_err, on_left, after}
use flockdb.Foreign.{ManifestId, Lsn, WalError, Text, FilePath}
use flockdb.Kernel.Duck.{DuckDb, DuckDbKernel, KernelOpts, ArrowStream, open_kernel}
use flockdb.Kernel.Duck as Duck
use flockdb.Sync.Clock.{ReplayClock}
use flockdb.Sync.Clock as Clock
use flockdb.Sync.Error.{SyncError}
use flockdb.Sync.Shipment.{Shipment}
use flockdb.Sync.Source.{WalSource}
use flockdb.Sync.Replica as Sync
use flockdb.Core.Error.{FlockError, kernel, wal, sync}
use flockdb.Core.Pool.{PoolFs, validate_name, link_db_to_shared_cas}
use flockdb.Core.Store.{DurableStore, Store, local, head, page_store}

pub record ReadReplica (S Txn Manifest Page Token Conn : Type 0) : Type 0 where
  pub name : Text
  pub root : FilePath
  pub follower : Sync.DurableStore S Txn
  pub clock : ReplayClock
  pub applied_lsn : Option Lsn
  pub store : Store S Txn Manifest Page Token
  pub kernel : DuckDbKernel S Txn Conn
  pub visible : ManifestId
  pub opts : KernelOpts

-- A follower's handle, with the stores and DuckDB's side.
abbrev pub State : (S Txn Manifest Page Token Conn F : Type 0) → Type 0
State S Txn Manifest Page Token Conn F = ReadReplica S Txn Manifest Page Token Conn × (S × F)

module _ {S Txn Manifest Page Token F Conn Config Stmt Schema Batch : Type 0}
    (duck : DuckDb F Conn Config Stmt Schema Batch) where
  -- The sync crate's replica in it.
  abbrev pub replica : ReadReplica S Txn Manifest Page Token Conn → S → Sync.Replica S
  replica r s = record { store = s; clock = r.clock; applied_lsn = r.applied_lsn }

  -- `DurableStore::open_with_clock`, as the two views of the store, is a parameter.
  unfoldable pub open_with :
      PoolFs S
      → (FilePath → Step S WalError (DurableStore S Txn Manifest Page × Sync.DurableStore S Txn))
      → FilePath
      → Text
      → KernelOpts
      → Step (S × F) FlockError (ReadReplica S Txn Manifest Page Token Conn)
  unfolding validate_name link_db_to_shared_cas page_store open_kernel head
  open_with fs open_with_clock root db_name opts = do
    look (λ _. validate_name db_name)
    dir ← on_left (link_db_to_shared_cas fs root db_name)
    durable ← on_left (on_err (wal "open the replica's durable store") (open_with_clock dir))
    on_left (on_err (wal "replay the replica's log") durable.0.recover)
    let store : Store S Txn Manifest Page Token = local durable.0
    k ← on_err kernel (open_kernel duck (page_store store) opts)
    visible ← look (λ w. ok (head store w.0))
    give (record {
      name = db_name;
      root = root;
      follower = durable.1;
      clock = Clock.new;
      applied_lsn = none;
      store = store;
      kernel = k;
      visible = visible;
      opts = opts;
    })

  unfoldable pub applied_head : State S Txn Manifest Page Token Conn F → ManifestId
  applied_head (r, w) = r.follower.head w.0

  -- What the sync crate's call leaves, with its error named.
  abbrev pub synced :
      {A : Type 0}
      → String
      → ReadReplica S Txn Manifest Page Token Conn
      → F
      → Result SyncError A × Sync.Replica S
      → Result FlockError A × State S Txn Manifest Page Token Conn F
  synced op r f out = (
    map_err (sync op) out.0,
    (record r { clock = out.1.clock; applied_lsn = out.1.applied_lsn }, (out.1.store, f)),
  )

  -- `.map(|_| ())`
  abbrev pub forget :
      Result FlockError Sync.Applied × State S Txn Manifest Page Token Conn F
      → Result FlockError (Unit {0}) × State S Txn Manifest Page Token Conn F
  forget (ok applied, st) = (ok tt, st)
  forget (err e, st) = (err e, st)

  unfoldable pub apply :
      Shipment
      → State S Txn Manifest Page Token Conn F
      → Result FlockError (Unit {0}) × State S Txn Manifest Page Token Conn F
  apply shipment (r, w) =
      forget
        (synced "apply a shipped commit" r w.1 (Sync.apply r.follower shipment (replica r w.0)))

  unfoldable pub catch_up :
      WalSource
      → State S Txn Manifest Page Token Conn F
      → Result FlockError ℕ × State S Txn Manifest Page Token Conn F
  catch_up source (r, w) =
      synced "catch up to the primary" r w.1 (Sync.catch_up r.follower source (replica r w.0))

  -- The new kernel takes the old one's place only once it is open.
  abbrev pub refreshed :
      ReadReplica S Txn Manifest Page Token Conn
      → Result FlockError (DuckDbKernel S Txn Conn) × (S × F)
      → Result FlockError (Unit {0}) × State S Txn Manifest Page Token Conn F
  refreshed r (err e, w) = (err e, (r, w))
  refreshed r (ok k, w) = (ok tt, (record r { kernel = k; visible = head r.store w.0 }, w))

  unfoldable pub refresh :
      State S Txn Manifest Page Token Conn F
      → Result FlockError (Unit {0}) × State S Txn Manifest Page Token Conn F
  unfolding page_store open_kernel head
  refresh (r, w) = refreshed r (on_err kernel (open_kernel duck (page_store r.store) r.opts) w)

  unfoldable pub restore_to :
      WalSource
      → Lsn
      → State S Txn Manifest Page Token Conn F
      → Result FlockError (Unit {0}) × State S Txn Manifest Page Token Conn F
  unfolding refresh
  restore_to source target (r, w) =
      after
        (synced "restore to a point in time" r w.1
          (Sync.restore_to r.follower source target (replica r w.0)))
        (λ _. refresh)

  unfoldable pub query :
      Text
      → State S Txn Manifest Page Token Conn F
      → Result FlockError (ArrowStream Schema Batch) × State S Txn Manifest Page Token Conn F
  query text (r, w) =
      let out = on_err kernel (Duck.query duck r.kernel text) w in (out.0, (r, out.1))
