-- ===== src/Core/Replica/Visible.antt =====
-- What the queries of a read replica see.
use flockdb.Prelude.{
  suc, ◌≤◌, ◌≡◌, refl, sym, ap, ◌∙◌, ◌⊎◌, inl, inr, List, none, ok, err, Result-cases,
}
use flockdb.Prelude.Steps.{outcome}
use flockdb.Foreign.{ManifestId, Lsn}
use flockdb.Kernel.Duck.{DuckDb, open_kernel}
use flockdb.Kernel.Duck.Opened.{Hydrated, open_kernel-Hydrated}
use flockdb.Sync.Shipment.{Shipment}
use flockdb.Sync.Source.{WalSource}
use flockdb.Sync.Replica as Sync
use flockdb.Sync.Stream.{resume_after, last_until}
use flockdb.Sync.Stream.Resume.{IsPrimary}
use flockdb.Sync.Stream.AsOf.{or_start}
use flockdb.Sync.Replica.Outcome.{HeadLaws}
use flockdb.Sync.Replica.Restore.{restore_to_lands}
use flockdb.Core.Error.{FlockError, kernel}
use flockdb.Core.Store.{
  Store, local, tiered, head, pager, page_store, durable_handle, tiered_handle,
}
use flockdb.Core.Replica.{ReadReplica, State, apply, catch_up, refresh, restore_to, replica, synced}

module _ {S Txn Manifest Page Token F Conn Config Stmt Schema Batch : Type 0}
    (duck : DuckDb F Conn Config Stmt Schema Batch) where
  -- The queries' side of a follower: the kernel, the manifest that it shows, and DuckDB.
  pub record SameView (a b : State S Txn Manifest Page Token Conn F) : Type 0 where
    pub kernel : b.0.kernel ≡ a.0.kernel
    pub visible : b.0.visible ≡ a.0.visible
    pub disk : b.1.1 ≡ a.1.1
    pub store : b.0.store ≡ a.0.store

  -- Whatever the sync crate's call does, and whether it fails or not, applying a shipment and catching
  -- up leave what the queries see: the kernel, the manifest that it shows, and DuckDB's files.
  pub apply-SameView :
      (shipment : Shipment) (source : WalSource) (st : State S Txn Manifest Page Token Conn F)
      → SameView st (apply duck shipment st).1 × SameView st (catch_up duck source st).1
  unfolding apply catch_up
  apply-SameView shipment source (r, (s, f)) = (
    elim (Result-cases (Sync.apply r.follower shipment (replica duck r s)).0) [
      | inl (a, e) ↦ rw e (record { kernel = refl; visible = refl; disk = refl; store = refl })
      | inr (x, e) ↦ rw e (record { kernel = refl; visible = refl; disk = refl; store = refl })
    ],
    record { kernel = refl; visible = refl; disk = refl; store = refl },
  )

  page_store-head :
      (store : Store S Txn Manifest Page Token) (s : S) → (page_store store).head s ≡ head store s
  unfolding page_store head pager durable_handle tiered_handle
  page_store-head (local d) s = refl
  page_store-head (tiered t) s = refl

  -- The view of a follower that was brought up to its applied head.
  pub record Shows (before after : State S Txn Manifest Page Token Conn F) : Type 0 where
    pub store : after.0.store ≡ before.0.store
    pub stores : after.1.0 ≡ before.1.0
    pub visible : after.0.visible ≡ head before.0.store before.1.0
    pub hydrated :
        Hydrated duck
          (page_store before.0.store)
          before.1.0
          after.1.0
          before.1.1
          after.1.1
          after.0.kernel

  -- A refresh that returned: the manifest that queries see is the head of the follower's store, the
  -- new kernel was hydrated from that head, and the stores are as they were. One that failed left the
  -- handle as it was, with the old kernel and the manifest that it shows.
  pub refresh-Shows :
      (st : State S Txn Manifest Page Token Conn F)
      → ((refresh duck st).0 ≡ ok tt × Shows st (refresh duck st).1)
        ⊎ ((e : FlockError) × ((refresh duck st).0 ≡ err e) × ((refresh duck st).1.0 ≡ st.0))
  unfolding refresh
  refresh-Shows (r, (s, f)) = elim (outcome (open_kernel duck (page_store r.store) r.opts (s, f))) [
    | inr (e, w', h) ↦ inr (kernel e, rw h refl, rw h refl)
    | inl (k, (s', f'), h) ↦
        let z = open_kernel-Hydrated duck (page_store r.store) r.opts s s' f f' k h in
        rw h (
          inl (
            refl,
            record {
              store = refl;
              stores = z.kept;
              visible = ap (head r.store) z.kept;
              hydrated = z;
            },
          ))
  ]

module _ {S Txn Manifest Page Token F Conn Config Stmt Schema Batch : Type 0}
    (duck : DuckDb F Conn Config Stmt Schema Batch) (r : ReadReplica S Txn Manifest Page Token Conn)
    (laws : HeadLaws r.follower) (one_store : (s : S) → head r.store s ≡ r.follower.head s) where
  -- A follower of a primary with a well-formed log that is not past `target`, over a store with the
  -- documented laws of heads that both of its sides see: where `restore_to` returns without error,
  -- the handle shows the manifest that the primary had as of `target`, or the start of the log where
  -- no commit is that old; and its kernel, which serves the queries, is a new one that was hydrated
  -- from the follower's stores while that manifest was their head.
  pub restore_to-visible :
      (src : WalSource) (start : ManifestId) (all : List Shipment) (target from : Lsn) (s : S)
      (f : F)
      → IsPrimary src start all
      → resume_after src (r.follower.head s) ≡ ok from
      → from ≤ suc target
      → (restore_to duck src target (r, (s, f))).0 ≡ ok tt
      → let m = or_start (last_until target none all) start in
        let out = (restore_to duck src target (r, (s, f))).1 in
        (out.0.visible ≡ m)
        × (landed : S) × ((page_store r.store).head landed ≡ m)
        × Hydrated duck (page_store r.store) landed out.1.0 f out.1.1 out.0.kernel
  unfolding restore_to
  restore_to-visible src start all target from s f p at within h =
      let out = Sync.restore_to r.follower src target (replica duck r s) in
      let named = synced duck "restore to a point in time" r f out in
      elim (Result-cases out.0) [
        | inr (e, fails) ↦ absurd (let z = rw fails at h in cc z)
        | inl (done, e) ↦
            let lands =
              restore_to_lands r.follower laws src start all target from (replica duck r s) p at
                within e in
            let ran : (refresh duck named.1).0 ≡ ok tt = rw e at h in
            elim (refresh-Shows duck named.1) [
              | inr (x, fails, left) ↦ absurd (let z = sym ran ∙ fails in cc z)
              | inl (returned, shows) ↦ (
                rw e (shows.visible ∙ one_store out.1.store ∙ lands.1),
                out.1.store,
                page_store-head duck r.store out.1.store ∙ one_store out.1.store ∙ lands.1,
                rw e shows.hydrated,
              )
            ]
      ]
