-- ===== src/Core/Db/Restored.antt =====
-- Back to a snapshot: the bytes that DuckDB had written are the bytes that it is given again.
use flockdb.Prelude.{
  ◌<◌, ◌≡◌, refl, ◌∙◌, inl, inr, List, [], ◌∷◌, ◌++◌, Bool-cases, ok, Result-cases, length, ◌==◌,
  ◌*◌,
}
use flockdb.Prelude.Texts.{codes}
use flockdb.Foreign.{ManifestId, LogicalPageNo, Bytes, Text, FilePath}
use flockdb.Kernel.Paging.{PageStore, put_file, hydrate, hydrate_pages, assemble}
use flockdb.Kernel.Paging.Store.{Healthy}
use flockdb.Kernel.Paging.RoundTrip.{persist-assemble}
use flockdb.Kernel.Duck.{
  DuckDb, KernelOpts, wal_path, filled, execute_batch, fold_wal_into_main_file, checkpoint,
}
use flockdb.Kernel.Duck.Sealed.{Emptied, Emptied-check_wal}
use flockdb.Core.Store.{DurableStore, local, durable_handle}
use flockdb.Core.Db.{Substrate, Db, open_on, snapshot, rewind_to, restore}

module _ {S Txn : Type 0} (st : PageStore S Txn) where
  -- The manifests read as they did.
  pub record SameReads (s s' : S) : Type 0 where
    pub resolve : (m : ManifestId) → st.resolve m s' ≡ st.resolve m s
    pub read : (m : ManifestId) (p : LogicalPageNo) → st.read m p s' ≡ st.read m p s

  hydrate_pages-SameReads :
      (s s' : S) (m : ManifestId) (pages : List LogicalPageNo) (file : Bytes)
      → SameReads s s'
      → hydrate_pages st m pages file s' ≡ hydrate_pages st m pages file s
  unfolding hydrate_pages
  hydrate_pages-SameReads s s' m [] file same = refl
  hydrate_pages-SameReads s s' m (p ∷ pages) file same =
      elim (Bool-cases (length file == p * st.page_size)) [
        | inr gap ↦ rw (gap, hydrate_pages) refl
        | inl aligned ↦ elim (Result-cases (st.read m p s)) [
          | inr (e, fails) ↦ rw (aligned, same.read m p, fails, hydrate_pages) refl
          | inl (b, reads) ↦
              rw (aligned, same.read m p, reads, hydrate_pages)
                (hydrate_pages-SameReads s s' m pages (file ++ b) same)
        ]
      ]

  assemble-SameReads :
      (s s' : S) (m : ManifestId) → SameReads s s' → assemble st m s' ≡ assemble st m s
  unfolding assemble
  assemble-SameReads s s' m same = elim (Result-cases (st.resolve m s)) [
    | inr (e, fails) ↦ rw (same.resolve m) (rw fails refl)
    | inl (keys, resolves) ↦
        rw (same.resolve m) (rw resolves (hydrate_pages-SameReads s s' m keys [] same))
  ]

  SameReads-trans : (a b c : S) → SameReads a b → SameReads b c → SameReads a c
  SameReads-trans a b c x y = record {
    resolve = λ m. y.resolve m ∙ x.resolve m;
    read = λ m p. y.read m p ∙ x.read m p;
  }

-- What substrate promises of going back: to a manifest that resolves, without touching what is
-- stored; of recording the head in the log, `logged`; and of recovery, which puts the head there.
pub record Rewinds {S Txn Manifest Page : Type 0} (d : DurableStore S Txn Manifest Page)
    : Type 0 where
  pub logged : S → ManifestId
  pub goes_back :
      (m : ManifestId) (s : S) (keys : List LogicalPageNo)
      → d.pager.pages.resolve m s ≡ ok keys
      → (found : Manifest) × (s' : S) × (d.pager.manifest m s ≡ ok found)
        × (d.pager.rewind m s ≡ (ok tt, s'))
        × (d.pager.pages.head s' ≡ m)
        × SameReads (durable_handle d) s s'
  pub records :
      (s : S)
      → (s' : S) × (d.checkpoint s ≡ (ok tt, s'))
        × (d.pager.pages.head s' ≡ d.pager.pages.head s)
        × SameReads (durable_handle d) s s'
        × (logged s' ≡ d.pager.pages.head s)
  pub recovers :
      (s : S) → (s' : S) × (d.recover s ≡ (ok tt, s')) × (d.pager.pages.head s' ≡ logged s)

module _ {S Txn Manifest Page Token Tier Source F Conn Config Stmt Schema Batch : Type 0}
    (sub : Substrate S Txn Manifest Page Token Tier Source)
    (duck : DuckDb F Conn Config Stmt Schema Batch) (d : DurableStore S Txn Manifest Page) where
  -- A local database's handle.
  abbrev pub local_db :
      Text → FilePath → KernelOpts → Conn → FilePath → Db S Txn Manifest Page Token Conn
  local_db name root opts conn path = record {
    name = name;
    root = root;
    store = local d;
    kernel = record { store = durable_handle d; conn = conn; path = path };
    opts = opts;
  }

  resolves :
      (m : ManifestId) (s : S) (bytes : Bytes)
      → assemble (durable_handle d) m s ≡ ok bytes
      → (keys : List LogicalPageNo) × (d.pager.pages.resolve m s ≡ ok keys)
  unfolding assemble durable_handle
  resolves m s bytes h = elim (Result-cases (d.pager.pages.resolve m s)) [
    | inl (keys, e) ↦ (keys, e)
    | inr (e, fails) ↦ absurd (let z = rw fails at h in cc z)
  ]

  -- A restore from a state of the stores: up to the opening of its kernel it leaves a store that is at
  -- the manifest, from which a scratch file is filled with the bytes, and whose log recovers to it.
  pub record RestoredTo (name : Text) (root : FilePath) (opts : KernelOpts) (conn : Conn)
      (path : FilePath) (m : ManifestId) (bytes : Bytes) (later : S) : Type 0 where
    pub back : S
    pub restores :
        (g : F)
        → restore sub duck (local_db name root opts conn path) m (later, g)
          ≡ open_on sub duck name root opts (local d) (back, g)
    pub head_is : (durable_handle d).head back ≡ m
    pub fills :
        (into : FilePath) (g : F)
        → filled duck (durable_handle d) into (back, g)
          ≡ (let out = put_file (duck.scratch_file into) bytes g in (out.0, (back, out.1)))
    pub recovered : S
    pub replays : d.recover back ≡ (ok tt, recovered)
    pub stays : d.pager.pages.head recovered ≡ m

  restore-RestoredTo :
      Rewinds d
      → (name : Text) (root : FilePath) (opts : KernelOpts) (conn : Conn) (path : FilePath)
        (m : ManifestId) (bytes : Bytes) (later : S)
      → assemble (durable_handle d) m later ≡ ok bytes
      → RestoredTo name root opts conn path m bytes later
  unfolding restore rewind_to hydrate
  restore-RestoredTo laws name root opts conn path m bytes later whole =
      let st = durable_handle d in
      let (keys, e) = resolves m later bytes whole in
      let (found, s2, reads, rewound, there, same) = laws.goes_back m later keys e in
      let (s3, recorded, stays, same', logs) = laws.records s2 in
      let (s4, replays, at) = laws.recovers s3 in
      let whole' =
        assemble-SameReads st later s3 m (SameReads-trans st later s2 s3 same same') ∙ whole in
      record {
        back = s3;
        restores = λ g. rw reads (rw rewound (rw recorded refl));
        head_is = stays ∙ there;
        fills = λ into g. rw (stays ∙ there) (rw (whole', hydrate) refl);
        recovered = s4;
        replays = replays;
        stays = at ∙ logs ∙ there;
      }

  -- A local database whose durable store does as substrate documents: where DuckDB folds its log into
  -- its main file, a snapshot succeeds; and in any later state of the stores, wherever its head is by
  -- then, in which the manifests read as they did after the snapshot, and whatever DuckDB's side is,
  -- restoring the snapshot goes as far as the opening of the new kernel. That is opened on a store
  -- whose head is the snapshot, from which its scratch file is filled with exactly the bytes that were
  -- snapshotted, and whose log, recovered, puts the head at the snapshot again.
  pub restore-snapshot :
      Healthy (durable_handle d)
      → Rewinds d
      → (name : Text) (root path : FilePath) (opts : KernelOpts) (conn : Conn) (s : S) (f f' : F)
        (bytes : Bytes)
      → 0 < (durable_handle d).page_size
      → duck.execute_batch conn (codes "CHECKPOINT") f ≡ (ok tt, f')
      → Emptied (duck.metadata (wal_path path) f')
      → (duck.scratch_file path).read f' ≡ ok bytes
      → (m : ManifestId) × (s' : S) × (snapshot sub duck (local_db name root opts conn path) (s, f)
          ≡ (ok m, (s', f')))
        × ((later : S)
            → SameReads (durable_handle d) s' later
            → RestoredTo name root opts conn path m bytes later)
  unfolding snapshot checkpoint fold_wal_into_main_file execute_batch
  restore-snapshot healthy back name root path opts conn s f f' bytes p h empty readable =
      let st = durable_handle d in
      let (m, s1, went, head, whole) =
        persist-assemble st healthy (duck.scratch_file path) bytes f' s p readable in
      (
        m,
        s1,
        rw h (rw (Emptied-check_wal (duck.metadata (wal_path path) f') empty) (rw went refl)),
        λ later same.
            restore-RestoredTo back name root opts conn path m bytes later
              (assemble-SameReads st s1 later m same ∙ whole),
      )
