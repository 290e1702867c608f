-- ===== src/Core/Db/Slept.antt =====
-- What is in the staging store when a database goes to sleep.
use flockdb.Prelude.{ℕ, ◌≡◌, refl, List, Option, none, some, ok}
use flockdb.Prelude.Steps.{give-Ok, after-left, after-err, left-Ok}
use flockdb.Foreign.{ManifestId, PageId, FilePath}
use flockdb.Kernel.Duck.{DuckDb}
use flockdb.Core.Error.{tier, pager}
use flockdb.Core.Store as Store
use flockdb.Core.Store.{Pager, TieredStore}
use flockdb.Core.Staging.{stage}
use flockdb.Core.Staging.Walk.{Staged, Reach}
use flockdb.Core.Staging.Walk.Closed.{AllHeld, AllHeld-Kept, stage-Held}
use flockdb.Core.Db.{Substrate, StoreConfig, Db, snapshot, sleep, sleep_staged}

module _ {S Txn Manifest Page Token Tier Source F Conn Config Stmt Schema Batch : Type 0}
    (sub : Substrate S Txn Manifest Page Token Tier Source)
    (duck : DuckDb F Conn Config Stmt Schema Batch) (db : Db S Txn Manifest Page Token Conn) where
  abbrev pub config_for : Tier → StoreConfig
  config_for remote = record {
    page_size = (Store.pager db.store).pages.page_size;
    pool = sub.tier_pool remote;
  }

  sleep_staged-Ok :
      (t : TieredStore S Txn Manifest Page Token) (head : ManifestId) (done : Option (Unit {0}))
      (s s' : S) (token : Token)
      → sleep_staged sub duck t head done s ≡ (ok (some token), s')
      → (done ≡ some tt)
        × (s1 : S) × (t.pager.set_head_to head s ≡ (ok tt, s1))
        × (t.sleep s1 ≡ (ok token, s'))
  sleep_staged-Ok t head none s s' token h = absurd (cc h)
  sleep_staged-Ok t head (some done) s s' token h =
      let (done1, s1, sets, h1) =
        after-err (pager "position the staging store") (t.pager.set_head_to head) s _ h in
      let (token1, s2, sleeps, last) = after-err (tier "sleep") t.sleep s1 _ h1 in
      let (token_is, s_is) = give-Ok {a = some token1} last in
      let same : token1 ≡ token = cc token_is in (refl, s1, sets, rw (same, s_is) at sleeps)

  -- A database that went to sleep: at the time when substrate is asked to put the staging store to
  -- sleep, whose token is the result, that store's head is the snapshot taken first, and it holds every
  -- manifest that is reached from the snapshot by overlay and parent edges, with every page that it
  -- resolves to. `s1` is the state that the snapshot left, `s2` and `s3` those in which the staging
  -- directory and the staging store `t` were opened.
  pub sleep-Held :
      (remote : Tier) (fuel : ℕ) (w w1 w' : S × F) (head : ManifestId) (dir : FilePath) (s2 s3 : S)
      (t : TieredStore S Txn Manifest Page Token) (token : Token)
      → snapshot sub duck db w ≡ (ok head, w1)
      → sub.temp_dir w1.0 ≡ (ok dir, s2)
      → sub.open_tiered dir remote (config_for remote) s2 ≡ (ok t, s3)
      → sleep sub duck fuel db remote w ≡ (ok (some token), w')
      → (staged : Staged (Store.pager db.store) t.pager) (id : ManifestId)
      → Reach (Store.pager db.store) s3 head id
      → (s5 : S) × (t.sleep s5 ≡ (ok token, w'.0))
        × (t.pager.pages.head s5 ≡ head)
        × staged.Held id s5
        × (values : List PageId) × ((Store.pager db.store).values id s3 ≡ ok values)
        × AllHeld (Store.pager db.store) t.pager staged values s5
  unfolding sleep
  sleep-Held remote fuel w (s1, f1) (s', f') head dir s2 s3 t token snaps dirs opens h staged id r =
      let h1 = rw (snaps, dirs, opens) at h in
      let (done, s4, walked, h2) =
        after-left (stage (Store.pager db.store) t.pager fuel head) s3 f1 _ h1 in
      let last = left-Ok (sleep_staged sub duck t head done) s4 f1 h2 in
      let (done_is, s5, sets, sleeps) = sleep_staged-Ok t head done s4 s' token last in
      let (held, values, resolved, all) =
        stage-Held (Store.pager db.store) t.pager staged fuel head s3 s4 (rw done_is at walked) id
          r in
      let (there, kept) = staged.positions head s4 s5 sets in
      (
        s5,
        sleeps,
        there,
        kept.held id held,
        values,
        resolved,
        AllHeld-Kept (Store.pager db.store) t.pager staged values s4 s5 kept all,
      )
