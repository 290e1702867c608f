-- ===== src/Core/Db/Reopened.antt =====
-- A fork after a restart.
use flockdb.Prelude.{◌≡◌, sym, ap, ◌∙◌, subst, ok}
use flockdb.Prelude.Steps.{on_err, blame-Ok, after-look, after-left}
use flockdb.Foreign.{ManifestId, Text, FilePath}
use flockdb.Kernel.Duck.{DuckDb, KernelOpts}
use flockdb.Core.Error.{wal}
use flockdb.Core.Pool.{validate_name, link_db_to_shared_cas, db_dir}
use flockdb.Core.Pool.Linked.{linked_dir}
use flockdb.Core.Store.{DurableStore, local}
use flockdb.Core.Db.{Substrate, Db, open_with, fork, snapshot}
use flockdb.Core.Db.Opened.{Fresh, open_on-Fresh}
use flockdb.Core.Db.Forked.{Positions, fork-Forked}

-- What substrate promises of the log in a directory: a checkpoint records the head there; linking
-- databases and opening stores leave what is recorded; and recovery puts the head there.
pub record Durable {S Txn Manifest Page Token Tier Source : Type 0}
    (sub : Substrate S Txn Manifest Page Token Tier Source) : Type 1 where
  pub Recorded : FilePath → ManifestId → S → Type 0
  pub records :
      (dir : FilePath) (d : DurableStore S Txn Manifest Page) (s0 s1 s s' : S)
      → sub.open_durable dir s0 ≡ (ok d, s1)
      → d.checkpoint s ≡ (ok tt, s')
      → Recorded dir (d.pager.pages.head s) s'
  pub links :
      (root dir other : FilePath) (name : Text) (m : ManifestId) (s s' : S)
      → link_db_to_shared_cas sub.fs root name s ≡ (ok dir, s')
      → Recorded other m s
      → Recorded other m s'
  pub reopens :
      (dir : FilePath) (d : DurableStore S Txn Manifest Page) (m : ManifestId) (s s' : S)
      → sub.open_durable dir s ≡ (ok d, s')
      → Recorded dir m s
      → Recorded dir m s'
  pub recovers :
      (dir : FilePath) (d : DurableStore S Txn Manifest Page) (m : ManifestId) (s0 s1 s s' : S)
      → sub.open_durable dir s0 ≡ (ok d, s1)
      → Recorded dir m s
      → d.recover s ≡ (ok tt, s')
      → d.pager.pages.head s' ≡ m

module _ {S Txn Manifest Page Token Tier Source F Conn Config Stmt Schema Batch : Type 0}
    (sub : Substrate S Txn Manifest Page Token Tier Source)
    (duck : DuckDb F Conn Config Stmt Schema Batch) (logs : Durable sub) where
  -- A database that was opened under a name whose log has a head recorded: it is at that head.
  open_with-Recorded :
      (root : FilePath) (name : Text) (opts : KernelOpts) (m : ManifestId) (s s' : S) (g g' : F)
      (db : Db S Txn Manifest Page Token Conn)
      → logs.Recorded (db_dir root name) m s
      → open_with sub duck root name opts (s, g) ≡ (ok db, (s', g'))
      → (d : DurableStore S Txn Manifest Page) × (t : S) × (d.pager.pages.head t ≡ m)
        × Fresh sub duck name root (local d) t s' g g' db
  unfolding open_with
  open_with-Recorded root name opts m s s' g g' db recorded h =
      let (done, valid, h1) = after-look (λ _. validate_name name) (s, g) _ h in
      let (dir, s1, linked, h2) = after-left (link_db_to_shared_cas sub.fs root name) s g _ h1 in
      let (d, s2, opens, h3) =
        after-left (on_err (wal "open the durable store") (sub.open_durable dir)) s1 g _ h2 in
      let (done2, s3, replays, h4) =
        after-left (on_err (wal "replay the log") d.recover) s2 g _ h3 in
      let opened = blame-Ok (wal "open the durable store") (sub.open_durable dir s1) opens in
      let there =
        ap (λ x. sub.open_durable x s1) (linked_dir sub.fs root name dir s s1 linked) ∙ opened in
      let one = logs.links root dir (db_dir root name) name m s s1 linked recorded in
      let two = logs.reopens (db_dir root name) d m s1 s2 there one in
      (
        d,
        s3,
        logs.recovers (db_dir root name) d m s1 s2 s2 s3 there two
            (blame-Ok (wal "replay the log") (d.recover s2) replays),
        open_on-Fresh sub duck name root opts (local d) s3 s' g g' db h4,
      )

  -- Over stores whose logs do as substrate documents: a fork that returned, opened again under its name
  -- from what the stores then held, with whatever DuckDB's side is by then, is at the snapshot that its
  -- parent had when it was forked: its log is replayed to it, and its kernel is hydrated from there.
  pub fork_reopens :
      ((dir : FilePath) (d : DurableStore S Txn Manifest Page) (s s' : S)
        → sub.open_durable dir s ≡ (ok d, s')
        → Positions d)
      → (db forked reopened : Db S Txn Manifest Page Token Conn) (name : Text) (opts : KernelOpts)
        (m : ManifestId) (w w1 w' : S × F) (g g' : F) (s' : S)
      → snapshot sub duck db w ≡ (ok m, w1)
      → fork sub duck db name w ≡ (ok forked, w')
      → open_with sub duck db.root name opts (w'.0, g) ≡ (ok reopened, (s', g'))
      → (d : DurableStore S Txn Manifest Page) × (t : S) × (d.pager.pages.head t ≡ m)
        × Fresh sub duck name db.root (local d) t s' g g' reopened
  fork_reopens positions db forked reopened name opts m w w1 w' g g' s' snaps forks opens =
      let z = fork-Forked sub duck positions db name w w' forked forks in
      let same : z.parent ≡ m = let e = sym z.snapshots ∙ snaps in cc e in
      let recorded =
        logs.records (db_dir db.root name) z.durable z.linked z.made z.before z.recorded z.opens
          z.records in
      let at =
        subst (λ x. logs.Recorded (db_dir db.root name) x z.recorded) (z.head_before ∙ same)
          recorded in
      let kept =
        subst (λ x. logs.Recorded (db_dir db.root name) m x) (sym z.fresh.hydrated.kept) at in
      open_with-Recorded db.root name opts m w'.0 s' g g' reopened kept opens
