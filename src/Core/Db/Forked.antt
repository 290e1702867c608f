-- ===== src/Core/Db/Forked.antt =====
-- What a fork is.
use flockdb.Prelude.{◌≡◌, sym, ap, ◌∙◌, inl, inr, false, Bool-cases, ok}
use flockdb.Prelude.Steps.{on_err, blame-Ok, after-Ok, after-look, after-left}
use flockdb.Foreign.{ManifestId, Text, FilePath}
use flockdb.Kernel.Duck.{DuckDb}
use flockdb.Core.Error.{wal, pager}
use flockdb.Core.Pool.{validate_name, link_db_to_shared_cas, db_dir}
use flockdb.Core.Pool.Linked.{linked_dir}
use flockdb.Core.Store.{DurableStore, local}
use flockdb.Core.Db.{Substrate, Db, snapshot, fork, fork_at}
use flockdb.Core.Db.Opened.{Fresh, open_on-Fresh}

-- `set_head_to` moves the head there, and a checkpoint of the log leaves it.
pub record Positions {S Txn Manifest Page : Type 0} (d : DurableStore S Txn Manifest Page)
    : Type 0 where
  pub sets :
      (m : ManifestId) (s s' : S)
      → d.pager.set_head_to m s ≡ (ok tt, s')
      → d.pager.pages.head s' ≡ m
  pub records :
      (s s' : S) → d.checkpoint s ≡ (ok tt, s') → d.pager.pages.head s' ≡ d.pager.pages.head s

module _ {S Txn Manifest Page Token Tier Source F Conn Config Stmt Schema Batch : Type 0}
    (sub : Substrate S Txn Manifest Page Token Tier Source)
    (duck : DuckDb F Conn Config Stmt Schema Batch) where
  pub record Forked (db : Db S Txn Manifest Page Token Conn) (name : Text) (w w' : S × F)
      (forked : Db S Txn Manifest Page Token Conn) : Type 0 where
    pub valid : validate_name name ≡ ok tt
    pub free : sub.exists (db_dir db.root name) w.0 ≡ false
    pub parent : ManifestId
    pub after_snapshot : S × F
    pub snapshots : snapshot sub duck db w ≡ (ok parent, after_snapshot)
    pub linked : S
    pub links :
        link_db_to_shared_cas sub.fs db.root name after_snapshot.0
        ≡ (ok (db_dir db.root name), linked)
    pub durable : DurableStore S Txn Manifest Page
    pub made : S
    pub opens : sub.open_durable (db_dir db.root name) linked ≡ (ok durable, made)
    pub store_is : forked.store ≡ local durable
    pub recorded : S
    pub before : S
    pub records : durable.checkpoint before ≡ (ok tt, recorded)
    pub head_before : durable.pager.pages.head before ≡ parent
    pub head_is : durable.pager.pages.head w'.0 ≡ parent
    pub fresh :
        Fresh sub duck name db.root (local durable) recorded w'.0 after_snapshot.1 w'.1 forked

  -- Where a durable store that is opened has a `set_head_to` that moves the head and a checkpoint that leaves it: a fork that
  -- returned has a valid name that no directory had; the parent was snapshotted first; the fork's store
  -- was opened in the directory of the fork's name, under the parent's root, after that was linked to
  -- the shared store; it is at exactly that snapshot, its log was checkpointed while it was there, and
  -- its own kernel was hydrated from there.
  pub fork-Forked :
      ((dir : FilePath) (d : DurableStore S Txn Manifest Page) (s s' : S)
        → sub.open_durable dir s ≡ (ok d, s')
        → Positions d)
      → (db : Db S Txn Manifest Page Token Conn) (name : Text) (w w' : S × F)
        (forked : Db S Txn Manifest Page Token Conn)
      → fork sub duck db name w ≡ (ok forked, w')
      → Forked db name w w' forked
  unfolding fork
  fork-Forked positions db name w (s', f') forked h =
      let (done, valid, h1) = after-look (λ _. validate_name name) w _ h in
      elim (Bool-cases (sub.exists (db_dir db.root name) w.0)) [
        | inl taken ↦ absurd (let z = rw taken at h1 in cc z)
        | inr free ↦
            let (m, (s0, f0), snaps, h2) =
              after-Ok (snapshot sub duck db w) (fork_at sub duck db name) (rw free at h1) in
            let (dir, s1, links, h3) =
              after-left (link_db_to_shared_cas sub.fs db.root name) s0 f0 _ h2 in
            let (d, s2, opens, h4) =
              after-left (on_err (wal "open the fork's durable store") (sub.open_durable dir)) s1 f0
                _ h3 in
            let (done2, s3, replays, h5) =
              after-left (on_err (wal "replay the fork's log") d.recover) s2 f0 _ h4 in
            let (done3, s4, sets, h6) =
              after-left (on_err (pager "position the fork at its parent") (d.pager.set_head_to m))
                s3 f0 _ h5 in
            let (done4, s5, records, h7) =
              after-left (on_err (wal "record the fork's head") d.checkpoint) s4 f0 _ h6 in
            let there = linked_dir sub.fs db.root name dir s0 s1 links in
            let opened =
              blame-Ok (wal "open the fork's durable store") (sub.open_durable dir s1) opens in
            let lawful = positions dir d s1 s2 opened in
            let fresh =
              open_on-Fresh sub duck name db.root db.opts (local d) s5 s' f0 f' forked h7 in
            let set_to = lawful.sets m s3 s4 (
              blame-Ok (pager "position the fork at its parent") (d.pager.set_head_to m s3) sets) in
            let recorded = blame-Ok (wal "record the fork's head") (d.checkpoint s4) records in
            record {
              valid = valid;
              free = free;
              parent = m;
              after_snapshot = (s0, f0);
              snapshots = snaps;
              linked = s1;
              links = links ∙ ap (λ x. (ok x, s1)) (sym there);
              durable = d;
              made = s2;
              opens = ap (λ x. sub.open_durable x s1) there ∙ opened;
              store_is = fresh.store_is;
              recorded = s5;
              before = s4;
              records = recorded;
              head_before = set_to;
              head_is =
                  ap d.pager.pages.head fresh.hydrated.kept
                  ∙ lawful.records s4 s5 recorded
                  ∙ set_to;
              fresh = fresh;
            }
      ]
