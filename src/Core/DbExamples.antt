-- ===== src/Core/DbExamples.antt =====
-- A database that is opened, forked, and taken back to a snapshot.
use flockdb.Prelude.{ℕ, ◌<◌, ◌≡◌, refl, sym, ap, subst, true, false, [], ◌∷◌, none, arith, ok, err}
use flockdb.Prelude.Texts.{codes, same_text, rsplit_once}
use flockdb.Foreign.{ManifestId, Text, FilePath}
use flockdb.Kernel.Paging.{
  put_file, hydrate, assemble, hydrate_pages, persist, chunks, chunks_of, stage_chunks, stage_chunk,
  remove_tail,
}
use flockdb.Kernel.Paging.Store.{Healthy}
use flockdb.Kernel.Examples.{Slots, Edits, memory, memory_laws, ten, two_pages}
use flockdb.Kernel.Duck.{filled, open_kernel, checkpoint, fold_wal_into_main_file, with_extension}
use flockdb.Kernel.Duck as Duck
use flockdb.Kernel.DuckExamples.{Disk, duck, disk}
use flockdb.Core.Pool.{
  present, validate_name, is_name_char, is_ascii_alphanumeric, all_chars, link_db_to_shared_cas,
  create_shared, link_subs, link_sub, cas_dir, db_dir,
}
use flockdb.Core.Store.{DurableStore, local, durable_handle, page_store}
use flockdb.Core.Db.{Substrate, Db, open_with, snapshot, fork}
use flockdb.Core.Db.Opened.{Fresh}
use flockdb.Core.Db.Reopened.{Durable, fork_reopens}
use flockdb.Core.Db.Forked.{Positions, Forked, fork-Forked}
use flockdb.Core.Db.Restored.{Rewinds, SameReads, RestoredTo, local_db, restore-snapshot}
use flockdb.Core.Examples.{Shelf, durable, sub, opts, database, shelf_now, snapped, pool_fs}

abbrev branch : Db Shelf (Unit {0}) ℕ ℕ ℕ ℕ
branch = record {
  name = codes "b2";
  root = [];
  store = local durable;
  kernel = record {
    store = durable_handle durable;
    conn = 6;
    path = (6 ∷ []) ∷ codes "flock.duckdb" ∷ [];
  };
  opts = opts;
}

-- After the empty scratch file has been cleared away.
abbrev disk_then : Disk
disk_then = (7, (6, []) ∷ disk.1)

opened :
    open_with sub duck [] (codes "b2") opts (shelf_now, disk) ≡ (ok branch, (shelf_now, disk_then))
unfolding open_with validate_name is_name_char is_ascii_alphanumeric all_chars same_text
    link_db_to_shared_cas create_shared link_subs link_sub cas_dir db_dir open_kernel hydrate
    assemble hydrate_pages put_file page_store durable_handle
opened = refl

positions :
    (dir : FilePath) (d : DurableStore Shelf (Unit {0}) ℕ ℕ) (s s' : Shelf)
    → sub.open_durable dir s ≡ (ok d, s')
    → Positions d
positions dir d s s' h =
    let is : durable ≡ d = cc h in
    rw (sym is) (record {
      sets = λ m a b moved. let z : (m, a.1) ≡ b = ap (λ o. o.1) moved in rw (sym z) refl;
      records = λ a b kept. let z : a ≡ b = ap (λ o. o.1) kept in rw (sym z) refl;
    })

forked : fork sub duck database (codes "b2") (shelf_now, disk) ≡ (ok branch, (shelf_now, disk_then))
unfolding fork validate_name is_name_char is_ascii_alphanumeric all_chars same_text
    link_db_to_shared_cas create_shared link_subs link_sub cas_dir db_dir open_kernel hydrate
    assemble hydrate_pages put_file page_store durable_handle snapshot checkpoint
    fold_wal_into_main_file Duck.execute_batch with_extension rsplit_once persist chunks chunks_of
    stage_chunks stage_chunk remove_tail
forked = refl

fork-Forked_example :
    Forked sub duck database (codes "b2") (shelf_now, disk) (shelf_now, disk_then) branch
fork-Forked_example =
    fork-Forked sub duck positions database (codes "b2") (shelf_now, disk) (shelf_now, disk_then)
      branch forked

shelf_moves :
    (d : DurableStore Shelf (Unit {0}) ℕ ℕ) (s s' : Shelf)
    → durable ≡ d
    → d.checkpoint s ≡ (ok tt, s')
    → s'.0 ≡ d.pager.pages.head s
shelf_moves d s s' is h =
    subst (λ e. e.checkpoint s ≡ (ok tt, s') → s'.0 ≡ e.pager.pages.head s) is
      (λ kept. let z : s ≡ s' = ap (λ o. o.1) kept in rw (sym z) refl) h

shelf_recovers :
    (d : DurableStore Shelf (Unit {0}) ℕ ℕ) (m : ManifestId) (s s' : Shelf)
    → durable ≡ d
    → s.0 ≡ m
    → d.recover s ≡ (ok tt, s')
    → d.pager.pages.head s' ≡ m
shelf_recovers d m s s' is at h =
    subst (λ e. e.recover s ≡ (ok tt, s') → e.pager.pages.head s' ≡ m) is
      (λ back. let z : s ≡ s' = ap (λ o. o.1) back in rw (sym z) at) h

linked :
    (root dir : FilePath) (name : Text) (s s' : Shelf)
    → link_db_to_shared_cas pool_fs root name s ≡ (ok dir, s')
    → s ≡ s'
unfolding link_db_to_shared_cas create_shared link_subs link_sub
linked root dir name s s' h = ap (λ o. o.1) h

-- The log of a directory is the head in memory.
sub-Durable : Durable sub
sub-Durable = record {
  Recorded = λ dir m s. s.0 ≡ m;
  records = λ dir d s0 s1 s s' opens kept. shelf_moves d s s' (cc opens) kept;
  links = λ root dir other name m s s' links at.
      let z = linked root dir name s s' links in subst (λ x. x.0 ≡ m) z at;
  reopens =
      λ dir d m s s' opens at. let z : s ≡ s' = ap (λ o. o.1) opens in subst (λ x. x.0 ≡ m) z at;
  recovers = λ dir d m s0 s1 s s' opens at back. shelf_recovers d m s s' (cc opens) at back;
}

fork_reopens_example :
    (d : DurableStore Shelf (Unit {0}) ℕ ℕ) × (t : Shelf) × (d.pager.pages.head t ≡ 2)
    × Fresh sub duck (codes "b2") [] (local d) t shelf_now disk disk_then branch
fork_reopens_example =
    fork_reopens sub duck sub-Durable positions database branch branch (codes "b2") opts 2
      (shelf_now, disk) (shelf_now, disk) (shelf_now, disk_then) disk disk_then shelf_now snapped
      forked opened

-- A durable store over the page store in memory.
abbrev paged : DurableStore (ManifestId × Slots) Edits ℕ ℕ
paged = record {
  pager = record {
    pages = memory;
    manifest = λ m s. ok m;
    values = λ m s. ok [];
    overlay_base = λ m. none;
    parent = λ m. none;
    rewind = λ m s. (ok tt, (m, s.1));
    set_head_to = λ m s. (ok tt, (m, s.1));
    get = λ id s. ok id;
    put = λ p s. (ok tt, s);
    put_manifest = λ m s. (ok tt, s);
  };
  backend = λ e. e;
  commit = memory.commit;
  recover = λ s. (ok tt, s);
  checkpoint = λ s. (ok tt, s);
}

paged-Healthy : Healthy (durable_handle paged)
unfolding durable_handle
paged-Healthy = memory_laws

paged-Rewinds : Rewinds paged
unfolding durable_handle
paged-Rewinds = record {
  logged = λ s. s.0;
  goes_back = λ m s keys h.
      (m, (m, s.1), refl, refl, refl, record { resolve = λ q. refl; read = λ q p. refl });
  records = λ s. (s, refl, refl, record { resolve = λ q. refl; read = λ q p. refl }, refl);
  recovers = λ s. (s, refl, refl);
}

abbrev paged_sub : Substrate (ManifestId × Slots) Edits ℕ ℕ ℕ (Unit {0}) (Unit {0})
paged_sub = record {
  fs = record {
    unix = true;
    create_dir_all = λ path s. (ok tt, s);
    symlink_metadata = λ path s. present;
    symlink = λ target link s. (ok tt, s);
  };
  exists = λ path s. false;
  open_durable = λ dir s. (ok paged, s);
  open_tiered = λ dir tier config s. (err "no tier", s);
  wake = λ root tier token s. (err "no tier", s);
  temp_dir = λ s. (ok [], s);
  tier_pool = λ tier. [];
  open_wal = λ dir p size. tt;
}

abbrev paged_path : FilePath
paged_path = (5 ∷ []) ∷ codes "flock.duckdb" ∷ []

paged_size : 0 < (durable_handle paged).page_size
unfolding durable_handle
paged_size = omega arith

restore-snapshot_example :
    (m : ManifestId) × (s' : ManifestId × Slots) × (snapshot paged_sub duck
        (local_db paged_sub duck paged (codes "acme") [] opts 5 paged_path)
        ((7, two_pages), disk)
      ≡ (ok m, (s', disk)))
    × ((later : ManifestId × Slots)
        → SameReads (durable_handle paged) s' later
        → RestoredTo paged_sub duck paged (codes "acme") [] opts 5 paged_path m ten later)
restore-snapshot_example =
    restore-snapshot paged_sub duck paged paged-Healthy paged-Rewinds (codes "acme") [] paged_path
      opts 5 (7, two_pages) disk disk ten paged_size refl tt refl
