-- ===== src/Core/ReplicaExamples.antt =====
-- A read replica of the small primary, whose page store is its follower's.
use flockdb.Prelude.{ℕ, [], ◌∷◌, ◌≡◌, refl, ◌⊎◌, none, arith, ok, err}
use flockdb.Foreign.{ManifestId}
use flockdb.Prelude.Texts.{codes}
use flockdb.Kernel.Paging.{hydrate, assemble, hydrate_pages, put_file}
use flockdb.Kernel.Duck.{open_kernel}
use flockdb.Kernel.DuckExamples.{Disk, duck, disk}
use flockdb.Sync.Clock.{new}
use flockdb.Sync.Shipment.{bytes_for, find_blob}
use flockdb.Sync.Stream.{last_until}
use flockdb.Sync.Stream.AsOf.{or_start}
use flockdb.Sync.Replica as Sync
use flockdb.Sync.Examples.{source}
use flockdb.Sync.ReplicaExamples.{
  commits, store, store-HeadLaws, source-IsPrimary, resumes_first, streams,
}
use flockdb.Core.Error.{FlockError}
use flockdb.Kernel.Duck.Opened.{Hydrated}
use flockdb.Core.Store.{DurableStore, local, head, pager, page_store, durable_handle}
use flockdb.Core.Replica.{ReadReplica, State, refresh, restore_to}
use flockdb.Core.Replica.Visible.{Shows, refresh-Shows, restore_to-visible}
use flockdb.Core.Examples.{no_pages, opts}

abbrev durable : DurableStore ManifestId (Unit {0}) (Unit {0}) (Unit {0})
durable = record {
  pager = record {
    pages = no_pages (λ m. m);
    manifest = λ m s. ok tt;
    values = λ m s. ok [];
    overlay_base = λ m. none;
    parent = λ m. none;
    rewind = λ m s. (ok tt, m);
    set_head_to = λ m s. (ok tt, m);
    get = λ id s. ok tt;
    put = λ p s. (ok tt, s);
    put_manifest = λ m s. (ok tt, s);
  };
  backend = λ e. e;
  commit = λ txn s. (ok s, s);
  recover = λ s. (ok tt, s);
  checkpoint = λ s. (ok tt, s);
}

abbrev reader : ReadReplica ManifestId (Unit {0}) (Unit {0}) (Unit {0}) (Unit {0}) ℕ
reader = record {
  name = codes "acme";
  root = [];
  follower = store;
  clock = new;
  applied_lsn = none;
  store = local durable;
  kernel = record {
    store = durable_handle durable;
    conn = 5;
    path = (5 ∷ []) ∷ codes "flock.duckdb" ∷ [];
  };
  visible = 100;
  opts = opts;
}

abbrev reader_now : State ManifestId (Unit {0}) (Unit {0}) (Unit {0}) (Unit {0}) ℕ Disk
reader_now = (reader, (100, disk))

refresh-Shows_example :
    (((refresh duck reader_now).0 ≡ ok tt) × Shows duck reader_now (refresh duck reader_now).1)
    ⊎ ((e : FlockError) × ((refresh duck reader_now).0 ≡ err e)
        × ((refresh duck reader_now).1.0 ≡ reader))
refresh-Shows_example = refresh-Shows duck reader_now

one_store : (s : ManifestId) → head reader.store s ≡ store.head s
unfolding head pager
one_store s = refl

restored_reader : (restore_to duck source 2 reader_now).0 ≡ ok tt
unfolding restore_to refresh open_kernel hydrate assemble hydrate_pages put_file page_store
    durable_handle Sync.restore_to Sync.apply_until Sync.apply Sync.stage_writes bytes_for find_blob
restored_reader = rw (resumes_first, streams) refl

restore_to-visible_example :
    let m = or_start (last_until 2 none commits) 100 in
    let out = (restore_to duck source 2 reader_now).1 in
    (out.0.visible ≡ m)
    × (landed : ManifestId) × ((page_store reader.store).head landed ≡ m)
    × Hydrated duck (page_store reader.store) landed out.1.0 disk out.1.1 out.0.kernel
restore_to-visible_example =
    restore_to-visible duck reader store-HeadLaws one_store source 100 commits 2 0 100 disk
      source-IsPrimary resumes_first (omega arith) restored_reader
