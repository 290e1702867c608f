-- ===== src/Core/Examples.antt =====
-- Databases over small stores: one that forks and goes to sleep, and one that goes back to a snapshot.
use flockdb.Prelude.{
  ℕ, zero, suc, ◌≡◌, refl, sym, ap, true, false, ==_iff, List, [], ◌∷◌, Option, none, some, arith,
  ok, err, contains,
}
use flockdb.Prelude.Texts.{codes, rsplit_once}
use flockdb.Foreign.{ManifestId, PageId}
use flockdb.Kernel.Paging.{
  PageStore, persist, chunks, chunks_of, stage_chunks, stage_chunk, remove_tail,
}
use flockdb.Kernel.Duck.{
  KernelOpts, filled, checkpoint, fold_wal_into_main_file, with_extension, open_kernel,
}
use flockdb.Kernel.Duck as Duck
use flockdb.Kernel.DuckExamples.{duck, disk}
use flockdb.Core.Pool.{PoolFs, present}
use flockdb.Core.Store.{Pager, DurableStore, TieredStore, local, durable_handle, pager}
use flockdb.Core.Staging.{stage, walk, visit, insert_all, copy_pages}
use flockdb.Core.Staging.Walk.{Staged, Reach, start, by_parent}
use flockdb.Core.Staging.Walk.Closed.{AllHeld}
use flockdb.Core.Staging.Walk.Fuel.{Closes, Ended, stage-Ended}
use flockdb.Core.Db.{Substrate, Db, snapshot, sleep}
use flockdb.Core.Db.Slept.{sleep-Held}

-- The head, the manifests staged and the pages staged. A manifest is its number, and its parent is
-- the one before it.
abbrev pub Shelf : Type 0
Shelf = ℕ × (List ℕ × List ℕ)

abbrev pub no_pages : {S : Type 0} → (S → ManifestId) → PageStore S (Unit {0})
no_pages head = record {
  page_size = 4;
  head = head;
  resolve = λ m s. ok [];
  read = λ m p s. err "no page";
  begin = λ s. ok tt;
  write = λ txn p b s. (ok (7, txn), s);
  remove = λ txn p s. (ok txn, s);
  commit = λ txn s. (ok (head s), s);
}

abbrev pub parent_of : ℕ → Option ℕ
parent_of zero = none
parent_of (suc n) = some n

abbrev pub shelf : Pager Shelf (Unit {0}) ℕ ℕ
shelf = record {
  pages = no_pages (λ s. s.0);
  manifest = λ m s. ok m;
  values = λ m s. ok (m ∷ 100 ∷ []);
  overlay_base = λ m. none;
  parent = parent_of;
  rewind = λ m s. (ok tt, (m, s.1));
  set_head_to = λ m s. (ok tt, (m, s.1));
  get = λ id s. ok id;
  put = λ p s. (ok tt, (s.0, (s.1.0, p ∷ s.1.1)));
  put_manifest = λ m s. (ok tt, (s.0, (m ∷ s.1.0, s.1.1)));
}

abbrev pub durable : DurableStore Shelf (Unit {0}) ℕ ℕ
durable = record {
  pager = shelf;
  backend = λ e. e;
  commit = λ txn s. (ok s.0, s);
  recover = λ s. (ok tt, s);
  checkpoint = λ s. (ok tt, s);
}

abbrev pub staging : TieredStore Shelf (Unit {0}) ℕ ℕ ℕ
staging = record { pager = shelf; ensure_durable = λ ids s. (ok tt, s); sleep = λ s. (ok s.0, s) }

abbrev pub pool_fs : PoolFs Shelf
pool_fs = record {
  unix = true;
  create_dir_all = λ path s. (ok tt, s);
  symlink_metadata = λ path s. present;
  symlink = λ target link s. (ok tt, s);
}

abbrev pub sub : Substrate Shelf (Unit {0}) ℕ ℕ ℕ (Unit {0}) (Unit {0})
sub = record {
  fs = pool_fs;
  exists = λ path s. false;
  open_durable = λ dir s. (ok durable, s);
  open_tiered = λ dir tier config s. (ok staging, s);
  wake = λ root tier token s. (ok staging, s);
  temp_dir = λ s. (ok [], s);
  tier_pool = λ tier. [];
  open_wal = λ dir p size. tt;
}

abbrev pub opts : KernelOpts
opts = record { threads = none; max_memory = none }

abbrev pub database : Db Shelf (Unit {0}) ℕ ℕ ℕ ℕ
database = record {
  name = codes "acme";
  root = [];
  store = local durable;
  kernel = record {
    store = durable_handle durable;
    conn = 5;
    path = (5 ∷ []) ∷ codes "flock.duckdb" ∷ [];
  };
  opts = opts;
}

abbrev pub shelf_now : Shelf
shelf_now = (2, ([], []))

abbrev IsHeld : List ℕ → ℕ → Type 0
IsHeld ids id = contains id ids ≡ true

there : (id m : ℕ) (ids : List ℕ) → id ≡ m → contains id (m ∷ ids) ≡ true
there id m ids e = rw ((==_iff id m).1 e) refl

beside : (id x : ℕ) (ids : List ℕ) → contains id ids ≡ true → contains id (x ∷ ids) ≡ true
beside id x ids h = ground (arith, h)

shelf-Staged : Staged shelf shelf
shelf-Staged = record {
  Held = λ id s. IsHeld s.1.0 id;
  HeldPage = λ id s. IsHeld s.1.1 id;
  stages = λ id m s s' reads puts.
      let is : (s.0, (m ∷ s.1.0, s.1.1)) ≡ s' = ap (λ o. o.1) puts in
      let same : id ≡ m = cc reads in
      rw (sym is) (
        there id m s.1.0 same,
        record {
          manifest = λ q. refl;
          values = λ q. refl;
          held = λ q h. beside q m s.1.0 h;
          held_page = λ q h. h;
        },
      );
  uploads = λ id p s s' reads puts.
      let is : (s.0, (s.1.0, p ∷ s.1.1)) ≡ s' = ap (λ o. o.1) puts in
      let same : id ≡ p = cc reads in
      rw (sym is) (
        there id p s.1.1 same,
        record {
          manifest = λ q. refl;
          values = λ q. refl;
          held = λ q h. h;
          held_page = λ q h. beside q p s.1.1 h;
        },
      );
  positions = λ m s s' puts.
      let is : (m, s.1) ≡ s' = ap (λ o. o.1) puts in
      rw (sym is) (
        refl,
        record { manifest = λ q. refl; values = λ q. refl; held = λ q h. h; held_page = λ q h. h },
      );
}

shelf-Closes : Closes shelf shelf shelf-Staged (0 ∷ 1 ∷ 2 ∷ []) shelf_now
shelf-Closes = record {
  base = λ id b m h reads edge. absurd (cc edge);
  parent = λ id b m h reads edge. below id b m h (cc reads) edge;
}
  where
    below :
        (id b m : ℕ)
        → contains id (0 ∷ 1 ∷ 2 ∷ []) ≡ true
        → id ≡ m
        → parent_of m ≡ some b
        → contains b (0 ∷ 1 ∷ 2 ∷ []) ≡ true
    below id b zero h same edge = absurd (cc edge)
    below id b (suc m) h same edge = let z : m ≡ b = cc edge in ground (arith, h, same, z)

stage-Ended_example :
    Ended shelf shelf shelf-Staged (0 ∷ 1 ∷ 2 ∷ []) (stage shelf shelf 7 2 shelf_now)
stage-Ended_example =
    stage-Ended shelf shelf shelf-Staged (0 ∷ 1 ∷ 2 ∷ []) 2 shelf_now shelf-Closes refl

-- What the staging leaves.
abbrev shelf_staged : Shelf
shelf_staged = (2, (0 ∷ 1 ∷ 2 ∷ [], 2 ∷ 100 ∷ 1 ∷ 0 ∷ []))

staged : stage shelf shelf 7 2 shelf_now ≡ (ok (some tt), shelf_staged)
unfolding stage walk visit insert_all copy_pages
staged = refl

grandparent : Reach shelf shelf_now 2 0
grandparent = by_parent (by_parent start refl refl) refl refl

pub snapped : snapshot sub duck database (shelf_now, disk) ≡ (ok 2, (shelf_now, disk))
unfolding snapshot checkpoint fold_wal_into_main_file Duck.execute_batch with_extension rsplit_once
    persist chunks chunks_of stage_chunks stage_chunk remove_tail durable_handle
snapped = refl

asleep : sleep sub duck 7 database tt (shelf_now, disk) ≡ (ok (some 2), (shelf_staged, disk))
unfolding sleep pager snapshot checkpoint fold_wal_into_main_file Duck.execute_batch with_extension
    rsplit_once persist chunks chunks_of stage_chunks stage_chunk remove_tail durable_handle stage
    walk visit insert_all copy_pages
asleep = refl

sleep-Held_example :
    (s5 : Shelf) × (staging.sleep s5 ≡ (ok 2, shelf_staged))
    × (shelf.pages.head s5 ≡ 2)
    × shelf-Staged.Held 0 s5
    × (values : List PageId) × (shelf.values 0 shelf_now ≡ ok values)
    × AllHeld shelf shelf shelf-Staged values s5
unfolding pager
sleep-Held_example =
    sleep-Held sub duck database tt 7 (shelf_now, disk) (shelf_now, disk) (shelf_staged, disk) 2 []
      shelf_now shelf_now staging 2 snapped refl refl asleep shelf-Staged 0 grandparent
