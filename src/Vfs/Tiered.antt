-- ===== src/Vfs/Tiered.antt =====
-- crates/flock-vfs/src/tiered.rs: faults through a woken store, and the prefetch that fans out over
-- threads. The store's pager has state `S`, which a read changes as it fills the cache. The workers of
-- a prefetch are interleaved: a step is one worker's `fetch_add`, its taking of a fault gate, or the
-- read that it makes while it holds the gate, with the gate's release.
pub mod Workers
pub mod Exclusive
pub mod Once
pub mod Ends
use flockdb.Prelude.{
  ℕ, suc, ◌%◌, ◌<◌, ◌≡◌, min, List, [], ◌∷◌, Option, none, some, Result, false, ◌==◌, if◌then◌else◌,
  length, get_elem?,
}
use flockdb.Prelude.Steps.{Step, on_err}
use flockdb.Foreign.{ManifestId, PagerError, Bytes}
use flockdb.Vfs.Error.{VfsError, fault}

-- The woken store's pager.
pub record Pager (S : Type 0) : Type 0 where
  pub page_size : ℕ
  pub head : S → ManifestId
  pub read : ManifestId → ℕ → Step S PagerError Bytes

abbrev pub prefetch_fanout : ℕ
prefetch_fanout = 16

abbrev pub fault_stripes : ℕ
fault_stripes = 1024

-- The number of the gate that a page takes.
abbrev pub gate : ℕ → ℕ
gate page_no = page_no % fault_stripes

pub record TieredPageSource (S : Type 0) : Type 0 where
  pub store : Pager S
  pub total_len : ℕ

module _ {S : Type 0} (src : TieredPageSource S) where
  -- The fault, behind its gate.
  unfoldable pub read_page : ℕ → Step S VfsError Bytes
  read_page page_no s = on_err (fault page_no) (src.store.read (src.store.head s) page_no) s

-- A worker of a prefetch: before its next `fetch_add`, with the index that it drew and the page
-- there, with that page's gate, or done.
pub data Worker : Type 0 where
  idle stopped : Worker
  claimed holding : (i page : ℕ) → Worker

abbrev pub update : ℕ → Worker → (ℕ → Worker) → ℕ → Worker
update w new workers v = if v == w then new else workers v

-- The cursor, the workers by number, and the store.
pub record Prefetch (S : Type 0) : Type 0 where
  pub cursor : ℕ
  pub worker : ℕ → Worker
  pub store : S

unfoldable pub worker_count : List ℕ → ℕ
worker_count pages = min (length pages) prefetch_fanout

abbrev pub begun : {S : Type 0} → S → Prefetch S
begun s = record { cursor = 0; worker = λ w. idle; store = s }

-- No worker holds the page's gate.
abbrev pub Free : (count : ℕ) → (ℕ → Worker) → (page : ℕ) → Type 0
Free count workers page =
    (v j p : ℕ) → v < count → workers v ≡ holding j p → (gate p == gate page) ≡ false

-- One step of one worker of a prefetch of `pages`.
pub data Moves {S : Type 0} (src : TieredPageSource S) (pages : List ℕ) (a b : Prefetch S)
    : Type 0 where
  claims :
      (w page : ℕ)
      → w < worker_count pages
      → a.worker w ≡ idle
      → get_elem? pages a.cursor ≡ some page
      → b ≡ record {
        cursor = suc a.cursor;
        worker = update w (claimed a.cursor page) a.worker;
        store = a.store;
      }
      → Moves src pages a b
  stops :
      (w : ℕ)
      → w < worker_count pages
      → a.worker w ≡ idle
      → get_elem? pages a.cursor ≡ none
      → b ≡ record { cursor = suc a.cursor; worker = update w stopped a.worker; store = a.store }
      → Moves src pages a b
  locks :
      (w i page : ℕ)
      → w < worker_count pages
      → a.worker w ≡ claimed i page
      → Free (worker_count pages) a.worker page
      → b
        ≡ record { cursor = a.cursor; worker = update w (holding i page) a.worker; store = a.store }
      → Moves src pages a b
  reads :
      (w i page : ℕ)
      → w < worker_count pages
      → a.worker w ≡ holding i page
      → b ≡ record {
        cursor = a.cursor;
        worker = update w idle a.worker;
        store = (read_page src page a.store).1;
      }
      → Moves src pages a b

-- The worker that faults a page in a step, and the page.
unfoldable pub faulter :
    {S : Type 0} {src : TieredPageSource S} {pages : List ℕ} {a b : Prefetch S}
    → Moves src pages a b
    → Option (ℕ × ℕ)
faulter (claims w page l h found e) = none
faulter (stops w l h found e) = none
faulter (locks w i page l h free e) = none
faulter (reads w i page l h e) = some (w, page)

-- The states that a prefetch may come to, in so many steps.
pub data Reached {S : Type 0} (src : TieredPageSource S) (pages : List ℕ) (s : S)
    : ℕ → Prefetch S → Type 0 where
  at_start : Reached src pages s 0 (begun s)
  after :
      {n : ℕ} {a b : Prefetch S}
      → Reached src pages s n a
      → Moves src pages a b
      → Reached src pages s (suc n) b
