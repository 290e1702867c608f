-- ===== src/Flockd/Recording.antt =====
-- crates/flockd/src/scheduler.rs: `RecordingSource`. Its state is the inner source's and the log of
-- pages, in the order in which they were recorded; a poisoned lock is recovered with its list, so
-- the lock shows in nothing.
pub mod Transparent
pub mod Touched
use flockdb.Prelude.{ℕ, List, [], ◌∷◌, ◌++◌, leb, ◌==◌, if◌then◌else◌, Result}
use flockdb.Prelude.Sorting.{sort}
use flockdb.Foreign.{Bytes}
use flockdb.Vfs.Error.{VfsError}
use flockdb.Vfs.Source.{PageSource}

pub record RecordingSource (S : Type 0) : Type 0 where
  pub inner : S
  pub touched_log : List ℕ

module _ {S : Type 0} where
  unfoldable pub start : S → RecordingSource S
  start s = record { inner = s; touched_log = [] }

  unfoldable pub into_inner : RecordingSource S → S
  into_inner r = r.inner

  unfoldable pub add_record : ℕ → RecordingSource S → RecordingSource S
  add_record page_no r = record r { touched_log = r.touched_log ++ page_no ∷ [] }

  unfoldable pub add_records : List ℕ → RecordingSource S → RecordingSource S
  unfolding add_record
  add_records [] r = r
  add_records (page_no ∷ pages) r = add_records pages (add_record page_no r)

  unfoldable pub recording_read_page :
      PageSource S → ℕ → RecordingSource S → Result VfsError Bytes × RecordingSource S
  unfolding add_record
  recording_read_page src page_no r =
      let (page, s) = src.read_page page_no r.inner in
      (page, record (add_record page_no r) { inner = s })

  unfoldable pub recording_prefetch : PageSource S → List ℕ → RecordingSource S → RecordingSource S
  unfolding add_records
  recording_prefetch src pages r =
      let r' = add_records pages r in record r' { inner = src.prefetch pages r'.inner }

  -- `impl PageSource for RecordingSource`
  unfoldable pub recording : PageSource S → PageSource (RecordingSource S)
  unfolding recording_read_page recording_prefetch
  recording src = record {
    page_size = src.page_size;
    read_page = recording_read_page src;
    prefetch = recording_prefetch src;
  }

-- `Vec::dedup`: of each run of equal elements the first is kept.
unfoldable pub dedup_after : ℕ → List ℕ → List ℕ
dedup_after x [] = []
dedup_after x (y ∷ ys) = let rest = dedup_after y ys in if x == y then rest else y ∷ rest

unfoldable pub dedup : List ℕ → List ℕ
unfolding dedup_after
dedup [] = []
dedup (x ∷ xs) = x ∷ dedup_after x xs

unfoldable pub touched : {S : Type 0} → RecordingSource S → List ℕ
unfolding sort dedup
touched r = dedup (sort r.touched_log)
