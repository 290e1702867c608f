-- ===== src/Vfs/Source.antt =====
-- crates/flock-vfs/src/source.rs: the trait `PageSource`. Its implementations fault pages through
-- caches and stores, so a call takes the source's state and returns it; a source that misbehaves,
-- or answers differently each time, is a value of this record too.
use flockdb.Prelude.{ℕ, List, [], ◌∷◌, Result}
use flockdb.Foreign.{Bytes}
use flockdb.Vfs.Error.{VfsError}

pub record PageSource (S : Type 0) : Type 0 where
  pub page_size : ℕ
  pub read_page : ℕ → S → Result VfsError Bytes × S
  pub prefetch : List ℕ → S → S

module _ {S : Type 0} where
  -- The trait's default `prefetch`: serial, each error dropped.
  unfoldable pub prefetch_serially : (ℕ → S → Result VfsError Bytes × S) → List ℕ → S → S
  prefetch_serially read_page [] s = s
  prefetch_serially read_page (page_no ∷ pages) s =
      prefetch_serially read_page pages (read_page page_no s).1
