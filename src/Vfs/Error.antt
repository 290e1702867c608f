-- ===== src/Vfs/Error.antt =====
-- crates/flock-vfs/src/error.rs
use flockdb.Prelude.{ℕ, String}
use flockdb.Foreign.{PagerError, StoreError}

pub data VfsError : Type 0 where
  zero_page_size : VfsError
  offset_overflow : (offset : ℕ) → VfsError
  oversize_page : (page_no page_len page_size : ℕ) → VfsError
  short_page : (page_no needed_offset page_len : ℕ) → VfsError
  fault : (page_no : ℕ) → (source : PagerError) → VfsError
  wake : (source : StoreError) → VfsError
  runtime : (detail : String) → VfsError
  tier_config : (detail : String) → VfsError
  bad_ffi_argument : (what detail : String) → VfsError
