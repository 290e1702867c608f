-- ===== src/Kernel/Paging.antt =====
-- crates/flock-kernel/src/paging.rs: a database file to pages and back. The page store is substrate's,
-- with state `S` and transactions `Txn`; the one scratch file of a kernel has state `F`. A resolved
-- page map is its keys in ascending order, as a `BTreeMap` iterates; the source uses no more of it.
-- Offsets into the file are taken to stay below 2^64.
pub mod Chunks
pub mod Store
pub mod Loops
pub mod RoundTrip
pub mod Unchanged
use flockdb.Prelude.{
  ℕ, zero, suc, ◌*◌, Bool, true, false, ◌&&◌, List, [], ◌∷◌, ◌++◌, Result, ok, err, ◌>>=◌, map_err,
  leb, ◌==◌, if◌then◌else◌, length, take, drop, contains,
}
use flockdb.Foreign.{ManifestId, PageId, LogicalPageNo, Bytes, PagerError, IoError}
use flockdb.Kernel.Error.{KernelError, scratch, store, corrupt_layout}

pub record PageStore (S Txn : Type 0) : Type 0 where
  pub page_size : ℕ
  pub head : S → ManifestId
  pub resolve : ManifestId → S → Result PagerError (List LogicalPageNo)
  pub read : ManifestId → LogicalPageNo → S → Result PagerError Bytes
  pub begin : S → Result PagerError Txn
  pub write : Txn → LogicalPageNo → Bytes → S → Result PagerError (PageId × Txn) × S
  pub remove : Txn → LogicalPageNo → S → Result PagerError Txn × S
  pub commit : Txn → S → Result PagerError ManifestId × S

pub data Removal : Type 0 where
  removed not_found : Removal
  failed : IoError → Removal

pub record ScratchFile (F : Type 0) : Type 0 where
  pub read : F → Result IoError Bytes
  pub write : Bytes → F → Result IoError (Unit {0}) × F
  pub remove_file : F → Removal × F

-- `a == b` on byte slices.
unfoldable pub same_bytes : Bytes → Bytes → Bool
same_bytes [] [] = true
same_bytes (a ∷ as') (b ∷ bs) = a == b && same_bytes as' bs
same_bytes _ _ = false

-- `bytes.chunks(page_size)`: each chunk takes a byte or more, so as much fuel as there are bytes is
-- enough.
unfoldable pub chunks_of : ℕ → ℕ → Bytes → List Bytes
chunks_of zero page_size bytes = []
chunks_of (suc fuel) page_size [] = []
chunks_of (suc fuel) page_size (b ∷ bytes) =
    take page_size (b ∷ bytes) ∷ chunks_of fuel page_size (drop page_size (b ∷ bytes))

unfoldable pub chunks : ℕ → Bytes → List Bytes
unfolding chunks_of
chunks page_size bytes = chunks_of (length bytes) page_size bytes

module _ {F : Type 0} (disk : ScratchFile F) where
  abbrev pub cleared : Removal × F → Result KernelError (Unit {0}) × F
  cleared (removed, f) = (ok tt, f)
  cleared (not_found, f) = (ok tt, f)
  cleared (failed e, f) = (err (scratch "clear scratch file" e), f)

  abbrev pub written : Result IoError (Unit {0}) × F → Result KernelError (Unit {0}) × F
  written (r, f) = (map_err (scratch "write hydrated database") r, f)

  -- The file for a database's bytes: none at all for an empty one.
  unfoldable pub put_file : Bytes → F → Result KernelError (Unit {0}) × F
  put_file [] f = cleared (disk.remove_file f)
  put_file (b ∷ bytes) f = written (disk.write (b ∷ bytes) f)

module _ {S Txn : Type 0} (st : PageStore S Txn) where
  -- The loop of `hydrate`.
  unfoldable pub hydrate_pages :
      ManifestId → List LogicalPageNo → Bytes → S → Result KernelError Bytes
  hydrate_pages manifest [] file s = ok file
  hydrate_pages manifest (page_no ∷ pages) file s = elim (length file == page_no * st.page_size) [
    | true ↦
        map_err (store "hydrate") (st.read manifest page_no s)
        >>= (λ page. hydrate_pages manifest pages (file ++ page) s)
    | false ↦ err (corrupt_layout manifest page_no (page_no * st.page_size) (length file))
  ]

  unfoldable pub assemble : ManifestId → S → Result KernelError Bytes
  unfolding hydrate_pages
  assemble manifest s =
      map_err (store "hydrate") (st.resolve manifest s)
      >>= (λ pages. hydrate_pages manifest pages [] s)

  unfoldable pub hydrate :
      {F : Type 0} → ScratchFile F → ManifestId → F → S → Result KernelError (Unit {0}) × F
  unfolding assemble put_file
  hydrate disk manifest f s = elim (assemble manifest s) [
    | err e ↦ (err e, f)
    | ok file ↦ put_file disk file f
  ]

  abbrev pub staged : Result PagerError (PageId × Txn) × S → Result KernelError Txn × S
  staged (ok (id, txn), s) = (ok txn, s)
  staged (err e, s) = (err (store "checkpoint" e), s)

  abbrev pub taken_out : Result PagerError Txn × S → Result KernelError Txn × S
  taken_out (ok txn, s) = (ok txn, s)
  taken_out (err e, s) = (err (store "checkpoint" e), s)

  abbrev pub and_then {ℓ} :
      {A : Type ℓ}
      → Result KernelError Txn × S
      → (Txn → S → Result KernelError A × S)
      → Result KernelError A × S
  and_then (ok txn, s) k = k txn s
  and_then (err e, s) k = (err e, s)

  -- A chunk that the old page holds already does not enter the transaction.
  abbrev pub if_changed :
      LogicalPageNo → Bytes → Txn → S → Result PagerError Bytes → Result KernelError Txn × S
  if_changed page_no chunk txn s (err e) = (err (store "checkpoint" e), s)
  if_changed page_no chunk txn s (ok existing) =
      if same_bytes existing chunk then (ok txn, s) else staged (st.write txn page_no chunk s)

  unfoldable pub stage_chunk :
      ManifestId → List LogicalPageNo → LogicalPageNo → Bytes → Txn → S → Result KernelError Txn × S
  unfolding same_bytes
  stage_chunk head old page_no chunk txn s =
      if contains page_no old
      then if_changed page_no chunk txn s (st.read head page_no s)
      else staged (st.write txn page_no chunk s)

  unfoldable pub stage_chunks :
      ManifestId
      → List LogicalPageNo
      → LogicalPageNo
      → List Bytes
      → Txn
      → S
      → Result KernelError Txn × S
  unfolding stage_chunk
  stage_chunks head old i [] txn s = (ok txn, s)
  stage_chunks head old i (chunk ∷ rest) txn s =
      and_then (stage_chunk head old i chunk txn s) (stage_chunks head old (suc i) rest)

  -- The loop that removes the pages past the new end.
  unfoldable pub remove_tail : ℕ → List LogicalPageNo → Txn → S → Result KernelError Txn × S
  remove_tail new_page_count [] txn s = (ok txn, s)
  remove_tail new_page_count (page_no ∷ old) txn s = elim (leb new_page_count page_no) [
    | true ↦ and_then (taken_out (st.remove txn page_no s)) (remove_tail new_page_count old)
    | false ↦ remove_tail new_page_count old txn s
  ]

  abbrev pub finished : Result PagerError ManifestId × S → Result KernelError ManifestId × S
  finished (r, s) = (map_err (store "checkpoint") r, s)

  -- The file's bytes against the old pages, in a transaction.
  abbrev pub checkpoint :
      Bytes → List LogicalPageNo → S → Result PagerError Txn → Result KernelError ManifestId × S
  checkpoint bytes old s (err e) = (err (store "checkpoint" e), s)
  checkpoint bytes old s (ok txn) =
      let pages = chunks st.page_size bytes in
      and_then (stage_chunks (st.head s) old 0 pages txn s) (λ txn s.
        and_then (remove_tail (length pages) old txn s) (λ txn s. finished (st.commit txn s)))

  unfoldable pub persist : {F : Type 0} → ScratchFile F → F → S → Result KernelError ManifestId × S
  unfolding stage_chunks remove_tail chunks
  persist disk f s = elim (disk.read f) [
    | err e ↦ (err (scratch "read database for checkpoint" e), s)
    | ok bytes ↦ elim (st.resolve (st.head s) s) [
      | err e ↦ (err (store "checkpoint" e), s)
      | ok old ↦ checkpoint bytes old s (st.begin s)
    ]
  ]
