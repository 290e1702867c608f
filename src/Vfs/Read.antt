-- ===== src/Vfs/Read.antt =====
-- crates/flock-vfs/src/read.rs: `serve_read`, from a byte range to page faults. The loop takes fuel;
-- each round serves at least one byte, so fuel `want` is enough, and it runs out only where no
-- wanted byte is left (Vfs/Read/Loop). The buffer is returned beside the result: what was copied
-- before an error stays copied.
pub mod Slice
pub mod Loop
pub mod Bytewise
pub mod Complete
use flockdb.Prelude.{
  ℕ, zero, suc, ◌+◌, ◌-◌, ◌/◌, ◌%◌, ◌^◌, min, true, false, ◌++◌, ltb, leb, ◌==◌, if◌then◌else◌,
  length, take, drop, Result, ok, err, ◌>>=◌,
}
use flockdb.Foreign.{Bytes}
use flockdb.Vfs.Error.{VfsError, zero_page_size, offset_overflow, oversize_page, short_page}
use flockdb.Vfs.Source.{PageSource}

-- The number of `u64` values, for `checked_add`.
abbrev pub u64_mod : ℕ
u64_mod = 2 ^ 64

-- buf[at .. at + bytes.len()].copy_from_slice(bytes)
unfoldable pub copy_slice : Bytes → ℕ → Bytes → Bytes
copy_slice buf at bytes = take at buf ++ (bytes ++ drop (at + length bytes) buf)

-- The checks on a faulted page, and the `take` bytes of it that the request still needs.
unfoldable pub page_slice : (page_no page_off page_size needed : ℕ) → Bytes → Result VfsError Bytes
page_slice page_no page_off page_size needed page =
    if ltb page_size (length page)
    then err (oversize_page page_no (length page) page_size)
    else if leb (length page) page_off
    then err (short_page page_no page_off (length page))
    else ok (take (min (length page - page_off) needed) (drop page_off page))

module _ {S : Type 0} where
  -- The part of a round before the copy: the checked position, the fault, the checks on the page.
  unfoldable pub fault_slice : PageSource S → (offset done want : ℕ) → S → Result VfsError Bytes × S
  unfolding page_slice
  fault_slice src offset done want s =
      if leb u64_mod (offset + done)
      then (err (offset_overflow offset), s)
      else let file_pos = offset + done in
        let page_no = file_pos / src.page_size in
        let page_off = file_pos % src.page_size in
        let (faulted, s') = src.read_page page_no s in
        (faulted >>= page_slice page_no page_off src.page_size (want - done), s')

  abbrev pub resume :
      Result VfsError Bytes × S
      → (Bytes → S → Result VfsError ℕ × Bytes × S)
      → Bytes
      → Result VfsError ℕ × Bytes × S
  resume (ok chunk, s) k buf = k chunk s
  resume (err e, s) k buf = (err e, buf, s)

  -- `while done < want { … }`, and the `Ok(done)` behind it.
  unfoldable pub serve_loop :
      PageSource S → (offset want fuel done : ℕ) → Bytes → S → Result VfsError ℕ × Bytes × S
  serve_loop src offset want zero done buf s = (ok done, buf, s)
  serve_loop src offset want (suc fuel) done buf s = elim (ltb done want) [
    | true ↦
        resume (fault_slice src offset done want s)
          (λ chunk s'.
            serve_loop src offset want fuel (done + length chunk) (copy_slice buf done chunk) s')
          buf
    | false ↦ (ok done, buf, s)
  ]

  unfoldable pub serve_read :
      PageSource S → (total_len offset : ℕ) → Bytes → S → Result VfsError ℕ × Bytes × S
  serve_read src total_len offset buf s =
      if leb total_len offset
      then (ok 0, buf, s)
      else let want = min (total_len - offset) (length buf) in
        if want == 0
        then (ok 0, buf, s)
        else if src.page_size == 0
        then (err zero_page_size, buf, s)
        else serve_loop src offset want want 0 buf s
