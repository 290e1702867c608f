-- ===== src/Vfs/Read/Complete.antt =====
-- `serve_read` over a source that holds the file: the read succeeds, so the positions never
-- overflow and no page is refused.
use flockdb.Prelude.{
  ℕ, ◌+◌, ◌-◌, ◌/◌, ◌%◌, ◌≤◌, ◌<◌, ◌≡◌, ◌≢◌, refl, ap, sym, arith, leb, lt→leb, false, length, ok,
  err,
}
use flockdb.Foreign.{Bytes}
use flockdb.Vfs.Error.{VfsError}
use flockdb.Vfs.Source.{PageSource}
use flockdb.Vfs.Read.{u64_mod, page_slice, fault_slice, serve_read}
use flockdb.Vfs.Read.Loop.{serve_loop_rule, served_len, serve_read_cases}

-- The source holds a file of `total_len` bytes: whenever the page of a byte of the file is faulted
-- it comes back, no longer than the page size and long enough for the byte.
pub record Holds {S : Type 0} (src : PageSource S) (content : ℕ → Bytes) (total_len : ℕ)
    : Type 0 where
  pub addressable : total_len ≤ u64_mod
  pub sized : 0 < src.page_size
  pub read :
      (p : ℕ) (s : S)
      → p < total_len
      → (src.read_page (p / src.page_size) s).0 ≡ ok (content (p / src.page_size))
  pub fits : (p : ℕ) → p < total_len → length (content (p / src.page_size)) ≤ src.page_size
  pub within : (p : ℕ) → p < total_len → p % src.page_size < length (content (p / src.page_size))

page_slice-ne-err :
    (page_no page_off page_size needed : ℕ) (page : Bytes) {e : VfsError}
    → length page ≤ page_size
    → page_off < length page
    → page_slice page_no page_off page_size needed page ≢ err e
unfolding page_slice
page_slice-ne-err page_no page_off page_size needed page fits within h = ground arith

module _ {S : Type 0} (src : PageSource S) (content : ℕ → Bytes) (total_len : ℕ)
    (holds : Holds src content total_len) where
  fault_slice-ne-err :
      (offset done want : ℕ) (s : S) (e : VfsError) (s' : S)
      → offset + done < total_len
      → fault_slice src offset done want s ≢ (err e, s')
  unfolding fault_slice
  fault_slice-ne-err offset done want s e s' p h =
      let pos = offset + done in
      let u = holds.addressable in
      let below : leb u64_mod pos ≡ false = lt→leb u64_mod pos (omega arith) in
      page_slice-ne-err (pos / src.page_size) (pos % src.page_size) src.page_size (want - done)
        (content (pos / src.page_size)) (holds.fits pos p) (holds.within pos p)
        (rw (holds.read pos s p) at (ap (λ t. t.0) (rw below at h)))

  -- Over a source that holds the file, a read from any offset into any buffer succeeds, with the
  -- number of requested bytes before the end of the file.
  pub serve_read_succeeds :
      (offset : ℕ) (buf : Bytes) (s : S)
      → (serve_read src total_len offset buf s).0 ≡ ok (served_len total_len offset buf)
  serve_read_succeeds offset buf s =
      let want = served_len total_len offset buf in
      let sized = holds.sized in
      serve_read_cases src total_len offset buf s (λ out. out.0 ≡ ok want) (λ z. ap ok (sym z))
        (λ z. absurd (omega arith))
        (λ p q.
          serve_loop_rule src offset want (λ _ _ _. Unit {0}) (λ out. out.0 ≡ ok want)
            (λ done b s' chunk s'' p inv e fits. tt)
            (λ done b s' e s'' p inv f.
              absurd (fault_slice-ne-err offset done want s' e s'' (omega arith) f))
            (λ b s' inv. refl) want 0 buf s (omega arith) (omega arith) tt)
