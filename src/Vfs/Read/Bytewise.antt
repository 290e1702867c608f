-- ===== src/Vfs/Read/Bytewise.antt =====
-- `serve_read` for any source at all, also one that fails, lies about its pages' sizes or answers
-- differently each time: its memory safety, and which bytes it reports.
use flockdb.Prelude.{
  ℕ, ◌+◌, ◌-◌, ◌/◌, ◌%◌, ◌≤◌, ◌<◌, ◌≡◌, refl, ap, ◌∙◌, inl, inr, Option, arith, tests, ltb, ltb→lt,
  Bool-cases, length, drop, get_elem?, get_elem?-take, get_elem?-drop, Result, ok, err, sym,
}
use flockdb.Foreign.{Bytes}
use flockdb.Vfs.Error.{VfsError}
use flockdb.Vfs.Source.{PageSource}
use flockdb.Vfs.Read.{copy_slice, fault_slice, serve_loop, serve_read}
use flockdb.Vfs.Read.Slice.{
  length-copy_slice, copy_slice_before, copy_slice_inside, copy_slice_behind,
}
use flockdb.Vfs.Read.Loop.{
  fault_slice-eq-ok, length-Sliced, serve_loop_rule, served_len, serve_read_cases,
}

-- The buffer after a call: its length is unchanged, and so is every byte from `n` on.
pub record SameBehind (n : ℕ) (buf buf' : Bytes) : Type 0 where
  pub same_length : length buf' ≡ length buf
  pub same_behind : (i : ℕ) → n ≤ i → get_elem? buf' i ≡ get_elem? buf i

SameBehind-copy_slice :
    (n done : ℕ) (orig buf chunk : Bytes)
    → done + length chunk ≤ n
    → n ≤ length orig
    → SameBehind n orig buf
    → SameBehind n orig (copy_slice buf done chunk)
SameBehind-copy_slice n done orig buf chunk fits p h =
    let l = h.same_length in
    let inside : done + length chunk ≤ length buf = omega arith in
    record {
      same_length = length-copy_slice buf chunk done inside ∙ l;
      same_behind =
          λ i q. copy_slice_behind buf chunk done inside i (omega arith) ∙ h.same_behind i q;
    }

-- A count that is reported, if one is.
abbrev pub Counted : ℕ → Result VfsError ℕ → Type 0
Counted served (ok n) = n ≡ served
Counted served (err e) = Unit

-- What every call does, whatever the source does: a count that it reports is that of the bytes of
-- the request which lie in the file, and it touches no other byte.
pub record Safe {S : Type 0} (total_len offset : ℕ) (buf : Bytes)
    (out : Result VfsError ℕ × Bytes × S) : Type 0 where
  pub counted : Counted (served_len total_len offset buf) out.0
  pub untouched : SameBehind (served_len total_len offset buf) buf out.1

SameBehind-refl : (n : ℕ) (buf : Bytes) → SameBehind n buf buf
SameBehind-refl n buf = record { same_length = refl; same_behind = λ i q. refl }

module _ {S : Type 0} (src : PageSource S) (total_len offset : ℕ) (buf : Bytes) (s : S) where
  serve_loop-Safe : Safe total_len offset buf (
      serve_loop src offset
        (served_len total_len offset buf)
        (served_len total_len offset buf)
        0
        buf
        s)
  serve_loop-Safe =
      let want = served_len total_len offset buf in
      serve_loop_rule src offset want (λ _ b _. SameBehind want buf b) (Safe total_len offset buf)
        (λ done b s' chunk s'' p inv e fits.
          SameBehind-copy_slice want done buf b chunk fits (omega arith) inv)
        (λ done b s' e s'' p inv f. record { counted = tt; untouched = inv })
        (λ b s' inv. record { counted = refl; untouched = inv }) want 0 buf s (omega arith)
        (omega arith) (SameBehind-refl want buf)

  -- For every source, file length, offset, buffer and state: if a read reports `n` bytes, then `n`
  -- is the number of requested bytes before the end of the file (0 at or behind it); and whether
  -- it reports or fails, the buffer keeps its length and every byte from that number on.
  pub serve_read-Safe : Safe total_len offset buf (serve_read src total_len offset buf s)
  serve_read-Safe =
      serve_read_cases src total_len offset buf s (Safe total_len offset buf)
        (λ z. record { counted = sym z; untouched = SameBehind-refl _ buf })
        (λ z. record { counted = tt; untouched = SameBehind-refl _ buf }) (λ p q. serve_loop-Safe)

pub div_mod_add :
    (p ps k : ℕ) → p % ps + k < ps → ((p + k) / ps ≡ p / ps) × ((p + k) % ps ≡ p % ps + k)
div_mod_add p ps k h = grind arith

-- Where a source returns a page, it is always that of one file: page `no` is `content no`. It may
-- still fail at any time.
pub record Agrees {S : Type 0} (src : PageSource S) (content : ℕ → Bytes) : Type 0 where
  pub same :
      (no : ℕ) (s : S) (page : Bytes) (s' : S)
      → src.read_page no s ≡ (ok page, s')
      → page ≡ content no

module _ {S : Type 0} (src : PageSource S) (content : ℕ → Bytes) (agrees : Agrees src content) where
  -- Byte `p` of the file: that at `p % page_size` of page `p / page_size`.
  abbrev pub file_byte : ℕ → Option ℕ
  file_byte p = get_elem? (content (p / src.page_size)) (p % src.page_size)

  abbrev Served : (offset done : ℕ) → Bytes → Type 0
  Served offset done buf = (i : ℕ) → i < done → get_elem? buf i ≡ file_byte (offset + i)

  slice_byte :
      (offset done want : ℕ) (s : S) (chunk : Bytes) (s' : S) (k : ℕ)
      → fault_slice src offset done want s ≡ (ok chunk, s')
      → k < length chunk
      → get_elem? chunk k ≡ file_byte (offset + done + k)
  slice_byte offset done want s chunk s' k e h =
      let f = fault_slice-eq-ok src offset want done s e in
      let pos = offset + done in
      let off = pos % src.page_size in
      let len = length-Sliced off src.page_size (want - done) f.page chunk f.sliced in
      let fits = f.sliced.fits in
      let within = f.sliced.within in
      let (d, m) = div_mod_add pos src.page_size k (omega arith) in
      rw (d, m)
        (rw (f.sliced.taken) (
          get_elem?-take _ (drop off f.page) k (omega arith)
          ∙ get_elem?-drop off f.page k
          ∙ ap (λ l. get_elem? l (off + k)) (agrees.same _ s f.page s' f.read)))

  Served-copy_slice :
      (offset done want : ℕ) (buf : Bytes) (s : S) (chunk : Bytes) (s' : S)
      → fault_slice src offset done want s ≡ (ok chunk, s')
      → done + length chunk ≤ length buf
      → Served offset done buf
      → Served offset (done + length chunk) (copy_slice buf done chunk)
  Served-copy_slice offset done want buf s chunk s' e fits served i h =
      elim (Bool-cases (ltb i done)) [
        | inl old ↦
            let p = ltb→lt i done old in copy_slice_before buf chunk done fits i p ∙ served i p
        | inr new ↦
            let k = i - done in
            let e' : i ≡ done + k = omega tests in
            let a : offset + (done + k) ≡ offset + done + k = omega arith in
            let q : k < length chunk = omega tests in
            rw e' (
              copy_slice_inside buf chunk done fits k q
              ∙ rw a (slice_byte offset done want s chunk s' k e q))
      ]

  abbrev Correct : ℕ → Result VfsError ℕ × Bytes × S → Type 0
  Correct offset out = (n : ℕ) → out.0 ≡ ok n → Served offset n out.1

  serve_loop-Correct :
      (total_len offset : ℕ) (buf : Bytes) (s : S)
      → Correct offset (
          serve_loop src offset
            (served_len total_len offset buf)
            (served_len total_len offset buf)
            0
            buf
            s)
  serve_loop-Correct total_len offset buf s =
      let want = served_len total_len offset buf in
      serve_loop_rule src offset want (λ done b _. (length b ≡ length buf) × Served offset done b)
        (Correct offset)
        (λ done b s' chunk s'' p inv e fits.
          let l = inv.0 in
          let inside : done + length chunk ≤ length b = omega arith in
          (
            length-copy_slice b chunk done inside ∙ l,
            Served-copy_slice offset done want b s' chunk s'' e inside inv.1,
          ))
        (λ done b s' e s'' p inv f n q. cc) (λ b s' inv n q. let e : n ≡ want = cc q in rw e inv.1)
        want 0 buf s (omega arith) (omega arith) (refl, λ i h. absurd (omega arith))

  -- For a source whose pages are those of one file and which may fail at any time: where a read
  -- reports `n` bytes, byte `i` of the buffer, for every `i < n`, is byte `offset + i` of the file,
  -- that is the byte at `(offset + i) % page_size` of page `(offset + i) / page_size`.
  pub serve_read_bytes :
      (total_len offset : ℕ) (buf : Bytes) (s : S) (n : ℕ)
      → (serve_read src total_len offset buf s).0 ≡ ok n
      → (i : ℕ) → i < n
      → get_elem? (serve_read src total_len offset buf s).1 i ≡ file_byte (offset + i)
  serve_read_bytes total_len offset buf s =
      serve_read_cases src total_len offset buf s (Correct offset)
        (λ z n q i h. absurd (let e : n ≡ 0 = cc q in omega arith)) (λ z n q. cc q)
        (λ p q. serve_loop-Correct total_len offset buf s)
