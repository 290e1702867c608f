-- ===== src/Vfs/Ffi/Pread.antt =====
-- What a `pread` across the C ABI reports and touches.
use flockdb.Prelude.{
  ℕ, ◌+◌, ◌-◌, ◌≤◌, ◌<◌, ◌≡◌, refl, ap, sym, ◌∙◌, ◌⊎◌, inl, inr, arith, tests, ltb, ◌==◌, ==_iff,
  lt→ltb, ltb→lt, [], get_elem?-take, Bool-cases, length, take, drop, ◌++◌, get_elem?,
  length-append, length-take, length-drop, Option, none, some, Result, ok, err,
  get_elem?-append_left, get_elem?-append_right, get_elem?-drop,
}
use flockdb.Prelude.Int.{ℤ, pos, i64_bound}
use flockdb.Foreign.{Bytes}
use flockdb.Vfs.Error.{VfsError}
use flockdb.Vfs.Read.{serve_read}
use flockdb.Vfs.Read.Loop.{served_len}
use flockdb.Vfs.Read.Bytewise.{SameBehind, Counted, serve_read-Safe}
use flockdb.Vfs.Ffi.{FlockVfs, flock_vfs_pread, read_into, minus_one, count_or_error}

-- What C sees of a call with a buffer of `len` bytes at the start of `memory`.
pub record CSafe (served len : ℕ) (memory : Bytes) (r : ℤ) (after : Bytes) : Type 0 where
  pub reports : (r ≡ minus_one) ⊎ (r ≡ pos served)
  pub within : served ≤ len
  pub same_length : length after ≡ length memory
  pub untouched : (i : ℕ) → served ≤ i → get_elem? after i ≡ get_elem? memory i

count_reports :
    (r : Result VfsError ℕ) (served : ℕ)
    → Counted served r
    → served < i64_bound
    → (count_or_error r ≡ minus_one) ⊎ (count_or_error r ≡ pos served)
count_reports (ok n) served c p =
    let e : n ≡ served = c in inr (rw e (rw (lt→ltb served i64_bound p)))
count_reports (err e) served c p = inl refl

behind_slice :
    (len served : ℕ) (memory out : Bytes)
    → len ≤ length memory
    → served ≤ len
    → SameBehind served (take len memory) out
    → (i : ℕ) → served ≤ i
    → get_elem? (out ++ drop len memory) i ≡ get_elem? memory i
behind_slice len served memory out fits p h i q =
    let l = h.same_length in
    let n : length out ≡ len = omega (arith, length-take len memory) in
    elim (Bool-cases (ltb i len)) [
      | inl inside ↦
          get_elem?-append_left out (drop len memory) i (omega tests)
          ∙ h.same_behind i q
          ∙ get_elem?-take len memory i (ltb→lt i len inside)
      | inr behind ↦
          let e : i ≡ length out + (i - len) = omega tests in
          let e' : len + (i - len) ≡ length out + (i - len) = omega arith in
          rw e (
            rw (get_elem?-append_right out (drop len memory) (i - len))
              (rw (get_elem?-drop len memory (i - len)) (rw e')))
    ]

-- The memory behind a pointer that is not null.
abbrev pub memory_of : Option Bytes → Bytes
memory_of none = []
memory_of (some memory) = memory

module _ {S : Type 0} (h : FlockVfs S) (s : S) (offset len : ℕ) (memory : Bytes) where
  read_into-CSafe :
      len ≤ length memory
      → len < i64_bound
      → let out = read_into h offset len memory s in
        CSafe (served_len h.total_len offset (take len memory)) len memory out.0 (memory_of out.1)
  read_into-CSafe fits p =
      let slice = take len memory in
      let out = serve_read h.source h.total_len offset slice s in
      let served = served_len h.total_len offset slice in
      let safe = serve_read-Safe h.source h.total_len offset slice s in
      let l = length-take len memory in
      let within : served ≤ len = omega arith in
      let same = safe.untouched.same_length in
      record {
        reports = count_reports out.0 served safe.counted (omega arith);
        within = within;
        same_length = omega (arith, length-append out.1 (drop len memory), length-drop len memory);
        untouched = behind_slice len served memory out.1 fits within safe.untouched;
      }

  -- For an open handle, an offset of at least 0 and a buffer of `len` bytes, `len` below 2^63, at the
  -- start of the memory that the pointer leads to: the call returns -1 or the number of requested
  -- bytes before the end of the file, which is at most `len`; and the memory keeps its length and
  -- every byte from that number on.
  pub flock_vfs_pread-CSafe :
      len ≤ length memory
      → len < i64_bound
      → CSafe
          (served_len h.total_len offset (take len memory))
          len
          memory
          (flock_vfs_pread (some h) (pos offset) (some memory) len s).0
          (memory_of (flock_vfs_pread (some h) (pos offset) (some memory) len s).1)
  unfolding flock_vfs_pread
  flock_vfs_pread-CSafe fits p = elim (Bool-cases (len == 0)) [
    | inl empty ↦
        let e : len ≡ 0 = (==_iff len 0).0 empty in
        let l = length-take len memory in
        let z : served_len h.total_len offset (take len memory) ≡ 0 = omega arith in
        rw empty (record {
          reports = inr (ap pos (sym z));
          within = omega arith;
          same_length = refl;
          untouched = λ i q. refl;
        })
    | inr some_bytes ↦ rw some_bytes (read_into-CSafe fits p)
  ]
