-- ===== src/Vfs/Read/Loop.antt =====
-- What the loop of `serve_read` keeps for any source at all: its fuel is enough, a reported count is
-- the wanted count, and the buffer keeps its length and every byte behind the wanted ones.
use flockdb.Prelude.{
  ℕ, zero, suc, ◌+◌, ◌-◌, ◌/◌, ◌%◌, ◌≤◌, ◌<◌, ◌≡◌, refl, ap, inl, inr, min, arith, tests, ltb, leb,
  Bool-cases, ltb→lt, ==_iff, ◌==◌, length, take, drop, length-take, length-drop, Result, ok, err,
  ◌>>=◌,
}
use flockdb.Foreign.{Bytes}
use flockdb.Vfs.Error.{VfsError, zero_page_size}
use flockdb.Vfs.Source.{PageSource}
use flockdb.Vfs.Read.{u64_mod, page_slice, fault_slice, copy_slice, resume, serve_loop, serve_read}

-- What the checks on a page have established where it is served.
pub record Sliced (page_off page_size needed : ℕ) (page chunk : Bytes) : Type 0 where
  pub fits : length page ≤ page_size
  pub within : page_off < length page
  pub taken : chunk ≡ take (min (length page - page_off) needed) (drop page_off page)

pub page_slice-eq-ok :
    (page_no page_off page_size needed : ℕ) (page : Bytes) {chunk : Bytes}
    → page_slice page_no page_off page_size needed page ≡ ok chunk
    → Sliced page_off page_size needed page chunk
unfolding page_slice
page_slice-eq-ok page_no page_off page_size needed page h = ground arith

pub length-Sliced :
    (page_off page_size needed : ℕ) (page chunk : Bytes)
    → Sliced page_off page_size needed page chunk
    → length chunk ≡ min (length page - page_off) needed
length-Sliced page_off page_size needed page chunk h =
    let n = min (length page - page_off) needed in
    rw h.taken (omega (arith, length-take n (drop page_off page), length-drop page_off page))

module _ {S : Type 0} where
  checked-eq-ok :
      (faulted : Result VfsError Bytes × S) (f : Bytes → Result VfsError Bytes) {chunk : Bytes}
      {s' : S}
      → ◌≡◌ {A = Result VfsError Bytes × S} (faulted.0 >>= f, faulted.1) (ok chunk, s')
      → (page : Bytes) × (faulted ≡ (ok page, s')) × (f page ≡ ok chunk)
  checked-eq-ok (ok page, s) f h = (page, cc (ap (λ t. t.1) h), ap (λ t. t.0) h)
  checked-eq-ok (err e, s) f h = cc (ap (λ t. t.0) h)

  resume_rule {κ} :
      (Post : Result VfsError ℕ × Bytes × S → Type κ) (f : Result VfsError Bytes × S)
      (k : Bytes → S → Result VfsError ℕ × Bytes × S) (buf : Bytes)
      → ((chunk : Bytes) (s : S) → f ≡ (ok chunk, s) → Post (k chunk s))
      → ((e : VfsError) (s : S) → f ≡ (err e, s) → Post (err e, buf, s))
      → Post (resume f k buf)
  resume_rule Post (ok chunk, s) k buf served failed = served chunk s refl
  resume_rule Post (err e, s) k buf served failed = failed e s refl

module _ {S : Type 0} (src : PageSource S) (offset want : ℕ) where
  pub record Faulted (done : ℕ) (s : S) (chunk : Bytes) (s' : S) : Type 0 where
    pub page : Bytes
    pub read : src.read_page ((offset + done) / src.page_size) s ≡ (ok page, s')
    pub sliced : Sliced ((offset + done) % src.page_size) src.page_size (want - done) page chunk

  pub fault_slice-eq-ok :
      (done : ℕ) (s : S) {chunk : Bytes} {s' : S}
      → fault_slice src offset done want s ≡ (ok chunk, s')
      → Faulted done s chunk s'
  unfolding fault_slice
  fault_slice-eq-ok done s h = elim (Bool-cases (leb u64_mod (offset + done))) [
    | inl over ↦ cc (h, over)
    | inr within ↦
        let file_pos = offset + done in
        let (page, read, checked) =
          checked-eq-ok (src.read_page (file_pos / src.page_size) s)
            (page_slice (file_pos / src.page_size) (file_pos % src.page_size) src.page_size
              (want - done))
            (rw within at h) in
        record { page = page; read = read; sliced = page_slice-eq-ok _ _ _ _ page checked }
  ]

  -- A round serves at least one byte and no more than are wanted.
  pub length-fault_slice :
      (done : ℕ) (s : S) {chunk : Bytes} {s' : S}
      → done < want
      → fault_slice src offset done want s ≡ (ok chunk, s')
      → (0 < length chunk) × (done + length chunk ≤ want)
  length-fault_slice done s {chunk} p h =
      let f = fault_slice-eq-ok done s h in
      let within = f.sliced.within in
      let e = length-Sliced _ _ _ f.page chunk f.sliced in omega arith

  -- The rule of the loop: an invariant that every served slice keeps, and a postcondition that
  -- holds where the loop has served all that is wanted and where a round fails.
  module _ {ℓ κ} (Inv : ℕ → Bytes → S → Type ℓ) (Post : Result VfsError ℕ × Bytes × S → Type κ)
      (step : (done : ℕ) (buf : Bytes) (s : S) (chunk : Bytes) (s' : S)
        → done < want
        → Inv done buf s
        → fault_slice src offset done want s ≡ (ok chunk, s')
        → done + length chunk ≤ want
        → Inv (done + length chunk) (copy_slice buf done chunk) s')
      (fail : (done : ℕ) (buf : Bytes) (s : S) (e : VfsError) (s' : S)
        → done < want
        → Inv done buf s
        → fault_slice src offset done want s ≡ (err e, s')
        → Post (err e, buf, s'))
      (finish : (buf : Bytes) (s : S) → Inv want buf s → Post (ok want, buf, s)) where
    pub serve_loop_rule :
        (fuel done : ℕ) (buf : Bytes) (s : S)
        → want ≤ done + fuel
        → done ≤ want
        → Inv done buf s
        → Post (serve_loop src offset want fuel done buf s)
    unfolding serve_loop
    serve_loop_rule zero done buf s enough p inv =
        let e : done ≡ want = omega arith in rw e (finish buf s (rw e at inv))
    serve_loop_rule (suc fuel) done buf s enough p inv = elim (Bool-cases (ltb done want)) [
      | inl more ↦
          rw (more, serve_loop)
            (resume_rule Post (fault_slice src offset done want s) _ buf
              (λ chunk s' e.
                let less = ltb→lt done want more in
                let (grows, fits) = length-fault_slice done s less e in
                serve_loop_rule fuel (done + length chunk) (copy_slice buf done chunk) s'
                  (omega arith) fits (step done buf s chunk s' less inv e fits))
              (λ x s' e. fail done buf s x s' (ltb→lt done want more) inv e))
      | inr stop ↦
          let e : done ≡ want = omega tests in
          rw (stop, serve_loop) (rw e (finish buf s (rw e at inv)))
    ]

-- How many bytes of the request lie before the end of the file.
abbrev pub served_len : (total_len offset : ℕ) → Bytes → ℕ
served_len total_len offset buf = min (total_len - offset) (length buf)

-- The branches of `serve_read`.
module _ {S : Type 0} (src : PageSource S) (total_len offset : ℕ) (buf : Bytes) (s : S) where
  pub serve_read_cases {κ} :
      (Post : Result VfsError ℕ × Bytes × S → Type κ)
      → (served_len total_len offset buf ≡ 0 → Post (ok 0, buf, s))
      → (src.page_size ≡ 0 → Post (err zero_page_size, buf, s))
      → (let want = served_len total_len offset buf in
          0 < want → 0 < src.page_size → Post (serve_loop src offset want want 0 buf s))
      → Post (serve_read src total_len offset buf s)
  unfolding serve_read
  serve_read_cases Post nothing zero_size looped = elim (Bool-cases (leb total_len offset)) [
    | inl past ↦ rw past (nothing (omega tests))
    | inr before ↦ rw before (elim (Bool-cases (served_len total_len offset buf == 0)) [
      | inl empty ↦ rw empty (nothing ((==_iff _ 0).0 empty))
      | inr more ↦ rw more (elim (Bool-cases (src.page_size == 0)) [
        | inl z ↦ rw z (zero_size ((==_iff _ 0).0 z))
        | inr sized ↦ rw sized (looped (ground arith) (ground arith))
      ])
    ])
  ]
