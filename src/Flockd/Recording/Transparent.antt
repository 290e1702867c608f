-- ===== src/Flockd/Recording/Transparent.antt =====
-- Wrapping a source in a recorder changes no read, and the recorder sees every page of it.
use flockdb.Prelude.{
  ℕ, zero, suc, ◌+◌, ◌-◌, ◌/◌, ◌%◌, ◌<◌, ◌≡◌, refl, ap, sym, inl, inr, true, List, [], ◌∷◌, ◌++◌,
  arith, tests, leb, ltb, ltb→lt, Bool-cases, length, Result, ok, err, contains, contains-append,
  ◌==◌,
}
use flockdb.Foreign.{Bytes}
use flockdb.Vfs.Error.{VfsError}
use flockdb.Vfs.Source.{PageSource}
use flockdb.Vfs.Read.{u64_mod, fault_slice, resume, copy_slice, serve_loop, serve_read}
use flockdb.Vfs.Read.Loop.{
  fault_slice-eq-ok, length-Sliced, serve_loop_rule, served_len, serve_read_cases,
}
use flockdb.Vfs.Read.Bytewise.{div_mod_add}
use flockdb.Flockd.Recording.{RecordingSource, recording}

module _ {S : Type 0} (src : PageSource S) where
  -- The result and the buffer are the same, and so is the state of the wrapped source.
  pub record Same (out : Result VfsError ℕ × Bytes × RecordingSource S)
      (out' : Result VfsError ℕ × Bytes × S) : Type 0 where
    pub result : out.0 ≡ out'.0
    pub buffer : out.1 ≡ out'.1
    pub state : out.2.inner ≡ out'.2

  fault_slice-recording :
      (offset done want : ℕ) (r : RecordingSource S)
      → let f = fault_slice src offset done want r.inner in
        (log : List ℕ) × (fault_slice (recording src) offset done want r
          ≡ (f.0, record { inner = f.1; touched_log = log }))
  unfolding fault_slice recording
  fault_slice-recording offset done want r = elim (Bool-cases (leb u64_mod (offset + done))) [
    | inl over ↦ rw over (r.touched_log, refl)
    | inr fits ↦ rw fits (r.touched_log ++ ((offset + done) / src.page_size) ∷ [], refl)
  ]

  Same-resume :
      (f : Result VfsError Bytes × S) (log : List ℕ)
      (k : Bytes → RecordingSource S → Result VfsError ℕ × Bytes × RecordingSource S)
      (k' : Bytes → S → Result VfsError ℕ × Bytes × S) (buf : Bytes)
      → ((chunk : Bytes) (s : S)
          → Same (k chunk (record { inner = s; touched_log = log })) (k' chunk s))
      → Same (resume (f.0, record { inner = f.1; touched_log = log }) k buf) (resume f k' buf)
  Same-resume (ok chunk, s) log k k' buf same = same chunk s
  Same-resume (err e, s) log k k' buf same = record { result = refl; buffer = refl; state = refl }

  serve_loop-recording :
      (offset want fuel done : ℕ) (buf : Bytes) (r : RecordingSource S)
      → Same
          (serve_loop (recording src) offset want fuel done buf r)
          (serve_loop src offset want fuel done buf r.inner)
  unfolding serve_loop
  serve_loop-recording offset want zero done buf r = record {
    result = refl;
    buffer = refl;
    state = refl;
  }
  serve_loop-recording offset want (suc fuel) done buf r = elim (Bool-cases (ltb done want)) [
    | inl more ↦
        let (log, e) = fault_slice-recording offset done want r in
        rw (more, serve_loop)
          (rw e (
            Same-resume (fault_slice src offset done want r.inner) log _ _ buf (λ chunk s.
              serve_loop-recording offset want fuel (done + length chunk)
                (copy_slice buf done chunk) (record { inner = s; touched_log = log }))))
    | inr stop ↦ rw (stop, serve_loop) (record { result = refl; buffer = refl; state = refl })
  ]

  -- A read through a recorder has the result, the buffer and the effect on the wrapped source of the
  -- read without it, for every source, range and state.
  pub serve_read-recording :
      (total_len offset : ℕ) (buf : Bytes) (r : RecordingSource S)
      → Same
          (serve_read (recording src) total_len offset buf r)
          (serve_read src total_len offset buf r.inner)
  unfolding serve_read recording
  serve_read-recording total_len offset buf r = elim (Bool-cases (leb total_len offset)) [
    | inl past ↦ rw past (record { result = refl; buffer = refl; state = refl })
    | inr before ↦ rw before (elim (Bool-cases (served_len total_len offset buf == 0)) [
      | inl empty ↦ rw empty (record { result = refl; buffer = refl; state = refl })
      | inr more ↦ rw more (elim (Bool-cases (src.page_size == 0)) [
        | inl z ↦ rw z (record { result = refl; buffer = refl; state = refl })
        | inr sized ↦ rw sized (serve_loop-recording offset _ _ 0 buf r)
      ])
    ])
  ]

  log-fault :
      (offset done want : ℕ) (r : RecordingSource S) (chunk : Bytes) (r' : RecordingSource S)
      → fault_slice (recording src) offset done want r ≡ (ok chunk, r')
      → r'.touched_log ≡ r.touched_log ++ ((offset + done) / src.page_size) ∷ []
  unfolding recording
  log-fault offset done want r chunk r' e =
      let f = fault_slice-eq-ok (recording src) offset want done r e in
      sym (ap (λ (t : Result VfsError Bytes × RecordingSource S). t.1.touched_log) f.read)

  same_page :
      (offset done want : ℕ) (r : RecordingSource S) (chunk : Bytes) (r' : RecordingSource S)
      → fault_slice (recording src) offset done want r ≡ (ok chunk, r')
      → (k : ℕ) → k < length chunk
      → (offset + done + k) / src.page_size ≡ (offset + done) / src.page_size
  unfolding recording
  same_page offset done want r chunk r' e k h =
      let f = fault_slice-eq-ok (recording src) offset want done r e in
      let pos = offset + done in
      let len =
        length-Sliced (pos % src.page_size) src.page_size (want - done) f.page chunk f.sliced in
      let fits = f.sliced.fits in
      let within = f.sliced.within in (div_mod_add pos src.page_size k (omega arith)).0

  -- Every served byte's page is in the log.
  abbrev Logged : (offset done : ℕ) → RecordingSource S → Type 0
  Logged offset done r =
      (i : ℕ) → i < done → contains ((offset + i) / src.page_size) r.touched_log ≡ true

  Logged-slice :
      (offset done want : ℕ) (r : RecordingSource S) (chunk : Bytes) (r' : RecordingSource S)
      → fault_slice (recording src) offset done want r ≡ (ok chunk, r')
      → Logged offset done r
      → Logged offset (done + length chunk) r'
  Logged-slice offset done want r chunk r' e logged i h =
      let pos = offset + done in
      let page_no = pos / src.page_size in
      rw (log-fault offset done want r chunk r' e) (
        rw (contains-append ((offset + i) / src.page_size) r.touched_log (page_no ∷ []))
          (elim (Bool-cases (ltb i done)) [
            | inl old ↦ rw (logged i (ltb→lt i done old))
            | inr new ↦
                let d = same_page offset done want r chunk r' e (i - done) (omega tests) in
                let a : offset + i ≡ pos + (i - done) = omega tests in rw (a, d) (ground arith)
          ]))

  -- Where a read through a recorder reports `n` bytes, the page of every one of them is in the
  -- recorder's log afterwards.
  pub serve_read_records :
      (total_len offset : ℕ) (buf : Bytes) (r : RecordingSource S) (n : ℕ)
      → (serve_read (recording src) total_len offset buf r).0 ≡ ok n
      → (i : ℕ) → i < n
      → contains
          ((offset + i) / src.page_size)
          (serve_read (recording src) total_len offset buf r).2.touched_log
        ≡ true
  serve_read_records total_len offset buf r =
      let want = served_len total_len offset buf in
      serve_read_cases (recording src) total_len offset buf r
        (λ out. (n : ℕ) → out.0 ≡ ok n → Logged offset n out.2)
        (λ z n q i h. absurd (let e : n ≡ 0 = cc q in omega arith)) (λ z n q. cc q)
        (λ p q.
          serve_loop_rule (recording src) offset want (λ done _ r'. Logged offset done r')
            (λ out. (n : ℕ) → out.0 ≡ ok n → Logged offset n out.2)
            (λ done b r' chunk r'' p inv e fits. Logged-slice offset done want r' chunk r'' e inv)
            (λ done b r' e r'' p inv f n q. cc)
            (λ b r' inv n q. let e : n ≡ want = cc q in rw e inv) want 0 buf r (omega arith)
            (omega arith) (λ i h. absurd (omega arith)))
