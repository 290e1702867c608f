-- ===== src/Kernel/Duck/Opened.antt =====
-- What stands behind a kernel that was opened.
use flockdb.Prelude.{◌≡◌, refl, sym, ap, [], ◌∷◌, ◌++◌, ok}
use flockdb.Prelude.Steps.{on_err, give-Ok, blame-Ok, after-look, after-right}
use flockdb.Foreign.{FilePath}
use flockdb.Kernel.Error.{open_failed, scratch}
use flockdb.Kernel.Paging.{PageStore, hydrate}
use flockdb.Kernel.Duck.{DuckDb, DuckDbKernel, KernelOpts, scratch_name, option, open_kernel}

module _ {F Conn Config Stmt Schema Batch S Txn : Type 0}
    (duck : DuckDb F Conn Config Stmt Schema Batch) where
  -- A kernel whose scratch file was made from the head that the store had, in a fresh directory, and
  -- whose opening left the store.
  pub record Hydrated (st : PageStore S Txn) (s s' : S) (f f' : F) (k : DuckDbKernel S Txn Conn)
      : Type 0 where
    pub store : k.store ≡ st
    pub kept : s' ≡ s
    pub dir : FilePath
    pub before : F
    pub made : duck.temp_dir f ≡ (ok dir, before)
    pub place : k.path ≡ dir ++ scratch_name ∷ []
    pub behind : F
    pub hydrated : hydrate st (duck.scratch_file k.path) (st.head s) before s ≡ (ok tt, behind)
    pub config : Config
    pub connects : duck.open_with_flags k.path config behind ≡ (ok k.conn, f')

  pub open_kernel-Hydrated :
      (st : PageStore S Txn) (opts : KernelOpts) (s s' : S) (f f' : F) (k : DuckDbKernel S Txn Conn)
      → open_kernel duck st opts (s, f) ≡ (ok k, (s', f'))
      → Hydrated st s s' f f' k
  unfolding open_kernel
  open_kernel-Hydrated st opts s s' f f' k h =
      let (dir, before, e1, h1) =
        after-right (on_err (scratch "create scratch dir") duck.temp_dir) s f _ h in
      let path = dir ++ scratch_name ∷ [] in
      let (done, behind, e2, h2) =
        after-right (λ g. hydrate st (duck.scratch_file path) (st.head s) g s) s before _ h1 in
      let (c1, e3, h3) =
        after-look (λ _. option duck path duck.threads opts.threads duck.default_config) (s, behind)
          _ h2 in
      let (c2, e4, h4) =
        after-look (λ _. option duck path duck.max_memory opts.max_memory c1) (s, behind) _ h3 in
      let (conn, last, e5, h5) =
        after-right (on_err (open_failed path) (duck.open_with_flags path c2)) s behind _ h4 in
      let opened : DuckDbKernel S Txn Conn = record { store = st; conn = conn; path = path } in
      let (k_is, w_is) = give-Ok {a = opened} h5 in
      let s_is : s ≡ s' = ap (λ w. w.0) w_is in
      let f_is : last ≡ f' = ap (λ w. w.1) w_is in
      rw (sym k_is) (record {
        store = refl;
        kept = sym s_is;
        dir = dir;
        before = before;
        made = blame-Ok (scratch "create scratch dir") (duck.temp_dir f) e1;
        place = refl;
        behind = behind;
        hydrated = e2;
        config = c2;
        connects =
            rw f_is at (blame-Ok (open_failed path) (duck.open_with_flags path c2 behind) e5);
      })
