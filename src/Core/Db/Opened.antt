-- ===== src/Core/Db/Opened.antt =====
-- What a database is open on.
use flockdb.Prelude.{◌≡◌, refl, sym, ap, ok}
use flockdb.Prelude.Steps.{give-Ok, after-err}
use flockdb.Foreign.{Text, FilePath}
use flockdb.Kernel.Duck.{DuckDb, KernelOpts, open_kernel}
use flockdb.Kernel.Duck.Opened.{Hydrated, open_kernel-Hydrated}
use flockdb.Core.Error.{kernel}
use flockdb.Core.Store.{Store, page_store}
use flockdb.Core.Db.{Substrate, Db, open_on}

module _ {S Txn Manifest Page Token Tier Source F Conn Config Stmt Schema Batch : Type 0}
    (sub : Substrate S Txn Manifest Page Token Tier Source)
    (duck : DuckDb F Conn Config Stmt Schema Batch) where
  -- A handle on a store, whose kernel was hydrated from the head that the store had.
  pub record Fresh (name : Text) (root : FilePath) (store : Store S Txn Manifest Page Token)
      (s s' : S) (f f' : F) (db : Db S Txn Manifest Page Token Conn) : Type 0 where
    pub name_is : db.name ≡ name
    pub root_is : db.root ≡ root
    pub store_is : db.store ≡ store
    pub hydrated : Hydrated duck (page_store store) s s' f f' db.kernel

  pub open_on-Fresh :
      (name : Text) (root : FilePath) (opts : KernelOpts) (store : Store S Txn Manifest Page Token)
      (s s' : S) (f f' : F) (db : Db S Txn Manifest Page Token Conn)
      → open_on sub duck name root opts store (s, f) ≡ (ok db, (s', f'))
      → Fresh name root store s s' f f' db
  open_on-Fresh name root opts store s s' f f' db h =
      let (k, (s1, f1), e, last) =
        after-err kernel (open_kernel duck (page_store store) opts) (s, f) _ h in
      let opened : Db S Txn Manifest Page Token Conn = record {
        name = name;
        root = root;
        store = store;
        kernel = k;
        opts = opts;
      } in
      let (db_is, w_is) = give-Ok {a = opened} last in
      let hydrated = open_kernel-Hydrated duck (page_store store) opts s s1 f f1 k e in
      let s_is : s1 ≡ s' = ap (λ w. w.0) w_is in
      let f_is : f1 ≡ f' = ap (λ w. w.1) w_is in
      rw (sym db_is) (
        rw (sym s_is) (
          rw (sym f_is)
            (record { name_is = refl; root_is = refl; store_is = refl; hydrated = hydrated })))
