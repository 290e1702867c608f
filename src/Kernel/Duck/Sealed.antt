-- ===== src/Kernel/Duck/Sealed.antt =====
-- A checkpoint pages up the main file only, so DuckDB's own log has to be empty by then.
use flockdb.Prelude.{zero, suc, ◌≡◌, refl, ◌⊎◌, inl, inr, ok, err}
use flockdb.Prelude.Texts.{codes}
use flockdb.Kernel.Error.{KernelError, sql}
use flockdb.Prelude.Steps.{outcome}
use flockdb.Kernel.Duck.{
  DuckDb, DuckDbKernel, WalMetadata, long, gone, unread, check_wal, wal_path, execute_batch,
  fold_wal_into_main_file, persisted, checkpoint,
}

-- No log, or one of no bytes.
abbrev pub Emptied : WalMetadata → Type 0
Emptied gone = Unit {0}
Emptied (long n) = n ≡ 0
Emptied (unread e) = ⊥

check_wal-cases :
    (m : WalMetadata)
    → (Emptied m × (check_wal m ≡ ok tt)) ⊎ ((e : KernelError) × (check_wal m ≡ err e))
check_wal-cases gone = inl (tt, refl)
check_wal-cases (long zero) = inl (refl, refl)
check_wal-cases (long (suc n)) = inr (_, refl)
check_wal-cases (unread e) = inr (_, refl)

pub Emptied-check_wal : (m : WalMetadata) → Emptied m → check_wal m ≡ ok tt
Emptied-check_wal gone h = refl
Emptied-check_wal (long zero) h = refl
Emptied-check_wal (long (suc n)) h = absurd (cc h)
Emptied-check_wal (unread e) h = absurd h

module _ {F Conn Config Stmt Schema Batch S Txn : Type 0}
    (duck : DuckDb F Conn Config Stmt Schema Batch) (k : DuckDbKernel S Txn Conn) where
  -- Whatever DuckDB and the page store do: a checkpoint either fails before it touches the page store,
  -- or DuckDB's `CHECKPOINT` returned, its write-ahead log is then gone or empty, and the checkpoint
  -- is the paging up of the main file as it then is.
  pub checkpoint-Sealed :
      (s : S) (f : F)
      → ((e : KernelError) × (f' : F) × (checkpoint duck k (s, f) ≡ (err e, (s, f'))))
        ⊎ ((f' : F) × (duck.execute_batch k.conn (codes "CHECKPOINT") f ≡ (ok tt, f'))
            × Emptied (duck.metadata (wal_path k.path) f')
            × (checkpoint duck k (s, f) ≡ persisted duck k (s, f')))
  unfolding checkpoint fold_wal_into_main_file execute_batch
  checkpoint-Sealed s f = elim (outcome (duck.execute_batch k.conn (codes "CHECKPOINT") f)) [
    | inr (e, f', h) ↦ inl (sql (codes "CHECKPOINT") e, f', rw h refl)
    | inl (done, f', h) ↦ elim (check_wal-cases (duck.metadata (wal_path k.path) f')) [
      | inl (empty, c) ↦ inr (f', h, empty, rw h (rw c refl))
      | inr (e, c) ↦ inl (e, f', rw h (rw c refl))
    ]
  ]
