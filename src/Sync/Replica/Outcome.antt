-- ===== src/Sync/Replica/Outcome.antt =====
-- What `apply` does to a follower's head, on every branch.
use flockdb.Prelude.{
  ℕ, ◌≡◌, ◌≢◌, refl, ◌∙◌, subst, inl, inr, List, [], ◌∷◌, Option, none, some, ◌==◌, ==_iff,
  Bool-cases, Result, ok, err,
}
use flockdb.Foreign.{ManifestId, PageId, LogicalPageNo, Lsn, Bytes, WalError}
use flockdb.Sync.Clock.{set}
use flockdb.Sync.Error.{SyncError, diverged}
use flockdb.Sync.Shipment.{PageWrite, Shipment, bytes_for}
use flockdb.Sync.Replica.{
  DurableStore, Applied, advanced, already_present, Replica, check_hash, removed, stage_bytes,
  stage_page, and_then, stage_writes, verify, commit_staged, begun, apply,
}

-- What substrate documents of heads: staging moves none, a commit that succeeds moves the head to the
-- manifest that it returns, and one that fails leaves the head.
pub record HeadLaws {S Txn : Type 0} (st : DurableStore S Txn) : Type 0 where
  pub head-write :
      (txn : Txn) (p : LogicalPageNo) (b : Bytes) (s : S)
      → st.head (st.write txn p b s).1 ≡ st.head s
  pub head-remove :
      (txn : Txn) (p : LogicalPageNo) (s : S) → st.head (st.remove txn p s).1 ≡ st.head s
  pub head-commit :
      (now : ℕ) (txn : Txn) (s : S) (m : ManifestId)
      → (st.commit now txn s).0 ≡ ok m
      → st.head (st.commit now txn s).1 ≡ m
  pub head-commit_failed :
      (now : ℕ) (txn : Txn) (s : S) (e : WalError)
      → (st.commit now txn s).0 ≡ err e
      → st.head (st.commit now txn s).1 ≡ st.head s

module _ {S Txn : Type 0} (st : DurableStore S Txn) (laws : HeadLaws st) (shipment : Shipment) where
  -- The follower after `apply`, by the result: it stands at the shipped manifest where it advanced,
  -- having stood at the shipment's base; it is as it was where the commit was there already; after
  -- `Diverged` it stands at the manifest that the commit derived, which is not the shipped one; and
  -- after any other error its head is where it was.
  abbrev pub Promised : Replica S → Result SyncError Applied × Replica S → Type 0
  Promised r (ok advanced, r') =
      (st.head r.store ≡ shipment.base)
      × (st.head r'.store ≡ shipment.manifest)
      × (r'.applied_lsn ≡ some shipment.commit_lsn)
  Promised r (ok already_present, r') = (st.head r.store ≡ shipment.manifest) × (r'.store ≡ r.store)
  Promised r (err (diverged lsn expected got), r') =
      (st.head r'.store ≡ got) × (got ≢ shipment.manifest)
  Promised r (err _, r') = st.head r'.store ≡ st.head r.store

  -- A staging step from head `m` leaves it and fails with no `Diverged`.
  abbrev Stages : ManifestId → Result SyncError Txn × S → Type 0
  Stages m (ok txn, s) = st.head s ≡ m
  Stages m (err (diverged lsn expected got), s) = ⊥
  Stages m (err _, s) = st.head s ≡ m

  check_hash-Stages :
      (p : LogicalPageNo) (id : PageId) (m : ManifestId) (w : Result WalError (PageId × Txn) × S)
      → st.head w.1 ≡ m
      → Stages m (check_hash st p id w)
  check_hash-Stages p id m (err e, s) h = h
  check_hash-Stages p id m (ok (staged, txn), s) h = elim (Bool-cases (staged == id)) [
    | inl same ↦ rw same h
    | inr other ↦ rw other h
  ]

  removed-Stages :
      (m : ManifestId) (w : Result WalError Txn × S) → st.head w.1 ≡ m → Stages m (removed st w)
  removed-Stages m (err e, s) h = h
  removed-Stages m (ok txn, s) h = h

  stage_bytes-Stages :
      (lsn : Lsn) (p : LogicalPageNo) (id : PageId) (bytes : Option Bytes) (txn : Txn) (s : S)
      → Stages (st.head s) (stage_bytes st lsn p id bytes txn s)
  stage_bytes-Stages lsn p id none txn s = refl
  stage_bytes-Stages lsn p id (some bytes) txn s =
      check_hash-Stages p id (st.head s) (st.write txn p bytes s) (laws.head-write txn p bytes s)

  stage_page-Stages :
      (p : LogicalPageNo) (page : Option PageId) (txn : Txn) (s : S)
      → Stages (st.head s) (stage_page st shipment p page txn s)
  stage_page-Stages p (some id) txn s = stage_bytes-Stages _ p id (bytes_for shipment id) txn s
  stage_page-Stages p none txn s =
      removed-Stages (st.head s) (st.remove txn p s) (laws.head-remove txn p s)

  and_then-Stages :
      (m : ManifestId) (f : Result SyncError Txn × S) (k : Txn → S → Result SyncError Txn × S)
      → Stages m f
      → ((txn : Txn) (s : S) → Stages (st.head s) (k txn s))
      → Stages m (and_then st f k)
  and_then-Stages m (ok txn, s) k h next = subst (λ n. Stages n (k txn s)) h (next txn s)
  and_then-Stages m (err e, s) k h next = h

  stage_writes-Stages :
      (ws : List PageWrite) (txn : Txn) (s : S)
      → Stages (st.head s) (stage_writes st shipment ws txn s)
  unfolding stage_writes
  stage_writes-Stages [] txn s = refl
  stage_writes-Stages (w ∷ ws) txn s =
      and_then-Stages (st.head s) (stage_page st shipment w.page_no w.page txn s) _
        (stage_page-Stages w.page_no w.page txn s) (λ t s'. stage_writes-Stages ws t s')

  -- `Promised` with the head before as a value, from a follower at the shipment's base.
  verify-Promised :
      (r r' : Replica S) (w : Result WalError ManifestId × S)
      → st.head r.store ≡ shipment.base
      → ((m : ManifestId) → w.0 ≡ ok m → st.head w.1 ≡ m)
      → ((e : WalError) → w.0 ≡ err e → st.head w.1 ≡ st.head r.store)
      → Promised r (verify st shipment r' w)
  verify-Promised r r' (err e, s) b good bad = bad e refl
  verify-Promised r r' (ok got, s) b good bad = elim (Bool-cases (got == shipment.manifest)) [
    | inl same ↦ rw same (b, good got refl ∙ (==_iff got shipment.manifest).0 same, refl)
    | inr other ↦ rw other (good got refl, λ e. let t = (==_iff got shipment.manifest).1 e in cc)
  ]

  failed-Promised :
      (r : Replica S) (s : S) (e : SyncError)
      → Stages (st.head r.store) (err e, s)
      → Promised r (err e, record r { store = s })
  failed-Promised r s (diverged lsn expected got) h = elim h [ ]
  failed-Promised r s _ h = h

  commit_staged-Promised :
      (r : Replica S) (f : Result SyncError Txn × S)
      → st.head r.store ≡ shipment.base
      → Stages (st.head r.store) f
      → Promised r (commit_staged st shipment r f)
  commit_staged-Promised r (ok txn, s) b h =
      let clock = set shipment.created_at_ms r.clock in
      verify-Promised r (record r { clock = clock }) (st.commit clock.now_ms txn s) b
        (laws.head-commit clock.now_ms txn s)
        (λ e q. laws.head-commit_failed clock.now_ms txn s e q ∙ h)
  commit_staged-Promised r (err e, s) b h = failed-Promised r s e h

  begun-Promised :
      (r : Replica S) (t : Result WalError Txn)
      → st.head r.store ≡ shipment.base
      → Promised r (begun st shipment r t)
  begun-Promised r (err e) b = refl
  begun-Promised r (ok txn) b =
      commit_staged-Promised r (stage_writes st shipment shipment.writes txn r.store) b
        (stage_writes-Stages shipment.writes txn r.store)

  -- For a store with the documented laws of heads, every call of `apply` ends as follows. It advanced:
  -- the follower stood at the shipment's base, and stands at its manifest, with its LSN as the last
  -- applied. It was already present: the follower stood at the manifest, and its store is as it was.
  -- It failed with `Diverged`: the follower's head has moved to the manifest that the commit derived,
  -- which is not the shipped one. It failed otherwise: the head is where it was.
  pub apply-Promised : (r : Replica S) → Promised r (apply st shipment r)
  unfolding apply
  apply-Promised r = elim (Bool-cases (st.head r.store == shipment.manifest)) [
    | inl present ↦ rw present ((==_iff _ _).0 present, refl)
    | inr absent ↦ rw absent (elim (Bool-cases (st.head r.store == shipment.base)) [
      | inl follows ↦ rw follows (begun-Promised r (st.begin r.store) ((==_iff _ _).0 follows))
      | inr gap ↦ rw gap refl
    ])
  ]
