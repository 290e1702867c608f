-- ===== src/Sync/Stream/Position.antt =====
-- A follower's head is its position: the shipments of a well-formed log form a chain of manifests,
-- and streaming from `resume_after` yields what is left of the chain.
use flockdb.Prelude.{
  ℕ, suc, ◌≤◌, ◌≡◌, refl, inl, inr, true, false, List, [], ◌∷◌, Option, arith, leb_zero, Bool-cases,
  Result, ok, err,
}
use flockdb.Foreign.{ManifestId, Lsn}
use flockdb.Sync.Error.{SyncError}
use flockdb.Sync.Shipment.{Shipment}
use flockdb.Sync.Source.{
  write, commit, checkpoint, WalRecord, entry, WalSource, Pending, insert_pending, build_shipment,
}
use flockdb.Sync.Stream.{is_folded, emit, fold_records}
use flockdb.Sync.Stream.Filtered.{Built, build_shipment-Built}

-- A log as substrate writes it, from a head and an LSN on: LSNs ascend, and an inline checkpoint
-- that is not yet folded away records the head.
abbrev pub IsLog : Option Lsn → ManifestId → Lsn → List WalRecord → Type 0
IsLog cp base lo [] = Unit
IsLog cp base lo (entry lsn kind ∷ rs) = (lo ≤ lsn) × elim (is_folded cp lsn) [
  | true ↦ IsLog cp base (suc lsn) rs
  | false ↦ elim kind [
    | write p page ↦ IsLog cp base (suc lsn) rs
    | commit m t ↦ IsLog cp m (suc lsn) rs
    | checkpoint m ↦ (m ≡ base) × IsLog cp base (suc lsn) rs
  ]
]

-- Commits that build on one another, at ascending LSNs.
abbrev pub IsChain : ManifestId → Lsn → List Shipment → Type 0
IsChain base lo [] = Unit
IsChain base lo (s ∷ ss) =
    (s.base ≡ base) × (lo ≤ s.commit_lsn) × IsChain s.manifest (suc s.commit_lsn) ss

-- The manifest behind all commits of a stream: what the primary is at.
abbrev pub final : ManifestId → List Shipment → ManifestId
final base [] = base
final base (s ∷ ss) = final s.manifest ss

IsChain-weaken :
    (base : ManifestId) (lo hi : Lsn) (ss : List Shipment)
    → lo ≤ hi
    → IsChain base hi ss
    → IsChain base lo ss
IsChain-weaken base lo hi [] p h = tt
IsChain-weaken base lo hi (s ∷ ss) p h = (h.0, omega arith, h.2)

IsChain-emit :
    (src : WalSource) (base m : ManifestId) (lo lsn : Lsn) (t : ℕ) (pending : Pending)
    (built : Result SyncError Shipment) (rest : Result SyncError (List Shipment))
    (all : List Shipment)
    → lo ≤ lsn
    → ((s : Shipment) → built ≡ ok s → Built base m lsn t pending s)
    → ((all' : List Shipment) → rest ≡ ok all' → IsChain m (suc lsn) all')
    → emit true built rest ≡ ok all
    → IsChain base lo all
IsChain-emit src base m lo lsn t pending (err e) rest all p b r h = absurd (cc h)
IsChain-emit src base m lo lsn t pending (ok s) (err e) all p b r h = absurd (cc h)
IsChain-emit src base m lo lsn t pending (ok s) (ok ss) all p b r h =
    let e : s ∷ ss ≡ all = cc h in
    let f = b s refl in
    rw (← e) (f.base, rw f.commit_lsn p, rw f.manifest (rw f.commit_lsn (r ss refl)))

module _ (src : WalSource) (cp : Option Lsn) where
  pub fold_records-IsChain :
      (base : ManifestId) (lo : Lsn) (pending : Pending) (rs : List WalRecord) (all : List Shipment)
      → IsLog cp base lo rs
      → fold_records src 0 cp base pending rs ≡ ok all
      → IsChain base lo all
  unfolding fold_records
  fold_records-IsChain base lo pending [] all l h = let e : [] ≡ all = cc h in rw (← e) tt
  fold_records-IsChain base lo pending (entry lsn (write p page) ∷ rs) all l h =
      elim (Bool-cases (is_folded cp lsn)) [
        | inl before ↦ IsChain-weaken base lo (suc lsn) all (let q = l.0 in omega arith) (
            fold_records-IsChain base (suc lsn) pending rs all (rw before at l.1)
              (rw (before, fold_records) at h))
        | inr after ↦ IsChain-weaken base lo (suc lsn) all (let q = l.0 in omega arith) (
            fold_records-IsChain base (suc lsn) (insert_pending p page pending) rs all
              (rw after at l.1) (rw (after, fold_records) at h))
      ]
  fold_records-IsChain base lo pending (entry lsn (commit m t) ∷ rs) all l h =
      elim (Bool-cases (is_folded cp lsn)) [
        | inl before ↦ IsChain-weaken base lo (suc lsn) all (let q = l.0 in omega arith) (
            fold_records-IsChain base (suc lsn) pending rs all (rw before at l.1)
              (rw (before, fold_records) at h))
        | inr after ↦
            IsChain-emit src base m lo lsn t pending (build_shipment src base m lsn t pending)
              (fold_records src 0 cp m [] rs) all l.0
              (λ s e. build_shipment-Built src base m lsn t pending e)
              (λ all' e. fold_records-IsChain m (suc lsn) [] rs all' (rw after at l.1) e)
              (rw (after, leb_zero lsn, fold_records) at h)
      ]
  fold_records-IsChain base lo pending (entry lsn (checkpoint m) ∷ rs) all l h =
      elim (Bool-cases (is_folded cp lsn)) [
        | inl before ↦ IsChain-weaken base lo (suc lsn) all (let q = l.0 in omega arith) (
            fold_records-IsChain base (suc lsn) pending rs all (rw before at l.1)
              (rw (before, fold_records) at h))
        | inr after ↦
            let (same, l') = rw after at l.1 in
            IsChain-weaken base lo (suc lsn) all (let q = l.0 in omega arith) (
              rw (← same) (
                fold_records-IsChain m (suc lsn) [] rs all (rw same l')
                  (rw (after, fold_records) at h)))
      ]
