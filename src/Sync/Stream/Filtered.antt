-- ===== src/Sync/Stream/Filtered.antt =====
-- The stream from an LSN is the whole stream with the earlier commits left out: `from` gates what is
-- emitted, and not what is folded.
use flockdb.Prelude.{
  ℕ, ◌≡◌, refl, inl, inr, true, List, [], ◌∷◌, Option, arith, leb, leb_zero, if◌then◌else◌,
  Bool-cases, Result, ok, err, bind-eq-ok,
}
use flockdb.Foreign.{ManifestId, Lsn}
use flockdb.Sync.Error.{SyncError}
use flockdb.Sync.Shipment.{Shipment}
use flockdb.Sync.Source.{
  write, commit, checkpoint, WalRecord, WalSource, Pending, entry, read_checkpoint, start_head,
  insert_pending, build_shipment, collect_blobs,
}
use flockdb.Sync.Log.{records}
use flockdb.Sync.Stream.{is_folded, emit, fold_records, lsn_of, shipments_from}

-- The commits at an LSN and behind it.
unfoldable pub filter_from : Lsn → List Shipment → List Shipment
filter_from from [] = []
filter_from from (s ∷ ss) =
    let rest = filter_from from ss in if leb from s.commit_lsn then s ∷ rest else rest

-- The fields of a built shipment that identify its commit.
pub record Built (from to : ManifestId) (lsn : Lsn) (t : ℕ) (pending : Pending) (s : Shipment)
    : Type 0 where
  pub base : s.base ≡ from
  pub manifest : s.manifest ≡ to
  pub commit_lsn : s.commit_lsn ≡ lsn
  pub created_at_ms : s.created_at_ms ≡ t
  pub writes : s.writes ≡ pending

pub build_shipment-Built :
    (src : WalSource) (base manifest : ManifestId) (lsn : Lsn) (t : ℕ) (writes : Pending)
    {s : Shipment}
    → build_shipment src base manifest lsn t writes ≡ ok s
    → Built base manifest lsn t writes s
unfolding build_shipment
build_shipment-Built src base manifest lsn t writes h =
    let (blobs, e, h') = bind-eq-ok (collect_blobs src lsn writes []) _ h in ground (arith, h')

emit-filter :
    (from lsn : Lsn) (built : Result SyncError Shipment)
    (rest rest' : Result SyncError (List Shipment)) (all : List Shipment)
    → ((s : Shipment) → built ≡ ok s → s.commit_lsn ≡ lsn)
    → ((all' : List Shipment) → rest ≡ ok all' → rest' ≡ ok (filter_from from all'))
    → emit true built rest ≡ ok all
    → emit (leb from lsn) built rest' ≡ ok (filter_from from all)
unfolding filter_from
emit-filter from lsn (err e) rest rest' all at later h = cc
emit-filter from lsn (ok s) (err e) rest' all at later h = cc
emit-filter from lsn (ok s) (ok ss) rest' all at later h =
    let e : s ∷ ss ≡ all = cc h in
    let a : s.commit_lsn ≡ lsn = at s refl in
    rw (← e) (
      rw (later ss refl) (elim (Bool-cases (leb from lsn)) [
        | inl wanted ↦ rw a (rw wanted)
        | inr early ↦ rw a (rw early)
      ]))

module _ (src : WalSource) (from : Lsn) (cp : Option Lsn) where
  fold_records-filter :
      (base : ManifestId) (pending : Pending) (rs : List WalRecord) (all : List Shipment)
      → fold_records src 0 cp base pending rs ≡ ok all
      → fold_records src from cp base pending rs ≡ ok (filter_from from all)
  unfolding fold_records filter_from
  fold_records-filter base pending [] all h = let e : [] ≡ all = cc h in rw (← e)
  fold_records-filter base pending (entry lsn (write p page) ∷ rs) all h =
      elim (Bool-cases (is_folded cp lsn)) [
        | inl before ↦
            rw (before, fold_records)
              (fold_records-filter base pending rs all (rw (before, fold_records) at h))
        | inr after ↦
            rw (after, fold_records)
              (fold_records-filter base (insert_pending p page pending) rs all
                (rw (after, fold_records) at h))
      ]
  fold_records-filter base pending (entry lsn (commit m t) ∷ rs) all h =
      elim (Bool-cases (is_folded cp lsn)) [
        | inl before ↦
            rw (before, fold_records)
              (fold_records-filter base pending rs all (rw (before, fold_records) at h))
        | inr after ↦
            rw (after, fold_records)
              (emit-filter from lsn (build_shipment src base m lsn t pending)
                (fold_records src 0 cp m [] rs) (fold_records src from cp m [] rs) all
                (λ s e. (build_shipment-Built src base m lsn t pending e).commit_lsn)
                (λ all' e. fold_records-filter m [] rs all' e)
                (rw (after, leb_zero lsn, fold_records) at h))
      ]
  fold_records-filter base pending (entry lsn (checkpoint m) ∷ rs) all h =
      elim (Bool-cases (is_folded cp lsn)) [
        | inl before ↦
            rw (before, fold_records)
              (fold_records-filter base pending rs all (rw (before, fold_records) at h))
        | inr after ↦
            rw (after, fold_records)
              (fold_records-filter m [] rs all (rw (after, fold_records) at h))
      ]

-- What a stream was folded from.
pub record Streamed (src : WalSource) (from : Lsn) (out : List Shipment) : Type 0 where
  pub cp : Option (ManifestId × Lsn)
  pub base : ManifestId
  pub rs : List WalRecord
  pub marker : read_checkpoint src ≡ ok cp
  pub start : start_head src ≡ ok base
  pub log : records src ≡ ok rs
  pub fold : fold_records src from (lsn_of cp) base [] rs ≡ ok out

pub shipments_from-Streamed :
    (src : WalSource) (from : Lsn) (out : List Shipment)
    → shipments_from src from ≡ ok out
    → Streamed src from out
unfolding shipments_from
shipments_from-Streamed src from out h =
    let (cp, e1, h1) = bind-eq-ok (read_checkpoint src) _ h in
    let (base, e2, h2) = bind-eq-ok (start_head src) _ h1 in
    let (rs, e3, h3) = bind-eq-ok (records src) _ h2 in
    record { cp = cp; base = base; rs = rs; marker = e1; start = e2; log = e3; fold = h3 }

Streamed-filter :
    (src : WalSource) (from : Lsn) (all : List Shipment)
    → Streamed src 0 all
    → shipments_from src from ≡ ok (filter_from from all)
unfolding shipments_from
Streamed-filter src from all e =
    rw e.marker
      (rw e.start (rw e.log (fold_records-filter src from (lsn_of e.cp) e.base [] e.rs all e.fold)))

-- If the whole stream can be built, the stream from any LSN can, and it is the whole one without the
-- commits before that LSN: bases, manifests and pages are those of the whole stream.
pub shipments_from-filter :
    (src : WalSource) (from : Lsn) (all : List Shipment)
    → shipments_from src 0 ≡ ok all
    → shipments_from src from ≡ ok (filter_from from all)
shipments_from-filter src from all h =
    Streamed-filter src from all (shipments_from-Streamed src 0 all h)
