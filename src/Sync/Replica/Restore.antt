-- ===== src/Sync/Replica/Restore.antt =====
-- Where a point-in-time restore leaves a follower.
use flockdb.Prelude.{
  suc, ◌≤◌, ◌<◌, ◌≡◌, refl, sym, ◌∙◌, inl, inr, List, [], ◌∷◌, Option, none, some, arith, ltb,
  lt→ltb, ltb→lt, ltb→le, le→leb, lt→leb, ◌==◌, ==_iff, Bool-cases, Result-cases, Result, ok,
}
use flockdb.Foreign.{ManifestId, Lsn}
use flockdb.Sync.Error.{SyncError}
use flockdb.Sync.Shipment.{Shipment}
use flockdb.Sync.Source.{WalSource}
use flockdb.Sync.Stream.{shipments_from, resume_after, manifest_at, last_until}
use flockdb.Sync.Stream.Filtered.{shipments_from-filter}
use flockdb.Sync.Stream.Position.{IsChain}
use flockdb.Sync.Stream.Resume.{IsPrimary, resume_after-Remaining}
use flockdb.Sync.Stream.AsOf.{or_start, last_until_start, last_until_resumed}
use flockdb.Sync.Replica.{DurableStore, Replica, apply, pending_stream, apply_until, restore_to}
use flockdb.Sync.Replica.Outcome.{HeadLaws, apply-Promised}
use flockdb.Sync.Replica.Converge.{applied_head}

-- Where a follower at a head that the log knows stands as of `target`, from what it streams.
pub as_of_position :
    (src : WalSource) (start head : ManifestId) (all : List Shipment) (target from : Lsn)
    → IsPrimary src start all
    → resume_after src head ≡ ok from
    → from ≤ suc target
    → (ss : List Shipment) → shipments_from src from ≡ ok ss
    → last_until target (some head) ss ≡ some (or_start (last_until target none all) start)
unfolding resume_after
as_of_position src start head all target from p h q ss streams = elim (Bool-cases (head == start)) [
  | inl fresh ↦
      at_start ((==_iff head start).0 fresh) (ok_injective (rw fresh at (rw p.starts at h)))
  | inr known ↦
      let find = rw p.streams at (rw known at (rw p.starts at h)) in
      let same =
        streamed_injective (sym (shipments_from-filter src from all p.streams) ∙ streams) in
      let resumed = last_until_resumed target head from start 0 (some start) all p.chain find q in
      rw (← same) (sym resumed ∙ last_until_start target start none all)
]
  where
    ok_injective : {a b : Lsn} → ◌≡◌ {A = Result SyncError Lsn} (ok a) (ok b) → a ≡ b
    ok_injective e = cc e

    streamed_injective :
        {a b : List Shipment} → ◌≡◌ {A = Result SyncError (List Shipment)} (ok a) (ok b) → a ≡ b
    streamed_injective e = cc e

    at_start :
        head ≡ start
        → 0 ≡ from
        → last_until target (some head) ss ≡ some (or_start (last_until target none all) start)
    at_start m z =
        let same = streamed_injective (sym p.streams ∙ (rw (← z) at streams)) in
        rw (m, ← same) (last_until_start target start none all)

module _ {S Txn : Type 0} (st : DurableStore S Txn) (laws : HeadLaws st) where
  apply_until-as_of :
      (target : Lsn) (ss : List Shipment) (r : Replica S)
      → (apply_until st target ss r).0 ≡ ok tt
      → some (st.head (apply_until st target ss r).1.store)
        ≡ last_until target (some (st.head r.store)) ss
  unfolding apply_until last_until
  apply_until-as_of target [] r h = refl
  apply_until-as_of target (s ∷ ss) r h = elim (Bool-cases (ltb target s.commit_lsn)) [
    | inl beyond ↦ rw (beyond, apply_until) (rw (lt→leb s.commit_lsn target (ltb→lt _ _ beyond)))
    | inr within ↦ elim (Result-cases (apply st s r).0) [
      | inl (a, e) ↦
          let ih =
            apply_until-as_of target ss (apply st s r).1 (rw (within, e, apply_until) at h) in
          let m = applied_head st laws s r (apply st s r) a (apply-Promised st laws s r) e in
          rw (within, e, apply_until)
            (rw (le→leb s.commit_lsn target (ltb→le _ _ within)) (rw m at ih))
      | inr (x, e) ↦ absurd (cc (rw (within, e, apply_until) at h))
    ]
  ]

  -- A follower of a primary with a well-formed log that is not past `target` (it resumes no later than
  -- the LSN behind it), over a store with the documented laws of heads: where `restore_to` returns
  -- without error, its head is the manifest that the primary had as of `target`, or the start of the
  -- log where no commit is that old.
  pub restore_to_lands :
      (src : WalSource) (start : ManifestId) (all : List Shipment) (target from : Lsn)
      (r : Replica S)
      → IsPrimary src start all
      → resume_after src (st.head r.store) ≡ ok from
      → from ≤ suc target
      → (restore_to st src target r).0 ≡ ok tt
      → manifest_at src target ≡ ok (last_until target none all)
        × (st.head (restore_to st src target r).1.store
            ≡ or_start (last_until target none all) start)
  unfolding restore_to manifest_at
  restore_to_lands src start all target from r p at q h =
      let k = resume_after-Remaining src start (st.head r.store) all from p at in
      let streams : pending_stream st src r ≡ ok k.rest = rw at k.streams in
      let lands = apply_until-as_of target k.rest r (rw streams at h) in
      let position =
        as_of_position src start (st.head r.store) all target from p at q k.rest k.streams in
      (rw p.streams, rw streams (some_injective (lands ∙ position)))
    where
      some_injective : {a b : ManifestId} → ◌≡◌ {A = Option ManifestId} (some a) (some b) → a ≡ b
      some_injective e = cc e

module _ {S Txn : Type 0} (st : DurableStore S Txn) where
  -- A follower of a primary with a well-formed log that is past `target` (it resumes later than the
  -- LSN behind it) is left as it is: `restore_to` returns without error and does not take it back.
  pub restore_to_leaves_ahead :
      (src : WalSource) (start : ManifestId) (all : List Shipment) (target from : Lsn)
      (r : Replica S)
      → IsPrimary src start all
      → resume_after src (st.head r.store) ≡ ok from
      → suc target < from
      → restore_to st src target r ≡ (ok tt, r)
  unfolding restore_to apply_until
  restore_to_leaves_ahead src start all target from r p at q =
      let k = resume_after-Remaining src start (st.head r.store) all from p at in
      let streams : pending_stream st src r ≡ ok k.rest = rw at k.streams in
      rw streams (stops k.rest k.chain)
    where
      stops :
          (ss : List Shipment)
          → IsChain (st.head r.store) from ss
          → apply_until st target ss r ≡ (ok tt, r)
      stops [] c = refl
      stops (s ∷ ss) c =
          let later = c.1 in rw (lt→ltb target s.commit_lsn (omega arith), apply_until)
