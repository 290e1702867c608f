-- ===== src/Sync/Replica/LiveRestore.antt =====
-- A point-in-time restore, over a store that derives its manifests as the primary's does.
use flockdb.Prelude.{
  suc, ◌≤◌, ◌≡◌, refl, sym, ◌∙◌, subst, inl, inr, List, [], ◌∷◌, Option, none, some, ltb, ltb→lt,
  ltb→le, lt→leb, le→leb, Bool-cases, Result, ok,
}
use flockdb.Foreign.{ManifestId, Lsn}
use flockdb.Sync.Error.{SyncError}
use flockdb.Sync.Shipment.{Shipment}
use flockdb.Sync.Source.{WalSource}
use flockdb.Sync.Stream.{resume_after, last_until}
use flockdb.Sync.Stream.Filtered.{filter_from, shipments_from-filter}
use flockdb.Sync.Stream.Position.{IsChain}
use flockdb.Sync.Stream.Resume.{IsPrimary, resume_after-Remaining}
use flockdb.Sync.Stream.AsOf.{or_start}
use flockdb.Sync.Replica.{DurableStore, Replica, apply, pending_stream, apply_until, restore_to}
use flockdb.Sync.Replica.Restore.{as_of_position}
use flockdb.Sync.Replica.Live.{
  Derives, AllReproducible, apply-Reproducible, AllReproducible-filter_from,
}

module _ {S Txn : Type 0} (st : DurableStore S Txn) (d : Derives st) where
  apply_until-Reproducible :
      (target : Lsn) (ss : List Shipment) (lo : Lsn) (r : Replica S)
      → IsChain (st.head r.store) lo ss
      → AllReproducible st d ss
      → ((apply_until st target ss r).0 ≡ ok tt)
        × (some (st.head (apply_until st target ss r).1.store)
            ≡ last_until target (some (st.head r.store)) ss)
  unfolding apply_until last_until
  apply_until-Reproducible target [] lo r c good = (refl, refl)
  apply_until-Reproducible target (s ∷ ss) lo r c good =
      elim (Bool-cases (ltb target s.commit_lsn)) [
        | inl beyond ↦
            rw (beyond, apply_until)
              (rw (lt→leb s.commit_lsn target (ltb→lt _ _ beyond)) (refl, refl))
        | inr within ↦
            let (a, e, lands) = apply-Reproducible st d s r good.0 (sym c.0) in
            let (done, at) =
              apply_until-Reproducible target ss (suc s.commit_lsn) (apply st s r).1 (rw lands c.2)
                good.1 in
            rw (within, e, apply_until)
              (rw (le→leb s.commit_lsn target (ltb→le _ _ within)) (done, rw lands at at))
      ]

  -- A follower at a head that a well-formed log knows and that is not past `target`, over a store that
  -- derives its manifests as the documentation of substrate says, and a log whose every commit is
  -- reproducible: `restore_to` returns without error, and the follower stands at the manifest of the
  -- last commit that is no later than `target`, or the start of the log if there is none.
  pub restore_to_succeeds :
      (src : WalSource) (start : ManifestId) (all : List Shipment) (target from : Lsn)
      (r : Replica S)
      → IsPrimary src start all
      → resume_after src (st.head r.store) ≡ ok from
      → from ≤ suc target
      → AllReproducible st d all
      → ((restore_to st src target r).0 ≡ ok tt)
        × (st.head (restore_to st src target r).1.store
            ≡ or_start (last_until target none all) start)
  unfolding restore_to
  restore_to_succeeds src start all target from r p at q good =
      let k = resume_after-Remaining src start (st.head r.store) all from p at in
      let streams : pending_stream st src r ≡ ok k.rest = rw at k.streams in
      let same : filter_from from all ≡ k.rest =
        ok_injective (sym (shipments_from-filter src from all p.streams) ∙ k.streams) in
      let (done, lands) =
        apply_until-Reproducible target k.rest from r k.chain
          (subst (AllReproducible st d) same (AllReproducible-filter_from st d from all good)) in
      let position =
        as_of_position src start (st.head r.store) all target from p at q k.rest k.streams in
      rw streams (done, some_injective (lands ∙ position))
    where
      ok_injective :
          {a b : List Shipment} → ◌≡◌ {A = Result SyncError (List Shipment)} (ok a) (ok b) → a ≡ b
      ok_injective e = cc e

      some_injective : {a b : ManifestId} → ◌≡◌ {A = Option ManifestId} (some a) (some b) → a ≡ b
      some_injective e = cc e
