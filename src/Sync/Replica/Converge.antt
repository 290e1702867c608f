-- ===== src/Sync/Replica/Converge.antt =====
-- Where a follower stands after catching up, and after a point-in-time restore.
use flockdb.Prelude.{
  ℕ, ◌≡◌, refl, sym, ◌∙◌, subst, inl, inr, List, [], ◌∷◌, Result-cases, Result, ok, err, bind-eq-ok,
}
use flockdb.Foreign.{ManifestId}
use flockdb.Sync.Error.{SyncError}
use flockdb.Sync.Shipment.{Shipment}
use flockdb.Sync.Source.{WalSource}
use flockdb.Sync.Stream.{shipments_from, resume_after}
use flockdb.Sync.Stream.Position.{final}
use flockdb.Sync.Stream.Resume.{IsPrimary, resume_after-Remaining}
use flockdb.Sync.Replica.{
  DurableStore, Applied, advanced, already_present, Replica, apply, tally, apply_all,
  pending_stream, catch_up,
}
use flockdb.Sync.Replica.Outcome.{HeadLaws, Promised, apply-Promised}

module _ {S Txn : Type 0} (st : DurableStore S Txn) (laws : HeadLaws st) where
  -- Where `apply` succeeds, the follower stands at the shipment's manifest.
  pub applied_head :
      (s : Shipment) (r : Replica S) (out : Result SyncError Applied × Replica S) (a : Applied)
      → Promised st laws s r out
      → out.0 ≡ ok a
      → st.head out.1.store ≡ s.manifest
  applied_head s r (ok advanced, r') a h e = h.1
  applied_head s r (ok already_present, r') a h e = rw h.1 h.0
  applied_head s r (err x, r') a h e = absurd (cc e)

  apply_all-final :
      (ss : List Shipment) (n : ℕ) (r : Replica S) (m : ℕ) (base : ManifestId)
      → st.head r.store ≡ base
      → (apply_all st ss n r).0 ≡ ok m
      → st.head (apply_all st ss n r).1.store ≡ final base ss
  unfolding apply_all
  apply_all-final [] n r m base b h = b
  apply_all-final (s ∷ ss) n r m base b h = elim (Result-cases (apply st s r).0) [
    | inl (a, e) ↦
        rw (e, apply_all)
          (apply_all-final ss (tally st a n) (apply st s r).1 m s.manifest
            (applied_head s r (apply st s r) a (apply-Promised st laws s r) e)
            (rw (e, apply_all) at h))
    | inr (x, e) ↦ absurd (cc (rw (e, apply_all) at h))
  ]

  -- What a follower streams, where that succeeds.
  pub pending_stream-Remaining :
      (src : WalSource) (start : ManifestId) (all : List Shipment) (r : Replica S)
      (ss : List Shipment)
      → IsPrimary src start all
      → pending_stream st src r ≡ ok ss
      → final (st.head r.store) ss ≡ final start all
  pending_stream-Remaining src start all r ss p h =
      let (from, at, streams) =
        bind-eq-ok (resume_after src (st.head r.store)) (shipments_from src) h in
      let k = resume_after-Remaining src start (st.head r.store) all from p at in
      let e : k.rest ≡ ss = ok_injective (sym k.streams ∙ streams) in
      subst (λ l. final (st.head r.store) l ≡ final start all) e k.ends
    where
      ok_injective :
          {a b : List Shipment} → ◌≡◌ {A = Result SyncError (List Shipment)} (ok a) (ok b) → a ≡ b
      ok_injective e = cc e

  -- A follower of a primary with a well-formed log, over a store with the documented laws of heads:
  -- where `catch_up` returns without error, its head is the manifest of the primary's last commit, or
  -- the primary's start if there is none.
  pub catch_up_converges :
      (src : WalSource) (start : ManifestId) (all : List Shipment) (r : Replica S) (n : ℕ)
      → IsPrimary src start all
      → (catch_up st src r).0 ≡ ok n
      → st.head (catch_up st src r).1.store ≡ final start all
  unfolding catch_up
  catch_up_converges src start all r n p h = elim (Result-cases (pending_stream st src r)) [
    | inl (ss, e) ↦ rw e (
        apply_all-final ss 0 r n (st.head r.store) refl (rw e at h)
        ∙ pending_stream-Remaining src start all r ss p e)
    | inr (x, e) ↦ absurd (cc (rw e at h))
  ]
