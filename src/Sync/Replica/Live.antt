-- ===== src/Sync/Replica/Live.antt =====
-- A follower catches up: over a store that derives its manifests from content as the primary's does,
-- no shipment of a well-formed log is refused.
use flockdb.Prelude.{
  ℕ, suc, subst, leb, ◌≡◌, refl, sym, ap, ◌∙◌, inl, inr, true, List, [], ◌∷◌, ◌++◌, append_assoc,
  append-nil, Option, none, some, ◌==◌, ==_iff, Bool-cases, Result, ok,
}
use flockdb.Foreign.{ManifestId, PageId, LogicalPageNo, Lsn, Bytes}
use flockdb.Sync.Error.{SyncError}
use flockdb.Sync.Shipment.{PageWrite, Shipment, bytes_for}
use flockdb.Sync.Source.{WalSource}
use flockdb.Sync.Stream.{resume_after}
use flockdb.Sync.Stream.Filtered.{filter_from, shipments_from-filter}
use flockdb.Sync.Stream.Position.{IsChain, final}
use flockdb.Sync.Stream.Resume.{IsPrimary, resume_after-Remaining}
use flockdb.Sync.Replica.{
  DurableStore, Applied, advanced, already_present, Replica, stage_page, stage_writes, apply, tally,
  apply_all, pending_stream, catch_up,
}

-- What substrate documents of a healthy store: a transaction begins empty and collects what it stages,
-- a staged page is named by the hash of its bytes, and a commit returns the manifest that the head, the
-- staged writes and the clock determine, and moves the head there.
pub record Derives {S Txn : Type 0} (st : DurableStore S Txn) : Type 0 where
  pub hash : Bytes → PageId
  pub derive : ManifestId → List PageWrite → ℕ → ManifestId
  pub staged : Txn → List PageWrite
  pub opened : (s : S) → (txn : Txn) × (st.begin s ≡ ok txn) × (staged txn ≡ [])
  pub wrote :
      (txn : Txn) (p : LogicalPageNo) (b : Bytes) (s : S)
      → (txn' : Txn) × (s' : S) × (st.write txn p b s ≡ (ok (hash b, txn'), s'))
        × (staged txn' ≡ staged txn ++ record { page_no = p; page = some (hash b) } ∷ [])
        × (st.head s' ≡ st.head s)
  pub removed :
      (txn : Txn) (p : LogicalPageNo) (s : S)
      → (txn' : Txn) × (s' : S) × (st.remove txn p s ≡ (ok txn', s'))
        × (staged txn' ≡ staged txn ++ record { page_no = p; page = none } ∷ [])
        × (st.head s' ≡ st.head s)
  pub committed :
      (now : ℕ) (txn : Txn) (s : S)
      → (s' : S) × (st.commit now txn s ≡ (ok (derive (st.head s) (staged txn) now), s'))
        × (st.head s' ≡ derive (st.head s) (staged txn) now)

module _ {S Txn : Type 0} (st : DurableStore S Txn) (d : Derives st) where
  -- The shipment carries the bytes of every page that it sets.
  abbrev pub CarriesPage : Shipment → Option PageId → Type 0
  CarriesPage shipment none = Unit
  CarriesPage shipment (some id) = (b : Bytes) × (bytes_for shipment id ≡ some b) × (d.hash b ≡ id)

  abbrev pub Carries : Shipment → List PageWrite → Type 0
  Carries shipment [] = Unit
  Carries shipment (w ∷ ws) = CarriesPage shipment w.page × Carries shipment ws

  -- The shipment is a commit of a store that derives manifests the same way.
  pub record Reproducible (shipment : Shipment) : Type 0 where
    pub carries : Carries shipment shipment.writes
    pub derived : shipment.manifest ≡ d.derive shipment.base shipment.writes shipment.created_at_ms

  abbrev pub AllReproducible : List Shipment → Type 0
  AllReproducible [] = Unit
  AllReproducible (s ∷ ss) = Reproducible s × AllReproducible ss

  -- Staging has gone through, with the writes collected and the head where it was.
  record Staged (before : List PageWrite) (ws : List PageWrite) (m : ManifestId)
      (out : Result SyncError Txn × S) : Type 0 where
    pub txn : Txn
    pub store : S
    pub went : out ≡ (ok txn, store)
    pub collected : d.staged txn ≡ before ++ ws
    pub kept : st.head store ≡ m

  stage_page-Staged :
      (shipment : Shipment) (p : LogicalPageNo) (page : Option PageId) (txn : Txn) (s : S)
      → CarriesPage shipment page
      → Staged
          (d.staged txn)
          (record { page_no = p; page = page } ∷ [])
          (st.head s)
          (stage_page st shipment p page txn s)
  stage_page-Staged shipment p none txn s c =
      let (txn', s', e, grown, kept) = d.removed txn p s in
      rw e (record { txn = txn'; store = s'; went = refl; collected = grown; kept = kept })
  stage_page-Staged shipment p (some id) txn s c =
      let (b, carried, hashed) = c in
      let (txn', s', e, grown, kept) = d.wrote txn p b s in
      let h : (d.hash b == id) ≡ true = (==_iff (d.hash b) id).1 hashed in
      rw carried (
        rw e (
          rw h (record {
            txn = txn';
            store = s';
            went = refl;
            collected = rw hashed at grown;
            kept = kept;
          })))

  stage_writes-Staged :
      (shipment : Shipment) (ws : List PageWrite) (txn : Txn) (s : S)
      → Carries shipment ws
      → Staged (d.staged txn) ws (st.head s) (stage_writes st shipment ws txn s)
  unfolding stage_writes
  stage_writes-Staged shipment [] txn s c = record {
    txn = txn;
    store = s;
    went = refl;
    collected = sym (append-nil (d.staged txn));
    kept = refl;
  }
  stage_writes-Staged shipment (w ∷ ws) txn s c =
      let one = stage_page-Staged shipment w.page_no w.page txn s c.0 in
      let more = stage_writes-Staged shipment ws one.txn one.store c.1 in
      rw one.went (record {
        txn = more.txn;
        store = more.store;
        went = more.went;
        collected =
            more.collected
            ∙ ap (λ l. l ++ ws) one.collected
            ∙ append_assoc (d.staged txn) (w ∷ []) ws;
        kept = more.kept ∙ one.kept;
      })

  -- A reproducible shipment that builds on the follower's head is applied.
  pub apply-Reproducible :
      (shipment : Shipment) (r : Replica S)
      → Reproducible shipment
      → st.head r.store ≡ shipment.base
      → (a : Applied) × ((apply st shipment r).0 ≡ ok a)
        × (st.head (apply st shipment r).1.store ≡ shipment.manifest)
  unfolding apply
  apply-Reproducible shipment r good b = elim (Bool-cases (st.head r.store == shipment.manifest)) [
    | inl present ↦ rw present (already_present, refl, (==_iff _ _).0 present)
    | inr absent ↦
        let follows : (st.head r.store == shipment.base) ≡ true = (==_iff _ _).1 b in
        let (txn, e, fresh) = d.opened r.store in
        let out = stage_writes-Staged shipment shipment.writes txn r.store good.carries in
        let (s', did, lands) = d.committed shipment.created_at_ms out.txn out.store in
        let same : d.derive (st.head out.store) (d.staged out.txn) shipment.created_at_ms
            ≡ shipment.manifest =
          rw out.collected (rw fresh (rw (out.kept ∙ b) (sym good.derived))) in
        let agree : (d.derive (st.head out.store) (d.staged out.txn) shipment.created_at_ms
              == shipment.manifest)
            ≡ true =
          (==_iff _ _).1 same in
        rw (absent, follows, e) (rw out.went (rw did (rw agree (advanced, refl, lands ∙ same))))
  ]

  pub AllReproducible-filter_from :
      (from : Lsn) (ss : List Shipment) → AllReproducible ss → AllReproducible (filter_from from ss)
  unfolding filter_from
  AllReproducible-filter_from from [] good = tt
  AllReproducible-filter_from from (s ∷ ss) good =
      let later = AllReproducible-filter_from from ss good.1 in
      elim (Bool-cases (leb from s.commit_lsn)) [
        | inl wanted ↦ rw wanted (good.0, later)
        | inr early ↦ rw early later
      ]

  -- A chain of reproducible shipments from the follower's head is applied to its end.
  apply_all-Reproducible :
      (ss : List Shipment) (lo : Lsn) (n : ℕ) (r : Replica S)
      → IsChain (st.head r.store) lo ss
      → AllReproducible ss
      → (m : ℕ) × ((apply_all st ss n r).0 ≡ ok m)
        × (st.head (apply_all st ss n r).1.store ≡ final (st.head r.store) ss)
  unfolding apply_all
  apply_all-Reproducible [] lo n r c good = (n, refl, refl)
  apply_all-Reproducible (s ∷ ss) lo n r c good =
      let (a, e, lands) = apply-Reproducible s r good.0 (sym c.0) in
      let r' = (apply st s r).1 in
      let (m, done, at) =
        apply_all-Reproducible ss (suc s.commit_lsn) (tally st a n) r' (rw lands c.2) good.1 in
      rw (e, apply_all) (m, done, rw lands at at)

  -- A follower at a head that a well-formed log knows, over a store that derives its manifests as the
  -- documentation of substrate says, and a log whose every commit is reproducible, that is it carries
  -- the bytes that its page ids name and its manifest is the one derived from its base, writes and
  -- time: `catch_up` returns without error, and the follower stands at the manifest of the primary's
  -- last commit, or the start of the log if there is none.
  pub catch_up_succeeds :
      (src : WalSource) (start : ManifestId) (all : List Shipment) (from : Lsn) (r : Replica S)
      → IsPrimary src start all
      → resume_after src (st.head r.store) ≡ ok from
      → AllReproducible all
      → (n : ℕ) × ((catch_up st src r).0 ≡ ok n)
        × (st.head (catch_up st src r).1.store ≡ final start all)
  unfolding catch_up
  catch_up_succeeds src start all from r p at good =
      let k = resume_after-Remaining src start (st.head r.store) all from p at in
      let streams : pending_stream st src r ≡ ok k.rest = rw at k.streams in
      let same : filter_from from all ≡ k.rest =
        ok_injective (sym (shipments_from-filter src from all p.streams) ∙ k.streams) in
      let (n, done, lands) =
        apply_all-Reproducible k.rest from 0 r k.chain
          (subst AllReproducible same (AllReproducible-filter_from from all good)) in
      rw streams (n, done, lands ∙ k.ends)
    where
      ok_injective :
          {a b : List Shipment} → ◌≡◌ {A = Result SyncError (List Shipment)} (ok a) (ok b) → a ≡ b
      ok_injective e = cc e
