-- ===== src/Sync/Stream/Resume.antt =====
-- `resume_after`: from a follower's head to the rest of the chain.
use flockdb.Prelude.{
  suc, ◌+◌, ◌≤◌, ◌<◌, ◌≡◌, refl, ap, inl, inr, List, [], ◌∷◌, arith, lt→leb, le→leb, ==_iff, ◌==◌,
  Bool-cases, Result, ok,
}
use flockdb.Foreign.{ManifestId, Lsn}
use flockdb.Sync.Error.{SyncError}
use flockdb.Sync.Shipment.{Shipment}
use flockdb.Sync.Source.{WalSource, start_head}
use flockdb.Sync.Stream.{lsn_of, shipments_from, find_head, resume_after}
use flockdb.Sync.Stream.Filtered.{filter_from, Streamed, shipments_from-filter}
use flockdb.Sync.Stream.Position.{IsLog, IsChain, final, fold_records-IsChain}

-- Filtering by an LSN that is not above the chain keeps all of it.
pub filter_from_all :
    (from lo : Lsn) (base : ManifestId) (ss : List Shipment)
    → from ≤ lo
    → IsChain base lo ss
    → filter_from from ss ≡ ss
unfolding filter_from
filter_from_all from lo base [] p c = refl
filter_from_all from lo base (s ∷ ss) p c =
    let q = c.1 in
    rw (le→leb from s.commit_lsn (omega arith))
      (ap (λ l. s ∷ l) (filter_from_all from (suc s.commit_lsn) s.manifest ss (omega arith) c.2))

-- The commits behind a position continue from its manifest to the chain's end.
pub record Continues (from : Lsn) (head base : ManifestId) (lo : Lsn) (ss : List Shipment)
    : Type 0 where
  pub chain : IsChain head from (filter_from from ss)
  pub ends : final head (filter_from from ss) ≡ final base ss
  pub ahead : lo < from

pub find_head-Continues :
    (head : ManifestId) (from : Lsn) (base : ManifestId) (lo : Lsn) (ss : List Shipment)
    → IsChain base lo ss
    → find_head head ss ≡ ok from
    → Continues from head base lo ss
unfolding find_head filter_from
find_head-Continues head from base lo [] c h = absurd (cc h)
find_head-Continues head from base lo (s ∷ ss) c h = elim (Bool-cases (s.manifest == head)) [
  | inl here ↦ at_head ((==_iff s.manifest head).0 here) (ok_injective (rw here at h))
  | inr later ↦
      behind (find_head-Continues head from s.manifest (suc s.commit_lsn) ss c.2 (rw later at h))
]
  where
    ok_injective : {a b : Lsn} → ◌≡◌ {A = Result SyncError Lsn} (ok a) (ok b) → a ≡ b
    ok_injective e = cc e

    at_head : s.manifest ≡ head → s.commit_lsn + 1 ≡ from → Continues from head base lo (s ∷ ss)
    at_head m e =
        let q = c.1 in
        let all = filter_from_all from (suc s.commit_lsn) s.manifest ss (omega arith) c.2 in
        let f : from ≡ suc s.commit_lsn = omega arith in
        record {
          chain = rw (lt→leb from s.commit_lsn (omega arith), all) (rw f (rw (← m) c.2));
          ends = rw (lt→leb from s.commit_lsn (omega arith), all, m);
          ahead = omega arith;
        }

    behind :
        Continues from head s.manifest (suc s.commit_lsn) ss → Continues from head base lo (s ∷ ss)
    behind k =
        let q = c.1 in
        let a = k.ahead in
        record {
          chain = rw (lt→leb from s.commit_lsn (omega arith)) k.chain;
          ends = rw (lt→leb from s.commit_lsn (omega arith)) k.ends;
          ahead = omega arith;
        }

-- A source whose log is well formed, with all of its commits.
pub record IsPrimary (src : WalSource) (start : ManifestId) (all : List Shipment) : Type 0 where
  pub streams : shipments_from src 0 ≡ ok all
  pub starts : start_head src ≡ ok start
  pub chain : IsChain start 0 all

-- The log of a primary, from its checkpoint or its empty root on, is one that substrate writes.
pub record WrittenBySubstrate (src : WalSource) (all : List Shipment) : Type 0 where
  pub streamed : Streamed src 0 all
  pub is_log : IsLog (lsn_of streamed.cp) streamed.base 0 streamed.rs

pub WrittenBySubstrate-IsPrimary :
    (src : WalSource) (all : List Shipment)
    → shipments_from src 0 ≡ ok all
    → (w : WrittenBySubstrate src all) → IsPrimary src w.streamed.base all
WrittenBySubstrate-IsPrimary src all h w = record {
  streams = h;
  starts = w.streamed.start;
  chain =
      fold_records-IsChain src (lsn_of w.streamed.cp) w.streamed.base 0 [] w.streamed.rs all
        w.is_log w.streamed.fold;
}

-- What `catch_up` streams for a follower at `head`.
pub record Remaining (src : WalSource) (start head : ManifestId) (all : List Shipment) (from : Lsn)
    : Type 0 where
  pub rest : List Shipment
  pub streams : shipments_from src from ≡ ok rest
  pub chain : IsChain head from rest
  pub ends : final head rest ≡ final start all

-- A follower at a head that `resume_after` finds in a well-formed log is streamed, from the LSN that
-- it returns, commits that build on that head, one on another, up to the primary's last manifest.
pub resume_after-Remaining :
    (src : WalSource) (start head : ManifestId) (all : List Shipment) (from : Lsn)
    → IsPrimary src start all
    → resume_after src head ≡ ok from
    → Remaining src start head all from
unfolding resume_after
resume_after-Remaining src start head all from p h = elim (Bool-cases (head == start)) [
  | inl fresh ↦
      at_start ((==_iff head start).0 fresh) (ok_injective (rw fresh at (rw p.starts at h)))
  | inr known ↦
      let k =
        find_head-Continues head from start 0 all p.chain
          (rw (p.streams) at (rw known at (rw p.starts at h))) in
      record {
        rest = filter_from from all;
        streams = shipments_from-filter src from all p.streams;
        chain = k.chain;
        ends = k.ends;
      }
]
  where
    ok_injective : {a b : Lsn} → ◌≡◌ {A = Result SyncError Lsn} (ok a) (ok b) → a ≡ b
    ok_injective e = cc e

    at_start : head ≡ start → 0 ≡ from → Remaining src start head all from
    at_start e z = record {
      rest = all;
      streams = rw (← z) p.streams;
      chain = rw (← z) (rw e p.chain);
      ends = rw e;
    }
