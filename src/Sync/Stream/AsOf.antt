-- ===== src/Sync/Stream/AsOf.antt =====
-- `manifest_at`: the primary as of an LSN, from the start of the log and from a follower's position.
use flockdb.Prelude.{
  suc, ◌+◌, ◌≤◌, ◌≡◌, refl, inl, inr, List, [], ◌∷◌, Option, none, some, arith, leb, lt→leb, le→leb,
  ==_iff, ◌==◌, Bool-cases, Result, ok,
}
use flockdb.Foreign.{ManifestId, Lsn}
use flockdb.Sync.Error.{SyncError}
use flockdb.Sync.Shipment.{Shipment}
use flockdb.Sync.Stream.{find_head, last_until}
use flockdb.Sync.Stream.Filtered.{filter_from}
use flockdb.Sync.Stream.Position.{IsChain}
use flockdb.Sync.Stream.Resume.{filter_from_all, find_head-Continues}

-- The manifest as of an LSN, or the start of the log where no commit is that old.
abbrev pub or_start : Option ManifestId → ManifestId → ManifestId
or_start none start = start
or_start (some m) start = m

pub last_until_start :
    (lsn : Lsn) (start : ManifestId) (at : Option ManifestId) (ss : List Shipment)
    → last_until lsn (some (or_start at start)) ss ≡ some (or_start (last_until lsn at ss) start)
unfolding last_until
last_until_start lsn start at [] = refl
last_until_start lsn start at (s ∷ ss) = elim (Bool-cases (leb s.commit_lsn lsn)) [
  | inl old ↦ rw old (last_until_start lsn start (some s.manifest) ss)
  | inr new ↦ rw new
]

-- Counting on from a follower's position gives the manifest that counting from the start gives.
pub last_until_resumed :
    (lsn : Lsn) (head : ManifestId) (from : Lsn) (base : ManifestId) (lo : Lsn)
    (at : Option ManifestId) (ss : List Shipment)
    → IsChain base lo ss
    → find_head head ss ≡ ok from
    → from ≤ suc lsn
    → last_until lsn at ss ≡ last_until lsn (some head) (filter_from from ss)
unfolding last_until find_head filter_from
last_until_resumed lsn head from base lo at [] c h p = absurd (cc h)
last_until_resumed lsn head from base lo at (s ∷ ss) c h p =
    elim (Bool-cases (s.manifest == head)) [
      | inl here ↦
          let m = (==_iff s.manifest head).0 here in
          let f : s.commit_lsn + 1 ≡ from = ok_injective (rw here at h) in
          rw (lt→leb from s.commit_lsn (omega arith), le→leb s.commit_lsn lsn (omega arith))
            (rw (filter_from_all from (suc s.commit_lsn) s.manifest ss (omega arith) c.2) (rw m))
      | inr later ↦
          let k =
            find_head-Continues head from s.manifest (suc s.commit_lsn) ss c.2 (rw later at h) in
          let a = k.ahead in
          rw (lt→leb from s.commit_lsn (omega arith), le→leb s.commit_lsn lsn (omega arith))
            (last_until_resumed lsn head from s.manifest (suc s.commit_lsn) (some s.manifest) ss c.2
              (rw later at h) p)
    ]
  where
    ok_injective : {a b : Lsn} → ◌≡◌ {A = Result SyncError Lsn} (ok a) (ok b) → a ≡ b
    ok_injective e = cc e
