-- ===== src/Sync/ReplicaExamples.antt =====
-- A follower of the small primary: it catches up, restores to a point in time, and is left alone where
-- it is past that point.
use flockdb.Prelude.{ℕ, ◌+◌, ◌≡◌, refl, arith, List, [], ◌∷◌, none, some, ok, if◌then◌else◌, ◌==◌}
use flockdb.Prelude.Texts.{same_text, strip_suffix}
use flockdb.Prelude.Sorting.{sort, insert_sorted}
use flockdb.Foreign.{ManifestId, Bytes}
use flockdb.Sync.Clock.{new}
use flockdb.Sync.Shipment.{Shipment, find_blob, bytes_for}
use flockdb.Sync.Source.{
  read_checkpoint, start_head, insert_pending, has_blob, fetch_blob, collect_blobs, build_shipment,
}
use flockdb.Sync.Log.{
  parse_digits, parse_u64, segment_number, segment_numbers, segments, scan_segment, read_segments,
  records,
}
use flockdb.Sync.Stream.{
  find_head, last_until, fold_records, shipments_from, resume_after, manifest_at,
}
use flockdb.Sync.Stream.Filtered.{filter_from, shipments_from-filter}
use flockdb.Sync.Stream.Position.{final}
use flockdb.Sync.Stream.Resume.{IsPrimary, Remaining, resume_after-Remaining}
use flockdb.Sync.Stream.AsOf.{or_start}
use flockdb.Sync.Replica.{
  DurableStore, Replica, stage_writes, apply, apply_all, catch_up, apply_until, restore_to,
}
use flockdb.Sync.Replica.Outcome.{HeadLaws, Promised, apply-Promised}
use flockdb.Sync.Replica.Converge.{catch_up_converges}
use flockdb.Sync.Replica.Restore.{restore_to_lands, restore_to_leaves_ahead}
use flockdb.Sync.Examples.{source}

abbrev pub first : Shipment
first = record {
  base = 100;
  manifest = 201;
  commit_lsn = 2;
  created_at_ms = 50;
  writes = record { page_no = 0; page = some 7 } ∷ [];
  pages = record { id = 7; bytes = 7 ∷ [] } ∷ [];
}

abbrev pub second : Shipment
second = record {
  base = 201;
  manifest = 202;
  commit_lsn = 4;
  created_at_ms = 60;
  writes = record { page_no = 3; page = none } ∷ [];
  pages = [];
}

abbrev pub commits : List Shipment
commits = first ∷ second ∷ []

pub streams : shipments_from source 0 ≡ ok commits
unfolding shipments_from records segments segment_numbers segment_number strip_suffix same_text
    parse_u64 parse_digits sort insert_sorted read_segments scan_segment read_checkpoint start_head
    fold_records insert_pending has_blob fetch_blob collect_blobs build_shipment
streams = refl

starts : start_head source ≡ ok 100
unfolding read_checkpoint start_head
starts = refl

pub source-IsPrimary : IsPrimary source 100 commits
source-IsPrimary = record {
  streams = streams;
  starts = starts;
  chain = (refl, omega arith, (refl, omega arith, tt));
}

shipments_from-filter_example : shipments_from source 3 ≡ ok (filter_from 3 commits)
shipments_from-filter_example = shipments_from-filter source 3 commits streams

resumes : resume_after source 201 ≡ ok 3
unfolding resume_after find_head
resumes = rw (starts, streams) refl

resume_after-Remaining_example : Remaining source 100 201 commits 3
resume_after-Remaining_example =
    resume_after-Remaining source 100 201 commits 3 source-IsPrimary resumes

abbrev pub next_manifest : ManifestId → ManifestId
next_manifest m = if m == 100 then 201 else m + 1

abbrev pub page_id : Bytes → ℕ
page_id [] = 0
page_id (b ∷ bytes) = b

abbrev pub store : DurableStore ManifestId (Unit {0})
store = record {
  head = λ m. m;
  begin = λ m. ok tt;
  write = λ txn p bytes m. (ok (page_id bytes, txn), m);
  remove = λ txn p m. (ok txn, m);
  commit = λ now txn m. (ok (next_manifest m), next_manifest m);
}

pub store-HeadLaws : HeadLaws store
store-HeadLaws = record {
  head-write = λ txn p b s. refl;
  head-remove = λ txn p s. refl;
  head-commit = λ now txn s m e. cc e;
  head-commit_failed = λ now txn s e h. absurd (cc h);
}

abbrev pub follower : ManifestId → Replica ManifestId
follower head = record { store = head; clock = new; applied_lsn = none }

apply-Promised_example :
    Promised store store-HeadLaws first (follower 100) (apply store first (follower 100))
apply-Promised_example = apply-Promised store store-HeadLaws first (follower 100)

pub resumes_first : resume_after source 100 ≡ ok 0
unfolding resume_after
resumes_first = rw starts refl

streams_later : shipments_from source 3 ≡ ok (second ∷ [])
unfolding filter_from
streams_later = shipments_from-filter source 3 commits streams

caught_up : (catch_up store source (follower 100)).0 ≡ ok 2
unfolding catch_up apply_all apply stage_writes bytes_for find_blob
caught_up = rw (resumes_first, streams) refl

catch_up_converges_example :
    store.head (catch_up store source (follower 100)).1.store ≡ final 100 commits
catch_up_converges_example =
    catch_up_converges store store-HeadLaws source 100 commits (follower 100) 2 source-IsPrimary
      caught_up

pub restored : (restore_to store source 2 (follower 100)).0 ≡ ok tt
unfolding restore_to apply_until apply stage_writes bytes_for find_blob
restored = rw (resumes_first, streams) refl

restore_to_lands_example :
    manifest_at source 2 ≡ ok (last_until 2 none commits)
    × (store.head (restore_to store source 2 (follower 100)).1.store
        ≡ or_start (last_until 2 none commits) 100)
restore_to_lands_example =
    restore_to_lands store store-HeadLaws source 100 commits 2 0 (follower 100) source-IsPrimary
      resumes_first (omega arith) restored

restore_to_leaves_ahead_example : restore_to store source 1 (follower 201) ≡ (ok tt, follower 201)
restore_to_leaves_ahead_example =
    restore_to_leaves_ahead store source 100 commits 1 3 (follower 201) source-IsPrimary resumes
      (omega arith)
