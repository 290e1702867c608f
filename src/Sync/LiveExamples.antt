-- ===== src/Sync/LiveExamples.antt =====
-- The follower of the small primary over a store that collects what it stages: it catches up.
use flockdb.Prelude.{ℕ, ◌≡◌, refl, List, [], ◌∷◌, ◌++◌, none, some, ok, arith}
use flockdb.Foreign.{ManifestId, PageId, Bytes}
use flockdb.Sync.Shipment.{PageWrite, find_blob, bytes_for}
use flockdb.Sync.Stream.Position.{final}
use flockdb.Sync.Replica.{DurableStore, catch_up, restore_to}
use flockdb.Sync.Replica.LiveRestore.{restore_to_succeeds}
use flockdb.Sync.Stream.{last_until}
use flockdb.Sync.Stream.AsOf.{or_start}
use flockdb.Sync.Replica.Live.{Derives, catch_up_succeeds}
use flockdb.Sync.Examples.{source}
use flockdb.Sync.ReplicaExamples.{commits, source-IsPrimary, resumes_first, next_manifest, follower}

abbrev first_byte : Bytes → PageId
first_byte [] = 0
first_byte (b ∷ bytes) = b

abbrev collecting : DurableStore ManifestId (List PageWrite)
collecting = record {
  head = λ m. m;
  begin = λ m. ok [];
  write = λ txn p bytes m. (
    (ok (first_byte bytes, txn ++ record { page_no = p; page = some (first_byte bytes) } ∷ [])),
    m,
  );
  remove = λ txn p m. (ok (txn ++ record { page_no = p; page = none } ∷ []), m);
  commit = λ now txn m. (ok (next_manifest m), next_manifest m);
}

abbrev collecting-Derives : Derives collecting
collecting-Derives = record {
  hash = first_byte;
  derive = λ m ws now. next_manifest m;
  staged = λ txn. txn;
  opened = λ m. ([], refl, refl);
  wrote = λ txn p b m. (_, m, refl, refl, refl);
  removed = λ txn p m. (_, m, refl, refl, refl);
  committed = λ now txn m. (next_manifest m, refl, refl);
}

catch_up_succeeds_example :
    (n : ℕ) × ((catch_up collecting source (follower 100)).0 ≡ ok n)
    × (collecting.head (catch_up collecting source (follower 100)).1.store ≡ final 100 commits)
unfolding bytes_for find_blob
catch_up_succeeds_example =
    catch_up_succeeds collecting collecting-Derives source 100 commits 0 (follower 100)
      source-IsPrimary resumes_first
      (
        record { carries = ((7 ∷ [], refl, refl), tt); derived = refl },
        (record { carries = (tt, tt); derived = refl }, tt),
      )

restore_to_succeeds_example :
    ((restore_to collecting source 2 (follower 100)).0 ≡ ok tt)
    × (collecting.head (restore_to collecting source 2 (follower 100)).1.store
        ≡ or_start (last_until 2 none commits) 100)
unfolding bytes_for find_blob
restore_to_succeeds_example =
    restore_to_succeeds collecting collecting-Derives source 100 commits 2 0 (follower 100)
      source-IsPrimary resumes_first (omega arith)
      (
        record { carries = ((7 ∷ [], refl, refl), tt); derived = refl },
        (record { carries = (tt, tt); derived = refl }, tt),
      )
