-- ===== src/Sync/Log/Order.antt =====
-- `segments`: the segments of the log, in the order of their numbers.
use flockdb.Prelude.{
  ℕ, ◌≡◌, refl, ◌∙◌, inl, inr, Bool, false, ◌||◌, List, [], ◌∷◌, Option, none, some, Result, ok,
  ◌==◌, contains, Option-cases,
}
use flockdb.Prelude.Sorting.{sort, contains-sort, WeaklyFrom, WeaklyFrom-sort}
use flockdb.Foreign.{Bytes}
use flockdb.Sync.Error.{SyncError}
use flockdb.Sync.Source.{entries, WalSource}
use flockdb.Sync.Log.{segment_number, segment_numbers, segments}

-- Whether a directory lists a file that is segment `n`.
abbrev is_segment : ℕ → Option ℕ → Bool
is_segment n none = false
is_segment n (some m) = n == m

abbrev pub lists : ℕ → List (Option Bytes) → Bool
lists n [] = false
lists n (name ∷ names) = is_segment n (segment_number name) || lists n names

contains-segment_numbers :
    (n : ℕ) (names : List (Option Bytes)) → contains n (segment_numbers names) ≡ lists n names
unfolding segment_numbers
contains-segment_numbers n [] = refl
contains-segment_numbers n (name ∷ names) = elim (Option-cases (segment_number name)) [
  | inl e ↦ rw (e, segment_numbers) (contains-segment_numbers n names)
  | inr (m, e) ↦ rw (e, segment_numbers, contains-segment_numbers n names)
]

-- Where the log's directory is listed, `segments` returns numbers in ascending order, and a number is
-- among them exactly if a file of the directory is named with it.
pub segments_ordered :
    (src : WalSource) (names : List (Option Bytes)) (ns : List ℕ)
    → src.read_dir ≡ entries names
    → segments src ≡ ok ns
    → WeaklyFrom 0 ns × ((n : ℕ) → contains n ns ≡ lists n names)
unfolding segments
segments_ordered src names ns d h =
    let e : sort (segment_numbers names) ≡ ns = ok_injective (rw d at h) in
    rw (← e) (
      WeaklyFrom-sort (segment_numbers names),
      (λ n. contains-sort n (segment_numbers names) ∙ contains-segment_numbers n names),
    )
  where
    ok_injective : {a b : List ℕ} → ◌≡◌ {A = Result SyncError (List ℕ)} (ok a) (ok b) → a ≡ b
    ok_injective e = cc e
