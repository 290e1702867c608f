-- ===== src/Sync/Log.antt =====
-- crates/flock-sync/src/source.rs: `segments`, `segment_path` and `records`, from the files of the
-- `wal/` directory to its records.
pub mod Order
pub mod Whole
use flockdb.Prelude.{
  ℕ, zero, suc, ◌+◌, ◌-◌, ◌*◌, ◌^◌, Bool, true, false, not, ◌&&◌, List, [], ◌∷◌, ◌++◌, Option, none,
  some, Result, ok, err, ◌>>=◌, map_err, leb, ltb, ◌==◌, if◌then◌else◌, length, drop,
}
use flockdb.Prelude.Sorting.{sort}
use flockdb.Prelude.Texts.{strip_suffix}
use flockdb.Foreign.{Bytes}
use flockdb.Sync.Error.{SyncError, io}
use flockdb.Sync.Source.{
  WalRecord, ReadOutcome, complete, torn, Listing, not_found, failed, entries, WalSource,
}

-- `str::parse::<u64>`: an optional `+`, then one digit or more, below 2^64.
unfoldable pub parse_digits : ℕ → Bytes → Option ℕ
parse_digits n [] = some n
parse_digits n (c ∷ cs) =
    let n' = n * 10 + (c - b'0') in
    let rest = parse_digits n' cs in
    if leb b'0' c && leb c b'9' && ltb n' (2 ^ 64) then rest else none

unfoldable pub parse_u64 : Bytes → Option ℕ
unfolding parse_digits
parse_u64 [] = none
parse_u64 (c ∷ []) = if c == b'+' then none else parse_digits 0 (c ∷ [])
parse_u64 (c ∷ d ∷ cs) = if c == b'+' then parse_digits 0 (d ∷ cs) else parse_digits 0 (c ∷ d ∷ cs)

abbrev pub wal_suffix : Bytes
wal_suffix = b'.' ∷ b'w' ∷ b'a' ∷ b'l' ∷ []

abbrev pub bind_option {ℓ κ} : {A : Type ℓ} {B : Type κ} → Option A → (A → Option B) → Option B
bind_option none f = none
bind_option (some a) f = f a

unfoldable pub segment_number : Option Bytes → Option ℕ
unfolding strip_suffix parse_u64
segment_number name = bind_option (bind_option name (strip_suffix wal_suffix)) parse_u64

unfoldable pub segment_numbers : List (Option Bytes) → List ℕ
unfolding segment_number
segment_numbers [] = []
segment_numbers (name ∷ names) =
    let rest = segment_numbers names in
    elim (segment_number name) [ some n ↦ n ∷ rest | none ↦ rest ]

unfoldable pub segments : WalSource → Result SyncError (List ℕ)
unfolding segment_numbers sort
segments src = elim src.read_dir [
  | not_found ↦ ok []
  | failed e ↦ err (io "wal" e)
  | entries names ↦ ok (sort (segment_numbers names))
]

-- What reading a segment found: its records, and whether a torn tail with unread bytes ended the log.
pub record Scan : Type 0 where
  pub found : List WalRecord
  pub ended : Bool

abbrev pub found_one : WalRecord → Scan → Scan
found_one r scan = record scan { found = r ∷ scan.found }

abbrev pub nonempty {ℓ} : {A : Type ℓ} → List A → Bool
nonempty [] = false
nonempty (_ ∷ _) = true

module _ (src : WalSource) where
  -- The inner loop, on what `&bytes[offset..]` still holds. Each round consumes a byte or more, so
  -- fuel for each byte and one more is enough.
  unfoldable pub scan_segment : ℕ → Bytes → Scan
  scan_segment zero rest = record { found = []; ended = nonempty rest }
  scan_segment (suc fuel) rest = elim (src.decode rest) [
    | complete r consumed ↦ found_one r (scan_segment fuel (drop consumed rest))
    | torn ↦ record { found = []; ended = nonempty rest }
  ]

  unfoldable pub read_segments : List ℕ → Result SyncError (List WalRecord)
  unfolding scan_segment
  read_segments [] = ok []
  read_segments (n ∷ ns) =
      let rest = read_segments ns in
      elim (map_err (io "segment") (src.read_segment n)) [
        | err e ↦ err e
        | ok bytes ↦
            let scan = scan_segment (length bytes + 1) bytes in
            if scan.ended then ok scan.found else rest >>= (λ records. ok (scan.found ++ records))
      ]

  unfoldable pub records : Result SyncError (List WalRecord)
  unfolding segments read_segments
  records = segments src >>= read_segments
