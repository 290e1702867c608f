-- ===== src/Sync/Examples.antt =====
-- The theorems about replication at a small primary: a log of one segment with two commits and a torn
-- tail, in frames of four numbers, and a follower whose store counts up its manifests.
use flockdb.Prelude.{
  ℕ, zero, suc, ◌<◌, ◌≡◌, refl, arith, false, List, [], ◌∷◌, ◌++◌, Option, none, some, ok, length,
}
use flockdb.Prelude.Texts.{same_text, strip_suffix}
use flockdb.Prelude.Sorting.{sort, insert_sorted}
use flockdb.Foreign.{Bytes}
use flockdb.Sync.Source.{
  RecordKind, write, commit, checkpoint, WalRecord, entry, ReadOutcome, complete, torn, entries,
  WalSource,
}
use flockdb.Sync.Log.{parse_digits, parse_u64, segment_number, segment_numbers, segments, records}
use flockdb.Sync.Log.Whole.{Framing, frames, cut_off, records-Segmented}

abbrev kind_of : ℕ → ℕ → ℕ → RecordKind
kind_of zero a zero = write a none
kind_of zero a (suc id) = write a (some id)
kind_of (suc zero) a b = commit a b
kind_of (suc (suc _)) a b = checkpoint a

abbrev decode : Bytes → ReadOutcome
decode (lsn ∷ tag ∷ a ∷ b ∷ rest) = complete (entry lsn (kind_of tag a b)) 4
decode _ = torn

abbrev encode : WalRecord → Bytes
encode (entry lsn (write p none)) = lsn ∷ 0 ∷ p ∷ 0 ∷ []
encode (entry lsn (write p (some id))) = lsn ∷ 0 ∷ p ∷ suc id ∷ []
encode (entry lsn (commit m t)) = lsn ∷ 1 ∷ m ∷ t ∷ []
encode (entry lsn (checkpoint m)) = lsn ∷ 2 ∷ m ∷ 0 ∷ []

abbrev log_bytes : Bytes
log_bytes = 1 ∷ 0 ∷ 0 ∷ 8 ∷ 2 ∷ 1 ∷ 201 ∷ 50 ∷ 3 ∷ 0 ∷ 3 ∷ 0 ∷ 4 ∷ 1 ∷ 202 ∷ 60 ∷ 5 ∷ []

abbrev log_records : List WalRecord
log_records =
    entry 1 (write 0 (some 7))
    ∷ entry 2 (commit 201 50)
    ∷ entry 3 (write 3 none)
    ∷ entry 4 (commit 202 60)
    ∷ []

abbrev names : List (Option Bytes)
names = some (b'1' ∷ b'.' ∷ b'w' ∷ b'a' ∷ b'l' ∷ []) ∷ none ∷ some (b'x' ∷ []) ∷ []

abbrev pub source : WalSource
source = record {
  checkpoint_exists = false;
  read_checkpoint_file = ok [];
  read_dir = entries names;
  read_segment = λ n. ok log_bytes;
  decode = decode;
  cas_get = λ id. ok (id ∷ []);
  empty_root = ok 100;
}

framing : Framing source
framing = record {
  encode = encode;
  consumed_positive = positive;
  decode-encode = decodes;
  decode_empty = refl;
}
  where
    positive : (r : WalRecord) → 0 < length (encode r)
    positive (entry lsn (write p none)) = omega arith
    positive (entry lsn (write p (some id))) = omega arith
    positive (entry lsn (commit m t)) = omega arith
    positive (entry lsn (checkpoint m)) = omega arith

    decodes :
        (r : WalRecord) (rest : Bytes) → decode (encode r ++ rest) ≡ complete r (length (encode r))
    decodes (entry lsn (write p none)) rest = refl
    decodes (entry lsn (write p (some id))) rest = refl
    decodes (entry lsn (commit m t)) rest = refl
    decodes (entry lsn (checkpoint m)) rest = refl

one_segment : segments source ≡ ok (1 ∷ [])
unfolding segments segment_numbers segment_number strip_suffix same_text parse_u64 parse_digits sort
    insert_sorted
one_segment = refl

records-Segmented_example : records source ≡ ok log_records
unfolding frames framing
records-Segmented_example =
    records-Segmented source framing (1 ∷ []) log_records one_segment
      (cut_off {rs = log_records} (5 ∷ []) refl refl refl)
