-- ===== src/Sync/Log/Whole.antt =====
-- `records`: a log that was written as frames, segment after segment, is read back whole.
use flockdb.Prelude.{
  ℕ, zero, suc, ◌+◌, ◌<◌, ◌≡◌, refl, true, List, [], ◌∷◌, ◌++◌, arith, ok, length, drop,
  length-append,
}
use flockdb.Foreign.{Bytes}
use flockdb.Sync.Source.{WalRecord, complete, torn, WalSource}
use flockdb.Sync.Log.{segments, nonempty, scan_segment, read_segments, records}

-- The frames of a record log: how a record is written, and what the decoder promises of it.
pub record Framing (src : WalSource) : Type 0 where
  pub encode : WalRecord → Bytes
  pub consumed_positive : (r : WalRecord) → 0 < length (encode r)
  pub decode-encode :
      (r : WalRecord) (rest : Bytes)
      → src.decode (encode r ++ rest) ≡ complete r (length (encode r))
  pub decode_empty : src.decode [] ≡ torn

module _ (src : WalSource) (f : Framing src) where
  unfoldable pub frames : List WalRecord → Bytes → Bytes
  frames [] tail = tail
  frames (r ∷ rs) tail = f.encode r ++ frames rs tail

  drop-append : (bs rest : Bytes) → drop (length bs) (bs ++ rest) ≡ rest
  drop-append [] rest = refl
  drop-append (b ∷ bs) rest = drop-append bs rest

  -- The segments in order: sealed ones that end with a frame, up to a torn tail or the last of them.
  pub data Segmented : List ℕ → List WalRecord → Type 0 where
    finished : Segmented [] []
    sealed :
        {n : ℕ} {ns : List ℕ} (rs : List WalRecord) {rest : List WalRecord}
        → src.read_segment n ≡ ok (frames rs [])
        → Segmented ns rest
        → Segmented (n ∷ ns) (rs ++ rest)
    cut_off :
        {n : ℕ} {ns : List ℕ} {rs : List WalRecord} (tail : Bytes)
        → src.read_segment n ≡ ok (frames rs tail)
        → nonempty tail ≡ true
        → src.decode tail ≡ torn
        → Segmented (n ∷ ns) rs

  scan_frames :
      (rs : List WalRecord) (tail : Bytes) (fuel : ℕ)
      → src.decode tail ≡ torn
      → length (frames rs tail) < fuel
      → scan_segment src fuel (frames rs tail) ≡ record { found = rs; ended = nonempty tail }
  unfolding scan_segment frames
  scan_frames [] tail zero d p = absurd (omega arith)
  scan_frames [] tail (suc fuel) d p = rw (d, scan_segment)
  scan_frames (r ∷ rs) tail zero d p = absurd (omega arith)
  scan_frames (r ∷ rs) tail (suc fuel) d p =
      let c = f.consumed_positive r in
      let l = length-append (f.encode r) (frames rs tail) in
      rw (
        f.decode-encode r (frames rs tail),
        scan_segment,
        drop-append (f.encode r) (frames rs tail),
        scan_frames rs tail fuel d (omega arith),
      )

  read_segments-Segmented :
      {ns : List ℕ} {rs : List WalRecord} → Segmented ns rs → read_segments src ns ≡ ok rs
  unfolding read_segments
  read_segments-Segmented finished = refl
  read_segments-Segmented (sealed rs h later) =
      let s = scan_frames rs [] (length (frames rs []) + 1) f.decode_empty (omega arith) in
      rw (h, read_segments, s, read_segments-Segmented later)
  read_segments-Segmented (cut_off {rs = rs} tail h n d) =
      let s = scan_frames rs tail (length (frames rs tail) + 1) d (omega arith) in
      rw (h, read_segments, s, n)

  -- A log whose segments, in the order of their numbers, are frames, up to a torn tail or the last
  -- segment's end, is read back as all records of those segments, in order.
  pub records-Segmented :
      (ns : List ℕ) (rs : List WalRecord)
      → segments src ≡ ok ns
      → Segmented ns rs
      → records src ≡ ok rs
  unfolding records
  records-Segmented ns rs h s = rw h (read_segments-Segmented s)
