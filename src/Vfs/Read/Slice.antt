-- ===== src/Vfs/Read/Slice.antt =====
-- `copy_from_slice` into a buffer: its length and each of its bytes.
use flockdb.Prelude.{
  ℕ, ◌+◌, ◌-◌, ◌≤◌, ◌<◌, ◌≡◌, refl, ◌++◌, arith, length, take, drop, get_elem?, length-append,
  length-take, length-drop, get_elem?-take, get_elem?-drop, get_elem?-append_left,
  get_elem?-append_right,
}
use flockdb.Foreign.{Bytes}
use flockdb.Vfs.Read.{copy_slice}

module _ (buf bytes : Bytes) (at : ℕ) (fits : at + length bytes ≤ length buf) where
  pub length-copy_slice : length (copy_slice buf at bytes) ≡ length buf
  unfolding copy_slice
  length-copy_slice = omega (
    arith,
    length-append (take at buf) (bytes ++ drop (at + length bytes) buf),
    length-append bytes (drop (at + length bytes) buf),
    length-take at buf,
    length-drop (at + length bytes) buf,
  )

  length-before : length (take at buf) ≡ at
  length-before = omega (arith, length-take at buf)

  pub copy_slice_before : (i : ℕ) → i < at → get_elem? (copy_slice buf at bytes) i ≡ get_elem? buf i
  unfolding copy_slice
  copy_slice_before i h =
      rw (get_elem?-append_left (take at buf) _ i (omega (arith, length-before)))
        (get_elem?-take at buf i h)

  pub copy_slice_inside :
      (i : ℕ) → i < length bytes → get_elem? (copy_slice buf at bytes) (at + i) ≡ get_elem? bytes i
  unfolding copy_slice
  copy_slice_inside i h =
      let e : at + i ≡ length (take at buf) + i = omega (arith, length-before) in
      rw (e, get_elem?-append_right (take at buf) (bytes ++ drop (at + length bytes) buf) i)
        (get_elem?-append_left bytes _ i h)

  pub copy_slice_behind :
      (i : ℕ) → at + length bytes ≤ i → get_elem? (copy_slice buf at bytes) i ≡ get_elem? buf i
  unfolding copy_slice
  copy_slice_behind i h =
      let k = i - (at + length bytes) in
      let e : i ≡ length (take at buf) + (length bytes + k) = omega (arith, length-before) in
      let e' : at + length bytes + k ≡ length (take at buf) + (length bytes + k) =
        omega (arith, length-before) in
      rw
        (
          e,
          get_elem?-append_right (take at buf) (bytes ++ drop (at + length bytes) buf)
              (length bytes + k),
        )
        (rw (get_elem?-append_right bytes (drop (at + length bytes) buf) k)
          (rw (get_elem?-drop (at + length bytes) buf k) (rw e' refl)))
