-- ===== src/Prelude/Int.antt =====
-- Signed machine integers as they cross the C ABI.
use Prim.Native.Nat.{ℕ, ◌-◌, ◌^◌}
use flockdb.Prelude.Tests.{ltb, if◌then◌else◌}

-- `negsuc n` is -(n + 1).
pub data ℤ : Type 0 where
  pos : ℕ → ℤ
  negsuc : ℕ → ℤ

-- i64::MAX + 1, which is also isize::MAX + 1.
abbrev pub i64_bound : ℕ
i64_bound = 2 ^ 63

-- `n as isize` of a `usize`: the bit pattern read as a signed number.
abbrev pub as_isize : ℕ → ℤ
as_isize n = if ltb n i64_bound then pos n else negsuc (2 ^ 64 - n - 1)
