-- ===== src/Base/Int.antt =====
-- Integers over the native numbers, for the conversions of a `uint64` to an `int64`.
use Prim.Native.Nat.{ℕ, ◌-◌, ◌^◌}
use peggo.Base.Tests.{ltb, if◌then◌else◌}

-- `negsuc n` is -(n + 1).
pub data ℤ : Type 0 where
  pos : ℕ → ℤ
  negsuc : ℕ → ℤ

-- `big.NewInt(int64(n))` of a number below 2 ^ 64.
abbrev pub int64 : ℕ → ℤ
int64 n = if ltb n (2 ^ 63) then pos n else negsuc (2 ^ 64 - n - 1)
