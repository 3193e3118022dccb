-- ===== src/Base/Integer.antt =====
-- Signed integers, for `int32` fields and for `time.Time` in Unix seconds.
use Prim.Native.Nat.{ℕ, ◌-◌, ◌%◌, ◌^◌}
use mathlib.Core.Bool.{Bool, false}
use mathlib.Core.Option.{Option, none, some}
use tos_messenger.Base.Tests.{◌==◌}

-- `negsuc n` is -(n + 1).
pub data ℤ : Type 0 where
  pos : ℕ → ℤ
  negsuc : ℕ → ℤ

abbrev pub eq_ℤ : ℤ → ℤ → Bool
eq_ℤ (pos a) (pos b) = a == b
eq_ℤ (negsuc a) (negsuc b) = a == b
eq_ℤ _ _ = false

-- A `time.Time` as its Unix seconds. The zero time lies in year 1, so it is negative here, and the
-- source's test `now.IsZero() || now.Unix() < 0` is the first constructor's absence.
abbrev pub Time : Type 0
Time = ℤ

abbrev pub unix_seconds : Time → Option ℕ
unix_seconds (pos n) = some n
unix_seconds (negsuc n) = none

-- The conversions `uint32(x)` and `uint64(x)`.
abbrev pub u32 : ℕ → ℕ
u32 n = n % 2 ^ 32

abbrev pub u64 : ℕ → ℕ
u64 n = n % 2 ^ 64

-- `uint32` of a signed value, in two's complement.
abbrev pub u32_of_ℤ : ℤ → ℕ
u32_of_ℤ (pos n) = u32 n
u32_of_ℤ (negsuc n) = 2 ^ 32 - 1 - u32 n
