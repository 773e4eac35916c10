-- ===== src/Common/Word.antt =====
-- Go's fixed-width signed integers: a value of ℤ that wraps around at the ends of its range.
use goqueuesim.Common.Tests.{ltb, if◌then◌else◌}
use goqueuesim.Common.Int.{ℤ, pos, negsuc, pos_part, neg_part}
use Prim.Native.Nat.{ℕ, ◌-◌, ◌%◌, ◌^◌, ◌≤◌, ◌<◌}
use mathlib.Core.Path.{◌≡◌}
use native.Mathlib.Omega.{arith}

-- The int64 that agrees with an integer modulo 2 ^ 64.
unfoldable pub i64 : ℤ → ℤ
i64 (pos n) = let m = n % 2 ^ 64 in if ltb m (2 ^ 63) then pos m else negsuc (2 ^ 64 - m - 1)
i64 (negsuc n) = let m = n % 2 ^ 64 in if ltb m (2 ^ 63) then negsuc m else pos (2 ^ 64 - m - 1)

-- The int32 that agrees with an integer modulo 2 ^ 32.
unfoldable pub i32 : ℤ → ℤ
i32 (pos n) = let m = n % 2 ^ 32 in if ltb m (2 ^ 31) then pos m else negsuc (2 ^ 32 - m - 1)
i32 (negsuc n) = let m = n % 2 ^ 32 in if ltb m (2 ^ 31) then negsuc m else pos (2 ^ 32 - m - 1)

pub record IsI64 (a : ℤ) : Type 0 where
  pub above : neg_part a ≤ 2 ^ 63
  pub below : pos_part a < 2 ^ 63

pub record IsI32 (a : ℤ) : Type 0 where
  pub above : neg_part a ≤ 2 ^ 31
  pub below : pos_part a < 2 ^ 31

pub i64-IsI64 : (a : ℤ) → IsI64 (i64 a)
unfolding i64
i64-IsI64 (pos n) = ground arith
i64-IsI64 (negsuc n) = ground arith

pub i32-IsI32 : (a : ℤ) → IsI32 (i32 a)
unfolding i32
i32-IsI32 (pos n) = ground arith
i32-IsI32 (negsuc n) = ground arith

pub i64_lem : (a : ℤ) → IsI64 a → i64 a ≡ a
unfolding i64
i64_lem (pos n) h = ground arith
i64_lem (negsuc n) h = ground arith

pub i32_lem : (a : ℤ) → IsI32 a → i32 a ≡ a
unfolding i32
i32_lem (pos n) h = ground arith
i32_lem (negsuc n) h = ground arith

-- Past the largest int64, and up to twice that, the wrapped value is negative.
pub i64_overflow : (n : ℕ) → 2 ^ 63 ≤ n → n < 2 ^ 64 → i64 (pos n) ≡ negsuc (2 ^ 64 - n - 1)
unfolding i64
i64_overflow n lo hi = ground arith
