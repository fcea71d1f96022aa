-- ===== src/Prelude/Int.antt =====
-- Signed integers, and the casts between them and unsigned ones that the program makes.
use Prim.Native.Nat.{ℕ, ◌-◌, ◌^◌, ◌<◌}
use mathlib.Core.Path.{◌≡◌}
use native.Mathlib.Omega.{arith}
use animus_rs.Prelude.Tests.{ltb, if◌then◌else◌}

-- `negsuc n` is -(n + 1).
pub data ℤ : Type 0 where
  pos : ℕ → ℤ
  negsuc : ℕ → ℤ

-- `n as i32` for `n : u32`, and `z as u32` for `z : i32`.
unfoldable pub u32_as_i32 : ℕ → ℤ
u32_as_i32 n = if ltb n (2 ^ 31) then pos n else negsuc (2 ^ 32 - 1 - n)

unfoldable pub i32_as_u32 : ℤ → ℕ
i32_as_u32 (pos n) = n
i32_as_u32 (negsuc n) = 2 ^ 32 - 1 - n

-- `n as i64` for `n : u64`, and `z as u64` for `z : i64`.
unfoldable pub u64_as_i64 : ℕ → ℤ
u64_as_i64 n = if ltb n (2 ^ 63) then pos n else negsuc (2 ^ 64 - 1 - n)

unfoldable pub i64_as_u64 : ℤ → ℕ
i64_as_u64 (pos n) = n
i64_as_u64 (negsuc n) = 2 ^ 64 - 1 - n

pub i32_as_u32-u32_as_i32 : (n : ℕ) → n < 2 ^ 32 → i32_as_u32 (u32_as_i32 n) ≡ n
unfolding i32_as_u32 u32_as_i32
i32_as_u32-u32_as_i32 n h = ground arith

pub i64_as_u64-u64_as_i64 : (n : ℕ) → n < 2 ^ 64 → i64_as_u64 (u64_as_i64 n) ≡ n
unfolding i64_as_u64 u64_as_i64
i64_as_u64-u64_as_i64 n h = ground arith
