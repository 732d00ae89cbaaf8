-- ===== src/Prelude/Int.antt =====
-- Integers over the native numbers, and the casts between the integer types of a width.
use Prim.Native.Nat.{ℕ, ◌+◌, ◌-◌, ◌<◌}
use mathlib.Core.Path.{◌≡◌}
use native.Mathlib.Omega.{arith}
use crawlrs.Prelude.Tests.{ltb, if◌then◌else◌}

pub data ℤ : Type 0 where
  pos negsuc : ℕ → ℤ

-- `n as i32`, for the bound 2 ^ 31, and `n as i64`, for 2 ^ 63.
abbrev pub to_signed : ℕ → ℕ → ℤ
to_signed half n = if ltb n half then pos n else negsuc (half + half - n - 1)

-- `z as u32` and `z as u64`, for the same bounds.
abbrev pub to_unsigned : ℕ → ℤ → ℕ
to_unsigned half (pos n) = n
to_unsigned half (negsuc n) = half + half - n - 1

pub to_unsigned-to_signed : (half n : ℕ) → n < half + half → to_unsigned half (to_signed half n) ≡ n
to_unsigned-to_signed half n h = ground arith
