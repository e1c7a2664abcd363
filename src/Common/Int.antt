-- ===== src/Common/Int.antt =====
-- Python's `int`.
use Prim.Native.Nat.{ℕ}
use mathlib.Core.Bool.{Bool, true, false}
use oven_multiskill_runtime.Common.Tests.{ltb, ◌==◌}

-- `negsuc n` is -(n + 1).
pub data ℤ : Type 0 where
  pos : ℕ → ℤ
  negsuc : ℕ → ℤ

-- `a == b` with `b` not negative.
abbrev pub eq_ℕ : ℤ → ℕ → Bool
eq_ℕ (pos n) m = n == m
eq_ℕ (negsuc n) m = false

-- `a < b` with `b` not negative.
abbrev pub lt_ℕ : ℤ → ℕ → Bool
lt_ℕ (pos n) m = ltb n m
lt_ℕ (negsuc n) m = true

-- The number itself, where it is known not to be negative.
abbrev pub pos_part : ℤ → ℕ
pos_part (pos n) = n
pos_part (negsuc n) = 0
