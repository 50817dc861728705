-- ===== src/Prelude/Int.antt =====
-- Signed integers over the native numbers, and the 32-bit pattern of an `int`.
use Prim.Native.Nat.{ℕ, ◌+◌, ◌-◌, ◌^◌, ◌%◌, ◌≤◌, ◌<◌}
use mathlib.Core.Path.{◌≡◌}
use native.Mathlib.Omega.{arith}
use pushserver.Prelude.Tests.{ltb, if◌then◌else◌}

-- `negsuc n` is -(n + 1).
pub data ℤ : Type 0 where
  pos : ℕ → ℤ
  negsuc : ℕ → ℤ

-- The value of an `int` whose bit pattern is `w`, a number below 2 ^ 32.
abbrev pub signed32 : ℕ → ℤ
signed32 w = if ltb w (2 ^ 31) then pos w else negsuc (2 ^ 32 - 1 - w)

-- `a - b` on `unsigned`, which wraps.
abbrev pub sub32 : ℕ → ℕ → ℕ
sub32 a b = (a % 2 ^ 32 + 2 ^ 32 - b % 2 ^ 32) % 2 ^ 32

-- `a - b` for numbers that fit an `int`, with no wrap-around in sight.
pub signed32-sub32 : (a b : ℕ) → a < 2 ^ 31 → b ≤ a → signed32 (sub32 a b) ≡ pos (a - b)
signed32-sub32 a b ha hb = ground arith
