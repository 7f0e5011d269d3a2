-- ===== src/Base/Bits.antt =====
-- Flag words: `x & (1 << k)` and `x |= 1 << k`, in the arithmetic form that `omega` reads.
use Prim.Native.Nat.{ℕ, ◌+◌, ◌/◌, ◌%◌, ◌^◌}
use mathlib.Core.Bool.{Bool}
use karg.Base.Tests.{◌==◌, if◌then◌else◌}

-- `x & (1 << k)` is not 0.
abbrev pub test_bit : ℕ → ℕ → Bool
test_bit x k = x / 2 ^ k % 2 == 1

-- `x | (1 << k)`
abbrev pub or_bit : ℕ → ℕ → ℕ
or_bit x k = if test_bit x k then x else x + 2 ^ k
