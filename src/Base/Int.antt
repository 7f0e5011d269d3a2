-- ===== src/Base/Int.antt =====
-- C's signed results: ℤ over the native numbers, as far as return codes need it.
use Prim.Native.Nat.{ℕ, zero, suc, ◌+◌}
use mathlib.Core.Bool.{Bool, true, false}

-- `negsuc n` is -(n + 1).
pub data ℤ : Type 0 where
  pos : ℕ → ℤ
  negsuc : ℕ → ℤ

-- `-n`
abbrev pub negate : ℕ → ℤ
negate zero = pos 0
negate (suc n) = negsuc n

-- `res < 0`
abbrev pub is_neg : ℤ → Bool
is_neg (pos n) = false
is_neg (negsuc n) = true

-- `res + 1`
abbrev pub succ : ℤ → ℤ
succ (pos n) = pos (n + 1)
succ (negsuc zero) = pos 0
succ (negsuc (suc n)) = negsuc n

-- `res - 1`
abbrev pub pred : ℤ → ℤ
pred (pos zero) = negsuc 0
pred (pos (suc n)) = pos n
pred (negsuc n) = negsuc (n + 1)
