-- ===== src/Prelude/Int.antt =====
-- Go's signed integers; `negsuc n` is -(n + 1).
use Prim.Native.Nat.{ℕ, zero, suc}
use mathlib.Core.Bool.{Bool, true, false}

pub data ℤ : Type 0 where
  pos : ℕ → ℤ
  negsuc : ℕ → ℤ

-- `x <= 0`
abbrev pub is_nonpos : ℤ → Bool
is_nonpos (pos zero) = true
is_nonpos (pos (suc n)) = false
is_nonpos (negsuc n) = true

-- `x == 0`
abbrev pub is_zero : ℤ → Bool
is_zero (pos zero) = true
is_zero (pos (suc n)) = false
is_zero (negsuc n) = false

-- The number of a nonnegative integer.
abbrev pub to_ℕ : ℤ → ℕ
to_ℕ (pos n) = n
to_ℕ (negsuc n) = 0
