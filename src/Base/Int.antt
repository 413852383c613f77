-- ===== src/Base/Int.antt =====
-- The integers that an int32_t stands for, as far as the program uses them.
use Prim.Native.Nat.{ℕ, zero, suc}
use mathlib.Core.Bool.{Bool, true, false}

-- `negsuc n` is -(n + 1).
pub data ℤ : Type 0 where
  pos : ℕ → ℤ
  negsuc : ℕ → ℤ

-- z <= 0
abbrev pub is_nonpos : ℤ → Bool
is_nonpos (pos zero) = true
is_nonpos (pos (suc n)) = false
is_nonpos (negsuc n) = true

-- z - 1; the least int32_t is not reached, since the program subtracts from positive values.
abbrev pub pred_int : ℤ → ℤ
pred_int (pos zero) = negsuc zero
pred_int (pos (suc n)) = pos n
pred_int (negsuc n) = negsuc (suc n)
