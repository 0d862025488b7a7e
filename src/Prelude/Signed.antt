-- ===== src/Prelude/Signed.antt =====
-- The signed `int` counters of the program, as integers over the native numbers.
use Prim.Native.Nat.{ℕ, zero, suc}
use mathlib.Core.Bool.{Bool, true, false}
use ppp.Prelude.Tests.{leb}

-- `negsuc n` is -(n + 1).
pub data ℤ : Type 0 where
  pos : ℕ → ℤ
  negsuc : ℕ → ℤ

-- `--x`.
abbrev pub pred_ℤ : ℤ → ℤ
pred_ℤ (pos zero) = negsuc 0
pred_ℤ (pos (suc n)) = pos n
pred_ℤ (negsuc n) = negsuc (suc n)

-- `x <= 0`.
abbrev pub nonpos : ℤ → Bool
nonpos (pos zero) = true
nonpos (pos (suc n)) = false
nonpos (negsuc n) = true

-- `x == 0`.
abbrev pub is_zero : ℤ → Bool
is_zero (pos zero) = true
is_zero (pos (suc n)) = false
is_zero (negsuc n) = false

-- `x < 0`.
abbrev pub is_neg : ℤ → Bool
is_neg (pos n) = false
is_neg (negsuc n) = true

-- `n >= x` for a count `n`.
abbrev pub reaches : ℕ → ℤ → Bool
reaches n (pos m) = leb m n
reaches n (negsuc m) = true
