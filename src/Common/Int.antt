-- ===== src/Common/Int.antt =====
-- Signed numbers: `negsuc n` is -(n + 1).
use Prim.Native.Nat.{ℕ, suc, compare, Ordering}
use mathlib.Core.Bool.{Bool, true, false}

pub data ℤ : Type 0 where
  pos : ℕ → ℤ
  negsuc : ℕ → ℤ

-- Rust's `Ord::cmp` on signed integers.
abbrev pub compareℤ : ℤ → ℤ → Ordering
compareℤ (pos m) (pos n) = compare m n
compareℤ (pos m) (negsuc n) = Ordering.gt
compareℤ (negsuc m) (pos n) = Ordering.lt
compareℤ (negsuc m) (negsuc n) = compare n m

-- `z > 0`, as the code writes `!(z <= zero)`.
abbrev pub is_positive : ℤ → Bool
is_positive (pos ℕ.zero) = false
is_positive (pos (suc n)) = true
is_positive (negsuc n) = false
