-- ===== src/Base/Integers.antt =====
-- Integers on the native numbers, for coordinates that may lie left of or above the origin.
use Prim.Native.Nat.{ℕ, zero, suc}

pub data ℤ : Type 0 where
  pos : ℕ → ℤ
  negsuc : ℕ → ℤ

-- One step to the right, and several.
abbrev pub next : ℤ → ℤ
next (pos n) = pos (suc n)
next (negsuc zero) = pos 0
next (negsuc (suc n)) = negsuc n

abbrev pub right_of : ℤ → ℕ → ℤ
right_of x zero = x
right_of x (suc n) = next (right_of x n)
