-- ===== src/Base/Int.antt =====
-- Go's `int`, a signed machine word.
use Prim.Native.Nat.{ℕ, ◌^◌}
use mathlib.Core.Bool.{Bool, false}
use mactainer.Base.Tests.{ltb}
use mactainer.Base.Equality.{◌==◌, nat_eq}

-- `negsuc n` is -(n + 1).
pub data ℤ : Type 0 where
  pos : ℕ → ℤ
  negsuc : ℕ → ℤ

-- Whether a number is an `int` of 64 bits.
abbrev pub fits_int : ℤ → Bool
fits_int (pos n) = ltb n (2 ^ 63)
fits_int (negsuc n) = ltb n (2 ^ 63)

abbrev pub is_nat : ℤ → ℕ → Bool
is_nat (pos n) k = n == k
is_nat (negsuc n) k = false
