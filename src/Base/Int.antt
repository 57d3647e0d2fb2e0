-- ===== src/Base/Int.antt =====
-- Signed integers over the native numbers.
use Prim.Native.Nat.{ℕ, zero, suc, ◌-◌, ◌*◌, ◌/◌, ◌%◌, ◌^◌}
use mathlib.Core.Bool.{Bool, true, false}
use potato_etl.Base.Tests.{leb, ltb, if◌then◌else◌}

-- `negsuc n` is -(n + 1).
pub data ℤ : Type 0 where
  pos : ℕ → ℤ
  negsuc : ℕ → ℤ

-- `n as i32`
unfoldable pub as_i32 : ℕ → ℤ
as_i32 n = let m = n % 2 ^ 32 in if leb (2 ^ 31) m then negsuc (2 ^ 32 - 1 - m) else pos m

-- The `i64` that wraps around to the integer.
unfoldable pub wrap_i64 : ℤ → ℤ
wrap_i64 (pos n) = let r = n % 2 ^ 64 in if ltb r (2 ^ 63) then pos r else negsuc (2 ^ 64 - 1 - r)
wrap_i64 (negsuc n) =
    let r = n % 2 ^ 64 in if ltb r (2 ^ 63) then negsuc r else pos (2 ^ 64 - 1 - r)

-- The product with a number that is not zero, and the quotient, which rounds towards zero.
unfoldable pub scale : ℕ → ℤ → ℤ
scale k (pos n) = pos (n * k)
scale k (negsuc n) = negsuc (suc n * k - 1)

-- The negation of a number.
abbrev pub minus : ℕ → ℤ
minus zero = pos 0
minus (suc m) = negsuc m

unfoldable pub quotient : ℕ → ℤ → ℤ
quotient k (pos n) = pos (n / k)
quotient k (negsuc n) = minus (suc n / k)

-- The order of integers.
abbrev pub leb_int : ℤ → ℤ → Bool
leb_int (pos m) (pos n) = leb m n
leb_int (pos m) (negsuc n) = false
leb_int (negsuc m) (pos n) = true
leb_int (negsuc m) (negsuc n) = leb n m
