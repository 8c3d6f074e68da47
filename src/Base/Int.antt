-- ===== src/Base/Int.antt =====
-- Signed 64-bit integers: ℤ over the native numbers, and the wrap-around of Go's int64.
use Prim.Native.Nat.{ℕ, suc, ◌+◌, ◌-◌, ◌*◌, ◌%◌, ◌<◌}
use mathlib.Core.Path.{◌≡◌}
use mathlib.Core.Bool.{Bool}
use native.Mathlib.Omega.{arith}
use etask.Base.Tests.{ltb, leb, if◌then◌else◌}

-- `negsuc n` is -(n + 1).
pub data ℤ : Type 0 where
  pos : ℕ → ℤ
  negsuc : ℕ → ℤ

abbrev pub pos_part : ℤ → ℕ
pos_part (pos n) = n
pos_part (negsuc n) = 0

abbrev pub neg_part : ℤ → ℕ
neg_part (pos n) = 0
neg_part (negsuc n) = suc n

-- a - b, as an integer.
abbrev pub sub_ℕ : ℕ → ℕ → ℤ
sub_ℕ a b = if leb b a then pos (a - b) else negsuc (b - a - 1)

infixl 65 ◌+ℤ◌
unfoldable pub ◌+ℤ◌ : ℤ → ℤ → ℤ
a +ℤ b = sub_ℕ (pos_part a + pos_part b) (neg_part a + neg_part b)

abbrev pub ltb_ℤ : ℤ → ℤ → Bool
ltb_ℤ a b = ltb (pos_part a + neg_part b) (pos_part b + neg_part a)

abbrev pub leb_ℤ : ℤ → ℤ → Bool
leb_ℤ a b = leb (pos_part a + neg_part b) (pos_part b + neg_part a)

abbrev pub two_62 : ℕ
two_62 = 4611686018427387904

abbrev pub two_63 : ℕ
two_63 = 9223372036854775808

abbrev pub two_64 : ℕ
two_64 = 18446744073709551616

-- The integer that a 64-bit pattern stands for.
abbrev pub of_bits : ℕ → ℤ
of_bits n = if ltb n two_63 then pos n else negsuc (two_64 - n - 1)

-- The 64-bit pattern of an integer.
abbrev pub bits : ℤ → ℕ
bits (pos n) = n % two_64
bits (negsuc n) = two_64 - 1 - n % two_64

-- What an int64 holds after a result that may not fit.
unfoldable pub wrap_64 : ℤ → ℤ
wrap_64 a = of_bits (bits a)

pub wrap_64-fits : (n : ℕ) → n < two_63 → wrap_64 (pos n) ≡ pos n
unfolding wrap_64
wrap_64-fits n h = ground arith

infixl 70 ◌*ℤ◌
unfoldable pub ◌*ℤ◌ : ℤ → ℤ → ℤ
a *ℤ b =
    sub_ℕ (pos_part a * pos_part b + neg_part a * neg_part b)
      (pos_part a * neg_part b + neg_part a * pos_part b)

-- The product in int64.
unfoldable pub mul_64 : ℤ → ℤ → ℤ
unfolding wrap_64 ◌*ℤ◌
mul_64 a b = wrap_64 (a *ℤ b)

-- The same in 32 bits.
abbrev pub two_31 : ℕ
two_31 = 2147483648

abbrev pub two_32 : ℕ
two_32 = 4294967296

abbrev of_bits_32 : ℕ → ℤ
of_bits_32 n = if ltb n two_31 then pos n else negsuc (two_32 - n - 1)

abbrev bits_32 : ℤ → ℕ
bits_32 (pos n) = n % two_32
bits_32 (negsuc n) = two_32 - 1 - n % two_32

unfoldable pub wrap_32 : ℤ → ℤ
wrap_32 a = of_bits_32 (bits_32 a)

pub wrap_32-fits : (n : ℕ) → n < two_31 → wrap_32 (pos n) ≡ pos n
unfolding wrap_32
wrap_32-fits n h = ground arith

pub mul_64-fits : (a b : ℕ) → a * b < two_63 → mul_64 (pos a) (pos b) ≡ pos (a * b)
unfolding mul_64
mul_64-fits a b h = ground (arith, wrap_64-fits (a * b))

-- a - b
unfoldable pub sub_ℤ : ℤ → ℤ → ℤ
sub_ℤ a b = sub_ℕ (pos_part a + neg_part b) (neg_part a + pos_part b)
