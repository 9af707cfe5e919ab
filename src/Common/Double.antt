-- ===== src/Common/Double.antt =====
-- `double`, as far as the code compares it. The finitely many numbers that a double can stand
-- for, the infinities included, are counted from below: `num r` is the one with `r` others under
-- it, and the two zeros are one. Comparisons with a NaN are false.
use Prim.Native.Nat.{ℕ, ◌+◌}
use mathlib.Core.Bool.{Bool, false}
use hft_radial_cache.Common.Tests.{ltb, leb, ◌==◌}

pub data Double : Type 0 where
  num : ℕ → Double
  nan : Double

-- The double of sign 0 whose other bits are `bits`: 0x7ff0000000000000 numbers are below zero.
abbrev pub positive : ℕ → Double
positive bits = num (0x7ff0000000000000 + bits)

-- 0.0 and 60.0
abbrev pub zero_double : Double
zero_double = positive 0

abbrev pub sixty : Double
sixty = positive 0x404e000000000000

unfoldable pub double_lt : Double → Double → Bool
double_lt (num a) (num b) = ltb a b
double_lt (num a) nan = false
double_lt nan b = false

unfoldable pub double_le : Double → Double → Bool
double_le (num a) (num b) = leb a b
double_le (num a) nan = false
double_le nan b = false

unfoldable pub double_eq : Double → Double → Bool
double_eq (num a) (num b) = a == b
double_eq (num a) nan = false
double_eq nan b = false
