-- ===== src/Common/Bits.antt =====
-- The binary digits of `|` and `&`.
use Prim.Native.Nat.{
  ℕ, zero, suc, ◌+◌, ◌*◌, ◌/◌, ◌%◌, ◌^◌, ◌≤◌, min, max, digits, bit_and, bit_or, bit_and-bitwise,
  bit_or-bitwise,
}
use mathlib.Core.Path.{◌≡◌, refl, ap}
use native.Mathlib.Nat.{pow-suc}
use native.Mathlib.Omega.{arith}
use hft_radial_cache.Common.Tests.{◌==◌, if◌then◌else◌}

-- The digit of the given weight.
pub digit : ℕ → ℕ → ℕ
digit zero w = w % 2
digit (suc i) w = digit i (w / 2)

-- More digits to go than there are change nothing.
module _ (past : ℕ → ℕ) (join : ℕ → ℕ → ℕ) where
  spare :
      (more least w v : ℕ)
      → w ≤ least
      → least ≤ more
      → digits past join more w v ≡ digits past join least w v
  spare zero zero w v fits le = refl
  spare zero (suc least) w v fits le = absurd (omega arith)
  spare (suc more) zero zero v fits le = refl
  spare (suc more) zero (suc w) v fits le = absurd (omega arith)
  spare (suc more) (suc least) zero v fits le = refl
  spare (suc more) (suc least) (suc w) v fits le =
      ap (λ n. n * 2 + join (suc w % 2) (v % 2))
        (spare more least (suc w / 2) (v / 2) (omega arith) (omega arith))

  halved :
      (w v : ℕ)
      → digits past join (suc w) (suc w) v
        ≡ digits past join (suc w / 2) (suc w / 2) (v / 2) * 2 + join (suc w % 2) (v % 2)
  halved w v =
      ap (λ n. n * 2 + join (suc w % 2) (v % 2))
        (spare w (suc w / 2) (suc w / 2) (v / 2) (omega arith) (omega arith))

pub or_halved : (w v : ℕ) → bit_or w v ≡ bit_or (w / 2) (v / 2) * 2 + max (w % 2) (v % 2)
or_halved zero v = simp bit_or-bitwise (omega arith)
or_halved (suc w) v = simp bit_or-bitwise (halved (λ v. v) max w v)

pub and_halved : (w v : ℕ) → bit_and w v ≡ bit_and (w / 2) (v / 2) * 2 + min (w % 2) (v % 2)
and_halved zero v = simp bit_and-bitwise (omega arith)
and_halved (suc w) v = simp bit_and-bitwise (halved (λ v. 0) min w v)

pub digit_bound : (i w : ℕ) → digit i w ≤ 1
unfolding digit
digit_bound zero w = omega arith
digit_bound (suc i) w = digit_bound i (w / 2)

pub digit-bit_or : (i w v : ℕ) → digit i (bit_or w v) ≡ max (digit i w) (digit i v)
unfolding digit
digit-bit_or zero w v = ground (arith, or_halved w v)
digit-bit_or (suc i) w v =
    let half : bit_or w v / 2 ≡ bit_or (w / 2) (v / 2) = ground (arith, or_halved w v) in
    rw half (digit-bit_or i (w / 2) (v / 2))

pub digit-zero : (i : ℕ) → digit i 0 ≡ 0
unfolding digit
digit-zero zero = refl
digit-zero (suc i) = digit-zero i

double_half : (n : ℕ) → 2 * n / 2 ≡ n
double_half n = omega arith

-- A mask of one bit has that digit alone.
pub digit-mask : (i j : ℕ) → digit i (2 ^ j) ≡ (if i == j then 1 else 0)
unfolding digit
digit-mask zero zero = refl
digit-mask zero (suc j) = ground (arith, pow-suc 2 j)
digit-mask (suc i) zero = ground (arith, digit-zero i)
digit-mask (suc i) (suc j) =
    let half : 2 ^ suc j / 2 ≡ 2 ^ j = omega (arith, pow-suc 2 j) in
    rw half (ground (arith, digit-mask i j))

and_none : (n w : ℕ) → digits (λ v. 0) min n w 0 ≡ 0
and_none zero w = refl
and_none (suc n) zero = refl
and_none (suc n) (suc w) = ground (arith, and_none n (suc w / 2))

and-zero : (w : ℕ) → bit_and w 0 ≡ 0
and-zero w = simp bit_and-bitwise (and_none w w)

times_double : (n m : ℕ) → n * (2 * m) ≡ n * m * 2
times_double n m = omega arith

-- `&` with a mask of one bit picks out its digit.
pub and-mask : (j w : ℕ) → bit_and w (2 ^ j) ≡ digit j w * 2 ^ j
unfolding digit
and-mask zero w = ground (arith, and_halved w 1, and-zero (w / 2))
and-mask (suc j) w =
    let half : 2 ^ suc j / 2 ≡ 2 ^ j = omega (arith, pow-suc 2 j) in
    let even : 2 ^ suc j % 2 ≡ 0 = omega (arith, pow-suc 2 j) in
    let top = rw half at (and_halved w (2 ^ suc j)) in
    ground
      (arith, top, and-mask j (w / 2), even, pow-suc 2 j, times_double (digit j (w / 2)) (2 ^ j))
