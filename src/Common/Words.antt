-- ===== src/Common/Words.antt =====
-- Arithmetic of `uint64_t` and `size_t`, modulo 2^64, on numbers below 2^64.
use Prim.Native.Nat.{ℕ, ◌+◌, ◌-◌, ◌*◌, ◌/◌, ◌%◌, ◌^◌, bit_or}

abbrev pub word : ℕ
word = 2 ^ 64

abbrev pub add64 : ℕ → ℕ → ℕ
add64 a b = (a + b) % word

abbrev pub sub64 : ℕ → ℕ → ℕ
sub64 a b = (a + word - b) % word

abbrev pub mul64 : ℕ → ℕ → ℕ
mul64 a b = a * b % word

abbrev pub shl64 : ℕ → ℕ → ℕ
shl64 a k = a * 2 ^ k % word

abbrev pub shr64 : ℕ → ℕ → ℕ
shr64 a k = a / 2 ^ k

-- `(a << k) | (a >> (64 - k))`
abbrev pub rotl64 : ℕ → ℕ → ℕ
rotl64 a k = bit_or (shl64 a k) (shr64 a (64 - k))
