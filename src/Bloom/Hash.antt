-- ===== src/Bloom/Hash.antt =====
-- src/bloom_filter.cpp: MurmurHash3 as the two filters copy it, on a little-endian machine.
use Prim.Native.Nat.{bit_xor}
use hft_radial_cache.Common.{
  ℕ, zero, suc, ◌+◌, ◌*◌, ◌/◌, [], ◌∷◌, ltb, if◌then◌else◌, length, take, drop,
}
use hft_radial_cache.Common.Bytes.{Bytes}
use hft_radial_cache.Common.Words.{add64, mul64, shl64, shr64, rotl64}

abbrev pub c1 : ℕ
c1 = 0x87c37b91114253d5

abbrev pub c2 : ℕ
c2 = 0x4cf5ad432745937f

-- The 64-bit word that the bytes hold, the first byte lowest.
unfoldable pub word_of : Bytes → ℕ
word_of [] = 0
word_of (b ∷ bytes) = b + 256 * word_of bytes

abbrev pub mix_k1 : ℕ → ℕ
mix_k1 k1 = mul64 (rotl64 (mul64 k1 c1) 31) c2

abbrev pub mix_k2 : ℕ → ℕ
mix_k2 k2 = mul64 (rotl64 (mul64 k2 c2) 33) c1

-- The loop over the blocks of 16 bytes, from the start of `key` on.
unfoldable pub body : ℕ → Bytes → ℕ → ℕ → ℕ × ℕ
unfolding word_of
body zero key h1 h2 = (h1, h2)
body (suc nblocks) key h1 h2 =
    let k1 = word_of (take 8 key) in
    let k2 = word_of (take 8 (drop 8 key)) in
    let a = add64 (mul64 (add64 (rotl64 (bit_xor h1 (mix_k1 k1)) 27) h2) 5) 0x52dce729 in
    let b = add64 (mul64 (add64 (rotl64 (bit_xor h2 (mix_k2 k2)) 31) a) 5) 0x38495ab5 in
    body nblocks (drop 16 key) a b

-- The cases of the switch, from the last byte down to the one at `shift`.
unfoldable pub gather : ℕ → Bytes → ℕ
gather shift [] = 0
gather shift (b ∷ bytes) = bit_xor (gather (shift + 8) bytes) (shl64 b shift)

-- The switch over the bytes behind the blocks.
unfoldable pub tail : Bytes → ℕ × ℕ → ℕ × ℕ
unfolding gather
tail bytes (h1, h2) = (
  if ltb 0 (length bytes) then bit_xor h1 (mix_k1 (gather 0 (take 8 bytes))) else h1,
  if ltb 8 (length bytes) then bit_xor h2 (mix_k2 (gather 0 (drop 8 bytes))) else h2,
)

unfoldable pub fmix64 : ℕ → ℕ
fmix64 k =
    let a = mul64 (bit_xor k (shr64 k 33)) 0xff51afd7ed558ccd in
    let b = mul64 (bit_xor a (shr64 a 33)) 0xc4ceb9fe1a85ec53 in bit_xor b (shr64 b 33)

unfoldable pub finalize : ℕ → ℕ × ℕ → ℕ
unfolding fmix64
finalize size (h1, h2) =
    let a = add64 (bit_xor h1 size) (bit_xor h2 size) in
    let b = add64 (bit_xor h2 size) a in add64 (fmix64 a) (fmix64 b)

pub murmur_hash3_64 : Bytes → ℕ → ℕ
unfolding body tail finalize
murmur_hash3_64 key seed =
    let nblocks = length key / 16 in
    finalize (length key) (tail (drop (16 * nblocks) key) (body nblocks key seed seed))

pub hash1 : Bytes → ℕ
hash1 key = murmur_hash3_64 key 0x1234567890ABCDEF

pub hash2 : Bytes → ℕ
hash2 key = murmur_hash3_64 key 0xFEDCBA0987654321

pub hash3 : Bytes → ℕ
hash3 key = murmur_hash3_64 key 0xDEADBEEFCAFEBABE

pub hash4 : Bytes → ℕ
hash4 key = murmur_hash3_64 key 0xBABECAFEDEADBEEF
