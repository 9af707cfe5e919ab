-- ===== src/Bloom.antt =====
-- include/bloom_filter.hpp and src/bloom_filter.cpp: BloomFilter. The two sizes that the
-- constructor and resize compute with doubles are arguments. Calls run one at a time, so that the
-- compare-and-swap of set_bit succeeds.
pub mod Counting
pub mod Hash
pub mod Member
pub mod Reset
mod Tests
use Prim.Native.Nat.{bit_and, bit_or}
use hft_radial_cache.Common.{
  ℕ, zero, suc, ◌+◌, ◌*◌, ◌/◌, ◌%◌, ◌^◌, Bool, true, false, not, List, ltb, ◌==◌, if◌then◌else◌,
  length, get_or, set, replicate,
}
use hft_radial_cache.Common.Bytes.{Bytes}
use hft_radial_cache.Common.Run.{Run, ok, fault, ◌>>=◌}
use hft_radial_cache.Common.Words.{add64, mul64}
use hft_radial_cache.Bloom.Hash.{hash1, hash2}

pub record BloomFilter : Type 0 where
  pub bit_array : List ℕ
  pub hash_function_count : ℕ
  pub bit_array_size : ℕ
  pub added_elements : ℕ

abbrev pub words_for : ℕ → ℕ
words_for size = (size + 63) / 64

unfoldable pub new : ℕ → ℕ → BloomFilter
new size hash_count = record {
  bit_array = replicate (words_for size) 0;
  hash_function_count = hash_count;
  bit_array_size = size;
  added_elements = 0;
}

-- `h1 + i * h2`
unfoldable pub probe : Bytes → ℕ → ℕ
probe key i = add64 (hash1 key) (mul64 i (hash2 key))

-- `hash % size`: a remainder by zero is undefined behaviour.
unfoldable pub place : ℕ → Bytes → ℕ → Run ℕ
unfolding probe
place size key i = if size == 0 then fault else ok (probe key i % size)

-- An index out of range is undefined behaviour.
unfoldable pub set_bit : List ℕ → ℕ → Run (List ℕ)
set_bit bits index =
    let word_index = index / 64 in
    let mask = 2 ^ (index % 64) in
    if ltb word_index (length bits)
    then ok (set bits word_index (bit_or (get_or bits word_index 0) mask))
    else fault

unfoldable pub get_bit : List ℕ → ℕ → Run Bool
get_bit bits index =
    let word_index = index / 64 in
    let mask = 2 ^ (index % 64) in
    if ltb word_index (length bits)
    then ok (not (bit_and (get_or bits word_index 0) mask == 0))
    else fault

-- The loop of `add`: `rounds` more rounds, from the i-th on.
unfoldable pub add_loop : ℕ → ℕ → Bytes → ℕ → List ℕ → Run (List ℕ)
unfolding place set_bit
add_loop size zero key i bits = ok bits
add_loop size (suc rounds) key i bits = do
  index ← place size key i
  b ← set_bit bits index
  add_loop size rounds key (i + 1) b

unfoldable pub add : BloomFilter → Bytes → Run BloomFilter
unfolding add_loop
add f key = do
  bits ← add_loop f.bit_array_size f.hash_function_count key 0 f.bit_array
  ok (record f { bit_array = bits; added_elements = add64 f.added_elements 1 })

unfoldable pub test_loop : ℕ → ℕ → Bytes → ℕ → List ℕ → Run Bool
unfolding place get_bit
test_loop size zero key i bits = ok true
test_loop size (suc rounds) key i bits =
    let rest = test_loop size rounds key (i + 1) bits in
    do index ← place size key i; bit ← get_bit bits index; if bit then rest else ok false

unfoldable pub might_contain : BloomFilter → Bytes → Run Bool
unfolding test_loop
might_contain f key = test_loop f.bit_array_size f.hash_function_count key 0 f.bit_array

unfoldable pub clear : BloomFilter → BloomFilter
clear f = record f { bit_array = replicate (length f.bit_array) 0; added_elements = 0 }

-- The bits are not carried over, and the count of elements stays.
unfoldable pub resize : BloomFilter → ℕ → ℕ → BloomFilter
resize f new_size new_hash_count = record {
  bit_array = replicate (words_for new_size) 0;
  hash_function_count = new_hash_count;
  bit_array_size = new_size;
  added_elements = f.added_elements;
}
