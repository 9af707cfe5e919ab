-- ===== src/Bloom/Counting.antt =====
-- include/bloom_filter.hpp and src/bloom_filter.cpp: CountingBloomFilter, with 8-bit counters. Its
-- copy of MurmurHash3 is the one of BloomFilter. Calls run one at a time.
pub mod Undo
pub mod Present
use hft_radial_cache.Common.{
  ℕ, zero, suc, ◌+◌, ◌-◌, ◌%◌, Bool, true, false, Option, none, some, List, [], ◌∷◌, ltb, ◌==◌, leb,
  if◌then◌else◌, length, get_elem?, set, replicate,
}
use hft_radial_cache.Common.Bytes.{Bytes}
use hft_radial_cache.Common.Run.{Run, ok, fault, ◌>>=◌}
use hft_radial_cache.Common.Words.{add64, sub64}
use hft_radial_cache.Bloom.{place}

pub record CountingBloomFilter : Type 0 where
  pub counter_array : List ℕ
  pub hash_function_count : ℕ
  pub counter_array_size : ℕ
  pub added_elements : ℕ

unfoldable pub new : ℕ → ℕ → CountingBloomFilter
new size hash_count = record {
  counter_array = replicate size 0;
  hash_function_count = hash_count;
  counter_array_size = size;
  added_elements = 0;
}

unfoldable pub increment_counter : List ℕ → ℕ → Run (List ℕ)
increment_counter counters index = elim (get_elem? counters index) [
  | none ↦ fault
  | some old_value ↦ ok (set counters index (if ltb old_value 255 then old_value + 1 else 255))
]

-- The answer is false, and nothing is stored, at a counter of zero.
unfoldable pub decrement_counter : List ℕ → ℕ → Run (List ℕ × Bool)
decrement_counter counters index = elim (get_elem? counters index) [
  | none ↦ fault
  | some old_value ↦
      if old_value == 0 then ok (counters, false) else ok (set counters index (old_value - 1), true)
]

unfoldable pub get_counter : List ℕ → ℕ → Run ℕ
get_counter counters index = elim (get_elem? counters index) [ none ↦ fault | some n ↦ ok n ]

unfoldable pub add_loop : ℕ → ℕ → Bytes → ℕ → List ℕ → Run (List ℕ)
unfolding increment_counter
add_loop size zero key i counters = ok counters
add_loop size (suc rounds) key i counters = do
  index ← place size key i
  b ← increment_counter counters index
  add_loop size rounds key (i + 1) b

unfoldable pub add : CountingBloomFilter → Bytes → Run CountingBloomFilter
unfolding add_loop
add f key = do
  counters ← add_loop f.counter_array_size f.hash_function_count key 0 f.counter_array
  ok (record f { counter_array = counters; added_elements = add64 f.added_elements 1 })

unfoldable pub test_loop : ℕ → ℕ → Bytes → ℕ → List ℕ → Run Bool
unfolding get_counter
test_loop size zero key i counters = ok true
test_loop size (suc rounds) key i counters =
    let rest = test_loop size rounds key (i + 1) counters in
    do index ← place size key i; n ← get_counter counters index; if n == 0 then ok false else rest

unfoldable pub might_contain : CountingBloomFilter → Bytes → Run Bool
unfolding test_loop
might_contain f key = test_loop f.counter_array_size f.hash_function_count key 0 f.counter_array

-- The loop of `remove`: a counter of zero ends it, after the earlier counters were decremented.
unfoldable pub remove_loop : ℕ → ℕ → Bytes → ℕ → List ℕ → Run (List ℕ × Bool)
unfolding decrement_counter
remove_loop size zero key i counters = ok (counters, true)
remove_loop size (suc rounds) key i counters = do
  index ← place size key i
  r ← decrement_counter counters index
  let rest = remove_loop size rounds key (i + 1) r.0
  if r.1 then rest else ok (r.0, false)

unfoldable pub remove : CountingBloomFilter → Bytes → Run (CountingBloomFilter × Bool)
unfolding remove_loop
remove f key = do
  r ← remove_loop f.counter_array_size f.hash_function_count key 0 f.counter_array
  let count = if r.1 then sub64 f.added_elements 1 else f.added_elements
  ok (record f { counter_array = r.0; added_elements = count }, r.1)

unfoldable pub clear : CountingBloomFilter → CountingBloomFilter
clear f = record f { counter_array = replicate (length f.counter_array) 0; added_elements = 0 }

-- The loop of `get_max_counter_value`, from the largest value so far on.
unfoldable pub max_from : ℕ → List ℕ → ℕ
max_from max_value [] = max_value
max_from max_value (value ∷ counters) =
    let rest = max_from value counters in
    let same = max_from max_value counters in if ltb max_value value then rest else same

unfoldable pub get_max_counter_value : CountingBloomFilter → ℕ
unfolding max_from
get_max_counter_value f = max_from 0 f.counter_array

-- `saturated_counters` of get_saturation_rate.
unfoldable pub saturated : List ℕ → ℕ
saturated [] = 0
saturated (value ∷ counters) =
    let rest = saturated counters in if leb 255 value then suc rest else rest
