-- ===== src/Bloom/Tests.antt =====
-- The theorems on the filters at small filters.
use hft_radial_cache.Common.{◌≡◌, refl, true, [], ◌∷◌, arith, replicate}
use hft_radial_cache.Common.Bytes.{Bytes}
use hft_radial_cache.Common.Run.{ok, ◌>>=◌, Returns}
use hft_radial_cache.Bloom.{BloomFilter, new, add}
use hft_radial_cache.Bloom.Member.{
  IsValid, new-IsValid, Added, add_correct, add_all, AllFound, no_false_negatives,
}
use hft_radial_cache.Bloom.Reset.{get_or-replicate}
use hft_radial_cache.Bloom.Counting
use hft_radial_cache.Bloom.Counting.{CountingBloomFilter}
use hft_radial_cache.Bloom.Counting.Undo.{remove-add}
use hft_radial_cache.Bloom.Counting.Present.{might_contain-add}

abbrev filter : BloomFilter
filter = new 128 3

filter-IsValid : IsValid filter
filter-IsValid = new-IsValid 128 3 (omega arith)

abbrev symbol : Bytes
symbol = 65 ∷ 66 ∷ []

add_correct_example : Returns (Added filter symbol) (add filter symbol)
add_correct_example = add_correct filter symbol filter-IsValid

no_false_negatives_example :
    Returns (λ r. AllFound r (symbol ∷ [] ∷ [])) (add_all filter (symbol ∷ [] ∷ []))
no_false_negatives_example = no_false_negatives filter (symbol ∷ [] ∷ []) filter-IsValid

abbrev counting : CountingBloomFilter
counting = record {
  counter_array = replicate 8 0;
  hash_function_count = 2;
  counter_array_size = 8;
  added_elements = 0;
}

remove-add_example :
    (Counting.add counting symbol >>= λ r. Counting.remove r symbol) ≡ ok (counting, true)
remove-add_example =
    remove-add counting symbol (omega arith) refl (λ j. omega (arith, get_or-replicate 8 j 0))
      (omega arith)

might_contain-add_example :
    Returns (λ r. Counting.might_contain r symbol ≡ ok true) (Counting.add counting symbol)
might_contain-add_example = might_contain-add counting symbol (omega arith) refl
