-- ===== src/Bloom/Reset.antt =====
-- src/bloom_filter.cpp: clear and resize on BloomFilter.
use hft_radial_cache.Common.{
  ℕ, zero, suc, ◌/◌, ◌%◌, ◌<◌, ◌≡◌, refl, ◌∙◌, ap, false, arith, length, get_or, replicate,
  length-replicate,
}
use hft_radial_cache.Common.Bits.{digit-zero}
use hft_radial_cache.Common.Bytes.{Bytes}
use hft_radial_cache.Common.Run.{ok}
use hft_radial_cache.Bloom.{BloomFilter, words_for, probe, might_contain, clear, resize}
use hft_radial_cache.Bloom.Member.{IsValid, is_set, all_set, might_contain-all_set}

pub get_or-replicate : (n i d : ℕ) → get_or (replicate n d) i d ≡ d
get_or-replicate zero i d = refl
get_or-replicate (suc n) zero d = refl
get_or-replicate (suc n) (suc i) d = get_or-replicate n i d

all_set-replicate :
    (size rounds n : ℕ) (key : Bytes) (i : ℕ)
    → all_set size (suc rounds) key i (replicate n 0) ≡ false
unfolding all_set is_set
all_set-replicate size rounds n key i =
    let index = probe key i % size in
    ground (arith, get_or-replicate n (index / 64) 0, digit-zero (index % 64))

-- After clear a valid filter with at least one hash function contains no key, counts none, and is
-- valid.
pub clear-empty :
    (f : BloomFilter) (key : Bytes)
    → IsValid f
    → 0 < f.hash_function_count
    → (might_contain (clear f) key ≡ ok false) × ((clear f).added_elements ≡ 0) × IsValid (clear f)
unfolding clear
clear-empty f key v pos =
    (might_contain-all_set _ key valid ∙ ap ok (none_set f.hash_function_count pos), refl, valid)
  where
    valid : IsValid (clear f)
    valid = record {
      words = length-replicate (length f.bit_array) 0 ∙ v.words;
      some_bits = v.some_bits;
    }

    none_set :
        (rounds : ℕ)
        → 0 < rounds
        → all_set f.bit_array_size rounds key 0 (replicate (length f.bit_array) 0) ≡ false
    none_set zero p = absurd (omega arith)
    none_set (suc rounds) p = all_set-replicate f.bit_array_size rounds (length f.bit_array) key 0

-- After resize to at least one bit and one hash function no key is found, whatever was added before,
-- and the count of added elements stays as it was.
pub resize-empty :
    (f : BloomFilter) (new_size new_hash_count : ℕ) (key : Bytes)
    → 0 < new_size
    → 0 < new_hash_count
    → (might_contain (resize f new_size new_hash_count) key ≡ ok false)
      × ((resize f new_size new_hash_count).added_elements ≡ f.added_elements)
unfolding resize
resize-empty f new_size new_hash_count key pos hashes =
    (might_contain-all_set _ key valid ∙ ap ok (none_set new_hash_count hashes), refl)
  where
    valid : IsValid (resize f new_size new_hash_count)
    valid = record { words = length-replicate (words_for new_size) 0; some_bits = pos }

    none_set :
        (rounds : ℕ)
        → 0 < rounds
        → all_set new_size rounds key 0 (replicate (words_for new_size) 0) ≡ false
    none_set zero p = absurd (omega arith)
    none_set (suc rounds) p = all_set-replicate new_size rounds (words_for new_size) key 0
