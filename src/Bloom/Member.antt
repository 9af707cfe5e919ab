-- ===== src/Bloom/Member.antt =====
-- src/bloom_filter.cpp: add, might_contain, clear and resize on the bits of a filter.
use native.Mathlib.Nat.{one-le-pow}
use Prim.Native.Nat.{bit_and, bit_or}
use hft_radial_cache.Common.{
  ℕ, zero, suc, ◌+◌, ◌*◌, ◌/◌, ◌%◌, ◌^◌, ◌≤◌, ◌<◌, ◌≡◌, refl, ◌∙◌, ap, Bool, true, false, not, ◌&&◌,
  List, [], ◌∷◌, arith, ltb, ◌==◌, if◌then◌else◌, length, get_or, set, get_or-set, length-set,
  length-replicate,
}
use hft_radial_cache.Common.Bits.{digit, digit_bound, digit-bit_or, digit-mask, and-mask}
use hft_radial_cache.Common.Bytes.{Bytes}
use hft_radial_cache.Common.Run.{Run, ok, ◌>>=◌, Returns, returns, Returns-bind, Returns-map}
use hft_radial_cache.Common.Words.{add64}
use hft_radial_cache.Bloom.{
  BloomFilter, words_for, new, probe, place, set_bit, get_bit, add_loop, add, test_loop,
  might_contain,
}

unfoldable pub is_set : List ℕ → ℕ → Bool
is_set bits index = digit (index % 64) (get_or bits (index / 64) 0) == 1

picked : (d m : ℕ) → d ≤ 1 → 1 ≤ m → not (d * m == 0) ≡ (d == 1)
picked zero m le pos = ground arith
picked (suc zero) m le pos = ground arith
picked (suc (suc d)) m le pos = absurd (omega arith)

pub get_bit-is_set :
    (bits : List ℕ) (index : ℕ)
    → index / 64 < length bits
    → get_bit bits index ≡ ok (is_set bits index)
unfolding get_bit is_set
get_bit-is_set bits index inside =
    let w = get_or bits (index / 64) 0 in
    let j = index % 64 in
    let answer : not (bit_and w (2 ^ j) == 0) ≡ (digit j w == 1) =
      rw (and-mask j w)
        (picked (digit j w) (2 ^ j) (digit_bound j w) (one-le-pow j 2 (omega arith))) in
    ground (arith, answer)

-- `b` has the bit at `index`, and every bit that `bits` has.
pub record BitSet (bits : List ℕ) (index : ℕ) (b : List ℕ) : Type 0 where
  pub size : length b ≡ length bits
  pub here : is_set b index ≡ true
  pub kept : (j : ℕ) → is_set bits j ≡ true → is_set b j ≡ true

module _ (bits : List ℕ) (index : ℕ) (inside : index / 64 < length bits) where
  abbrev word_before : ℕ
  word_before = get_or bits (index / 64) 0

  abbrev after : List ℕ
  after = set bits (index / 64) (bit_or word_before (2 ^ (index % 64)))

  word_after :
      (n : ℕ)
      → get_or after n 0
        ≡ (if index / 64 == n then bit_or word_before (2 ^ (index % 64)) else get_or bits n 0)
  word_after n = get_or-set 0 bits (index / 64) n (bit_or word_before (2 ^ (index % 64))) inside

  after-BitSet : BitSet bits index after
  unfolding is_set
  after-BitSet = record {
    size = length-set bits (index / 64) _;
    here = ground (
      arith,
      word_after (index / 64),
      digit-bit_or (index % 64) word_before (2 ^ (index % 64)),
      digit-mask (index % 64) (index % 64),
      digit_bound (index % 64) word_before,
    );
    kept = λ j h. ground (
      arith,
      word_after (j / 64),
      digit-bit_or (j % 64) word_before (2 ^ (index % 64)),
      digit-mask (j % 64) (index % 64),
      digit_bound (j % 64) word_before,
    );
  }

  set_bit-BitSet : Returns (BitSet bits index) (set_bit bits index)
  unfolding set_bit
  set_bit-BitSet =
      let test : ltb (index / 64) (length bits) ≡ true = ground arith in
      rw test (returns after-BitSet)

-- All the bits that the rounds of a loop look at.
unfoldable pub all_set : ℕ → ℕ → Bytes → ℕ → List ℕ → Bool
all_set size zero key i bits = true
all_set size (suc rounds) key i bits =
    is_set bits (probe key i % size) && all_set size rounds key (i + 1) bits

place-ok : (size : ℕ) (key : Bytes) (i : ℕ) → 0 < size → place size key i ≡ ok (probe key i % size)
unfolding place
place-ok size key i pos = ground arith

index_inside :
    (size n : ℕ) (bits : List ℕ)
    → 0 < size
    → words_for size ≤ length bits
    → n % size / 64 < length bits
index_inside size n bits pos fits = omega (arith, mod_below n size pos)
  where
    mod_below : (n d : ℕ) → 0 < d → n % d < d
    mod_below n zero pos = absurd (omega arith)
    mod_below n (suc d) pos = omega arith

all_set_mono :
    (size rounds : ℕ) (key : Bytes) (i : ℕ) (bits b : List ℕ)
    → ((j : ℕ) → is_set bits j ≡ true → is_set b j ≡ true)
    → all_set size rounds key i bits ≡ true
    → all_set size rounds key i b ≡ true
unfolding all_set
all_set_mono size zero key i bits b kept h = refl
all_set_mono size (suc rounds) key i bits b kept h =
    let rest = all_set_mono size rounds key (i + 1) bits b kept in
    ground (arith, kept (probe key i % size), rest)

-- might_contain's loop answers whether all these bits are set.
test_loop-all_set :
    (size rounds : ℕ) (key : Bytes) (i : ℕ) (bits : List ℕ)
    → 0 < size
    → words_for size ≤ length bits
    → test_loop size rounds key i bits ≡ ok (all_set size rounds key i bits)
unfolding test_loop all_set
test_loop-all_set size zero key i bits pos fits = refl
test_loop-all_set size (suc rounds) key i bits pos fits =
    rw
      (
        place-ok size key i pos,
        get_bit-is_set bits (probe key i % size) (index_inside size (probe key i) bits pos fits),
        test_loop-all_set size rounds key (i + 1) bits pos fits,
      )
      (both (is_set bits (probe key i % size)) _)
  where
    both : (a b : Bool) → (if a then ok b else ok false) ≡ ok (a && b)
    both true b = refl
    both false b = refl

-- The bits after add's loop.
record Filled (size rounds : ℕ) (key : Bytes) (i : ℕ) (bits b : List ℕ) : Type 0 where
  same_size : length b ≡ length bits
  whole : all_set size rounds key i b ≡ true
  kept : (j : ℕ) → is_set bits j ≡ true → is_set b j ≡ true

add_loop-Filled :
    (size rounds : ℕ) (key : Bytes) (i : ℕ) (bits : List ℕ)
    → 0 < size
    → words_for size ≤ length bits
    → Returns (Filled size rounds key i bits) (add_loop size rounds key i bits)
unfolding add_loop all_set
add_loop-Filled size zero key i bits pos fits =
    returns (record { same_size = refl; whole = refl; kept = λ j h. h })
add_loop-Filled size (suc rounds) key i bits pos fits = rw (place-ok size key i pos) (
    Returns-bind
      (set_bit-BitSet bits (probe key i % size) (index_inside size (probe key i) bits pos fits))
      λ b s.
        Returns-map (add_loop-Filled size rounds key (i + 1) b pos (omega (arith, s.size))) λ d t.
          record {
            same_size = t.same_size ∙ s.size;
            whole = rw (t.kept (probe key i % size) s.here, t.whole) refl;
            kept = λ j h. t.kept j (s.kept j h);
          })

pub record IsValid (f : BloomFilter) : Type 0 where
  pub words : length f.bit_array ≡ words_for f.bit_array_size
  pub some_bits : 0 < f.bit_array_size

pub new-IsValid : (size hash_count : ℕ) → 0 < size → IsValid (new size hash_count)
unfolding new
new-IsValid size hash_count pos = record {
  words = length-replicate (words_for size) 0;
  some_bits = pos;
}

filled-IsValid :
    (f : BloomFilter)
    → IsValid f
    → (b : List ℕ) → length b ≡ words_for f.bit_array_size
    → IsValid (record f { bit_array = b; added_elements = add64 f.added_elements 1 })
filled-IsValid f v b e = record { words = e; some_bits = v.some_bits }

pub might_contain-all_set :
    (f : BloomFilter) (key : Bytes)
    → IsValid f
    → might_contain f key ≡ ok (all_set f.bit_array_size f.hash_function_count key 0 f.bit_array)
unfolding might_contain
might_contain-all_set f key v =
    test_loop-all_set f.bit_array_size f.hash_function_count key 0 f.bit_array v.some_bits
      (omega (arith, v.words))

ok_inj : (a b : Bool) → ok a ≡ ok b → a ≡ b
ok_inj a b e = cc

-- `r` is the filter after `key` is added to `f`.
pub record Added (f : BloomFilter) (key : Bytes) (r : BloomFilter) : Type 0 where
  pub valid : IsValid r
  pub found : might_contain r key ≡ ok true
  pub kept : (other : Bytes) → might_contain f other ≡ ok true → might_contain r other ≡ ok true
  pub sizes :
      (r.bit_array_size ≡ f.bit_array_size) × (r.hash_function_count ≡ f.hash_function_count)

-- On a valid filter add returns a valid filter of the same sizes; might_contain then finds the key,
-- and every key it found before.
pub add_correct : (f : BloomFilter) (key : Bytes) → IsValid f → Returns (Added f key) (add f key)
unfolding add
add_correct f key v =
    Returns-bind
      (add_loop-Filled f.bit_array_size f.hash_function_count key 0 f.bit_array v.some_bits
        (omega (arith, v.words)))
      λ b t.
        let valid = filled-IsValid f v b (t.same_size ∙ v.words) in
        returns (record {
          valid = valid;
          found = might_contain-all_set _ key valid ∙ ap ok t.whole;
          kept = λ other h.
              might_contain-all_set _ other valid
              ∙ ap ok (
                  all_set_mono f.bit_array_size f.hash_function_count other 0 f.bit_array b t.kept
                    (ok_inj _ _ (rw (might_contain-all_set f other v) at h)));
          sizes = (refl, refl);
        })

pub add_all : BloomFilter → List Bytes → Run BloomFilter
add_all f [] = ok f
add_all f (key ∷ keys) = add f key >>= λ r. add_all r keys

abbrev pub AllFound : BloomFilter → List Bytes → Type 0
AllFound f [] = Unit
AllFound f (key ∷ keys) = (might_contain f key ≡ ok true) × AllFound f keys

record AllAdded (f : BloomFilter) (keys : List Bytes) (r : BloomFilter) : Type 0 where
  found : AllFound r keys
  kept : (other : Bytes) → might_contain f other ≡ ok true → might_contain r other ≡ ok true

add_all-AllAdded :
    (f : BloomFilter) (keys : List Bytes) → IsValid f → Returns (AllAdded f keys) (add_all f keys)
unfolding add_all
add_all-AllAdded f [] v = returns (record { found = tt; kept = λ other h. h })
add_all-AllAdded f (key ∷ keys) v = Returns-bind (add_correct f key v) λ r a.
    Returns-map (add_all-AllAdded r keys a.valid) λ d t. record {
      found = (t.kept key a.found, t.found);
      kept = λ other h. t.kept other (a.kept other h);
    }

-- No false negatives: after any sequence of keys is added to a valid filter, might_contain
-- answers true for each of them.
pub no_false_negatives :
    (f : BloomFilter) (keys : List Bytes)
    → IsValid f
    → Returns (λ r. AllFound r keys) (add_all f keys)
no_false_negatives f keys v = Returns-map (add_all-AllAdded f keys v) λ r a. a.found
