-- ===== src/Bloom/Counting/Present.antt =====
-- src/bloom_filter.cpp: add and might_contain on CountingBloomFilter, saturated counters included.
use hft_radial_cache.Common.{
  ℕ, zero, suc, ◌+◌, ◌%◌, ◌<◌, ◌≡◌, refl, ◌∙◌, true, false, List, arith, ltb, ◌==◌, if◌then◌else◌,
  length, get_or, length-set, get_or-set,
}
use hft_radial_cache.Common.Bytes.{Bytes}
use hft_radial_cache.Common.Run.{ok, Returns, returns, Returns-bind, Returns-map}
use hft_radial_cache.Bloom.{probe}
use hft_radial_cache.Bloom.Counting.{
  CountingBloomFilter, increment_counter, get_counter, add_loop, add, test_loop, might_contain,
}
use hft_radial_cache.Bloom.Counting.Undo.{read, below, place-ok}

-- `b` counts at least one at the index, and wherever `a` does.
record Raised (a : List ℕ) (index : ℕ) (b : List ℕ) : Type 0 where
  size : length b ≡ length a
  here : 0 < get_or b index 0
  kept : (j : ℕ) → 0 < get_or a j 0 → 0 < get_or b j 0

increment-Raised :
    (a : List ℕ) (k : ℕ) → k < length a → Returns (Raised a k) (increment_counter a k)
unfolding increment_counter
increment-Raised a k inside =
    let n = if ltb (get_or a k 0) 255 then get_or a k 0 + 1 else 255 in
    let n_pos : 0 < n = ground arith in
    rw (read a k inside, increment_counter)
      (returns (record {
        size = length-set a k n;
        here = ground (arith, get_or-set 0 a k k n inside);
        kept = λ j h. ground (arith, get_or-set 0 a k j n inside);
      }))

-- Every counter that the rounds of a loop look at counts at least one.
abbrev AllCounted : ℕ → ℕ → Bytes → ℕ → List ℕ → Type 0
AllCounted size zero key i a = Unit
AllCounted size (suc rounds) key i a =
    (0 < get_or a (probe key i % size) 0) × AllCounted size rounds key (i + 1) a

raised-AllCounted :
    (size rounds : ℕ) (key : Bytes) (i : ℕ) (a b : List ℕ)
    → ((j : ℕ) → 0 < get_or a j 0 → 0 < get_or b j 0)
    → AllCounted size rounds key i a
    → AllCounted size rounds key i b
raised-AllCounted size zero key i a b kept c = tt
raised-AllCounted size (suc rounds) key i a b kept c =
    (kept _ c.0, raised-AllCounted size rounds key (i + 1) a b kept c.1)

record Filled (size rounds : ℕ) (key : Bytes) (i : ℕ) (a b : List ℕ) : Type 0 where
  same_size : length b ≡ length a
  whole : AllCounted size rounds key i b
  kept : (j : ℕ) → 0 < get_or a j 0 → 0 < get_or b j 0

module _ (size : ℕ) (key : Bytes) (pos : 0 < size) where
  add_loop-Filled :
      (rounds i : ℕ) (a : List ℕ)
      → length a ≡ size
      → Returns (Filled size rounds key i a) (add_loop size rounds key i a)
  unfolding add_loop
  add_loop-Filled zero i a e = returns (record { same_size = refl; whole = tt; kept = λ j h. h })
  add_loop-Filled (suc rounds) i a e = rw (place-ok size key i pos) (
      Returns-bind
        (increment-Raised a (probe key i % size) (omega (arith, below (probe key i) size pos)))
        λ b s. Returns-map (add_loop-Filled rounds (i + 1) b (s.size ∙ e)) λ d t. record {
          same_size = t.same_size ∙ s.size;
          whole = (t.kept (probe key i % size) s.here, t.whole);
          kept = λ j h. t.kept j (s.kept j h);
        })

  test_loop-AllCounted :
      (rounds i : ℕ) (a : List ℕ)
      → length a ≡ size
      → AllCounted size rounds key i a
      → test_loop size rounds key i a ≡ ok true
  unfolding test_loop get_counter
  test_loop-AllCounted zero i a e c = refl
  test_loop-AllCounted (suc rounds) i a e c =
      let k = probe key i % size in
      let inside : k < length a = omega (arith, below (probe key i) size pos) in
      let test : (get_or a k 0 == 0) ≡ false = ground (arith, c.0) in
      rw (place-ok size key i pos, read a k inside, get_counter, test)
        (test_loop-AllCounted rounds (i + 1) a e c.1)

-- On a filter with one counter for each place add returns, and might_contain then finds the key,
-- even if counters are saturated.
pub might_contain-add :
    (f : CountingBloomFilter) (key : Bytes)
    → 0 < f.counter_array_size
    → length f.counter_array ≡ f.counter_array_size
    → Returns (λ r. might_contain r key ≡ ok true) (add f key)
unfolding add might_contain
might_contain-add f key pos e =
    Returns-bind
      (add_loop-Filled f.counter_array_size key pos f.hash_function_count 0 f.counter_array e)
      λ b t. returns (
        test_loop-AllCounted f.counter_array_size key pos f.hash_function_count 0 b
          (t.same_size ∙ e) t.whole)
