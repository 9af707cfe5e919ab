-- ===== src/Bloom/Counting/Undo.antt =====
-- src/bloom_filter.cpp: remove after add on CountingBloomFilter.
use hft_radial_cache.Common.{
  ℕ, zero, suc, ◌+◌, ◌-◌, ◌%◌, ◌≤◌, ◌<◌, ◌≡◌, refl, ◌∙◌, ap, true, false, some, List, [], ◌∷◌,
  arith, ltb, ◌==◌, if◌then◌else◌, length, get_elem?, get_or, set, length-set, get_or-set,
}
use hft_radial_cache.Common.Bytes.{Bytes}
use hft_radial_cache.Common.Run.{ok, ◌>>=◌}
use hft_radial_cache.Common.Words.{word, add64, sub64}
use hft_radial_cache.Bloom.{probe, place}
use hft_radial_cache.Bloom.Counting.{
  CountingBloomFilter, increment_counter, decrement_counter, add_loop, add, remove_loop, remove,
}

-- One more, and one less, at an index.
bump : List ℕ → ℕ → List ℕ
bump a k = set a k (get_or a k 0 + 1)

lower : List ℕ → ℕ → List ℕ
lower a k = set a k (get_or a k 0 - 1)

bump-bump : (a : List ℕ) (j k : ℕ) → bump (bump a j) k ≡ bump (bump a k) j
unfolding bump
bump-bump [] j k = refl
bump-bump (x ∷ a) zero zero = refl
bump-bump (x ∷ a) zero (suc k) = refl
bump-bump (x ∷ a) (suc j) zero = refl
bump-bump (x ∷ a) (suc j) (suc k) = ap (◌∷◌ x) (bump-bump a j k)

lower-bump : (a : List ℕ) (k : ℕ) → lower (bump a k) k ≡ a
unfolding bump lower
lower-bump [] k = refl
lower-bump (x ∷ a) zero = ap (λ n. n ∷ a) (omega arith)
lower-bump (x ∷ a) (suc k) = ap (◌∷◌ x) (lower-bump a k)

-- All the increments of an add.
bumps : ℕ → ℕ → Bytes → ℕ → List ℕ → List ℕ
bumps size zero key i a = a
bumps size (suc rounds) key i a = bumps size rounds key (i + 1) (bump a (probe key i % size))

bumps-bump :
    (size rounds : ℕ) (key : Bytes) (i : ℕ) (a : List ℕ) (k : ℕ)
    → bumps size rounds key i (bump a k) ≡ bump (bumps size rounds key i a) k
unfolding bumps
bumps-bump size zero key i a k = refl
bumps-bump size (suc rounds) key i a k =
    rw (bump-bump a k (probe key i % size))
      (bumps-bump size rounds key (i + 1) (bump a (probe key i % size)) k)

length-bump : (a : List ℕ) (k : ℕ) → length (bump a k) ≡ length a
unfolding bump
length-bump a k = length-set a k (get_or a k 0 + 1)

length-bumps :
    (size rounds : ℕ) (key : Bytes) (i : ℕ) (a : List ℕ)
    → length (bumps size rounds key i a) ≡ length a
unfolding bumps
length-bumps size zero key i a = refl
length-bumps size (suc rounds) key i a =
    length-bumps size rounds key (i + 1) (bump a (probe key i % size))
    ∙ length-bump a (probe key i % size)

get_or-bump :
    (a : List ℕ) (k j : ℕ)
    → k < length a
    → get_or (bump a k) j 0 ≡ (if k == j then get_or a k 0 + 1 else get_or a j 0)
unfolding bump
get_or-bump a k j inside = get_or-set 0 a k j (get_or a k 0 + 1) inside

pub read : (a : List ℕ) (k : ℕ) → k < length a → get_elem? a k ≡ some (get_or a k 0)
read [] k h = absurd (omega arith)
read (x ∷ a) zero h = refl
read (x ∷ a) (suc k) h = read a k (omega arith)

increment-bump :
    (a : List ℕ) (k : ℕ) → k < length a → get_or a k 0 < 255 → increment_counter a k ≡ ok (bump a k)
unfolding increment_counter bump
increment-bump a k inside small =
    let test : ltb (get_or a k 0) 255 ≡ true = ground arith in
    rw (read a k inside, increment_counter, test)

decrement-bump : (a : List ℕ) (k : ℕ) → k < length a → decrement_counter (bump a k) k ≡ ok (a, true)
unfolding decrement_counter
decrement-bump a k inside =
    let test : (get_or (bump a k) k 0 == 0) ≡ false = ground (arith, get_or-bump a k k inside) in
    let back : set (bump a k) k (get_or (bump a k) k 0 - 1) ≡ a = unfold lower in lower-bump a k in
    rw (read (bump a k) k (omega (arith, length-bump a k)), decrement_counter, test, back)

pub below : (n d : ℕ) → 0 < d → n % d < d
below n zero pos = absurd (omega arith)
below n (suc d) pos = omega arith

pub place-ok :
    (size : ℕ) (key : Bytes) (i : ℕ) → 0 < size → place size key i ≡ ok (probe key i % size)
unfolding place
place-ok size key i pos = ground arith

module _ (size : ℕ) (key : Bytes) (pos : 0 < size) where
  add_loop-bumps :
      (rounds i : ℕ) (a : List ℕ)
      → length a ≡ size
      → ((j : ℕ) → get_or a j 0 + rounds ≤ 255)
      → add_loop size rounds key i a ≡ ok (bumps size rounds key i a)
  unfolding add_loop bumps
  add_loop-bumps zero i a e room = refl
  add_loop-bumps (suc rounds) i a e room =
      let k = probe key i % size in
      let inside : k < length a = omega (arith, below (probe key i) size pos) in
      rw (place-ok size key i pos, increment-bump a k inside (omega (arith, room k)))
        (add_loop-bumps rounds (i + 1) (bump a k) (length-bump a k ∙ e)
          λ j. ground (arith, get_or-bump a k j inside, room j, room k))

  remove_loop-bumps :
      (rounds i : ℕ) (a : List ℕ)
      → length a ≡ size
      → remove_loop size rounds key i (bumps size rounds key i a) ≡ ok (a, true)
  unfolding remove_loop bumps
  remove_loop-bumps zero i a e = refl
  remove_loop-bumps (suc rounds) i a e =
      let k = probe key i % size in
      let b = bumps size rounds key (i + 1) a in
      let inside : k < length b =
        omega (arith, below (probe key i) size pos, length-bumps size rounds key (i + 1) a) in
      rw
        (place-ok size key i pos, bumps-bump size rounds key (i + 1) a k, decrement-bump b k inside)
        (remove_loop-bumps rounds (i + 1) a e)

-- On a filter with one counter for each place, in which no counter can saturate within one add,
-- removing a key just after adding it succeeds and gives back the filter as it was.
pub remove-add :
    (f : CountingBloomFilter) (key : Bytes)
    → 0 < f.counter_array_size
    → length f.counter_array ≡ f.counter_array_size
    → ((j : ℕ) → get_or f.counter_array j 0 + f.hash_function_count ≤ 255)
    → f.added_elements < word
    → (add f key >>= λ r. remove r key) ≡ ok (f, true)
unfolding add remove
remove-add f key pos e room small =
    let count : sub64 (add64 f.added_elements 1) 1 ≡ f.added_elements = omega arith in
    rw (
      add_loop-bumps f.counter_array_size key pos f.hash_function_count 0 f.counter_array e room,
      remove_loop-bumps f.counter_array_size key pos f.hash_function_count 0 f.counter_array e,
      count,
    )
