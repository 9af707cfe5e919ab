-- ===== src/Table/Laws.antt =====
-- Lookups after insertions, and the pointers that the table hands out.
use hft_radial_cache.Common.{
  ℕ, zero, suc, ◌<◌, ◌≡◌, refl, ap, ◌∙◌, inl, inr, false, none, some, [], ◌∷◌, ◌++◌, arith, ◌==◌,
  if◌then◌else◌, length, get_or, set, get_or-set, length-set, length-append, replicate, Bool-cases,
  Option-cases,
}
use hft_radial_cache.Common.Bytes.{Bytes, bytes_eq, bytes_eq→eq, bytes_eq_iff}
use hft_radial_cache.Heap
use hft_radial_cache.Heap.{Heap}
use hft_radial_cache.Table.{Table, Chain, new, bucket_count, hash, find, get, get_or_create}

-- The index stays inside the array of buckets.
pub hash_lt : (key : Bytes) → hash key < bucket_count
unfolding hash
hash_lt key = omega arith

-- All buckets are there, each pointer is allocated, and no two keys share one.
pub record IsValid (t : Table) : Type 0 where
  pub buckets : length t.buckets ≡ bucket_count
  pub allocated : (key : Bytes) (p : ℕ) → get t key ≡ some p → p < length t.midpoints
  pub unshared : (j k : Bytes) (p : ℕ) → get t j ≡ some p → get t k ≡ some p → j ≡ k

get_or-replicate : (n i : ℕ) → get_or {A = Chain} (replicate n []) i [] ≡ []
get_or-replicate zero i = refl
get_or-replicate (suc n) zero = refl
get_or-replicate (suc n) (suc i) = get_or-replicate n i

pub get-new : (key : Bytes) → get new key ≡ none
unfolding get new find
get-new key = rw (get_or-replicate bucket_count (hash key))

pub new-IsValid : IsValid new
unfolding new
new-IsValid = record {
  buckets = refl;
  allocated = λ key p e. absurd (cc (get-new key));
  unshared = λ j k p e f. absurd (cc (get-new j));
}

-- A key that is there keeps its midpoint, and the table is left as it was.
pub get_or_create_found :
    (t : Table) (key : Bytes) (capacity p : ℕ)
    → get t key ≡ some p
    → get_or_create t key capacity ≡ (t, p)
unfolding get_or_create get
get_or_create_found t key capacity p e = rw (e, get_or_create)

-- The table with a new midpoint for `key`.
abbrev pub extended : Table → Bytes → ℕ → Table
extended t key capacity = record {
  midpoints = t.midpoints ++ Heap.new capacity ∷ [];
  buckets = set t.buckets (hash key) ((key, length t.midpoints) ∷ get_or t.buckets (hash key) []);
}

-- A key that is not there gets a new midpoint, at the next address.
pub get_or_create_missing :
    (t : Table) (key : Bytes) (capacity : ℕ)
    → get t key ≡ none
    → get_or_create t key capacity ≡ (extended t key capacity, length t.midpoints)
unfolding get_or_create get
get_or_create_missing t key capacity e = rw (e, get_or_create)

pub get-extended :
    (t : Table) (key j : Bytes) (capacity : ℕ)
    → length t.buckets ≡ bucket_count
    → get (extended t key capacity) j
      ≡ (if bytes_eq key j then some (length t.midpoints) else get t j)
unfolding get find
get-extended t key j capacity size =
    rw
      (get_or-set [] t.buckets (hash key) (hash j)
        ((key, length t.midpoints) ∷ get_or t.buckets (hash key) [])
        (omega (arith, size, hash_lt key)))
      (elim (Bool-cases (hash key == hash j)) [
        | inl same ↦ let e : hash key ≡ hash j = ground arith in rw same (rw e)
        | inr other ↦
            let ne : bytes_eq key j ≡ false =
              ground (arith, bytes_eq_iff key j, λ (e : key ≡ j). ap hash e) in
            rw (other, ne)
      ])

-- The lookups after the call: only `key` changes, and it has the pointer returned.
pub get-get_or_create :
    (t : Table) (key j : Bytes) (capacity : ℕ)
    → length t.buckets ≡ bucket_count
    → get (get_or_create t key capacity).0 j
      ≡ (if bytes_eq key j then some (get_or_create t key capacity).1 else get t j)
get-get_or_create t key j capacity size = elim (Option-cases (get t key)) [
  | inr (p, e) ↦ rw (get_or_create_found t key capacity p e) (kept p e)
  | inl e ↦ rw (get_or_create_missing t key capacity e) (get-extended t key j capacity size)
]
  where
    kept : (p : ℕ) → get t key ≡ some p → get t j ≡ (if bytes_eq key j then some p else get t j)
    kept p e = elim (Bool-cases (bytes_eq key j)) [
      | inl same ↦ rw same (rw (bytes_eq→eq key j same) at e)
      | inr other ↦ rw other
    ]

-- The call returns the pointer that a lookup of the key then finds.
pub get_or_create-IsValid :
    (t : Table) (key : Bytes) (capacity : ℕ) → IsValid t → IsValid (get_or_create t key capacity).0
get_or_create-IsValid t key capacity v = elim (Option-cases (get t key)) [
  | inr (p, e) ↦ rw (get_or_create_found t key capacity p e) v
  | inl e ↦ rw (get_or_create_missing t key capacity e) (record {
    buckets = length-set t.buckets (hash key) _ ∙ v.buckets;
    allocated = λ j p f. ground (
      arith,
      get-extended t key j capacity v.buckets,
      v.allocated j p,
      length-append t.midpoints (Heap.new capacity ∷ []),
    );
    unshared = λ i j p f g. unshared_new i j p f g;
  })
]
  where
    unshared_new :
        (i j : Bytes) (p : ℕ)
        → get (extended t key capacity) i ≡ some p
        → get (extended t key capacity) j ≡ some p
        → i ≡ j
    unshared_new i j p f g = ground (
      arith,
      get-extended t key i capacity v.buckets,
      get-extended t key j capacity v.buckets,
      v.allocated i p,
      v.allocated j p,
      v.unshared i j p,
      bytes_eq_iff key i,
      bytes_eq_iff key j,
    )
