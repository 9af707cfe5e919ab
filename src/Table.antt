-- ===== src/Table.antt =====
-- include/lockfree_map.hpp: LockFreeHashTable, from symbols to their midpoints. A `MidpointNode*`
-- is an index into `midpoints`, the midpoints in the order of their allocation; a bucket is its
-- chain of keys and pointers, newest first.
pub mod Laws
use Prim.Native.Nat.{bit_xor}
use hft_radial_cache.Common.{
  ℕ, ◌+◌, ◌-◌, ◌%◌, Bool, Option, none, some, List, [], ◌∷◌, ◌++◌, ltb, if◌then◌else◌, length,
  get_or, set, replicate,
}
use hft_radial_cache.Common.Bytes.{Bytes, bytes_eq}
use hft_radial_cache.Common.Words.{word, mul64}
use hft_radial_cache.Heap
use hft_radial_cache.Heap.{Heap}

abbrev pub bucket_count : ℕ
bucket_count = 64

-- `static_cast<uint64_t>(c)` of a `char`, which is signed: a byte from 128 on is extended.
unfoldable pub widen : ℕ → ℕ
widen c = if ltb c 128 then c else c + (word - 256)

-- The loop of `hash` from the value `h` on: FNV-1a.
unfoldable pub fnv : ℕ → Bytes → ℕ
fnv h [] = h
fnv h (c ∷ key) = fnv (mul64 (bit_xor h (widen c)) 0x100000001b3) key

unfoldable pub hash : Bytes → ℕ
unfolding fnv widen
hash key = fnv 0xcbf29ce484222325 key % bucket_count

abbrev pub Chain : Type 0
Chain = List (Bytes × ℕ)

pub record Table : Type 0 where
  pub midpoints : List (Heap ℕ)
  pub buckets : List Chain

unfoldable pub new : Table
new = record { midpoints = []; buckets = replicate bucket_count [] }

-- The `while (head)` walk along a chain.
unfoldable pub find : Bytes → Chain → Option ℕ
find key [] = none
find key ((k, value) ∷ next) = if bytes_eq k key then some value else find key next

unfoldable pub get : Table → Bytes → Option ℕ
unfolding find
get t key = find key (get_or t.buckets (hash key) [])

unfoldable pub get_or_create : Table → Bytes → ℕ → Table × ℕ
get_or_create t key capacity =
    let index = hash key in
    let chain = get_or t.buckets index [] in
    let value = length t.midpoints in
    elim (find key chain) [
      | some found ↦ (t, found)
      | none ↦ (
        record {
          midpoints = t.midpoints ++ Heap.new capacity ∷ [];
          buckets = set t.buckets index ((key, value) ∷ chain);
        },
        value,
      )
    ]
