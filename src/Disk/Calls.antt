-- ===== src/Disk/Calls.antt =====
-- Sequences of insert, remove and clear.
use Prim.Native.Nat.{◌<◌}
use hft_radial_cache.Common.{
  ℕ, suc, ◌+◌, ◌*◌, ◌%◌, ◌^◌, ◌≡◌, refl, ap, ◌∙◌, true, false, inl, inr, Option, none, some,
  Option-cases, List, [], ◌∷◌, length, if◌then◌else◌, arith,
}
use hft_radial_cache.Common.Bytes.{Bytes, bytes_eq, bytes_eq_iff}
use hft_radial_cache.Common.Words.{add64, sub64}
use hft_radial_cache.Disk.{
  DiskNode, DiskBackedCache, find_key, put, erase, key_of, insert, remove, clear,
}
use hft_radial_cache.Disk.Index.{
  HasDistinctKeys, find_key-put, find_key-erase, put-HasDistinctKeys, erase-HasDistinctKeys,
  length-put_new, length-put_old, length-erase,
}

pub data Call : Type 0 where
  insert_node : DiskNode → Call
  remove_node : Bytes → ℕ → Call
  clear_all : Call

module _ (to_string : ℕ → Bytes) (node_size : ℕ) where
  unfoldable pub run : DiskBackedCache → List Call → DiskBackedCache
  run c [] = c
  run c (insert_node node ∷ calls) = run ((insert to_string node_size c node).0) calls
  run c (remove_node symbol value ∷ calls) =
      run ((remove to_string node_size c symbol value).0) calls
  run c (clear_all ∷ calls) = run (clear c) calls

  -- What a map from keys to nodes holds after the calls.
  abbrev pub after : (Bytes → Option DiskNode) → List Call → Bytes → Option DiskNode
  after m [] = m
  after m (insert_node node ∷ calls) =
      after
        (λ key. if bytes_eq (key_of to_string node.symbol node.value) key then some node else m key)
        calls
  after m (remove_node symbol value ∷ calls) =
      after (λ key. if bytes_eq (key_of to_string symbol value) key then none else m key) calls
  after m (clear_all ∷ calls) = after (λ key. none) calls

  -- No key stands twice, and disk_size is the size of all nodes.
  pub record IsValid (c : DiskBackedCache) : Type 0 where
    pub distinct : HasDistinctKeys c.memory_index
    pub sized : c.disk_size ≡ length c.memory_index * node_size % 2 ^ 64

  -- The cache is valid and holds what the map holds.
  pub record Holds (m : Bytes → Option DiskNode) (c : DiskBackedCache) : Type 0 where
    pub valid : IsValid c
    pub found : (key : Bytes) → find_key key c.memory_index ≡ m key

  pub insert_new :
      (c : DiskBackedCache) (node : DiskNode)
      → find_key (key_of to_string node.symbol node.value) c.memory_index ≡ none
      → insert to_string node_size c node ≡ (
        record {
          memory_index = put (key_of to_string node.symbol node.value) node c.memory_index;
          disk_size = add64 c.disk_size node_size;
        },
        true,
      )
  unfolding insert
  insert_new c node e = ground arith

  pub insert_old :
      (c : DiskBackedCache) (node old : DiskNode)
      → find_key (key_of to_string node.symbol node.value) c.memory_index ≡ some old
      → insert to_string node_size c node ≡ (
        record c {
          memory_index = put (key_of to_string node.symbol node.value) node c.memory_index;
        },
        true,
      )
  unfolding insert
  insert_old c node old e = ground arith

  one_more : (n : ℕ) → suc n * node_size ≡ n * node_size + node_size
  one_more n = omega arith

  pub insert-Holds :
      (m : Bytes → Option DiskNode) (c : DiskBackedCache) (node : DiskNode)
      → Holds m c
      → Holds
          (λ key.
            if bytes_eq (key_of to_string node.symbol node.value) key then some node else m key)
          ((insert to_string node_size c node).0)
  insert-Holds m c node h =
      let key = key_of to_string node.symbol node.value in
      let distinct = put-HasDistinctKeys key node c.memory_index h.valid.distinct in
      let found = λ (k : Bytes).
        find_key-put key k node c.memory_index
        ∙ ap (λ o. if bytes_eq key k then some node else o) (h.found k) in
      elim (Option-cases (find_key key c.memory_index)) [
        | inl e ↦ rw (insert_new c node e) (record {
          valid = record {
            distinct = distinct;
            sized =
                rw (length-put_new key node c.memory_index e)
                  (omega (arith, h.valid.sized, one_more (length c.memory_index)));
          };
          found = found;
        })
        | inr (old, e) ↦ rw (insert_old c node old e) (record {
          valid = record {
            distinct = distinct;
            sized = rw (length-put_old key node old c.memory_index e) h.valid.sized;
          };
          found = found;
        })
      ]

  pub remove_there :
      (c : DiskBackedCache) (symbol : Bytes) (value : ℕ) (old : DiskNode)
      → find_key (key_of to_string symbol value) c.memory_index ≡ some old
      → remove to_string node_size c symbol value ≡ (
        record {
          memory_index = erase (key_of to_string symbol value) c.memory_index;
          disk_size = sub64 c.disk_size node_size;
        },
        true,
      )
  unfolding remove
  remove_there c symbol value old e = ground arith

  pub remove_missing :
      (c : DiskBackedCache) (symbol : Bytes) (value : ℕ)
      → find_key (key_of to_string symbol value) c.memory_index ≡ none
      → remove to_string node_size c symbol value ≡ (c, false)
  unfolding remove
  remove_missing c symbol value e = ground arith

  pub remove-Holds :
      (m : Bytes → Option DiskNode) (c : DiskBackedCache) (symbol : Bytes) (value : ℕ)
      → node_size < 2 ^ 64
      → Holds m c
      → Holds
          (λ key. if bytes_eq (key_of to_string symbol value) key then none else m key)
          ((remove to_string node_size c symbol value).0)
  remove-Holds m c symbol value small h =
      let gone = key_of to_string symbol value in
      elim (Option-cases (find_key gone c.memory_index)) [
        | inl e ↦ rw (remove_missing c symbol value e) (record {
          valid = h.valid;
          found = λ k. ground (arith, h.found k, bytes_eq_iff gone k);
        })
        | inr (old, e) ↦ rw (remove_there c symbol value old e) (record {
          valid = record {
            distinct = erase-HasDistinctKeys gone c.memory_index h.valid.distinct;
            sized = omega (
              arith,
              h.valid.sized,
              ap (λ (n : ℕ). n * node_size) (length-erase gone old c.memory_index e),
              one_more (length (erase gone c.memory_index)),
            );
          };
          found = λ k.
              find_key-erase gone k c.memory_index h.valid.distinct
              ∙ ap (λ o. if bytes_eq gone k then none else o) (h.found k);
        })
      ]

  clear-Holds : (c : DiskBackedCache) → Holds (λ key. none) (clear c)
  unfolding clear find_key
  clear-Holds c = record {
    valid = record { distinct = tt; sized = omega arith };
    found = λ key. refl;
  }

  -- From a cache that holds what a map holds, every sequence of insert, remove and clear leaves
  -- one that holds what the map then holds, each key once, with disk_size the number of the
  -- entries times the size of a node, modulo 2^64.
  pub run-Holds :
      (m : Bytes → Option DiskNode) (c : DiskBackedCache) (calls : List Call)
      → node_size < 2 ^ 64
      → Holds m c
      → Holds (after m calls) (run c calls)
  unfolding run
  run-Holds m c [] small h = h
  run-Holds m c (insert_node node ∷ calls) small h =
      run-Holds _ _ calls small (insert-Holds m c node h)
  run-Holds m c (remove_node symbol value ∷ calls) small h =
      run-Holds _ _ calls small (remove-Holds m c symbol value small h)
  run-Holds m c (clear_all ∷ calls) small h =
      run-Holds (λ key. none) (clear c) calls small (clear-Holds c)
