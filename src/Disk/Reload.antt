-- ===== src/Disk/Reload.antt =====
-- What flush_to_disk wrote, load_from_disk reads back.
use Prim.Native.Nat.{◌<◌}
use mathlib.Core.List.{append_assoc, append-nil}
use hft_radial_cache.Common.{
  ℕ, suc, ◌+◌, ◌*◌, ◌%◌, ◌^◌, ◌≡◌, ◌≢◌, refl, sym, ap, ◌∙◌, true, false, Bool-cases, inl, inr, none,
  some, Option-cases, subst, List, [], ◌∷◌, ◌++◌, length, ◌==◌, arith,
}
use hft_radial_cache.Common.Bytes.{Bytes, bytes_eq}
use hft_radial_cache.Common.Words.{add64}
use hft_radial_cache.Common.Run.{ok}
use hft_radial_cache.Disk.{
  DiskNode, DiskBackedCache, Index, find_key, put, erase, key_of, insert, remove, clear,
  write_number, serialize_nodes, flush_to_disk, load_nodes, load_from_disk,
}
use hft_radial_cache.Disk.Codec.{Fits, read_number-write_number, deserialize_node-serialize_node}
use hft_radial_cache.Disk.Index.{HasDistinctKeys, put_end, missing_front}
use hft_radial_cache.Disk.Calls.{
  Call, insert_node, remove_node, clear_all, run, IsValid, Holds, run-Holds, insert_new, insert_old,
  remove_there, remove_missing,
}

-- A cache before anything is loaded.
abbrev pub bare : DiskBackedCache
bare = record { memory_index = []; disk_size = 0 }

module _ (to_string : ℕ → Bytes) (node_size stamp_size count_size : ℕ) where
  -- Each entry has its node's key, and its numbers fit the file's format.
  abbrev pub IsStored : Index → Type 0
  IsStored [] = Unit
  IsStored (entry ∷ index) =
      (entry.0 ≡ key_of to_string entry.1.symbol entry.1.value)
      × Fits stamp_size count_size (entry.1)
      × IsStored index

  one_more : (n : ℕ) → suc n * node_size ≡ n * node_size + node_size
  one_more n = omega arith

  reloaded :
      (index front : Index) (rest : Bytes) (size : ℕ)
      → IsStored index
      → HasDistinctKeys (front ++ index)
      → size < 2 ^ 64
      → load_nodes stamp_size count_size to_string node_size
          (length index)
          (serialize_nodes stamp_size count_size index ++ rest)
          (record { memory_index = front; disk_size = size })
        ≡ ok (record {
          memory_index = front ++ index;
          disk_size = (size + length index * node_size) % 2 ^ 64;
        })
  unfolding load_nodes serialize_nodes
  reloaded [] front rest size s d small =
      let same : size ≡ (size + 0 * node_size) % 2 ^ 64 = omega arith in
      rw (append-nil front)
        (ap (λ (n : ℕ). ok (record { memory_index = front; disk_size = n })) same)
  reloaded (entry ∷ index) front rest size s d small =
      let step =
        deserialize_node-serialize_node stamp_size count_size (entry.1)
          (serialize_nodes stamp_size count_size index ++ rest) s.1 in
      let key = key_of to_string entry.1.symbol entry.1.value in
      let placed : put key (entry.1) front ≡ front ++ entry ∷ [] =
        ap (λ k. put k (entry.1) front) (sym s.0)
        ∙ put_end (entry.0) (entry.1) front (missing_front front entry index d) in
      let joined : (front ++ entry ∷ []) ++ index ≡ front ++ entry ∷ index =
        append_assoc front (entry ∷ []) index in
      let size' = add64 size node_size in
      let total : (size' + length index * node_size) % 2 ^ 64
          ≡ (size + suc (length index) * node_size) % 2 ^ 64 =
        omega (arith, one_more (length index)) in
      rw (append_assoc, step)
        (rw placed (
          reloaded index (front ++ entry ∷ []) rest size' s.2 (subst HasDistinctKeys (sym joined) d)
            (omega arith)
          ∙ ap
              (λ (i : Index). ok (record {
                memory_index = i;
                disk_size = (size' + length index * node_size) % 2 ^ 64;
              }))
              joined
          ∙ ap (λ (n : ℕ). ok (record { memory_index = front ++ entry ∷ index; disk_size = n }))
              total))

  put-IsStored :
      (node : DiskNode) (index : Index)
      → Fits stamp_size count_size node
      → IsStored index
      → IsStored (put (key_of to_string node.symbol node.value) node index)
  unfolding put
  put-IsStored node [] f s = (refl, f, tt)
  put-IsStored node (entry ∷ index) f s =
      let key = key_of to_string node.symbol node.value in
      elim (Bool-cases (bytes_eq (entry.0) key)) [
        | inl same ↦ rw same (refl, f, s.2)
        | inr other ↦ rw other (s.0, s.1, put-IsStored node index f s.2)
      ]

  erase-IsStored : (key : Bytes) (index : Index) → IsStored index → IsStored (erase key index)
  unfolding erase
  erase-IsStored key [] s = tt
  erase-IsStored key (entry ∷ index) s = elim (Bool-cases (bytes_eq (entry.0) key)) [
    | inl same ↦ rw same s.2
    | inr other ↦ rw other (s.0, s.1, erase-IsStored key index s.2)
  ]

  insert-IsStored :
      (c : DiskBackedCache) (node : DiskNode)
      → Fits stamp_size count_size node
      → IsStored c.memory_index
      → IsStored ((insert to_string node_size c node).0.memory_index)
  insert-IsStored c node f s =
      elim (Option-cases (find_key (key_of to_string node.symbol node.value) c.memory_index)) [
        | inl e ↦
            rw (insert_new to_string node_size c node e) (put-IsStored node c.memory_index f s)
        | inr (old, e) ↦
            rw (insert_old to_string node_size c node old e) (put-IsStored node c.memory_index f s)
      ]

  remove-IsStored :
      (c : DiskBackedCache) (symbol : Bytes) (value : ℕ)
      → IsStored c.memory_index
      → IsStored ((remove to_string node_size c symbol value).0.memory_index)
  remove-IsStored c symbol value s =
      elim (Option-cases (find_key (key_of to_string symbol value) c.memory_index)) [
        | inl e ↦ rw (remove_missing to_string node_size c symbol value e) s
        | inr (old, e) ↦
            rw (remove_there to_string node_size c symbol value old e)
              (erase-IsStored (key_of to_string symbol value) c.memory_index s)
      ]

  -- The nodes that are inserted fit the file's format.
  abbrev pub AllFit : List Call → Type 0
  AllFit [] = Unit
  AllFit (insert_node node ∷ calls) = Fits stamp_size count_size node × AllFit calls
  AllFit (remove_node symbol value ∷ calls) = AllFit calls
  AllFit (clear_all ∷ calls) = AllFit calls

  run-IsStored :
      (c : DiskBackedCache) (calls : List Call)
      → AllFit calls
      → IsStored c.memory_index
      → IsStored ((run to_string node_size c calls).memory_index)
  unfolding run clear
  run-IsStored c [] a s = s
  run-IsStored c (insert_node node ∷ calls) a s =
      run-IsStored ((insert to_string node_size c node).0) calls a.1 (insert-IsStored c node a.0 s)
  run-IsStored c (remove_node symbol value ∷ calls) a s =
      run-IsStored ((remove to_string node_size c symbol value).0) calls a
        (remove-IsStored c symbol value s)
  run-IsStored c (clear_all ∷ calls) a s = run-IsStored (clear c) calls a tt

  pub bare-Holds : Holds to_string node_size (λ key. none) bare
  unfolding find_key
  bare-Holds = record { valid = record { distinct = tt; sized = omega arith }; found = λ key. refl }

  load-flush :
      (magic : ℕ) (c : DiskBackedCache)
      → magic < 256 ^ 8
      → length c.memory_index < 256 ^ 8
      → IsStored c.memory_index
      → IsValid to_string node_size c
      → load_from_disk stamp_size count_size to_string node_size magic
          (some (flush_to_disk stamp_size count_size magic c))
          bare
        ≡ ok (c, true)
  unfolding load_from_disk flush_to_disk
  load-flush magic c m l s v =
      let count = length c.memory_index in
      let nodes = serialize_nodes stamp_size count_size c.memory_index in
      let all = reloaded c.memory_index [] [] 0 s v.distinct (omega arith) in
      let same : (0 + count * node_size) % 2 ^ 64 ≡ c.disk_size = omega (arith, v.sized) in
      let loaded : load_nodes stamp_size count_size to_string node_size count nodes bare ≡ ok c =
        ap (λ b. load_nodes stamp_size count_size to_string node_size count b bare)
          (sym (append-nil nodes))
        ∙ all
        ∙ ap (λ (n : ℕ). ok (record { memory_index = c.memory_index; disk_size = n })) same in
      let right : (magic == magic) ≡ true = ground arith in
      simp (
        read_number-write_number 8 magic (write_number 8 1 ++ (write_number 8 count ++ nodes)) m,
        read_number-write_number 8 1 (write_number 8 count ++ nodes) (omega arith),
        read_number-write_number 8 count nodes l,
        right,
        loaded,
      )

  -- After any sequence of inserts, removes and clears on an empty cache, in which every number of
  -- an inserted node fits its field of the file, what flush_to_disk writes is read back: on an
  -- empty cache load_from_disk returns true and leaves the same index and the same disk_size. The
  -- magic number is below 2^64, the size of a node and the number of nodes too.
  pub restart :
      (magic : ℕ) (calls : List Call)
      → magic < 256 ^ 8
      → node_size < 2 ^ 64
      → AllFit calls
      → length ((run to_string node_size bare calls).memory_index) < 256 ^ 8
      → load_from_disk stamp_size count_size to_string node_size magic
          (some (flush_to_disk stamp_size count_size magic (run to_string node_size bare calls)))
          bare
        ≡ ok (run to_string node_size bare calls, true)
  restart magic calls m small a l =
      let held = run-Holds to_string node_size (λ key. none) bare calls small bare-Holds in
      load-flush magic (run to_string node_size bare calls) m l (run-IsStored bare calls a tt)
        held.valid

  -- A file that opens, and begins with another number than the magic one, is refused:
  -- load_from_disk returns false and changes nothing, whatever comes behind, be it nothing.
  pub load_other :
      (magic other : ℕ) (rest : Bytes) (c : DiskBackedCache)
      → other < 256 ^ 8
      → other ≢ magic
      → load_from_disk stamp_size count_size to_string node_size magic
          (some (write_number 8 other ++ rest))
          c
        ≡ ok (c, false)
  unfolding load_from_disk
  load_other magic other rest c o off =
      let wrong : (other == magic) ≡ false = ground arith in
      simp (read_number-write_number 8 other rest o, wrong)
