-- ===== src/MultiLevel/Lookup.antt =====
-- What get_highest_priority returns, and what becomes of an inserted node.
use hft_radial_cache.Common.{
  ℕ, ◌≡◌, ◌≢◌, refl, sym, ap, ◌∙◌, Bool, true, false, inl, inr, Option, none, some, Option-cases,
  List, [], ◌∷◌, ◌++◌, if◌then◌else◌, arith,
}
use hft_radial_cache.Common.Bytes.{Bytes, bytes_eq, bytes_eq_iff}
use hft_radial_cache.Disk
use hft_radial_cache.Disk.{DiskNode, DiskBackedCache, find_key, put, key_of, retrieve}
use hft_radial_cache.Disk.Index.{find_key-put}
use hft_radial_cache.MultiLevel.{
  Level2, MultiLevelCache, count_in, search, record_access, demote_to_l3, answer_l3, answer_l2,
  answer_l1, has_symbol, get_highest_priority,
}

-- The first node of a queue that passes a test.
abbrev pub first_with : (DiskNode → Bool) → List DiskNode → Option DiskNode
first_with test [] = none
first_with test (node ∷ nodes) = if test node then some node else first_with test nodes

-- The first answer of two.
abbrev pub or_else : Option DiskNode → Option DiskNode → Option DiskNode
or_else none second = second
or_else (some node) second = some node

searched_first :
    (test : DiskNode → Bool) (temp_nodes queue : List DiskNode)
    → (search test temp_nodes queue).1 ≡ first_with test queue
unfolding search
searched_first test temp_nodes [] = refl
searched_first test temp_nodes (node ∷ queue) =
    ground (arith, searched_first test (temp_nodes ++ node ∷ []) queue)

pub put_found :
    (to_string : ℕ → Bytes) (node_size : ℕ) (c : DiskBackedCache) (node : DiskNode) (symbol : Bytes)
    (value : ℕ)
    → retrieve to_string ((Disk.insert to_string node_size c node).0) symbol value ≡ (
        if bytes_eq (key_of to_string node.symbol node.value) (key_of to_string symbol value)
        then some node
        else retrieve to_string c symbol value)
unfolding Disk.insert retrieve
put_found to_string node_size c node symbol value = ground (
  arith,
  find_key-put (key_of to_string node.symbol node.value) (key_of to_string symbol value) node
      c.memory_index,
)

insert_accepts :
    (to_string : ℕ → Bytes) (node_size : ℕ) (c : DiskBackedCache) (node : DiskNode)
    → (Disk.insert to_string node_size c node).1 ≡ true
unfolding Disk.insert
insert_accepts to_string node_size c node = ground arith

-- Keys of one symbol differ where the printed values do.
keys_differ :
    (to_string : ℕ → Bytes) (symbol : Bytes) (value other : ℕ)
    → to_string value ≢ to_string other
    → bytes_eq (key_of to_string symbol value) (key_of to_string symbol other) ≡ false
unfolding key_of bytes_eq
keys_differ to_string [] value other off =
    ground (arith, bytes_eq_iff (to_string value) (to_string other))
keys_differ to_string (byte ∷ symbol) value other off =
    ground (arith, keys_differ to_string symbol value other off)

module _ {L : Type 0} (level2 : Level2 L) (to_string : ℕ → Bytes) (node_size count_size : ℕ) where
  abbrev pub accessed : ℕ → Option DiskNode → Option DiskNode
  accessed now none = none
  accessed now (some node) = some (record_access level2 to_string node_size count_size now node)

  answer_l2_result :
      (m : MultiLevelCache L) (symbol : Bytes) (now : ℕ) (answer : Option DiskNode)
      → (answer_l2 level2 to_string node_size count_size m symbol now answer).1
        ≡ accessed now (or_else answer (retrieve to_string m.l3_cache symbol 0))
  unfolding answer_l2 answer_l3
  answer_l2_result m symbol now none =
      elim (Option-cases (retrieve to_string m.l3_cache symbol 0)) [
        | inl e ↦ rw (e, answer_l3)
        | inr (node, e) ↦ rw (e, answer_l3)
      ]
  answer_l2_result m symbol now (some node) = refl

  answer_l1_result :
      (m : MultiLevelCache L) (symbol : Bytes) (now : ℕ) (answer : Option DiskNode)
      → (answer_l1 level2 to_string node_size count_size m symbol now answer).1
        ≡ accessed now (
            or_else answer (
              or_else
                ((level2.get_highest_priority m.l2_cache symbol).1)
                (retrieve to_string m.l3_cache symbol 0)))
  unfolding answer_l1
  answer_l1_result m symbol now none =
      answer_l2_result (record m { l2_cache = (level2.get_highest_priority m.l2_cache symbol).0 })
        symbol now ((level2.get_highest_priority m.l2_cache symbol).1)
  answer_l1_result m symbol now (some node) = refl

  -- get_highest_priority returns, with the access recorded, the node of the first level that has
  -- the symbol and stands first in the queue, whatever the priorities are; if there is none, what
  -- the second level returns; and if that is null, the node that the third level has under the
  -- symbol and the value 0.
  pub get_correct :
      (m : MultiLevelCache L) (symbol : Bytes) (now : ℕ)
      → (get_highest_priority level2 to_string node_size count_size m symbol now).1
        ≡ accessed now (
            or_else (first_with (has_symbol symbol) m.l1_cache) (
              or_else
                ((level2.get_highest_priority m.l2_cache symbol).1)
                (retrieve to_string m.l3_cache symbol 0)))
  unfolding get_highest_priority
  get_correct m symbol now =
      let searched = search (has_symbol symbol) [] m.l1_cache in
      let below =
        or_else ((level2.get_highest_priority m.l2_cache symbol).1)
          (retrieve to_string m.l3_cache symbol 0) in
      answer_l1_result (record m { l1_cache = searched.0 }) symbol now searched.1
      ∙ ap (λ (o : Option DiskNode). accessed now (or_else o below))
          (searched_first (has_symbol symbol) [] m.l1_cache)

  -- The third level takes every node.
  pub demoted :
      (m : MultiLevelCache L) (node : DiskNode)
      → demote_to_l3 level2 to_string node_size count_size m node ≡ (
        record m {
          l3_cache = (Disk.insert to_string node_size m.l3_cache node).0;
          l3_stats = count_in m.l3_stats;
        },
        true,
      )
  unfolding demote_to_l3
  demoted m node = rw (insert_accepts to_string node_size m.l3_cache node)

  -- A node that goes to the third level is not found there again unless its value prints as 0
  -- does: get_highest_priority of its symbol returns what it returned before the node was demoted.
  pub lost_on_disk :
      (m : MultiLevelCache L) (node : DiskNode) (now : ℕ)
      → to_string node.value ≢ to_string 0
      → (get_highest_priority level2 to_string node_size count_size
          ((demote_to_l3 level2 to_string node_size count_size m node).0)
          node.symbol
          now).1
        ≡ (get_highest_priority level2 to_string node_size count_size m node.symbol now).1
  lost_on_disk m node now off =
      let down = record m {
        l3_cache = (Disk.insert to_string node_size m.l3_cache node).0;
        l3_stats = count_in m.l3_stats;
      } in
      let same : retrieve to_string ((Disk.insert to_string node_size m.l3_cache node).0)
            node.symbol 0
          ≡ retrieve to_string m.l3_cache node.symbol 0 =
        ground (
          arith,
          put_found to_string node_size m.l3_cache node node.symbol 0,
          keys_differ to_string node.symbol node.value 0 off,
        ) in
      rw (demoted m node) (
        get_correct down node.symbol now
        ∙ ap
            (λ (o : Option DiskNode). accessed now (
              or_else (first_with (has_symbol node.symbol) m.l1_cache)
                (or_else ((level2.get_highest_priority m.l2_cache node.symbol).1) o)))
            same
        ∙ sym (get_correct m node.symbol now))
