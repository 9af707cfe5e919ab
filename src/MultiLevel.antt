-- ===== src/MultiLevel.antt =====
-- src/multi_level_cache.cpp: MultiLevelCache. The first level is the list that its LockFreeQueue
-- stands for (Queue.Calls). The second, a RadialCircularList with calls that its class does not
-- declare, is the argument `level2`; the third is Disk. A node is its fields: a change through a
-- pointer is written where the pointer is kept. `initial` is the node that `new Node()` makes,
-- `same_double` is `==` on two doubles' bits, `to_ns` the cast of `seconds * 1e9`, and reads of the
-- clock are arguments. No call throws.
pub mod Search
pub mod Front
pub mod Steps
pub mod Count
pub mod Lookup
pub mod Insert
mod Tests
use hft_radial_cache.Common.{
  ℕ, ◌+◌, ◌-◌, ◌%◌, ◌^◌, Bool, true, false, ◌&&◌, ◌||◌, Option, none, some, List, [], ◌∷◌, ◌++◌,
  ltb, if◌then◌else◌,
}
use hft_radial_cache.Common.Bytes.{Bytes, bytes_eq}
use hft_radial_cache.Common.Int.{ℤ, ltb_ℤ, leb_ℤ}
use hft_radial_cache.Common.Words.{add64, sub64}
use hft_radial_cache.Disk
use hft_radial_cache.Disk.{DiskNode, DiskBackedCache, key_of, put}

pub record LevelStats : Type 0 where
  pub item_count : ℕ
  pub hit_count : ℕ
  pub miss_count : ℕ

-- The calls of the second level: insert takes the value, the symbol, the priority and the expiry.
pub record Level2 (L : Type 0) : Type 0 where
  pub insert : L → ℕ → Bytes → ℤ → ℕ → L × Bool
  pub get_highest_priority : L → Bytes → L × Option DiskNode
  pub remove : L → Bytes → ℕ → L × Bool
  pub clear : L → L

pub record MultiLevelCache (L : Type 0) : Type 0 where
  pub l1_cache : List DiskNode
  pub l2_cache : L
  pub l3_cache : DiskBackedCache
  pub l1_stats : LevelStats
  pub l2_stats : LevelStats
  pub l3_stats : LevelStats
  pub l1_capacity : ℕ
  pub l2_capacity : ℕ
  pub l3_capacity : ℕ
  pub l1_min_priority : ℤ
  pub l1_max_age_ns : ℕ
  pub l2_max_age_ns : ℕ

-- The double 60.0.
abbrev pub sixty_seconds : ℕ
sixty_seconds = 0x404e000000000000

unfoldable pub count_in : LevelStats → LevelStats
count_in s = record s { item_count = add64 s.item_count 1 }

unfoldable pub count_out : LevelStats → LevelStats
count_out s = record s { item_count = sub64 s.item_count 1 }

unfoldable pub count_hit : LevelStats → LevelStats
count_hit s = record s { hit_count = add64 s.hit_count 1 }

unfoldable pub count_miss : LevelStats → LevelStats
count_miss s = record s { miss_count = add64 s.miss_count 1 }

-- The loop that takes nodes from the queue until one passes the test, and the loop that puts the
-- nodes before it back.
unfoldable pub search :
    (DiskNode → Bool) → List DiskNode → List DiskNode → List DiskNode × Option DiskNode
search test temp_nodes [] = (temp_nodes, none)
search test temp_nodes (result ∷ queue) =
    if test result
    then (queue ++ temp_nodes, some result)
    else search test (temp_nodes ++ result ∷ []) queue

unfoldable pub has_symbol : Bytes → DiskNode → Bool
has_symbol symbol node = bytes_eq node.symbol symbol

unfoldable pub matches : (ℕ → ℕ → Bool) → Bytes → ℕ → DiskNode → Bool
matches same_double symbol value node = bytes_eq node.symbol symbol && same_double node.value value

module _ {L : Type 0} (level2 : Level2 L) (to_string : ℕ → Bytes) (node_size count_size : ℕ) where
  unfoldable pub record_access : ℕ → DiskNode → DiskNode
  record_access now node = record node {
    last_access = now;
    access_count = (node.access_count + 1) % 256 ^ count_size;
  }

  unfoldable pub demote_to_l2 : MultiLevelCache L → DiskNode → MultiLevelCache L × Bool
  unfolding count_in
  demote_to_l2 m node =
      let r = level2.insert m.l2_cache node.value node.symbol node.priority sixty_seconds in
      if r.1
      then (record m { l2_cache = r.0; l2_stats = count_in m.l2_stats }, true)
      else (record m { l2_cache = r.0 }, false)

  unfoldable pub demote_to_l3 : MultiLevelCache L → DiskNode → MultiLevelCache L × Bool
  unfolding count_in
  demote_to_l3 m node =
      let r = Disk.insert to_string node_size m.l3_cache node in
      if r.1
      then (record m { l3_cache = r.0; l3_stats = count_in m.l3_stats }, true)
      else (record m { l3_cache = r.0 }, false)

  -- The first node of the first level moves down, or is deleted.
  unfoldable pub demote : MultiLevelCache L → DiskNode → MultiLevelCache L
  demote m node = let r = demote_to_l2 m node in if r.1 then r.0 else (demote_to_l3 (r.0) node).0

  unfoldable pub evict_oldest : List DiskNode → MultiLevelCache L → MultiLevelCache L
  unfolding demote count_out
  evict_oldest [] m = m
  evict_oldest (node ∷ queue) m =
      demote (record m { l1_cache = queue; l1_stats = count_out m.l1_stats }) node

  unfoldable pub eviction_policy_l1 : MultiLevelCache L → MultiLevelCache L
  unfolding evict_oldest
  eviction_policy_l1 m = evict_oldest m.l1_cache m

  -- The source tests the result of enqueue, which is void in LockFreeQueue; here it is true, as no
  -- enqueue fails.
  unfoldable pub enqueue_l1 : MultiLevelCache L → DiskNode → MultiLevelCache L
  unfolding count_in
  enqueue_l1 m node = record m {
    l1_cache = m.l1_cache ++ node ∷ [];
    l1_stats = count_in m.l1_stats;
  }

  unfoldable pub promote_to_l1 : MultiLevelCache L → DiskNode → MultiLevelCache L × Bool
  promote_to_l1 m node =
      let room = if ltb m.l1_stats.item_count m.l1_capacity then m else eviction_policy_l1 m in
      (enqueue_l1 room node, true)

  unfoldable pub should_promote_to_l1 : MultiLevelCache L → DiskNode → Bool
  should_promote_to_l1 m node = leb_ℤ m.l1_min_priority node.priority

  unfoldable pub should_demote_to_l2 : MultiLevelCache L → ℕ → DiskNode → Bool
  should_demote_to_l2 m now node =
      ltb_ℤ node.priority m.l1_min_priority || ltb m.l1_max_age_ns (sub64 now node.timestamp)

  unfoldable pub should_demote_to_l3 : MultiLevelCache L → ℕ → DiskNode → Bool
  should_demote_to_l3 m now node = ltb m.l2_max_age_ns (sub64 now node.timestamp)

  module _ (initial : DiskNode) (to_ns : ℕ → ℕ) where
    -- The node that insert makes, from two reads of the clock.
    unfoldable pub make_node : ℕ → Bytes → ℤ → ℕ → ℕ → ℕ → DiskNode
    make_node value symbol priority expiry_seconds made read = record initial {
      value = value;
      symbol = symbol;
      priority = priority;
      timestamp = made;
      expiry = add64 read (to_ns expiry_seconds);
    }

    -- insert; `now` is the clock in record_access.
    unfoldable pub insert :
        MultiLevelCache L → ℕ → Bytes → ℤ → ℕ → ℕ → ℕ → ℕ → MultiLevelCache L × Bool
    insert m value symbol priority expiry_seconds made read now =
        let node = make_node value symbol priority expiry_seconds made read in
        let below = level2.insert m.l2_cache value symbol priority expiry_seconds in
        let rest = record m { l2_cache = below.0 } in
        if ltb m.l1_stats.item_count m.l1_capacity && leb_ℤ m.l1_min_priority priority
        then (enqueue_l1 m (record_access now node), true)
        else if below.1
        then (record rest { l2_stats = count_in m.l2_stats }, true)
        else demote_to_l3 rest node

  -- What get_highest_priority does with the third level's answer. The node found stays there.
  unfoldable pub answer_l3 :
      MultiLevelCache L → Bytes → ℕ → Option DiskNode → MultiLevelCache L × Option DiskNode
  answer_l3 m symbol now none = (
    record m {
      l1_stats = count_miss m.l1_stats;
      l2_stats = count_miss m.l2_stats;
      l3_stats = count_miss m.l3_stats;
    },
    none,
  )
  answer_l3 m symbol now (some found) =
      let result = record_access now found in
      let touched = record m.l3_cache {
        memory_index = put (key_of to_string symbol 0) result m.l3_cache.memory_index;
      } in
      let hit = record m { l3_cache = touched; l3_stats = count_hit m.l3_stats } in
      ((demote_to_l2 hit result).0, some result)

  -- What it does with the second level's answer.
  unfoldable pub answer_l2 :
      MultiLevelCache L → Bytes → ℕ → Option DiskNode → MultiLevelCache L × Option DiskNode
  answer_l2 m symbol now none = answer_l3 m symbol now (Disk.retrieve to_string m.l3_cache symbol 0)
  answer_l2 m symbol now (some found) =
      let result = record_access now found in
      let hit = record m { l2_stats = count_hit m.l2_stats } in
      (if should_promote_to_l1 hit result then (promote_to_l1 hit result).0 else hit, some result)

  -- What it does with what the search of the first level found.
  unfoldable pub answer_l1 :
      MultiLevelCache L → Bytes → ℕ → Option DiskNode → MultiLevelCache L × Option DiskNode
  answer_l1 m symbol now none =
      let below = level2.get_highest_priority m.l2_cache symbol in
      answer_l2 (record m { l2_cache = below.0 }) symbol now below.1
  answer_l1 m symbol now (some found) =
      (record m { l1_stats = count_hit m.l1_stats }, some (record_access now found))

  unfoldable pub get_highest_priority :
      MultiLevelCache L → Bytes → ℕ → MultiLevelCache L × Option DiskNode
  get_highest_priority m symbol now =
      let searched = search (has_symbol symbol) [] m.l1_cache in
      answer_l1 (record m { l1_cache = searched.0 }) symbol now searched.1

  -- The second and third level's part of remove.
  unfoldable pub remove_below : MultiLevelCache L → Bytes → ℕ → MultiLevelCache L × Bool
  remove_below m symbol value =
      let below = level2.remove m.l2_cache symbol value in
      let kept = record m { l2_cache = below.0 } in
      let disk = Disk.remove to_string node_size m.l3_cache symbol value in
      let rest = record kept { l3_cache = disk.0 } in
      if below.1
      then (record kept { l2_stats = count_out m.l2_stats }, true)
      else if disk.1
      then (record rest { l3_stats = count_out m.l3_stats }, true)
      else (rest, false)

  -- What remove does with what the search of the first level found.
  unfoldable pub remove_found :
      MultiLevelCache L → Bytes → ℕ → Option DiskNode → MultiLevelCache L × Bool
  remove_found m symbol value none = remove_below m symbol value
  remove_found m symbol value (some found) = (record m { l1_stats = count_out m.l1_stats }, true)

  unfoldable pub remove : (ℕ → ℕ → Bool) → MultiLevelCache L → Bytes → ℕ → MultiLevelCache L × Bool
  remove same_double m symbol value =
      let searched = search (matches same_double symbol value) [] m.l1_cache in
      remove_found (record m { l1_cache = searched.0 }) symbol value searched.1

  unfoldable pub clear : MultiLevelCache L → MultiLevelCache L
  clear m = record m {
    l1_cache = [];
    l2_cache = level2.clear m.l2_cache;
    l3_cache = Disk.clear m.l3_cache;
    l1_stats = record m.l1_stats { item_count = 0 };
    l2_stats = record m.l2_stats { item_count = 0 };
    l3_stats = record m.l3_stats { item_count = 0 };
  }

  -- A round of the background worker; `over` is `count > capacity * 0.9` on doubles.
  unfoldable pub manage : (ℕ → ℕ → Bool) → MultiLevelCache L → MultiLevelCache L
  manage over m = if over m.l1_stats.item_count m.l1_capacity then eviction_policy_l1 m else m

unfoldable pub set_l1_capacity : {L : Type 0} → MultiLevelCache L → ℕ → MultiLevelCache L
set_l1_capacity m capacity = record m { l1_capacity = capacity }

unfoldable pub set_l2_capacity : {L : Type 0} → MultiLevelCache L → ℕ → MultiLevelCache L
set_l2_capacity m capacity = record m { l2_capacity = capacity }

unfoldable pub set_l3_capacity : {L : Type 0} → MultiLevelCache L → ℕ → MultiLevelCache L
set_l3_capacity m capacity = record m { l3_capacity = capacity }
