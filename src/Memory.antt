-- ===== src/Memory.antt =====
-- include/memory_manager.hpp and src/memory_manager.cpp: MemoryManager. A `Node*` is a number: the
-- nodes of the pool come first, later allocations follow. `node_size` is sizeof(Node); `granted`
-- is whether the system's allocator returns memory. The cleanup thread is the calls of
-- cleanup_expired_nodes that it makes.
pub mod Account
pub mod Freed
mod Tests
use hft_radial_cache.Common.{
  ℕ, zero, suc, ◌+◌, ◌-◌, ◌*◌, Bool, true, false, not, ◌&&◌, ◌||◌, Option, none, some, List, [],
  ◌∷◌, ◌++◌, ltb, leb, if◌then◌else◌, length, get_elem?, take, drop, min,
}
use hft_radial_cache.Common.Words.{add64, sub64, mul64}
use hft_radial_cache.Config
use hft_radial_cache.Config.{CacheConfig}

pub record MemoryManager : Type 0 where
  pub config : CacheConfig
  pub node_pool : List ℕ
  pub pool_index : ℕ
  pub allocated_nodes : ℕ
  pub expired_nodes : List ℕ
  pub total_memory_usage : ℕ
  pub memory_blocks : List ℕ
  pub allocations : ℕ
  pub deallocations : ℕ
  pub cleanup_cycles : ℕ
  -- The number of the next new node, and the nodes given back to the system, latest first.
  pub next_node : ℕ
  pub freed : List ℕ

module _ (node_size : ℕ) where
  -- numa_allocate of one node: the allocation counts its memory.
  unfoldable pub numa_allocate : MemoryManager → Bool → MemoryManager × Option ℕ
  numa_allocate m granted =
      if granted
      then (
        record m {
          total_memory_usage = add64 m.total_memory_usage node_size;
          next_node = m.next_node + 1;
        },
        some m.next_node,
      )
      else (m, none)

  -- numa_deallocate of one node: the memory is counted off.
  unfoldable pub numa_deallocate : MemoryManager → ℕ → MemoryManager
  numa_deallocate m node = record m {
    total_memory_usage = sub64 m.total_memory_usage node_size;
    freed = node ∷ m.freed;
  }

  -- The loop of the constructor, with memory granted throughout: the size is counted once more.
  unfoldable pub fill_pool : ℕ → MemoryManager → MemoryManager
  fill_pool zero m = m
  fill_pool (suc n) m = fill_pool n (record m {
    node_pool = m.node_pool ++ m.next_node ∷ [];
    next_node = m.next_node + 1;
    total_memory_usage = add64 (add64 m.total_memory_usage node_size) node_size;
  })

  -- `none` is the exception for an invalid configuration.
  unfoldable pub new : CacheConfig → Option MemoryManager
  unfolding fill_pool Config.validate_config
  new config =
      let bare : MemoryManager = record {
        config = config;
        node_pool = [];
        pool_index = 0;
        allocated_nodes = 0;
        expired_nodes = [];
        total_memory_usage = 0;
        memory_blocks = [];
        allocations = 0;
        deallocations = 0;
        cleanup_cycles = 0;
        next_node = 0;
        freed = [];
      } in
      let pooled = fill_pool config.max_nodes bare in
      if not (Config.validate_config config)
      then none
      else if config.enable_memory_pool
      then some pooled
      else some bare

  unfoldable pub is_memory_available : MemoryManager → Bool
  is_memory_available m =
      ltb m.allocated_nodes m.config.max_nodes
      && ltb m.total_memory_usage (mul64 (mul64 m.config.max_memory_mb 1024) 1024)

  -- The two counters that an allocation raises.
  unfoldable pub count_allocation : MemoryManager → MemoryManager
  count_allocation m = record m {
    allocated_nodes = add64 m.allocated_nodes 1;
    allocations = add64 m.allocations 1;
  }

  -- The fallback of allocate_node.
  unfoldable pub allocate_block : MemoryManager → Bool → MemoryManager × Option ℕ
  unfolding numa_allocate count_allocation
  allocate_block m granted =
      let r = numa_allocate m granted in
      elim r.1 [
        | none ↦ (r.0, none)
        | some node ↦ (
          record (count_allocation r.0) { memory_blocks = r.0.memory_blocks ++ node ∷ [] },
          some node,
        )
      ]

  unfoldable pub allocate_node : MemoryManager → Bool → MemoryManager × Option ℕ
  unfolding is_memory_available allocate_block
  allocate_node m granted =
      let taken = record m { pool_index = add64 m.pool_index 1 } in
      if not (is_memory_available m)
      then (m, none)
      else if m.config.enable_memory_pool && ltb m.pool_index (length m.node_pool)
      then (count_allocation taken, get_elem? m.node_pool m.pool_index)
      else allocate_block m granted

  unfoldable pub mark_for_cleanup : MemoryManager → ℕ → MemoryManager
  mark_for_cleanup m node = record m { expired_nodes = m.expired_nodes ++ node ∷ [] }

  unfoldable pub deallocate_node : MemoryManager → ℕ → MemoryManager
  unfolding mark_for_cleanup
  deallocate_node m node =
      mark_for_cleanup
        (record m {
          deallocations = add64 m.deallocations 1;
          allocated_nodes = sub64 m.allocated_nodes 1;
        })
        node

  -- The second loop of the two cleanups: the memory is counted off once more.
  unfoldable pub release : List ℕ → MemoryManager → MemoryManager
  unfolding numa_deallocate
  release [] m = m
  release (node ∷ nodes) m =
      let d = numa_deallocate m node in
      release nodes (record d { total_memory_usage = sub64 d.total_memory_usage node_size })

  unfoldable pub cleanup_expired_nodes : MemoryManager → MemoryManager
  unfolding release
  cleanup_expired_nodes m =
      let cleanup_count = min (length m.expired_nodes) m.config.max_expired_nodes_per_cleanup in
      let nodes_to_cleanup = take cleanup_count m.expired_nodes in
      let kept = record m { expired_nodes = drop cleanup_count m.expired_nodes } in
      let done = release nodes_to_cleanup kept in
      record done { cleanup_cycles = add64 done.cleanup_cycles 1 }

  unfoldable pub emergency_cleanup : MemoryManager → MemoryManager
  unfolding release
  emergency_cleanup m = release m.expired_nodes (record m { expired_nodes = [] })

  -- The two loops of the destructor behind the emergency cleanup.
  unfoldable pub deallocate_all : List ℕ → MemoryManager → MemoryManager
  unfolding numa_deallocate
  deallocate_all [] m = m
  deallocate_all (node ∷ nodes) m = deallocate_all nodes (numa_deallocate m node)

  unfoldable pub destroy : MemoryManager → MemoryManager
  unfolding emergency_cleanup deallocate_all
  destroy m = deallocate_all m.memory_blocks (deallocate_all m.node_pool (emergency_cleanup m))

  unfoldable pub validate_memory_integrity : MemoryManager → Bool
  validate_memory_integrity m =
      leb m.allocated_nodes m.config.max_nodes
      && leb m.total_memory_usage (mul64 (mul64 m.config.max_memory_mb 1024) 1024)
      && leb m.pool_index (length m.node_pool)
