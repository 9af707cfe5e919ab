-- ===== src/Memory/Account.antt =====
-- src/memory_manager.cpp: the accounts of memory and of nodes.
use hft_radial_cache.Common.{
  ℕ, zero, suc, ◌+◌, ◌-◌, ◌*◌, ◌≤◌, ◌<◌, ◌≡◌, refl, ◌∙◌, ap, Bool, true, false, not, none, some,
  List, [], ◌∷◌, ◌++◌, arith, if◌then◌else◌, length, length-append, take, drop, min,
}
use hft_radial_cache.Common.Words.{word, add64, sub64}
use hft_radial_cache.Config.{CacheConfig, validate_config}
use hft_radial_cache.Memory.{
  MemoryManager, numa_deallocate, fill_pool, new, release, cleanup_expired_nodes,
}

module _ (node_size : ℕ) where
  abbrev cost : List ℕ → ℕ
  cost nodes = length nodes * (node_size + node_size)

  release-total :
      (nodes : List ℕ) (m : MemoryManager)
      → cost nodes ≤ m.total_memory_usage
      → m.total_memory_usage < word
      → (release node_size nodes m).total_memory_usage + cost nodes ≡ m.total_memory_usage
  unfolding release numa_deallocate
  release-total [] m enough small = omega arith
  release-total (node ∷ nodes) m enough small =
      let left : sub64 (sub64 m.total_memory_usage node_size) node_size
          ≡ m.total_memory_usage - (node_size + node_size) =
        off_twice m.total_memory_usage node_size (omega (arith, split (length nodes))) small in
      let next = record (numa_deallocate node_size m node) {
        total_memory_usage = sub64 (sub64 m.total_memory_usage node_size) node_size;
      } in
      let rest =
        release-total nodes next (omega (arith, left, split (length nodes))) (omega arith) in
      omega (arith, rest, left, split (length nodes))
    where
      split :
          (n : ℕ)
          → suc n * (node_size + node_size) ≡ n * (node_size + node_size) + (node_size + node_size)
      split n = omega arith

      off_twice : (t k : ℕ) → k + k ≤ t → t < word → sub64 (sub64 t k) k ≡ t - (k + k)
      off_twice t k h small = omega arith

  pub release-others :
      (nodes : List ℕ) (m : MemoryManager)
      → ((release node_size nodes m).expired_nodes ≡ m.expired_nodes)
        × ((release node_size nodes m).node_pool ≡ m.node_pool)
        × ((release node_size nodes m).memory_blocks ≡ m.memory_blocks)
        × ((release node_size nodes m).allocated_nodes ≡ m.allocated_nodes)
        × ((release node_size nodes m).allocations ≡ m.allocations)
        × ((release node_size nodes m).deallocations ≡ m.deallocations)
        × ((release node_size nodes m).config ≡ m.config)
  unfolding release numa_deallocate
  release-others [] m = (refl, refl, refl, refl, refl, refl, refl)
  release-others (node ∷ nodes) m = release-others nodes _

  abbrev pub cleaned : MemoryManager → List ℕ
  cleaned m =
      take (min (length m.expired_nodes) m.config.max_expired_nodes_per_cleanup) m.expired_nodes

  -- A cleanup counts the memory of each node that it gives back off twice, if that much was counted
  -- before; the nodes it leaves in the queue are those behind the ones it gives back.
  pub cleanup_twice :
      (m : MemoryManager)
      → length (cleaned m) * (node_size + node_size) ≤ m.total_memory_usage
      → m.total_memory_usage < word
      → ((cleanup_expired_nodes node_size m).total_memory_usage
            + length (cleaned m) * (node_size + node_size)
          ≡ m.total_memory_usage)
        × (cleaned m ++ (cleanup_expired_nodes node_size m).expired_nodes ≡ m.expired_nodes)
  unfolding cleanup_expired_nodes
  cleanup_twice m enough small =
      let n = min (length m.expired_nodes) m.config.max_expired_nodes_per_cleanup in
      let kept = record m { expired_nodes = drop n m.expired_nodes } in
      (
        release-total (cleaned m) kept enough small,
        ap (λ xs. cleaned m ++ xs) ((release-others (cleaned m) kept).0)
            ∙ take-drop n m.expired_nodes,
      )
    where
      take-drop : (n : ℕ) (xs : List ℕ) → take n xs ++ drop n xs ≡ xs
      take-drop zero xs = refl
      take-drop (suc n) [] = refl
      take-drop (suc n) (x ∷ xs) = ap (◌∷◌ x) (take-drop n xs)

  fill_pool-total :
      (n : ℕ) (m : MemoryManager)
      → m.total_memory_usage + n * (node_size + node_size) < word
      → ((fill_pool node_size n m).total_memory_usage
          ≡ m.total_memory_usage + n * (node_size + node_size))
        × (length (fill_pool node_size n m).node_pool ≡ length m.node_pool + n)
  unfolding fill_pool
  fill_pool-total zero m small = (omega arith, omega arith)
  fill_pool-total (suc n) m small =
      let split : suc n * (node_size + node_size)
          ≡ n * (node_size + node_size) + (node_size + node_size) =
        omega arith in
      let added : add64 (add64 m.total_memory_usage node_size) node_size
          ≡ m.total_memory_usage + (node_size + node_size) =
        omega arith in
      let next = record m {
        node_pool = m.node_pool ++ m.next_node ∷ [];
        next_node = m.next_node + 1;
        total_memory_usage = add64 (add64 m.total_memory_usage node_size) node_size;
      } in
      let (total, size) = fill_pool-total n next (omega (arith, split, added)) in
      (
        omega (arith, total, split, added),
        omega (arith, size, length-append m.node_pool (m.next_node ∷ [])),
      )

  -- For a valid configuration with a pool the constructor makes a pool of `max_nodes` nodes, and
  -- counts the memory of each twice, if that does not wrap.
  pub new_twice :
      (config : CacheConfig)
      → validate_config config ≡ true
      → config.enable_memory_pool ≡ true
      → config.max_nodes * (node_size + node_size) < word
      → (m : MemoryManager) × (new node_size config ≡ some m)
        × (length m.node_pool ≡ config.max_nodes)
        × (m.total_memory_usage ≡ config.max_nodes * (node_size + node_size))
  unfolding new
  new_twice config valid pooled small =
      let bare : MemoryManager = record {
        config = config;
        node_pool = [];
        pool_index = 0;
        allocated_nodes = 0;
        expired_nodes = [];
        total_memory_usage = 0;
        memory_blocks = [];
        allocations = 0;
        deallocations = 0;
        cleanup_cycles = 0;
        next_node = 0;
        freed = [];
      } in
      let (total, size) = fill_pool-total config.max_nodes bare (omega arith) in
      (
        fill_pool node_size config.max_nodes bare,
        chosen (validate_config config) config.enable_memory_pool _ _ valid pooled,
        omega (arith, size),
        omega (arith, total),
      )
    where
      chosen :
          (a b : Bool) (x y : MemoryManager)
          → a ≡ true
          → b ≡ true
          → (if not a then none else if b then some x else some y) ≡ some x
      chosen true true x y p q = refl
      chosen true false x y p q = cc
      chosen false b x y p q = cc
