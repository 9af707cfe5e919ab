-- ===== src/Memory/Tests.antt =====
-- The theorems on the memory manager at a manager with a pool of two nodes of 32 bytes.
use hft_radial_cache.Common.{◌≡◌, refl, true, [], ◌∷◌, arith}
use hft_radial_cache.Common.Double.{sixty}
use hft_radial_cache.Common.Int.{negsuc}
use hft_radial_cache.Config.{CacheConfig, validate_config}
use hft_radial_cache.Memory.{MemoryManager, deallocate_node, cleanup_expired_nodes}
use hft_radial_cache.Memory.Freed.{starts, deallocates, cleans, IsBalanced, reached-IsBalanced}

abbrev config : CacheConfig
config = record {
  max_nodes = 2;
  cleanup_interval_ms = 1000;
  max_memory_mb = 1024;
  enable_memory_pool = true;
  num_worker_threads = 4;
  batch_size = 100;
  hash_table_buckets = 256;
  heap_initial_capacity = 1024;
  enable_numa = true;
  numa_node = negsuc 0;
  enable_metrics = true;
  metrics_interval_ms = 5000;
  metrics_file = [];
  enable_error_recovery = true;
  max_retry_attempts = 3;
  retry_delay = 10;
  default_expiry_seconds = sixty;
  enable_lazy_cleanup = true;
  max_expired_nodes_per_cleanup = 1000;
  enable_lock_free_operations = true;
  spin_count_before_yield = 1000;
}

-- One node of the pool is out, the other waits for cleanup.
abbrev manager : MemoryManager
manager = record {
  config = config;
  node_pool = 0 ∷ 1 ∷ [];
  pool_index = 2;
  allocated_nodes = 1;
  expired_nodes = 0 ∷ [];
  total_memory_usage = 128;
  memory_blocks = [];
  allocations = 2;
  deallocations = 1;
  cleanup_cycles = 0;
  next_node = 2;
  freed = [];
}

config_valid : validate_config config ≡ true
unfolding validate_config
config_valid = refl

manager-IsBalanced : IsBalanced 32 manager
manager-IsBalanced = record { limit = omega arith; balance = refl; small = omega arith }

abbrev later : MemoryManager
later = cleanup_expired_nodes 32 (deallocate_node 32 manager 1)

reached-IsBalanced_example : IsBalanced 32 later
reached-IsBalanced_example =
    reached-IsBalanced 32 manager later manager-IsBalanced
      (cleans (deallocates 1 starts (omega arith)))
