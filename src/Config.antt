-- ===== src/Config.antt =====
-- include/config.hpp: CacheConfig. A double is as in Common.Double; a duration is its milliseconds.
use hft_radial_cache.Common.{ℕ, Bool, ◌&&◌, ltb}
use hft_radial_cache.Common.Bytes.{Bytes}
use hft_radial_cache.Common.Double.{Double}
use hft_radial_cache.Common.Int.{ℤ}

pub record CacheConfig : Type 0 where
  pub max_nodes : ℕ
  pub cleanup_interval_ms : ℕ
  pub max_memory_mb : ℕ
  pub enable_memory_pool : Bool
  pub num_worker_threads : ℕ
  pub batch_size : ℕ
  pub hash_table_buckets : ℕ
  pub heap_initial_capacity : ℕ
  pub enable_numa : Bool
  pub numa_node : ℤ
  pub enable_metrics : Bool
  pub metrics_interval_ms : ℕ
  pub metrics_file : Bytes
  pub enable_error_recovery : Bool
  pub max_retry_attempts : ℕ
  pub retry_delay : ℕ
  pub default_expiry_seconds : Double
  pub enable_lazy_cleanup : Bool
  pub max_expired_nodes_per_cleanup : ℕ
  pub enable_lock_free_operations : Bool
  pub spin_count_before_yield : ℕ

unfoldable pub validate_config : CacheConfig → Bool
validate_config c =
    ltb 0 c.max_nodes
    && ltb 0 c.cleanup_interval_ms
    && ltb 0 c.max_memory_mb
    && ltb 0 c.num_worker_threads
    && ltb 0 c.batch_size
    && ltb 0 c.hash_table_buckets
