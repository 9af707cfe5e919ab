-- ===== src/Metrics.antt =====
-- include/metrics.hpp and src/metrics.cpp: MetricsCollector. A counter is a number below 2^64;
-- `divide` is the division of two integers cast to double, and `to_double` the cast alone. The
-- worker thread is the rounds that it makes; the reports and the metrics file are output only.
pub mod Events
pub mod Tally
pub mod History
pub mod Alerts
mod Tests
use hft_radial_cache.Common.{
  ℕ, zero, suc, ◌+◌, ◌-◌, Bool, true, false, not, ◌&&◌, Option, none, some, List, [], ◌∷◌, ◌++◌,
  ltb, ◌==◌, if◌then◌else◌, length,
}
use hft_radial_cache.Common.Bytes.{Bytes, bytes_eq}
use hft_radial_cache.Common.Double.{Double, positive, zero_double, double_lt}
use hft_radial_cache.Common.Words.{add64, mul64}

pub record CacheMetrics : Type 0 where
  pub total_inserts : ℕ
  pub total_retrieves : ℕ
  pub total_batch_inserts : ℕ
  pub total_batch_retrieves : ℕ
  pub total_insert_latency : ℕ
  pub total_retrieve_latency : ℕ
  pub total_batch_insert_latency : ℕ
  pub total_batch_retrieve_latency : ℕ
  pub insert_errors : ℕ
  pub retrieve_errors : ℕ
  pub memory_errors : ℕ
  pub recovery_attempts : ℕ
  pub current_memory_usage : ℕ
  pub peak_memory_usage : ℕ
  pub cache_hits : ℕ
  pub cache_misses : ℕ
  pub thread_contention_count : ℕ
  pub lock_wait_time : ℕ
  pub numa_allocations : ℕ
  pub cross_numa_accesses : ℕ

pub record MetricsSnapshot : Type 0 where
  pub timestamp : ℕ
  pub metrics : CacheMetrics

pub record AlertThresholds : Type 0 where
  pub max_latency_ns : ℕ
  pub max_error_rate : ℕ

pub record MetricsCollector : Type 0 where
  pub enable_metrics : Bool
  pub max_memory_mb : ℕ
  pub metrics : CacheMetrics
  pub shutdown : Bool
  -- metrics_thread_.joinable()
  pub joinable : Bool
  pub historical_data : List MetricsSnapshot
  pub thresholds : AlertThresholds

abbrev pub max_history_size : ℕ
max_history_size = 1000

abbrev pub no_metrics : CacheMetrics
no_metrics = record {
  total_inserts = 0;
  total_retrieves = 0;
  total_batch_inserts = 0;
  total_batch_retrieves = 0;
  total_insert_latency = 0;
  total_retrieve_latency = 0;
  total_batch_insert_latency = 0;
  total_batch_retrieve_latency = 0;
  insert_errors = 0;
  retrieve_errors = 0;
  memory_errors = 0;
  recovery_attempts = 0;
  current_memory_usage = 0;
  peak_memory_usage = 0;
  cache_hits = 0;
  cache_misses = 0;
  thread_contention_count = 0;
  lock_wait_time = 0;
  numa_allocations = 0;
  cross_numa_accesses = 0;
}

unfoldable pub start_metrics_thread : MetricsCollector → MetricsCollector
start_metrics_thread c = record c { shutdown = false; joinable = true }

unfoldable pub new : Bool → ℕ → MetricsCollector
unfolding start_metrics_thread
new enable_metrics max_memory_mb =
    let idle : MetricsCollector = record {
      enable_metrics = enable_metrics;
      max_memory_mb = max_memory_mb;
      metrics = no_metrics;
      shutdown = false;
      joinable = false;
      historical_data = [];
      thresholds = record { max_latency_ns = 1000000; max_error_rate = 1000 };
    } in
    if enable_metrics then start_metrics_thread idle else idle

-- `if (!success) errors.fetch_add(1)`
abbrev pub one_unless : Bool → ℕ
one_unless success = if success then 0 else 1

abbrev pub one_if : Bool → ℕ
one_if b = if b then 1 else 0

unfoldable pub record_insert : MetricsCollector → ℕ → Bool → MetricsCollector
record_insert c latency_ns success =
    let m = c.metrics in
    let counted = record m {
      total_inserts = add64 m.total_inserts 1;
      total_insert_latency = add64 m.total_insert_latency latency_ns;
    } in
    let failed = record counted { insert_errors = add64 m.insert_errors 1 } in
    if not c.enable_metrics then c else record c { metrics = if success then counted else failed }

unfoldable pub record_retrieve : MetricsCollector → ℕ → Bool → Bool → MetricsCollector
record_retrieve c latency_ns success hit =
    let m = c.metrics in
    let counted = record m {
      total_retrieves = add64 m.total_retrieves 1;
      total_retrieve_latency = add64 m.total_retrieve_latency latency_ns;
    } in
    let answered =
      if hit
      then record counted { cache_hits = add64 m.cache_hits 1 }
      else record counted { cache_misses = add64 m.cache_misses 1 } in
    let failed = record answered { retrieve_errors = add64 m.retrieve_errors 1 } in
    if not c.enable_metrics then c else record c { metrics = if success then answered else failed }

unfoldable pub record_batch_insert : MetricsCollector → ℕ → ℕ → Bool → MetricsCollector
record_batch_insert c latency_ns batch_size success =
    let m = c.metrics in
    let counted = record m {
      total_batch_inserts = add64 m.total_batch_inserts 1;
      total_batch_insert_latency = add64 m.total_batch_insert_latency latency_ns;
    } in
    let failed = record counted { insert_errors = add64 m.insert_errors 1 } in
    if not c.enable_metrics then c else record c { metrics = if success then counted else failed }

unfoldable pub record_batch_retrieve : MetricsCollector → ℕ → ℕ → Bool → MetricsCollector
record_batch_retrieve c latency_ns batch_size success =
    let m = c.metrics in
    let counted = record m {
      total_batch_retrieves = add64 m.total_batch_retrieves 1;
      total_batch_retrieve_latency = add64 m.total_batch_retrieve_latency latency_ns;
    } in
    let failed = record counted { retrieve_errors = add64 m.retrieve_errors 1 } in
    if not c.enable_metrics then c else record c { metrics = if success then counted else failed }

-- The loop that raises the peak: its compare-and-swap succeeds.
unfoldable pub record_memory_usage : MetricsCollector → ℕ → MetricsCollector
record_memory_usage c usage_bytes =
    let m = record c.metrics { current_memory_usage = usage_bytes } in
    let raised = record m { peak_memory_usage = usage_bytes } in
    if not c.enable_metrics
    then c
    else record c { metrics = if ltb m.peak_memory_usage usage_bytes then raised else m }

abbrev pub memory_text : Bytes
memory_text = b'm' ∷ b'e' ∷ b'm' ∷ b'o' ∷ b'r' ∷ b'y' ∷ []

abbrev pub insert_text : Bytes
insert_text = b'i' ∷ b'n' ∷ b's' ∷ b'e' ∷ b'r' ∷ b't' ∷ []

abbrev pub retrieve_text : Bytes
retrieve_text = b'r' ∷ b'e' ∷ b't' ∷ b'r' ∷ b'i' ∷ b'e' ∷ b'v' ∷ b'e' ∷ []

unfoldable pub record_error : MetricsCollector → Bytes → MetricsCollector
record_error c error_type =
    let m = c.metrics in
    if not c.enable_metrics
    then c
    else if bytes_eq error_type memory_text
    then record c { metrics = record m { memory_errors = add64 m.memory_errors 1 } }
    else if bytes_eq error_type insert_text
    then record c { metrics = record m { insert_errors = add64 m.insert_errors 1 } }
    else if bytes_eq error_type retrieve_text
    then record c { metrics = record m { retrieve_errors = add64 m.retrieve_errors 1 } }
    else c

unfoldable pub record_recovery_attempt : MetricsCollector → MetricsCollector
record_recovery_attempt c =
    let m = c.metrics in
    if not c.enable_metrics
    then c
    else record c { metrics = record m { recovery_attempts = add64 m.recovery_attempts 1 } }

unfoldable pub record_thread_contention : MetricsCollector → ℕ → MetricsCollector
record_thread_contention c wait_time_ns =
    let m = c.metrics in
    if not c.enable_metrics then c else record c {
      metrics = record m {
        thread_contention_count = add64 m.thread_contention_count 1;
        lock_wait_time = add64 m.lock_wait_time wait_time_ns;
      };
    }

unfoldable pub record_numa_allocation : MetricsCollector → Bool → MetricsCollector
record_numa_allocation c cross_numa =
    let m = c.metrics in
    let counted = record m { numa_allocations = add64 m.numa_allocations 1 } in
    let crossed = record counted { cross_numa_accesses = add64 m.cross_numa_accesses 1 } in
    if not c.enable_metrics
    then c
    else record c { metrics = if cross_numa then crossed else counted }

-- The loop that erases the oldest snapshots.
unfoldable pub trim : List MetricsSnapshot → List MetricsSnapshot
trim [] = []
trim (oldest ∷ later) =
    let rest = trim later in
    if ltb max_history_size (length (oldest ∷ later)) then rest else oldest ∷ later

unfoldable pub update_historical_data : MetricsCollector → ℕ → MetricsCollector
unfolding trim
update_historical_data c now = record c {
  historical_data =
      trim (c.historical_data ++ record { timestamp = now; metrics = c.metrics } ∷ []);
}

unfoldable pub enable_metrics_collection : MetricsCollector → Bool → MetricsCollector
unfolding start_metrics_thread
enable_metrics_collection c enable =
    let switched = record c { enable_metrics = enable } in
    if enable && not c.joinable
    then start_metrics_thread switched
    else if not enable && c.joinable
    then record switched { shutdown = true; joinable = false }
    else switched

unfoldable pub set_alert_thresholds : MetricsCollector → AlertThresholds → MetricsCollector
set_alert_thresholds c thresholds = record c { thresholds = thresholds }
