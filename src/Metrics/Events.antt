-- ===== src/Metrics/Events.antt =====
-- Sequences of calls, and what they add up to.
use hft_radial_cache.Common.{ℕ, ◌+◌, max, Bool, List, [], ◌∷◌, if◌then◌else◌}
use hft_radial_cache.Common.Bytes.{Bytes, bytes_eq}
use hft_radial_cache.Metrics.{
  MetricsCollector, record_insert, record_retrieve, record_batch_insert, record_batch_retrieve,
  record_memory_usage, record_error, record_recovery_attempt, record_thread_contention,
  record_numa_allocation, insert_text, retrieve_text, update_historical_data,
  enable_metrics_collection, one_if, one_unless,
}

-- A call that records something.
pub data Measure : Type 0 where
  inserted : ℕ → Bool → Measure
  retrieved : ℕ → Bool → Bool → Measure
  batch_inserted batch_retrieved : ℕ → ℕ → Bool → Measure
  memory_used : ℕ → Measure
  erred : Bytes → Measure
  recovering : Measure
  contended : ℕ → Measure
  numa_allocated : Bool → Measure

-- A call: besides these the switch, and a round of the worker, which takes a snapshot.
pub data Event : Type 0 where
  measured : Measure → Event
  switched : Bool → Event
  sampled : ℕ → Event

unfoldable pub measure : MetricsCollector → Measure → MetricsCollector
unfolding record_insert record_retrieve record_batch_insert record_batch_retrieve
    record_memory_usage record_error record_recovery_attempt record_thread_contention
    record_numa_allocation
measure c (inserted latency success) = record_insert c latency success
measure c (retrieved latency success hit) = record_retrieve c latency success hit
measure c (batch_inserted latency size success) = record_batch_insert c latency size success
measure c (batch_retrieved latency size success) = record_batch_retrieve c latency size success
measure c (memory_used usage) = record_memory_usage c usage
measure c (erred error_type) = record_error c error_type
measure c recovering = record_recovery_attempt c
measure c (contended wait) = record_thread_contention c wait
measure c (numa_allocated cross) = record_numa_allocation c cross

unfoldable pub run : MetricsCollector → List Event → MetricsCollector
unfolding measure
run c [] = c
run c (measured x ∷ events) = run (measure c x) events
run c (switched enable ∷ events) = run (enable_metrics_collection c enable) events
run c (sampled now ∷ events) = run (update_historical_data c now) events

-- The sum of the weights of what is recorded while the collection is on.
abbrev pub tally : (Measure → ℕ) → Bool → List Event → ℕ
tally weight on [] = 0
tally weight on (measured x ∷ events) = (if on then weight x else 0) + tally weight on events
tally weight on (switched enable ∷ events) = tally weight enable events
tally weight on (sampled now ∷ events) = tally weight on events

-- The largest memory usage that is recorded while the collection is on, if above `peak`.
abbrev pub highest : ℕ → Bool → List Event → ℕ
highest peak on [] = peak
highest peak on (measured (memory_used usage) ∷ events) =
    highest (if on then max peak usage else peak) on events
highest peak on (measured x ∷ events) = highest peak on events
highest peak on (switched enable ∷ events) = highest peak enable events
highest peak on (sampled now ∷ events) = highest peak on events

abbrev pub is_insert : Measure → ℕ
is_insert (inserted latency success) = 1
is_insert x = 0

abbrev pub insert_latency : Measure → ℕ
insert_latency (inserted latency success) = latency
insert_latency x = 0

-- An insert or a batch insert that failed, or an error reported as one of insertion.
abbrev pub insert_failure : Measure → ℕ
insert_failure (inserted latency success) = one_unless success
insert_failure (batch_inserted latency size success) = one_unless success
insert_failure (erred error_type) = one_if (bytes_eq error_type insert_text)
insert_failure x = 0

abbrev pub is_retrieve : Measure → ℕ
is_retrieve (retrieved latency success hit) = 1
is_retrieve x = 0

abbrev pub is_hit : Measure → ℕ
is_hit (retrieved latency success hit) = one_if hit
is_hit x = 0

abbrev pub is_miss : Measure → ℕ
is_miss (retrieved latency success hit) = one_unless hit
is_miss x = 0

abbrev pub retrieve_latency : Measure → ℕ
retrieve_latency (retrieved latency success hit) = latency
retrieve_latency x = 0

abbrev pub retrieve_failure : Measure → ℕ
retrieve_failure (retrieved latency success hit) = one_unless success
retrieve_failure (batch_retrieved latency size success) = one_unless success
retrieve_failure (erred error_type) = one_if (bytes_eq error_type retrieve_text)
retrieve_failure x = 0
