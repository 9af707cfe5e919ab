-- ===== src/Metrics/Tally.antt =====
-- The counters against the tallies of what was recorded, over any sequence of calls.
use hft_radial_cache.Common.{
  ℕ, ◌+◌, ◌%◌, ◌^◌, max, ◌≡◌, refl, sym, ap, ◌∙◌, Bool, true, false, List, [], ◌∷◌, if◌then◌else◌,
  arith,
}
use hft_radial_cache.Common.Bytes.{Bytes, bytes_eq, bytes_eq→eq}
use hft_radial_cache.Metrics.{
  CacheMetrics, MetricsCollector, memory_text, insert_text, retrieve_text, update_historical_data,
  enable_metrics_collection,
}
use hft_radial_cache.Metrics.Events.{
  Measure, Event, memory_used, erred, measured, switched, sampled, measure, run, tally, highest,
  is_insert, insert_latency, insert_failure, is_retrieve, retrieve_latency, retrieve_failure,
  is_hit, is_miss,
}

switch_on :
    (c : MetricsCollector) (enable : Bool)
    → (enable_metrics_collection c enable).enable_metrics ≡ enable
unfolding enable_metrics_collection
switch_on c enable = ground arith

switch_metrics :
    (c : MetricsCollector) (enable : Bool)
    → (enable_metrics_collection c enable).metrics ≡ c.metrics
unfolding enable_metrics_collection
switch_metrics c enable = ground arith

measure_on : (c : MetricsCollector) (x : Measure) → (measure c x).enable_metrics ≡ c.enable_metrics
unfolding measure
measure_on c x = ground arith

-- A counter that each call raises by a weight.
abbrev Raises : (CacheMetrics → ℕ) → (Measure → ℕ) → Type 0
Raises counter weight =
    (c : MetricsCollector) (x : Measure)
    → counter (measure c x).metrics % 2 ^ 64
      ≡ (counter c.metrics + (if c.enable_metrics then weight x else 0)) % 2 ^ 64

tallied :
    (counter : CacheMetrics → ℕ) (weight : Measure → ℕ) (on : Bool) (c : MetricsCollector)
    (events : List Event)
    → Raises counter weight
    → c.enable_metrics ≡ on
    → counter (run c events).metrics % 2 ^ 64
      ≡ (counter c.metrics + tally weight on events) % 2 ^ 64
unfolding run update_historical_data
tallied counter weight on c [] raises e = omega arith
tallied counter weight on c (measured x ∷ events) raises e =
    let rest = tallied counter weight on (measure c x) events raises (measure_on c x ∙ e) in
    let step : counter (measure c x).metrics % 2 ^ 64
        ≡ (counter c.metrics + (if on then weight x else 0)) % 2 ^ 64 =
      raises c x
      ∙ ap (λ (b : Bool). (counter c.metrics + (if b then weight x else 0)) % 2 ^ 64) e in
    omega (arith, rest, step)
tallied counter weight on c (switched enable ∷ events) raises e =
    let rest =
      tallied counter weight enable (enable_metrics_collection c enable) events raises
        (switch_on c enable) in
    rest ∙ ap (λ m. (counter m + tally weight enable events) % 2 ^ 64) (switch_metrics c enable)
tallied counter weight on c (sampled now ∷ events) raises e =
    tallied counter weight on (update_historical_data c now) events raises e

-- The peak after a call.
peak_with : Bool → ℕ → Measure → ℕ
peak_with on peak (memory_used usage) = if on then max peak usage else peak
peak_with on peak x = peak

measure_peak :
    (c : MetricsCollector) (x : Measure)
    → (measure c x).metrics.peak_memory_usage
      ≡ peak_with c.enable_metrics c.metrics.peak_memory_usage x
unfolding peak_with measure
measure_peak c (memory_used usage) = ground arith
measure_peak c x = ground arith

highest_step :
    (peak : ℕ) (on : Bool) (x : Measure) (events : List Event)
    → highest peak on (measured x ∷ events) ≡ highest (peak_with on peak x) on events
unfolding peak_with
highest_step peak on (memory_used usage) events = refl
highest_step peak on x events = refl

peaked :
    (on : Bool) (c : MetricsCollector) (events : List Event)
    → c.enable_metrics ≡ on
    → (run c events).metrics.peak_memory_usage ≡ highest c.metrics.peak_memory_usage on events
unfolding run update_historical_data
peaked on c [] e = refl
peaked on c (measured x ∷ events) e =
    peaked on (measure c x) events (measure_on c x ∙ e)
    ∙ ap (λ (p : ℕ). highest p on events)
        (measure_peak c x ∙ ap (λ (b : Bool). peak_with b c.metrics.peak_memory_usage x) e)
    ∙ sym (highest_step c.metrics.peak_memory_usage on x events)
peaked on c (switched enable ∷ events) e =
    peaked enable (enable_metrics_collection c enable) events (switch_on c enable)
    ∙ ap (λ m. highest m.peak_memory_usage enable events) (switch_metrics c enable)
peaked on c (sampled now ∷ events) e = peaked on (update_historical_data c now) events e

-- A text equal to one is unequal to another.
other_text :
    (one other text : Bytes)
    → bytes_eq one other ≡ false
    → bytes_eq text one ≡ true
    → bytes_eq text other ≡ false
other_text one other text off same = rw (bytes_eq→eq text one same) off

memory_not_insert : bytes_eq memory_text insert_text ≡ false
unfolding bytes_eq
memory_not_insert = refl

memory_not_retrieve : bytes_eq memory_text retrieve_text ≡ false
unfolding bytes_eq
memory_not_retrieve = refl

insert_not_retrieve : bytes_eq insert_text retrieve_text ≡ false
unfolding bytes_eq
insert_not_retrieve = refl

inserts_raise : Raises (λ m. m.total_inserts) is_insert
unfolding measure
inserts_raise c x = ground arith

latency_raise : Raises (λ m. m.total_insert_latency) insert_latency
unfolding measure
latency_raise c x = ground arith

failures_raise : Raises (λ m. m.insert_errors) insert_failure
unfolding measure
failures_raise c (erred text) =
    ground (arith, other_text memory_text insert_text text memory_not_insert)
failures_raise c x = ground arith

retrieves_raise : Raises (λ m. m.total_retrieves) is_retrieve
unfolding measure
retrieves_raise c x = ground arith

waiting_raise : Raises (λ m. m.total_retrieve_latency) retrieve_latency
unfolding measure
waiting_raise c x = ground arith

misfires_raise : Raises (λ m. m.retrieve_errors) retrieve_failure
unfolding measure
misfires_raise c (erred text) = ground (
  arith,
  other_text memory_text retrieve_text text memory_not_retrieve,
  other_text insert_text retrieve_text text insert_not_retrieve,
)
misfires_raise c x = ground arith

hits_raise : Raises (λ m. m.cache_hits) is_hit
unfolding measure
hits_raise c x = ground arith

misses_raise : Raises (λ m. m.cache_misses) is_miss
unfolding measure
misses_raise c x = ground arith

-- What the counters are after some events, from what they were and whether collection was on.
pub record Tallied (c : MetricsCollector) (events : List Event) (m : CacheMetrics) : Type 0 where
  pub inserts :
      m.total_inserts % 2 ^ 64
      ≡ (c.metrics.total_inserts + tally is_insert c.enable_metrics events) % 2 ^ 64
  pub latency :
      m.total_insert_latency % 2 ^ 64
      ≡ (c.metrics.total_insert_latency + tally insert_latency c.enable_metrics events) % 2 ^ 64
  pub failed_inserts :
      m.insert_errors % 2 ^ 64
      ≡ (c.metrics.insert_errors + tally insert_failure c.enable_metrics events) % 2 ^ 64
  pub retrieves :
      m.total_retrieves % 2 ^ 64
      ≡ (c.metrics.total_retrieves + tally is_retrieve c.enable_metrics events) % 2 ^ 64
  pub waiting :
      m.total_retrieve_latency % 2 ^ 64
      ≡ (c.metrics.total_retrieve_latency + tally retrieve_latency c.enable_metrics events) % 2 ^ 64
  pub failed_retrieves :
      m.retrieve_errors % 2 ^ 64
      ≡ (c.metrics.retrieve_errors + tally retrieve_failure c.enable_metrics events) % 2 ^ 64
  pub hits :
      m.cache_hits % 2 ^ 64 ≡ (c.metrics.cache_hits + tally is_hit c.enable_metrics events) % 2 ^ 64
  pub misses :
      m.cache_misses % 2 ^ 64
      ≡ (c.metrics.cache_misses + tally is_miss c.enable_metrics events) % 2 ^ 64
  pub peak : m.peak_memory_usage ≡ highest c.metrics.peak_memory_usage c.enable_metrics events

-- Over any sequence of records, switches and snapshots, the numbers of inserts, retrieves, hits,
-- misses and of failed_inserts of inserts and of retrieves, and the two latencies, grow by what was
-- recorded while the collection was on, modulo 2^64; and the peak is the largest memory usage
-- recorded while it was on, or what it was.
pub run-Tallied :
    (c : MetricsCollector) (events : List Event) → Tallied c events (run c events).metrics
run-Tallied c events = record {
  inserts = tallied (λ m. m.total_inserts) is_insert c.enable_metrics c events inserts_raise refl;
  latency =
      tallied (λ m. m.total_insert_latency) insert_latency c.enable_metrics c events latency_raise
        refl;
  failed_inserts =
      tallied (λ m. m.insert_errors) insert_failure c.enable_metrics c events failures_raise refl;
  retrieves =
      tallied (λ m. m.total_retrieves) is_retrieve c.enable_metrics c events retrieves_raise refl;
  waiting =
      tallied (λ m. m.total_retrieve_latency) retrieve_latency c.enable_metrics c events
        waiting_raise refl;
  failed_retrieves =
      tallied (λ m. m.retrieve_errors) retrieve_failure c.enable_metrics c events misfires_raise
        refl;
  hits = tallied (λ m. m.cache_hits) is_hit c.enable_metrics c events hits_raise refl;
  misses = tallied (λ m. m.cache_misses) is_miss c.enable_metrics c events misses_raise refl;
  peak = peaked c.enable_metrics c events refl;
}
