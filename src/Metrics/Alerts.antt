-- ===== src/Metrics/Alerts.antt =====
-- The averages, rates and alerts. A rate divides two counters, unless the second is 0.
use hft_radial_cache.Common.{
  ℕ, ◌≡◌, Bool, true, false, List, [], ◌∷◌, ◌++◌, ◌==◌, if◌then◌else◌, arith,
}
use hft_radial_cache.Common.Double.{Double, positive, zero_double, double_lt}
use hft_radial_cache.Common.Words.{add64, mul64}
use hft_radial_cache.Metrics.{MetricsCollector}

-- The messages of get_active_alerts, with the number that each prints.
pub data Alert : Type 0 where
  high_insert_latency high_retrieve_latency high_memory_usage high_error_rate : Double → Alert

-- The double 0.9.
abbrev pub nine_tenths : Double
nine_tenths = positive 0x3feccccccccccccd

abbrev pub is_nonempty : List Alert → Bool
is_nonempty [] = false
is_nonempty (alert ∷ alerts) = true

-- `if (over) alerts.push_back(message)`
abbrev pub add_alert : Bool → Alert → List Alert → List Alert
add_alert over message alerts = if over then alerts ++ message ∷ [] else alerts

module _ (divide : ℕ → ℕ → Double) (to_double : ℕ → Double) where
  unfoldable pub get_average_insert_latency : MetricsCollector → Double
  get_average_insert_latency c =
      let m = c.metrics in
      if m.total_inserts == 0 then zero_double else divide m.total_insert_latency m.total_inserts

  unfoldable pub get_average_retrieve_latency : MetricsCollector → Double
  get_average_retrieve_latency c =
      let m = c.metrics in
      if m.total_retrieves == 0
      then zero_double
      else divide m.total_retrieve_latency m.total_retrieves

  unfoldable pub get_cache_hit_rate : MetricsCollector → Double
  get_cache_hit_rate c =
      let m = c.metrics in
      let total = add64 m.cache_hits m.cache_misses in
      if total == 0 then zero_double else divide m.cache_hits total

  unfoldable pub get_error_rate : MetricsCollector → Double
  get_error_rate c =
      let m = c.metrics in
      let total_operations = add64 m.total_inserts m.total_retrieves in
      let total_errors = add64 m.insert_errors m.retrieve_errors in
      if total_operations == 0 then zero_double else divide total_errors total_operations

  unfoldable pub get_memory_utilization : MetricsCollector → Double
  get_memory_utilization c =
      let max_memory = mul64 (mul64 c.max_memory_mb 1024) 1024 in
      if max_memory == 0 then zero_double else divide c.metrics.current_memory_usage max_memory

  unfoldable pub check_alerts : MetricsCollector → Bool
  check_alerts c =
      if double_lt (to_double c.thresholds.max_latency_ns) (get_average_insert_latency c)
      then true
      else if double_lt (to_double c.thresholds.max_latency_ns) (get_average_retrieve_latency c)
      then true
      else if double_lt nine_tenths (get_memory_utilization c)
      then true
      else double_lt (divide c.thresholds.max_error_rate 1000) (get_error_rate c)

  -- `percent` multiplies a double by 100.
  unfoldable pub get_active_alerts : (Double → Double) → MetricsCollector → List Alert
  get_active_alerts percent c =
      let insert_latency = get_average_insert_latency c in
      let retrieve_latency = get_average_retrieve_latency c in
      let memory = get_memory_utilization c in
      let errors = get_error_rate c in
      let latency_bound = to_double c.thresholds.max_latency_ns in
      add_alert (double_lt (divide c.thresholds.max_error_rate 1000) errors)
        (high_error_rate (percent errors))
        (add_alert (double_lt nine_tenths memory) (high_memory_usage (percent memory)) (
          add_alert (double_lt latency_bound retrieve_latency)
            (high_retrieve_latency retrieve_latency)
            (add_alert (double_lt latency_bound insert_latency) (high_insert_latency insert_latency)
              [])))

  -- check_alerts is true exactly when get_active_alerts has something to report.
  pub check_alerts_iff :
      (percent : Double → Double) (c : MetricsCollector)
      → check_alerts c ≡ is_nonempty (get_active_alerts percent c)
  unfolding check_alerts get_active_alerts
  check_alerts_iff percent c = ground arith
