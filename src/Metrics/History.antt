-- ===== src/Metrics/History.antt =====
-- The snapshots and the worker thread.
use hft_radial_cache.Common.{
  ℕ, ◌≤◌, ◌≡◌, refl, ap, ◌∙◌, Bool, List, [], ◌∷◌, ◌++◌, length, length-append, arith,
}
use hft_radial_cache.Metrics.{
  MetricsSnapshot, MetricsCollector, new, trim, update_historical_data, enable_metrics_collection,
  max_history_size,
}
use hft_radial_cache.Metrics.Events.{Measure, Event, measured, switched, sampled, measure, run}

-- The history is within its bound, and the thread runs just while the collection is on.
pub record IsConsistent (c : MetricsCollector) : Type 0 where
  pub short : length c.historical_data ≤ max_history_size
  pub running : c.joinable ≡ c.enable_metrics

length-trim : (h : List MetricsSnapshot) → length (trim h) ≤ max_history_size
unfolding trim
length-trim [] = omega arith
length-trim (oldest ∷ later) = ground (arith, length-trim later)

measure-IsConsistent :
    (c : MetricsCollector) (x : Measure) → IsConsistent c → IsConsistent (measure c x)
unfolding measure
measure-IsConsistent c x v = ground arith

switch-IsConsistent :
    (c : MetricsCollector) (enable : Bool)
    → IsConsistent c
    → IsConsistent (enable_metrics_collection c enable)
unfolding enable_metrics_collection
switch-IsConsistent c enable v = ground arith

sample-IsConsistent :
    (c : MetricsCollector) (now : ℕ) → IsConsistent c → IsConsistent (update_historical_data c now)
unfolding update_historical_data
sample-IsConsistent c now v = record {
  short = length-trim (c.historical_data ++ record { timestamp = now; metrics = c.metrics } ∷ []);
  running = v.running;
}

-- From any such collector, every sequence of records, switches and snapshots leaves at most 1000
-- snapshots and the thread running just while the collection is on.
pub run-IsConsistent :
    (c : MetricsCollector) (events : List Event) → IsConsistent c → IsConsistent (run c events)
unfolding run
run-IsConsistent c [] v = v
run-IsConsistent c (measured x ∷ events) v =
    run-IsConsistent (measure c x) events (measure-IsConsistent c x v)
run-IsConsistent c (switched enable ∷ events) v =
    run-IsConsistent (enable_metrics_collection c enable) events (switch-IsConsistent c enable v)
run-IsConsistent c (sampled now ∷ events) v =
    run-IsConsistent (update_historical_data c now) events (sample-IsConsistent c now v)

pub new-IsConsistent : (enable : Bool) (max_memory_mb : ℕ) → IsConsistent (new enable max_memory_mb)
unfolding new
new-IsConsistent enable max_memory_mb = ground arith

trim_short : (h : List MetricsSnapshot) → length h ≤ max_history_size → trim h ≡ h
unfolding trim
trim_short [] le = refl
trim_short (oldest ∷ later) le = ground arith

trim_full :
    (oldest : MetricsSnapshot) (later : List MetricsSnapshot)
    → length later ≡ max_history_size
    → trim (oldest ∷ later) ≡ later
unfolding trim
trim_full oldest later full = ground (arith, trim_short later)

-- A full history gives up its oldest snapshot for the new one, and keeps the others in order.
pub full_history :
    (c : MetricsCollector) (oldest : MetricsSnapshot) (later : List MetricsSnapshot) (now : ℕ)
    → c.historical_data ≡ oldest ∷ later
    → length (oldest ∷ later) ≡ max_history_size
    → (update_historical_data c now).historical_data
      ≡ later ++ record { timestamp = now; metrics = c.metrics } ∷ []
unfolding update_historical_data
full_history c oldest later now e full =
    let new_one : MetricsSnapshot = record { timestamp = now; metrics = c.metrics } in
    ap (λ h. trim (h ++ new_one ∷ [])) e
    ∙ trim_full oldest (later ++ new_one ∷ [])
        (omega (arith, length-append later (new_one ∷ []), full))
