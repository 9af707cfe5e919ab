-- ===== src/Metrics/Tests.antt =====
-- The theorems at a short sequence of records.
use hft_radial_cache.Common.{◌≡◌, refl, true, false, List, [], ◌∷◌}
use hft_radial_cache.Common.Bytes.{bytes_eq}
use hft_radial_cache.Metrics.{new, insert_text, enable_metrics_collection, update_historical_data}
use hft_radial_cache.Metrics.Events.{
  Event, inserted, retrieved, batch_inserted, memory_used, erred, measured, switched, sampled, run,
}
use hft_radial_cache.Metrics.Tally.{Tallied, run-Tallied}
use hft_radial_cache.Metrics.History.{IsConsistent, run-IsConsistent, new-IsConsistent}

abbrev events : List Event
events =
    measured (inserted 50 true)
    ∷ measured (batch_inserted 90 8 false)
    ∷ sampled 1
    ∷ measured (memory_used 700)
    ∷ measured (memory_used 300)
    ∷ measured (erred insert_text)
    ∷ measured (retrieved 20 true false)
    ∷ switched false
    ∷ measured (inserted 60 false)
    ∷ []

run-Tallied_example : Tallied (new true 64) events (run (new true 64) events).metrics
run-Tallied_example = run-Tallied (new true 64) events

run-IsConsistent_example : IsConsistent (run (new true 64) events)
run-IsConsistent_example = run-IsConsistent (new true 64) events (new-IsConsistent true 64)

-- A failed batch and a reported error; the insert that failed while the collection was off is not
-- counted.
insert_errors_outcome : (run (new true 64) events).metrics.insert_errors ≡ 2
unfolding run new bytes_eq enable_metrics_collection update_historical_data
insert_errors_outcome = refl

peak_outcome : (run (new true 64) events).metrics.peak_memory_usage ≡ 700
unfolding run new bytes_eq enable_metrics_collection update_historical_data
peak_outcome = refl
