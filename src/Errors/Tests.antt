-- ===== src/Errors/Tests.antt =====
-- The theorems on the error handler at handlers just constructed.
use hft_radial_cache.Common.{◌≡◌, refl, true, false, List, [], ◌∷◌, arith}
use hft_radial_cache.Common.Int.{pos}
use hft_radial_cache.Errors.{ErrorInfo, new, memory_corruption, high, recent}
use hft_radial_cache.Errors.History.{
  report_all, history_recent, IsValid, Call, reports, recovers, run, run-IsValid,
}

abbrev error : ErrorInfo
error = record {
  type = memory_corruption;
  severity = high;
  message = [];
  function_name = [];
  file_name = [];
  line_number = pos 7;
  timestamp = 9;
}

history_recent_example :
    (report_all (new false) (error ∷ error ∷ [])).error_history ≡ recent 1000 (error ∷ error ∷ [])
history_recent_example = history_recent (error ∷ error ∷ [])

new-IsValid : IsValid (new true)
unfolding new
new-IsValid = record { bounded = omega arith; counted = omega arith }

new_attempts : (new true).recovery_attempts ≡ 0
unfolding new
new_attempts = refl

abbrev calls : List Call
calls = reports error ∷ recovers ∷ reports error ∷ []

run-IsValid_example : IsValid (run (new true) calls)
run-IsValid_example = run-IsValid (new true) calls new-IsValid (omega (arith, new_attempts))
