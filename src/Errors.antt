-- ===== src/Errors.antt =====
-- include/error_handler.hpp and src/error_handler.cpp: ErrorHandler. A recovery strategy is what a
-- client's callback answers; `low_rate s a` is the test s / a < 0.8 of doubles. The log and the
-- waits are left out.
pub mod History
mod Tests
use mathlib.Core.List.{reverse}
use hft_radial_cache.Common.{
  ℕ, zero, suc, ◌+◌, ◌-◌, Bool, true, false, not, ◌&&◌, ◌||◌, Option, none, some, List, [], ◌∷◌,
  ◌++◌, ltb, leb, ◌==◌, if◌then◌else◌, length, drop,
}
use hft_radial_cache.Common.Bytes.{Bytes}
use hft_radial_cache.Common.Int.{ℤ, pos}
use hft_radial_cache.Common.Words.{add64}

pub data ErrorSeverity : Type 0 where
  low medium high critical : ErrorSeverity

pub data ErrorType : Type 0 where
  memory_allocation_failed memory_corruption thread_contention lock_timeout : ErrorType
  data_corruption numa_error configuration_error recovery_failed : ErrorType
  metrics_error unknown_error : ErrorType

-- The values of the two enumerations.
unfoldable pub severity_code : ErrorSeverity → ℕ
severity_code low = 0
severity_code medium = 1
severity_code high = 2
severity_code critical = 3

unfoldable pub type_code : ErrorType → ℕ
type_code memory_allocation_failed = 0
type_code memory_corruption = 1
type_code thread_contention = 2
type_code lock_timeout = 3
type_code data_corruption = 4
type_code numa_error = 5
type_code configuration_error = 6
type_code recovery_failed = 7
type_code metrics_error = 8
type_code unknown_error = 9

pub record ErrorInfo : Type 0 where
  pub type : ErrorType
  pub severity : ErrorSeverity
  pub message : Bytes
  pub function_name : Bytes
  pub file_name : Bytes
  pub line_number : ℤ
  pub timestamp : ℕ

pub record ErrorThresholds : Type 0 where
  pub max_errors_per_minute : ℕ
  pub max_consecutive_failures : ℕ

abbrev pub Strategies : Type 0
Strategies = List (ErrorType × (ErrorInfo → Bool))

pub record ErrorHandler : Type 0 where
  pub enable_error_recovery : Bool
  pub error_history : List ErrorInfo
  pub total_errors : ℕ
  pub recovery_attempts : ℕ
  pub successful_recoveries : ℕ
  pub recovery_strategies : Strategies
  pub thresholds : ErrorThresholds

-- The five strategies of the constructor, and the default one, assume that recovery succeeded.
unfoldable pub handle : ErrorInfo → Bool
handle error = true

-- `recovery_strategies_[type] = strategy`
unfoldable pub register_recovery_strategy :
    ErrorHandler → ErrorType → (ErrorInfo → Bool) → ErrorHandler
register_recovery_strategy h type strategy = record h {
  recovery_strategies = (type, strategy) ∷ h.recovery_strategies;
}

unfoldable pub new : Bool → ErrorHandler
new enable_error_recovery = record {
  enable_error_recovery = enable_error_recovery;
  error_history = [];
  total_errors = 0;
  recovery_attempts = 0;
  successful_recoveries = 0;
  recovery_strategies =
      (numa_error, handle)
      ∷ (data_corruption, handle)
      ∷ (thread_contention, handle)
      ∷ (memory_corruption, handle)
      ∷ (memory_allocation_failed, handle)
      ∷ [];
  thresholds = record { max_errors_per_minute = 100; max_consecutive_failures = 10 };
}

unfoldable pub find_strategy : ErrorType → Strategies → Option (ErrorInfo → Bool)
find_strategy type [] = none
find_strategy type ((t, strategy) ∷ rest) =
    if type_code t == type_code type then some strategy else find_strategy type rest

unfoldable pub execute_recovery_strategy : ErrorHandler → ErrorInfo → Bool
execute_recovery_strategy h error = elim (find_strategy error.type h.recovery_strategies) [
  | none ↦ handle error
  | some strategy ↦ strategy error
]

unfoldable pub attempt_recovery : ErrorHandler → ErrorInfo → ErrorHandler × Bool
attempt_recovery h error =
    let counted = record h { recovery_attempts = add64 h.recovery_attempts 1 } in
    if execute_recovery_strategy h error
    then (record counted { successful_recoveries = add64 h.successful_recoveries 1 }, true)
    else (counted, false)

unfoldable pub perform_emergency_recovery : ErrorHandler → ErrorHandler × Bool
perform_emergency_recovery h = (
  record h {
    error_history = [];
    total_errors = 0;
    recovery_attempts = 0;
    successful_recoveries = 0;
  },
  true,
)

unfoldable pub trigger_emergency_mode : ErrorHandler → ErrorHandler
trigger_emergency_mode h = if h.enable_error_recovery then (perform_emergency_recovery h).0 else h

-- The last `count` entries.
unfoldable pub recent : {A : Type 0} → ℕ → List A → List A
recent count xs = drop (length xs - count) xs

unfoldable pub get_recent_errors : ErrorHandler → ℕ → List ErrorInfo
unfolding recent
get_recent_errors h count = recent count h.error_history

unfoldable pub is_severe : ErrorInfo → Bool
is_severe error = leb 2 (severity_code error.severity)

-- The loop of check_error_thresholds, over the errors from the latest on.
unfoldable pub failures : List ErrorInfo → ℕ
failures [] = 0
failures (error ∷ rest) = let more = suc (failures rest) in if is_severe error then more else 0

unfoldable pub check_error_thresholds : ErrorHandler → ErrorHandler
check_error_thresholds h =
    let consecutive_failures = failures (reverse (get_recent_errors h 60)) in
    if ltb h.thresholds.max_consecutive_failures consecutive_failures
    then trigger_emergency_mode h
    else h

-- `push_back`, and the erasure of the first entry of a history of more than 1000.
unfoldable pub remember : List ErrorInfo → ErrorInfo → List ErrorInfo
remember history error =
    let longer = history ++ error ∷ [] in if ltb 1000 (length longer) then drop 1 longer else longer

unfoldable pub report_error : ErrorHandler → ErrorInfo → ErrorHandler
report_error h error =
    let recorded = record h {
      total_errors = add64 h.total_errors 1;
      error_history = remember h.error_history error;
    } in
    let checked = check_error_thresholds recorded in
    if not (severity_code error.severity == 3) && checked.enable_error_recovery
    then (attempt_recovery checked error).0
    else checked

-- `what` is the exception's text, `now` the time of the report.
unfoldable pub report_exception : ErrorHandler → Bytes → Bytes → ℕ → ErrorHandler
report_exception h what context now =
    let separator = 58 ∷ 32 ∷ [] in
    report_error h (record {
      type = unknown_error;
      severity = high;
      message = if length context == 0 then what else context ++ separator ++ what;
      function_name =
          101 ∷ 120 ∷ 99 ∷ 101 ∷ 112 ∷ 116 ∷ 105 ∷ 111 ∷ 110 ∷ 95 ∷ 104 ∷ 97 ∷ 110 ∷ 100 ∷ 108 ∷ 101
          ∷ 114 ∷ [];
      file_name = 117 ∷ 110 ∷ 107 ∷ 110 ∷ 111 ∷ 119 ∷ 110 ∷ [];
      line_number = pos 0;
      timestamp = now;
    })

unfoldable pub select : (ErrorInfo → Bool) → List ErrorInfo → List ErrorInfo
select test [] = []
select test (error ∷ rest) = if test error then error ∷ select test rest else select test rest

unfoldable pub get_errors_by_type : ErrorHandler → ErrorType → List ErrorInfo
get_errors_by_type h type = select (λ error. type_code error.type == type_code type) h.error_history

unfoldable pub get_errors_by_severity : ErrorHandler → ErrorSeverity → List ErrorInfo
get_errors_by_severity h severity =
    select (λ error. severity_code error.severity == severity_code severity) h.error_history

-- `get_recovery_success_rate() < 0.8`, where the rate of no attempts is 0.0.
unfoldable pub rate_too_low : (ℕ → ℕ → Bool) → ErrorHandler → Bool
rate_too_low low_rate h =
    if h.recovery_attempts == 0 then true else low_rate h.successful_recoveries h.recovery_attempts

unfoldable pub is_system_healthy : (ℕ → ℕ → Bool) → ErrorHandler → Bool
is_system_healthy low_rate h =
    if ltb 50 (length (get_recent_errors h 100))
    then false
    else if not (length (get_errors_by_severity h critical) == 0)
    then false
    else not (rate_too_low low_rate h)

unfoldable pub should_trigger_emergency_mode : ErrorHandler → Bool
should_trigger_emergency_mode h =
    let errors = get_recent_errors h 10 in
    let criticals = select (λ error. severity_code error.severity == 3) errors in
    let highs = select (λ error. severity_code error.severity == 2) errors in
    ltb 0 (length criticals) || ltb 5 (length highs)

unfoldable pub set_error_thresholds : ErrorHandler → ErrorThresholds → ErrorHandler
set_error_thresholds h thresholds = record h { thresholds = thresholds }

unfoldable pub clear_error_history : ErrorHandler → ErrorHandler
clear_error_history h = record h { error_history = [] }
