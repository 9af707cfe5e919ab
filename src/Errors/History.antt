-- ===== src/Errors/History.antt =====
-- src/error_handler.cpp: the history, the handler's invariant, and sequences of calls.
use mathlib.Core.List.{append_assoc, append-nil, reverse}
use hft_radial_cache.Common.{
  if_either, ℕ, zero, suc, ◌+◌, ◌-◌, ◌≤◌, ◌<◌, ◌≡◌, refl, sym, ◌∙◌, ap, inl, inr, Bool, false, not,
  ◌&&◌, List, [], ◌∷◌, ◌++◌, arith, ltb, ◌==◌, length, drop, length-append, length-drop, Bool-cases,
}
use hft_radial_cache.Common.Words.{word, add64}
use hft_radial_cache.Errors.{
  ErrorType, ErrorInfo, ErrorThresholds, ErrorHandler, new, severity_code, failures,
  register_recovery_strategy, execute_recovery_strategy, attempt_recovery,
  perform_emergency_recovery, trigger_emergency_mode, recent, get_recent_errors,
  check_error_thresholds, remember, report_error, is_system_healthy, rate_too_low,
  set_error_thresholds, clear_error_history,
}

module _ {A : Type 0} where
  drop-append : (n : ℕ) (xs ys : List A) → n ≤ length xs → drop n (xs ++ ys) ≡ drop n xs ++ ys
  drop-append zero xs ys h = refl
  drop-append (suc n) [] ys h = absurd (omega arith)
  drop-append (suc n) (x ∷ xs) ys h = drop-append n xs ys (omega arith)

  drop-suc : (n : ℕ) (xs : List A) → drop 1 (drop n xs) ≡ drop (suc n) xs
  drop-suc zero xs = refl
  drop-suc (suc n) [] = refl
  drop-suc (suc n) (x ∷ xs) = drop-suc n xs

  pub length-recent : (n : ℕ) (xs : List A) → length (recent n xs) ≤ n
  unfolding recent
  length-recent n xs = omega (arith, length-drop (length xs - n) xs)

remember-recent :
    (seen : List ErrorInfo) (e : ErrorInfo)
    → remember (recent 1000 seen) e ≡ recent 1000 (seen ++ e ∷ [])
unfolding remember recent
remember-recent seen e =
    let d = length seen - 1000 in
    let longer : drop d seen ++ e ∷ [] ≡ drop d (seen ++ e ∷ []) =
      sym (drop-append d seen (e ∷ []) (omega arith)) in
    let size : length (drop d (seen ++ e ∷ [])) ≡ length seen + 1 - d =
      omega (arith, length-drop d (seen ++ e ∷ []), length-append seen (e ∷ [])) in
    rw (longer, length-append seen (e ∷ []))
      (elim (Bool-cases (ltb 1000 (length (drop d (seen ++ e ∷ []))))) [
        | inl h ↦ rw (h, drop-suc d (seen ++ e ∷ [])) (same_drop (suc d) _ (ground (arith, size)))
        | inr h ↦ rw h (same_drop d _ (ground (arith, size)))
      ])
  where
    same_drop : (n m : ℕ) → n ≡ m → drop n (seen ++ e ∷ []) ≡ drop m (seen ++ e ∷ [])
    same_drop n m q = ap (λ k. drop k (seen ++ e ∷ [])) q

-- Without recovery a report only counts and remembers the error.
report_quiet :
    (h : ErrorHandler) (e : ErrorInfo)
    → h.enable_error_recovery ≡ false
    → ((report_error h e).error_history ≡ remember h.error_history e)
      × ((report_error h e).enable_error_recovery ≡ false)
unfolding report_error check_error_thresholds trigger_emergency_mode
report_quiet h e off = ground (arith, off)

pub report_all : ErrorHandler → List ErrorInfo → ErrorHandler
report_all h [] = h
report_all h (e ∷ errors) = report_all (report_error h e) errors

report_all-recent :
    (h : ErrorHandler) (seen errors : List ErrorInfo)
    → h.enable_error_recovery ≡ false
    → h.error_history ≡ recent 1000 seen
    → (report_all h errors).error_history ≡ recent 1000 (seen ++ errors)
unfolding report_all
report_all-recent h seen [] off same = rw (append-nil seen) same
report_all-recent h seen (e ∷ errors) off same =
    let (history, still) = report_quiet h e off in
    report_all-recent (report_error h e) (seen ++ e ∷ []) errors still
      (history ∙ (ap (λ xs. remember xs e) same ∙ remember-recent seen e))
    ∙ ap (recent 1000) (append_assoc seen (e ∷ []) errors)

-- A new handler without error recovery keeps exactly the last 1000 errors reported, in order.
pub history_recent :
    (errors : List ErrorInfo) → (report_all (new false) errors).error_history ≡ recent 1000 errors
unfolding new recent
history_recent errors = report_all-recent (new false) [] errors refl refl

pub record IsValid (h : ErrorHandler) : Type 0 where
  pub bounded : length h.error_history ≤ 1000
  pub counted : h.successful_recoveries ≤ h.recovery_attempts

-- A call that changes the handler.
pub data Call : Type 0 where
  reports : ErrorInfo → Call
  attempts : ErrorInfo → Call
  recovers : Call
  registers : ErrorType → (ErrorInfo → Bool) → Call
  sets : ErrorThresholds → Call
  clears : Call

pub step : ErrorHandler → Call → ErrorHandler
step h (reports e) = report_error h e
step h (attempts e) = (attempt_recovery h e).0
step h recovers = (perform_emergency_recovery h).0
step h (registers type strategy) = register_recovery_strategy h type strategy
step h (sets thresholds) = set_error_thresholds h thresholds
step h clears = clear_error_history h

pub run : ErrorHandler → List Call → ErrorHandler
run h [] = h
run h (call ∷ calls) = run (step h call) calls

-- Valid, with at most one attempt more.
record Next (h r : ErrorHandler) : Type 0 where
  valid : IsValid r
  grows : r.recovery_attempts ≤ h.recovery_attempts + 1

attempt-Next :
    (h : ErrorHandler) (e : ErrorInfo)
    → IsValid h
    → h.recovery_attempts + 1 < word
    → Next h (attempt_recovery h e).0
unfolding attempt_recovery
attempt-Next h e v room = elim (Bool-cases (execute_recovery_strategy h e)) [
  | inl hit ↦ rw hit (record {
    valid = record { bounded = v.bounded; counted = omega (arith, v.counted) };
    grows = omega arith;
  })
  | inr miss ↦ rw miss (record {
    valid = record { bounded = v.bounded; counted = omega (arith, v.counted) };
    grows = omega arith;
  })
]

emergency-IsValid : (h : ErrorHandler) → IsValid h → IsValid (perform_emergency_recovery h).0
unfolding perform_emergency_recovery
emergency-IsValid h v = record { bounded = omega arith; counted = omega arith }

emergency_attempts : (h : ErrorHandler) → (perform_emergency_recovery h).0.recovery_attempts ≡ 0
unfolding perform_emergency_recovery
emergency_attempts h = refl

-- Valid, with no more attempts.
abbrev Checked : ErrorHandler → ErrorHandler → Type 0
Checked h r = IsValid r × (r.recovery_attempts ≤ h.recovery_attempts)

trigger-Checked : (h : ErrorHandler) → IsValid h → Checked h (trigger_emergency_mode h)
unfolding trigger_emergency_mode
trigger-Checked h v =
    if_either (Checked h) h.enable_error_recovery
      (emergency-IsValid h v, omega (arith, emergency_attempts h)) (v, omega arith)

check-Checked : (h : ErrorHandler) → IsValid h → Checked h (check_error_thresholds h)
unfolding check_error_thresholds
check-Checked h v =
    elim (Bool-cases
      (ltb h.thresholds.max_consecutive_failures (failures (reverse (get_recent_errors h 60))))) [
        | inl over ↦ rw over (trigger-Checked h v)
        | inr under ↦ rw under (v, omega arith)
      ]

length-remember :
    (history : List ErrorInfo) (e : ErrorInfo)
    → length history ≤ 1000
    → length (remember history e) ≤ 1000
unfolding remember
length-remember history e h =
    ground (arith, length-append history (e ∷ []), length-drop 1 (history ++ e ∷ []))

report-Next :
    (h : ErrorHandler) (e : ErrorInfo)
    → IsValid h
    → h.recovery_attempts + 1 < word
    → Next h (report_error h e)
unfolding report_error
report-Next h e v room =
    let recorded = record h {
      total_errors = add64 h.total_errors 1;
      error_history = remember h.error_history e;
    } in
    let valid : IsValid recorded = record {
      bounded = length-remember h.error_history e v.bounded;
      counted = v.counted;
    } in
    let (checked, fewer) = check-Checked recorded valid in
    elim (Bool-cases (
      not (severity_code e.severity == 3)
      && (check_error_thresholds recorded).enable_error_recovery)) [
        | inl hit ↦
            let next = attempt-Next (check_error_thresholds recorded) e checked (omega arith) in
            rw hit (record { valid = next.valid; grows = omega (arith, next.grows) })
        | inr miss ↦ rw miss (record { valid = checked; grows = omega arith })
      ]

step-Next :
    (h : ErrorHandler) (call : Call)
    → IsValid h
    → h.recovery_attempts + 1 < word
    → Next h (step h call)
unfolding step register_recovery_strategy set_error_thresholds clear_error_history
step-Next h (reports e) v room = report-Next h e v room
step-Next h (attempts e) v room = attempt-Next h e v room
step-Next h recovers v room = record {
  valid = emergency-IsValid h v;
  grows = omega (arith, emergency_attempts h);
}
step-Next h (registers type strategy) v room = record {
  valid = record { bounded = v.bounded; counted = v.counted };
  grows = omega arith;
}
step-Next h (sets thresholds) v room = record {
  valid = record { bounded = v.bounded; counted = v.counted };
  grows = omega arith;
}
step-Next h clears v room = record {
  valid = record { bounded = omega arith; counted = v.counted };
  grows = omega arith;
}

-- Whatever is called on a valid handler, its history never holds more than 1000 errors, and it
-- never counts more recoveries than attempts, as long as the count of attempts cannot wrap.
pub run-IsValid :
    (h : ErrorHandler) (calls : List Call)
    → IsValid h
    → h.recovery_attempts + length calls < word
    → IsValid (run h calls)
unfolding run
run-IsValid h [] v room = v
run-IsValid h (call ∷ calls) v room =
    let next = step-Next h call v (omega arith) in
    run-IsValid (step h call) calls next.valid (omega (arith, next.grows))

-- A handler that has attempted no recovery is reported as unhealthy, even if it has no error.
pub unhealthy_at_rest :
    (low_rate : ℕ → ℕ → Bool) (h : ErrorHandler)
    → h.recovery_attempts ≡ 0
    → is_system_healthy low_rate h ≡ false
unfolding is_system_healthy rate_too_low
unhealthy_at_rest low_rate h e = ground (arith, e)
