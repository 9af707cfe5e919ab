-- ===== src/Security/Limits.antt =====
-- src/security_manager.cpp: the audit log's size, the rate limit, and sequences of calls.
use hft_radial_cache.Common.{
  if_either, ℕ, ◌+◌, ◌-◌, ◌≤◌, ◌<◌, ◌≡◌, refl, ◌∙◌, Bool, not, some, List, [], ◌∷◌, ◌++◌, arith,
  leb, ltb, if◌then◌else◌, length, length-append, length-drop, min, Bool-cases, Option-cases, inl,
  inr,
}
use hft_radial_cache.Common.Bytes.{Bytes, bytes_eq}
use hft_radial_cache.Common.Words.{add64}
use hft_radial_cache.Security.{
  SecurityManager, AuditLogEntry, OperationType, PermissionLevel, lookup, keep_newest,
  log_audit_entry, authenticate_user, authorize_operation, rate_limit_key, count_of,
  allow_operation, create_user, update_user_permissions, deactivate_user, max_requests_per_second,
  hash_password, has_permission, symbol_allowed,
}
use hft_radial_cache.Security.Access.{lookup-store_self}

-- A call on the manager.
pub data Call : Type 0 where
  authenticates : Bytes → Bytes → ℕ → Call
  authorizes : Bytes → OperationType → Bytes → ℕ → Call
  allows : Bytes → OperationType → ℕ → Call
  creates : Bytes → Bytes → PermissionLevel → Bytes → ℕ → Call
  updates : Bytes → PermissionLevel → ℕ → Call
  deactivates : Bytes → ℕ → Call

pub step : SecurityManager → Call → SecurityManager
step s (authenticates username password now) = (authenticate_user s username password now).0
step s (authorizes username operation symbol now) =
    (authorize_operation s username operation symbol now).0
step s (allows client operation now) = (allow_operation s client operation now).0
step s (creates username password level salt now) =
    (create_user s username password level salt now).0
step s (updates username level now) = (update_user_permissions s username level now).0
step s (deactivates username now) = (deactivate_user s username now).0

pub run : SecurityManager → List Call → SecurityManager
run s [] = s
run s (call ∷ calls) = run (step s call) calls

abbrev pub IsBounded : SecurityManager → Type 0
IsBounded s = length s.audit_log ≤ 10000

log-IsBounded :
    (s : SecurityManager) (username operation details : Bytes) (success : Bool) (message : Bytes)
    (now : ℕ)
    → IsBounded s
    → IsBounded (log_audit_entry s username operation details success message now)
unfolding log_audit_entry keep_newest
log-IsBounded s username operation details success message now h =
    let entry : AuditLogEntry = record {
      username = username;
      operation = operation;
      details = details;
      timestamp = now;
      success = success;
      error_message = message;
    } in
    ground
      (arith, length-append s.audit_log (entry ∷ []), length-drop 1 (s.audit_log ++ entry ∷ []))

-- The manager that a call leaves is bounded.
record Good (r : SecurityManager × Bool) : Type 0 where
  bounded : IsBounded r.0

same-Good : {s : SecurityManager} {b : Bool} → IsBounded s → Good (s, b)
same-Good h = record { bounded = h }

log-Good :
    (s : SecurityManager) (username operation details message : Bytes) (success b : Bool) (now : ℕ)
    → IsBounded s
    → Good (log_audit_entry s username operation details success message now, b)
log-Good s username operation details message success b now h = record {
  bounded = log-IsBounded s username operation details success message now h;
}

authenticate-Good :
    (s : SecurityManager) (username password : Bytes) (now : ℕ)
    → IsBounded s
    → Good (authenticate_user s username password now)
unfolding authenticate_user
authenticate-Good s username password now h = elim (Option-cases (lookup username s.users)) [
  | inl missing ↦ rw (missing, authenticate_user) (log-Good _ _ _ _ _ _ _ _ h)
  | inr (user, here) ↦
      rw (here, authenticate_user)
        (if_either Good (not user.is_active) (log-Good _ _ _ _ _ _ _ _ h) (
          if_either Good (not (bytes_eq (hash_password password user.salt) user.password_hash))
            (log-Good _ _ _ _ _ _ _ _ h) (log-Good _ _ _ _ _ _ _ _ h)))
]

authorize-Good :
    (s : SecurityManager) (username symbol : Bytes) (operation : OperationType) (now : ℕ)
    → IsBounded s
    → Good (authorize_operation s username operation symbol now)
unfolding authorize_operation
authorize-Good s username symbol operation now h = elim (Option-cases (lookup username s.users)) [
  | inl missing ↦ rw (missing, authorize_operation) (same-Good h)
  | inr (user, here) ↦
      rw (here, authorize_operation)
        (if_either Good (not user.is_active) (same-Good h) (
          if_either Good (not (has_permission user.permission_level operation))
            (log-Good _ _ _ _ _ _ _ _ h)
            (if_either Good (not (symbol_allowed user symbol)) (log-Good _ _ _ _ _ _ _ _ h)
              (same-Good h))))
]

allow-Good :
    (s : SecurityManager) (client : Bytes) (operation : OperationType) (now : ℕ)
    → IsBounded s
    → Good (allow_operation s client operation now)
unfolding allow_operation
allow-Good s client operation now h =
    if_either Good (leb max_requests_per_second (count_of s (rate_limit_key client operation)))
      (log-Good _ _ _ _ _ _ _ _ h) (same-Good h)

create-Good :
    (s : SecurityManager) (username password salt : Bytes) (level : PermissionLevel) (now : ℕ)
    → IsBounded s
    → Good (create_user s username password level salt now)
unfolding create_user
create-Good s username password salt level now h = elim (Option-cases (lookup username s.users)) [
  | inl missing ↦ rw (missing, create_user) (log-Good _ _ _ _ _ _ _ _ h)
  | inr (user, here) ↦ rw (here, create_user) (same-Good h)
]

update-Good :
    (s : SecurityManager) (username : Bytes) (level : PermissionLevel) (now : ℕ)
    → IsBounded s
    → Good (update_user_permissions s username level now)
unfolding update_user_permissions
update-Good s username level now h = elim (Option-cases (lookup username s.users)) [
  | inl missing ↦ rw (missing, update_user_permissions) (same-Good h)
  | inr (user, here) ↦ rw (here, update_user_permissions) (log-Good _ _ _ _ _ _ _ _ h)
]

deactivate-Good :
    (s : SecurityManager) (username : Bytes) (now : ℕ)
    → IsBounded s
    → Good (deactivate_user s username now)
unfolding deactivate_user
deactivate-Good s username now h = elim (Option-cases (lookup username s.users)) [
  | inl missing ↦ rw (missing, deactivate_user) (same-Good h)
  | inr (user, here) ↦ rw (here, deactivate_user) (log-Good _ _ _ _ _ _ _ _ h)
]

step-IsBounded : (s : SecurityManager) (call : Call) → IsBounded s → IsBounded (step s call)
unfolding step
step-IsBounded s (authenticates username password now) h =
    (authenticate-Good s username password now h).bounded
step-IsBounded s (authorizes username operation symbol now) h =
    (authorize-Good s username symbol operation now h).bounded
step-IsBounded s (allows client operation now) h = (allow-Good s client operation now h).bounded
step-IsBounded s (creates username password level salt now) h =
    (create-Good s username password salt level now h).bounded
step-IsBounded s (updates username level now) h = (update-Good s username level now h).bounded
step-IsBounded s (deactivates username now) h = (deactivate-Good s username now h).bounded

-- Whatever is called, an audit log of at most 10000 entries never grows past 10000.
pub run-IsBounded :
    (s : SecurityManager) (calls : List Call) → IsBounded s → IsBounded (run s calls)
unfolding run
run-IsBounded s [] h = h
run-IsBounded s (call ∷ calls) h = run-IsBounded (step s call) calls (step-IsBounded s call h)

-- How many of the requests of a client for an operation are allowed, made one after the other at
-- the given readings of the clock.
pub allowed : SecurityManager → Bytes → OperationType → List ℕ → ℕ
allowed s client operation [] = 0
allowed s client operation (now ∷ times) =
    let r = allow_operation s client operation now in
    (if r.1 then 1 else 0) + allowed r.0 client operation times

-- A request: its answer, and the count that it leaves.
record Asked (s : SecurityManager) (key : Bytes) (r : SecurityManager × Bool) : Type 0 where
  answer : r.1 ≡ ltb (count_of s key) max_requests_per_second
  count : count_of r.0 key ≡ (if r.1 then count_of s key + 1 else count_of s key)

count_stored :
    (s : SecurityManager) (key : Bytes) (n : ℕ)
    → lookup key s.rate_limiters ≡ some n
    → count_of s key ≡ n
unfolding count_of
count_stored s key n h = rw (h, count_of) refl

allow-Asked :
    (s : SecurityManager) (client : Bytes) (operation : OperationType) (now : ℕ)
    → Asked s (rate_limit_key client operation) (allow_operation s client operation now)
unfolding allow_operation log_audit_entry
allow-Asked s client operation now =
    let key = rate_limit_key client operation in
    elim (Bool-cases (leb max_requests_per_second (count_of s key))) [
      | inl over ↦ rw over (record {
        answer = ground arith;
        count = count_stored _ key _ (lookup-store_self key (count_of s key) s.rate_limiters);
      })
      | inr under ↦ rw under (record {
        answer = ground arith;
        count =
            count_stored _ key _ (lookup-store_self key (add64 (count_of s key) 1) s.rate_limiters)
            ∙ one_more (count_of s key) (ground arith);
      })
    ]
  where
    one_more : (n : ℕ) → n < max_requests_per_second → add64 n 1 ≡ n + 1
    one_more n h = omega arith

-- Of any number of requests of a client for one operation, made at whatever times, exactly as many
-- are allowed as its count is short of 1000 at first, if so many are made: no time that passes
-- between them brings any of them back.
pub allowed_total :
    (s : SecurityManager) (client : Bytes) (operation : OperationType) (times : List ℕ)
    → allowed s client operation times
      ≡ min (length times) (max_requests_per_second - count_of s (rate_limit_key client operation))
unfolding allowed
allowed_total s client operation [] = omega arith
allowed_total s client operation (now ∷ times) =
    let r = allow_operation s client operation now in
    let asked = allow-Asked s client operation now in
    ground (arith, asked.answer, asked.count, allowed_total r.0 client operation times)
