-- ===== src/Security.antt =====
-- include/security_manager.hpp and src/security_manager.cpp: SecurityManager. The maps are
-- association lists; the reads of the clock and the random salts are arguments.
pub mod Literals
pub mod Audit
pub mod Access
pub mod Permission
pub mod Limits
mod Tests
use hft_radial_cache.Common.{
  ℕ, zero, suc, ◌+◌, Bool, true, false, not, ◌&&◌, ◌||◌, Option, none, some, List, [], ◌∷◌, ◌++◌,
  ltb, leb, ◌==◌, if◌then◌else◌, length, drop,
}
use hft_radial_cache.Common.Bytes.{Bytes, bytes_eq}
use hft_radial_cache.Common.Words.{add64}
use hft_radial_cache.Security.Literals

pub data OperationType : Type 0 where
  read write delete admin batch_operation metrics_access config_access : OperationType

pub data PermissionLevel : Type 0 where
  no_access read_only read_write administrator super_admin : PermissionLevel

-- The values of the two enumerations.
unfoldable pub operation_code : OperationType → ℕ
operation_code read = 0
operation_code write = 1
operation_code delete = 2
operation_code admin = 3
operation_code batch_operation = 4
operation_code metrics_access = 5
operation_code config_access = 6

unfoldable pub level_code : PermissionLevel → ℕ
level_code no_access = 0
level_code read_only = 1
level_code read_write = 2
level_code administrator = 3
level_code super_admin = 4

pub record UserCredentials : Type 0 where
  pub username : Bytes
  pub password_hash : Bytes
  pub salt : Bytes
  pub permission_level : PermissionLevel
  pub created_at : ℕ
  pub last_login : ℕ
  pub is_active : Bool
  pub allowed_symbols : List Bytes

pub record AuditLogEntry : Type 0 where
  pub username : Bytes
  pub operation : Bytes
  pub details : Bytes
  pub timestamp : ℕ
  pub success : Bool
  pub error_message : Bytes

pub record SecurityManager : Type 0 where
  pub users : List (Bytes × UserCredentials)
  pub rate_limiters : List (Bytes × ℕ)
  pub audit_log : List AuditLogEntry
  pub encryption_key : Bytes
  pub encryption_enabled : Bool

-- `default_rate_limit_.max_requests_per_second`
abbrev pub max_requests_per_second : ℕ
max_requests_per_second = 1000

unfoldable pub lookup : {A : Type 0} → Bytes → List (Bytes × A) → Option A
lookup key [] = none
lookup key ((k, value) ∷ rest) = if bytes_eq k key then some value else lookup key rest

-- `map[key] = value`
unfoldable pub store : {A : Type 0} → Bytes → A → List (Bytes × A) → List (Bytes × A)
store key value [] = (key, value) ∷ []
store key value ((k, old) ∷ rest) =
    let later = store key value rest in
    if bytes_eq k key then (k, value) ∷ rest else (k, old) ∷ later

unfoldable pub keep_newest : List AuditLogEntry → List AuditLogEntry
keep_newest log = if ltb 10000 (length log) then drop 1 log else log

unfoldable pub log_audit_entry :
    SecurityManager → Bytes → Bytes → Bytes → Bool → Bytes → ℕ → SecurityManager
log_audit_entry s username operation details success error_message now =
    let entry : AuditLogEntry = record {
      username = username;
      operation = operation;
      details = details;
      timestamp = now;
      success = success;
      error_message = error_message;
    } in
    record s { audit_log = keep_newest (s.audit_log ++ entry ∷ []) }

unfoldable pub hash_password : Bytes → Bytes → Bytes
hash_password password salt = password ++ salt

unfoldable pub authenticate_user : SecurityManager → Bytes → Bytes → ℕ → SecurityManager × Bool
authenticate_user s username password now =
    let refuse : Bytes → Bytes → SecurityManager × Bool = λ details message.
      (log_audit_entry s username Literals.authentication details false message now, false) in
    let check : UserCredentials → SecurityManager × Bool = λ user.
      let logged_in = record s {
        users = store username (record user { last_login = now }) s.users;
      } in
      if not user.is_active
      then refuse Literals.user_inactive Literals.account_disabled
      else if not (bytes_eq (hash_password password user.salt) user.password_hash)
      then refuse Literals.invalid_password Literals.password_mismatch
      else (
        log_audit_entry logged_in username Literals.authentication Literals.login_successful true []
            now,
        true,
      ) in
    elim (lookup username s.users) [
      | none ↦ refuse Literals.user_not_found Literals.user_does_not_exist
      | some user ↦ check user
    ]

unfoldable pub has_permission : PermissionLevel → OperationType → Bool
has_permission user_level read = leb 1 (level_code user_level)
has_permission user_level write = leb 2 (level_code user_level)
has_permission user_level delete = leb 3 (level_code user_level)
has_permission user_level admin = leb 3 (level_code user_level)
has_permission user_level batch_operation = leb 3 (level_code user_level)
has_permission user_level metrics_access = leb 3 (level_code user_level)
has_permission user_level config_access = leb 3 (level_code user_level)

-- `std::find(...) != end()`
unfoldable pub member : Bytes → List Bytes → Bool
member symbol [] = false
member symbol (s ∷ rest) = bytes_eq s symbol || member symbol rest

-- The tests on the symbol inside authorize_operation.
unfoldable pub symbol_allowed : UserCredentials → Bytes → Bool
symbol_allowed user symbol =
    length symbol == 0 || length user.allowed_symbols == 0 || member symbol user.allowed_symbols

unfoldable pub authorize_operation :
    SecurityManager → Bytes → OperationType → Bytes → ℕ → SecurityManager × Bool
authorize_operation s username operation symbol now =
    let refuse : Bytes → Bytes → SecurityManager × Bool = λ details message.
      (log_audit_entry s username Literals.authorization details false message now, false) in
    let check : UserCredentials → SecurityManager × Bool = λ user.
      if not user.is_active
      then (s, false)
      else if not (has_permission user.permission_level operation)
      then refuse Literals.insufficient_permissions Literals.operation_not_allowed
      else if not (symbol_allowed user symbol)
      then refuse Literals.symbol_access_denied Literals.symbol_not_in_allowed_list
      else (s, true) in
    elim (lookup username s.users) [ none ↦ (s, false) | some user ↦ check user ]

-- The client, an underscore and the digit of the operation.
unfoldable pub rate_limit_key : Bytes → OperationType → Bytes
rate_limit_key client_id operation = client_id ++ 95 ∷ (48 + operation_code operation) ∷ []

-- `rate_limiters_[key]`, which starts at zero.
unfoldable pub count_of : SecurityManager → Bytes → ℕ
count_of s key = elim (lookup key s.rate_limiters) [ none ↦ 0 | some n ↦ n ]

unfoldable pub allow_operation :
    SecurityManager → Bytes → OperationType → ℕ → SecurityManager × Bool
allow_operation s client_id operation now =
    let key = rate_limit_key client_id operation in
    let count = count_of s key in
    let created = record s { rate_limiters = store key count s.rate_limiters } in
    if leb max_requests_per_second count
    then (
      log_audit_entry created client_id Literals.rate_limit Literals.rate_limit_exceeded false
          Literals.too_many_requests now,
      false,
    )
    else (record s { rate_limiters = store key (add64 count 1) s.rate_limiters }, true)

unfoldable pub create_user :
    SecurityManager → Bytes → Bytes → PermissionLevel → Bytes → ℕ → SecurityManager × Bool
create_user s username password permission_level salt now =
    let user : UserCredentials = record {
      username = username;
      password_hash = hash_password password salt;
      salt = salt;
      permission_level = permission_level;
      created_at = now;
      last_login = 0;
      is_active = true;
      allowed_symbols = [];
    } in
    elim (lookup username s.users) [
      | some existing ↦ (s, false)
      | none ↦ (
        log_audit_entry (record s { users = store username user s.users }) Literals.system
            Literals.user_creation Literals.user_created true (Literals.created_user ++ username)
            now,
        true,
      )
    ]

unfoldable pub update_user_permissions :
    SecurityManager → Bytes → PermissionLevel → ℕ → SecurityManager × Bool
update_user_permissions s username new_level now = elim (lookup username s.users) [
  | none ↦ (s, false)
  | some user ↦ (
    log_audit_entry
        (record s { users = store username (record user { permission_level = new_level }) s.users })
        Literals.system Literals.permission_update Literals.permissions_updated true
        (Literals.updated_permissions_for ++ username) now,
    true,
  )
]

unfoldable pub deactivate_user : SecurityManager → Bytes → ℕ → SecurityManager × Bool
deactivate_user s username now = elim (lookup username s.users) [
  | none ↦ (s, false)
  | some user ↦ (
    log_audit_entry
        (record s { users = store username (record user { is_active = false }) s.users })
        Literals.system Literals.user_deactivation Literals.user_deactivated true
        (Literals.deactivated_user ++ username) now,
    true,
  )
]
