-- ===== src/Security/Tests.antt =====
-- The theorems on the security manager at a manager without users.
use hft_radial_cache.Common.{
  ℕ, length, ◌-◌, ◌≤◌, ◌≡◌, ◌↔◌, refl, true, false, none, some, List, [], ◌∷◌, arith, min,
}
use hft_radial_cache.Common.Bytes.{Bytes, bytes_eq}
use hft_radial_cache.Security.{
  SecurityManager, UserCredentials, read, write, read_only, read_write, super_admin, level_code,
  lookup, authenticate_user, authorize_operation, create_user, has_permission, rate_limit_key,
  count_of, max_requests_per_second,
}
use hft_radial_cache.Security.Access.{authenticate-create}
use hft_radial_cache.Security.Permission.{Allowed, authorize_iff}
use hft_radial_cache.Security.Limits.{
  Call, authenticates, allows, creates, run, IsBounded, run-IsBounded, allowed, allowed_total,
}

abbrev nobody : SecurityManager
nobody = record {
  users = [];
  rate_limiters = [];
  audit_log = [];
  encryption_key = [];
  encryption_enabled = false;
}

abbrev name : Bytes
name = 97 ∷ 98 ∷ []

abbrev user : UserCredentials
user = record {
  username = name;
  password_hash = 120 ∷ 121 ∷ [];
  salt = 121 ∷ [];
  permission_level = read_write;
  created_at = 3;
  last_login = 0;
  is_active = true;
  allowed_symbols = (66 ∷ []) ∷ (65 ∷ 66 ∷ []) ∷ [];
}

abbrev somebody : SecurityManager
somebody = record nobody { users = (name, user) ∷ [] }

nobody-lookup : lookup name nobody.users ≡ none
unfolding lookup
nobody-lookup = refl

somebody-lookup : lookup name somebody.users ≡ some user
unfolding lookup bytes_eq
somebody-lookup = refl

authenticate-create_example :
    (authenticate_user
      (create_user nobody name (120 ∷ []) read_only (121 ∷ []) 3).0
      name
      (122 ∷ [])
      5).1
    ≡ bytes_eq (122 ∷ []) (120 ∷ [])
authenticate-create_example =
    authenticate-create nobody name (120 ∷ []) (122 ∷ []) (121 ∷ []) read_only 3 5 nobody-lookup

authorize_iff_example :
    ((authorize_operation somebody name write (65 ∷ 66 ∷ []) 5).1 ≡ true)
    ↔ Allowed somebody name (65 ∷ 66 ∷ []) write
authorize_iff_example = authorize_iff somebody name (65 ∷ 66 ∷ []) write 5

levels : level_code read_only ≤ level_code super_admin
unfolding level_code
levels = omega arith

readers : has_permission read_only read ≡ true
unfolding has_permission level_code
readers = refl

abbrev calls : List Call
calls =
    creates name (120 ∷ []) read_only (121 ∷ []) 3
    ∷ authenticates name (122 ∷ []) 4
    ∷ allows name read 5
    ∷ []

run-IsBounded_example : IsBounded (run nobody calls)
run-IsBounded_example = run-IsBounded nobody calls (omega arith)

-- A nanosecond, a second and an hour apart.
abbrev requests : List ℕ
requests = 5 ∷ 6 ∷ 1000000006 ∷ 3601000000006 ∷ []

allowed_total_example :
    allowed nobody name read requests
    ≡ min (length requests) (max_requests_per_second - count_of nobody (rate_limit_key name read))
allowed_total_example = allowed_total nobody name read requests
