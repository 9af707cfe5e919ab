-- ===== src/Security/Access.antt =====
-- src/security_manager.cpp: who may log in, and what a user may do.
use hft_radial_cache.Common.{
  ℕ, ◌≤◌, ◌≡◌, refl, ◌∙◌, ap, Bool, true, false, not, ◌&&◌, none, some, List, [], ◌∷◌, ◌++◌, arith,
  ◌==◌, if◌then◌else◌, length, length-append, Bool-cases, inl, inr,
}
use hft_radial_cache.Common.Bytes.{Bytes, bytes_eq, bytes_eq_self, bytes_eq→eq}
use hft_radial_cache.Security.{
  SecurityManager, UserCredentials, OperationType, PermissionLevel, read, write, delete, admin,
  batch_operation, metrics_access, config_access, level_code, lookup, store, log_audit_entry,
  hash_password, authenticate_user, has_permission, symbol_allowed, authorize_operation,
  create_user, deactivate_user,
}

module _ {A : Type 0} where
  pub lookup-store_self :
      (key : Bytes) (value : A) (m : List (Bytes × A)) → lookup key (store key value m) ≡ some value
  unfolding lookup store
  lookup-store_self key value [] = ground (arith, bytes_eq_self key)
  lookup-store_self key value ((k, old) ∷ rest) = ground (arith, lookup-store_self key value rest)

-- Two passwords with the same salt hash alike exactly if they are the same.
hash-eq : (p q salt : Bytes) → bytes_eq (hash_password p salt) (hash_password q salt) ≡ bytes_eq p q
unfolding hash_password bytes_eq
hash-eq [] [] salt = bytes_eq_self salt
hash-eq [] (c ∷ q) salt = elim (Bool-cases (bytes_eq salt (c ∷ q ++ salt))) [
  | inl h ↦
      let e = bytes_eq→eq salt (c ∷ q ++ salt) h in
      absurd (omega (arith, ap length e, length-append q salt))
  | inr h ↦ h
]
hash-eq (c ∷ p) [] salt = elim (Bool-cases (bytes_eq (c ∷ p ++ salt) salt)) [
  | inl h ↦
      let e = bytes_eq→eq (c ∷ p ++ salt) salt h in
      absurd (omega (arith, ap length e, length-append p salt))
  | inr h ↦ h
]
hash-eq (c ∷ p) (d ∷ q) salt = ap (λ b. c == d && b) (hash-eq p q salt)

-- The answers of the two chains of tests.
two_tests :
    {A : Type 0} (a b : Bool) (x y z : A)
    → (let r : A × Bool = if not a then (x, false) else if not b then (y, false) else (z, true) in
        r.1 ≡ a && b)
two_tests true true x y z = refl
two_tests true false x y z = refl
two_tests false b x y z = refl

three_tests :
    {A : Type 0} (a b c : Bool) (w x y z : A)
    → (let r : A × Bool =
          if not a
          then (w, false)
          else if not b
          then (x, false)
          else if not c
          then (y, false)
          else (z, true) in
        r.1 ≡ a && (b && c))
three_tests true true true w x y z = refl
three_tests true true false w x y z = refl
three_tests true false c w x y z = refl
three_tests false b c w x y z = refl

authenticate_found :
    (s : SecurityManager) (username attempt : Bytes) (user : UserCredentials) (now : ℕ)
    → lookup username s.users ≡ some user
    → (authenticate_user s username attempt now).1
      ≡ user.is_active && bytes_eq (hash_password attempt user.salt) user.password_hash
unfolding authenticate_user
authenticate_found s username attempt user now here =
    rw (here, authenticate_user)
      (two_tests user.is_active (bytes_eq (hash_password attempt user.salt) user.password_hash) _ _
        _)

pub authorize_found :
    (s : SecurityManager) (username symbol : Bytes) (operation : OperationType)
    (user : UserCredentials) (now : ℕ)
    → lookup username s.users ≡ some user
    → (authorize_operation s username operation symbol now).1
      ≡ user.is_active
        && (has_permission user.permission_level operation && symbol_allowed user symbol)
unfolding authorize_operation
authorize_found s username symbol operation user now here =
    rw (here, authorize_operation)
      (three_tests user.is_active (has_permission user.permission_level operation)
        (symbol_allowed user symbol) _ _ _ _)

pub authorize_missing :
    (s : SecurityManager) (username symbol : Bytes) (operation : OperationType) (now : ℕ)
    → lookup username s.users ≡ none
    → (authorize_operation s username operation symbol now).1 ≡ false
unfolding authorize_operation
authorize_missing s username symbol operation now missing = rw (missing, authorize_operation) refl

abbrev created : Bytes → Bytes → PermissionLevel → Bytes → ℕ → UserCredentials
created username password level salt now = record {
  username = username;
  password_hash = hash_password password salt;
  salt = salt;
  permission_level = level;
  created_at = now;
  last_login = 0;
  is_active = true;
  allowed_symbols = [];
}

lookup-create :
    (s : SecurityManager) (username password salt : Bytes) (level : PermissionLevel) (now : ℕ)
    → lookup username s.users ≡ none
    → lookup username (create_user s username password level salt now).0.users
      ≡ some (created username password level salt now)
unfolding create_user log_audit_entry
lookup-create s username password salt level now missing =
    rw (missing, create_user)
      (lookup-store_self username (created username password level salt now) s.users)

lookup-deactivate :
    (s : SecurityManager) (username : Bytes) (user : UserCredentials) (now : ℕ)
    → lookup username s.users ≡ some user
    → lookup username (deactivate_user s username now).0.users
      ≡ some (record user { is_active = false })
unfolding deactivate_user log_audit_entry
lookup-deactivate s username user now here =
    rw (here, deactivate_user)
      (lookup-store_self username (record user { is_active = false }) s.users)

-- A user just created, under a name not in use, logs in with the password given then and with no
-- other.
pub authenticate-create :
    (s : SecurityManager) (username password attempt salt : Bytes) (level : PermissionLevel)
    (now later : ℕ)
    → lookup username s.users ≡ none
    → (authenticate_user
        (create_user s username password level salt now).0
        username
        attempt
        later).1
      ≡ bytes_eq attempt password
authenticate-create s username password attempt salt level now later missing =
    authenticate_found (create_user s username password level salt now).0 username attempt
      (created username password level salt now) later
      (lookup-create s username password salt level now missing)
    ∙ hash-eq attempt password salt

-- After deactivate_user on a user of the map the user can neither log in nor do anything, whatever
-- the password, the operation and the symbol are.
pub deactivate_blocks :
    (s : SecurityManager) (username attempt symbol : Bytes) (operation : OperationType)
    (user : UserCredentials) (now later : ℕ)
    → lookup username s.users ≡ some user
    → ((authenticate_user (deactivate_user s username now).0 username attempt later).1 ≡ false)
      × ((authorize_operation (deactivate_user s username now).0 username operation symbol later).1
          ≡ false)
deactivate_blocks s username attempt symbol operation user now later here =
    let gone = lookup-deactivate s username user now here in
    (
      authenticate_found (deactivate_user s username now).0 username attempt _ later gone,
      authorize_found (deactivate_user s username now).0 username symbol operation _ later gone,
    )

-- A higher level may do all that a lower one may.
pub has_permission_mono :
    (lower upper : PermissionLevel) (operation : OperationType)
    → level_code lower ≤ level_code upper
    → has_permission lower operation ≡ true
    → has_permission upper operation ≡ true
unfolding has_permission
has_permission_mono lower upper read le h = ground arith
has_permission_mono lower upper write le h = ground arith
has_permission_mono lower upper delete le h = ground arith
has_permission_mono lower upper admin le h = ground arith
has_permission_mono lower upper batch_operation le h = ground arith
has_permission_mono lower upper metrics_access le h = ground arith
has_permission_mono lower upper config_access le h = ground arith
