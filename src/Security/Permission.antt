-- ===== src/Security/Permission.antt =====
-- src/security_manager.cpp: what a user may do, told apart from the code's own tests.
use hft_radial_cache.Common.{
  ℕ, ◌≤◌, ◌≡◌, ◌↔◌, refl, sym, subst, ◌∙◌, ap, Bool, true, ◌&&◌, none, some, List, [], ◌∷◌, arith,
  ◌==◌, length, Bool-cases, Option-cases, ◌⊎◌, inl, inr,
}
use hft_radial_cache.Common.Bytes.{Bytes, bytes_eq, bytes_eq_self, bytes_eq→eq}
use hft_radial_cache.Security.{
  SecurityManager, UserCredentials, OperationType, PermissionLevel, no_access, read_only,
  read_write, administrator, super_admin, read, write, delete, admin, batch_operation,
  metrics_access, config_access, level_code, lookup, has_permission, member, symbol_allowed,
  authorize_operation,
}
use hft_radial_cache.Security.Access.{authorize_found, authorize_missing}

-- Who may do what, level by level: readers read, writers read and write, the two kinds of
-- administrator do everything.
abbrev pub MayDo : PermissionLevel → OperationType → Type 0
MayDo read_only read = Unit
MayDo read_write read = Unit
MayDo read_write write = Unit
MayDo administrator operation = Unit
MayDo super_admin operation = Unit
MayDo level operation = ⊥

pub data Listed (symbol : Bytes) : List Bytes → Type 0 where
  here : {rest : List Bytes} → Listed symbol (symbol ∷ rest)
  later : {other : Bytes} {rest : List Bytes} → Listed symbol rest → Listed symbol (other ∷ rest)

-- The symbols open to a user: a request may name none, a user may have no list, or it is listed.
pub data MayTrade (user : UserCredentials) (symbol : Bytes) : Type 0 where
  unnamed : symbol ≡ [] → MayTrade user symbol
  unrestricted : user.allowed_symbols ≡ [] → MayTrade user symbol
  listed : Listed symbol user.allowed_symbols → MayTrade user symbol

has_permission→MayDo :
    (level : PermissionLevel) (operation : OperationType)
    → has_permission level operation ≡ true
    → MayDo level operation
unfolding has_permission level_code
has_permission→MayDo no_access read h = cc
has_permission→MayDo no_access write h = cc
has_permission→MayDo no_access delete h = cc
has_permission→MayDo no_access admin h = cc
has_permission→MayDo no_access batch_operation h = cc
has_permission→MayDo no_access metrics_access h = cc
has_permission→MayDo no_access config_access h = cc
has_permission→MayDo read_only read h = tt
has_permission→MayDo read_only write h = cc
has_permission→MayDo read_only delete h = cc
has_permission→MayDo read_only admin h = cc
has_permission→MayDo read_only batch_operation h = cc
has_permission→MayDo read_only metrics_access h = cc
has_permission→MayDo read_only config_access h = cc
has_permission→MayDo read_write read h = tt
has_permission→MayDo read_write write h = tt
has_permission→MayDo read_write delete h = cc
has_permission→MayDo read_write admin h = cc
has_permission→MayDo read_write batch_operation h = cc
has_permission→MayDo read_write metrics_access h = cc
has_permission→MayDo read_write config_access h = cc
has_permission→MayDo administrator operation h = tt
has_permission→MayDo super_admin operation h = tt

administrators :
    (level : PermissionLevel) (operation : OperationType)
    → 3 ≤ level_code level
    → has_permission level operation ≡ true
unfolding has_permission
administrators level read h = ground arith
administrators level write h = ground arith
administrators level delete h = ground arith
administrators level admin h = ground arith
administrators level batch_operation h = ground arith
administrators level metrics_access h = ground arith
administrators level config_access h = ground arith

MayDo→has_permission :
    (level : PermissionLevel) (operation : OperationType)
    → MayDo level operation
    → has_permission level operation ≡ true
unfolding has_permission level_code
MayDo→has_permission no_access operation h = absurd h
MayDo→has_permission read_only read h = refl
MayDo→has_permission read_only write h = absurd h
MayDo→has_permission read_only delete h = absurd h
MayDo→has_permission read_only admin h = absurd h
MayDo→has_permission read_only batch_operation h = absurd h
MayDo→has_permission read_only metrics_access h = absurd h
MayDo→has_permission read_only config_access h = absurd h
MayDo→has_permission read_write read h = refl
MayDo→has_permission read_write write h = refl
MayDo→has_permission read_write delete h = absurd h
MayDo→has_permission read_write admin h = absurd h
MayDo→has_permission read_write batch_operation h = absurd h
MayDo→has_permission read_write metrics_access h = absurd h
MayDo→has_permission read_write config_access h = absurd h
MayDo→has_permission administrator operation h =
    administrators administrator operation (omega arith)
MayDo→has_permission super_admin operation h = administrators super_admin operation (omega arith)

member→Listed :
    (symbol : Bytes) (symbols : List Bytes) → member symbol symbols ≡ true → Listed symbol symbols
unfolding member
member→Listed symbol [] h = cc
member→Listed symbol (s ∷ rest) h = elim (Bool-cases (bytes_eq s symbol)) [
  | inl same ↦
      subst (λ (x : Bytes). Listed symbol (x ∷ rest)) (sym (bytes_eq→eq s symbol same)) here
  | inr other ↦ later (member→Listed symbol rest (ground arith))
]

Listed→member :
    (symbol : Bytes) (symbols : List Bytes) → Listed symbol symbols → member symbol symbols ≡ true
unfolding member
Listed→member symbol [] l = elim l [ ]
Listed→member symbol (_ ∷ rest) here = rw (bytes_eq_self symbol) refl
Listed→member symbol (s ∷ rest) (later l) = let found = Listed→member symbol rest l in ground arith

symbol_allowed→MayTrade :
    (user : UserCredentials) (symbol : Bytes)
    → symbol_allowed user symbol ≡ true
    → MayTrade user symbol
unfolding symbol_allowed
symbol_allowed→MayTrade user symbol h = elim (Bool-cases (length symbol == 0)) [
  | inl none_named ↦ unnamed (no_elements symbol (ground arith))
  | inr named ↦ elim (Bool-cases (length user.allowed_symbols == 0)) [
    | inl no_list ↦ unrestricted (no_elements user.allowed_symbols (ground arith))
    | inr some_list ↦ listed (member→Listed symbol user.allowed_symbols (ground arith))
  ]
]
  where
    no_elements : {A : Type 0} (xs : List A) → length xs ≡ 0 → xs ≡ []
    no_elements [] e = refl
    no_elements (x ∷ xs) e = absurd (omega arith)

MayTrade→symbol_allowed :
    (user : UserCredentials) (symbol : Bytes)
    → MayTrade user symbol
    → symbol_allowed user symbol ≡ true
unfolding symbol_allowed
MayTrade→symbol_allowed user symbol (unnamed e) = rw e refl
MayTrade→symbol_allowed user symbol (unrestricted e) =
    let no_list : length user.allowed_symbols ≡ 0 = ap length e in ground arith
MayTrade→symbol_allowed user symbol (listed l) =
    let found = Listed→member symbol user.allowed_symbols l in ground arith

-- A user of that name who is active, whose level may do the operation, and who may trade the symbol.
pub record Allowed (s : SecurityManager) (username symbol : Bytes) (operation : OperationType)
    : Type 0 where
  pub user : UserCredentials
  pub known : lookup username s.users ≡ some user
  pub active : user.is_active ≡ true
  pub permitted : MayDo user.permission_level operation
  pub traded : MayTrade user symbol

-- authorize_operation answers true exactly for a known and active user whose level may do the
-- operation by a table of its own (a reader reads, a writer reads and writes, an administrator of
-- either kind does everything, a user of no access nothing), where the request names no symbol, or
-- the user has no list of symbols, or the symbol is on the list.
pub authorize_iff :
    (s : SecurityManager) (username symbol : Bytes) (operation : OperationType) (now : ℕ)
    → ((authorize_operation s username operation symbol now).1 ≡ true)
      ↔ Allowed s username symbol operation
authorize_iff s username symbol operation now =
    (forth (Option-cases (lookup username s.users)), back)
  where
    split : (a b c : Bool) → (a && (b && c)) ≡ true → (a ≡ true) × (b ≡ true) × (c ≡ true)
    split a b c h = ground arith

    join : (a b c : Bool) → a ≡ true → b ≡ true → c ≡ true → (a && (b && c)) ≡ true
    join a b c p q r = ground arith

    forth :
        (lookup username s.users ≡ none)
          ⊎ ((user : UserCredentials) × (lookup username s.users ≡ some user))
        → (authorize_operation s username operation symbol now).1 ≡ true
        → Allowed s username symbol operation
    forth (inl missing) e = cc (authorize_missing s username symbol operation now missing)
    forth (inr (user, found)) e =
        let (a, b, c) =
          split user.is_active _ _
            (sym (authorize_found s username symbol operation user now found) ∙ e) in
        record {
          user = user;
          known = found;
          active = a;
          permitted = has_permission→MayDo user.permission_level operation b;
          traded = symbol_allowed→MayTrade user symbol c;
        }

    back :
        Allowed s username symbol operation
        → (authorize_operation s username operation symbol now).1 ≡ true
    back a =
        authorize_found s username symbol operation a.user now a.known
        ∙ join a.user.is_active _ _ a.active
            (MayDo→has_permission a.user.permission_level operation a.permitted)
            (MayTrade→symbol_allowed a.user symbol a.traded)
