-- ===== src/Security/Literals.antt =====
-- src/security_manager.cpp: the string literals, as bytes.
use hft_radial_cache.Common.{[], ◌∷◌}
use hft_radial_cache.Common.Bytes.{Bytes}

-- "SYSTEM"
abbrev pub system : Bytes
system = 83 ∷ 89 ∷ 83 ∷ 84 ∷ 69 ∷ 77 ∷ []

-- "AUTHENTICATION"
abbrev pub authentication : Bytes
authentication = 65 ∷ 85 ∷ 84 ∷ 72 ∷ 69 ∷ 78 ∷ 84 ∷ 73 ∷ 67 ∷ 65 ∷ 84 ∷ 73 ∷ 79 ∷ 78 ∷ []

-- "AUTHORIZATION"
abbrev pub authorization : Bytes
authorization = 65 ∷ 85 ∷ 84 ∷ 72 ∷ 79 ∷ 82 ∷ 73 ∷ 90 ∷ 65 ∷ 84 ∷ 73 ∷ 79 ∷ 78 ∷ []

-- "RATE_LIMIT"
abbrev pub rate_limit : Bytes
rate_limit = 82 ∷ 65 ∷ 84 ∷ 69 ∷ 95 ∷ 76 ∷ 73 ∷ 77 ∷ 73 ∷ 84 ∷ []

-- "USER_CREATION"
abbrev pub user_creation : Bytes
user_creation = 85 ∷ 83 ∷ 69 ∷ 82 ∷ 95 ∷ 67 ∷ 82 ∷ 69 ∷ 65 ∷ 84 ∷ 73 ∷ 79 ∷ 78 ∷ []

-- "PERMISSION_UPDATE"
abbrev pub permission_update : Bytes
permission_update =
    80 ∷ 69 ∷ 82 ∷ 77 ∷ 73 ∷ 83 ∷ 83 ∷ 73 ∷ 79 ∷ 78 ∷ 95 ∷ 85 ∷ 80 ∷ 68 ∷ 65 ∷ 84 ∷ 69 ∷ []

-- "USER_DEACTIVATION"
abbrev pub user_deactivation : Bytes
user_deactivation =
    85 ∷ 83 ∷ 69 ∷ 82 ∷ 95 ∷ 68 ∷ 69 ∷ 65 ∷ 67 ∷ 84 ∷ 73 ∷ 86 ∷ 65 ∷ 84 ∷ 73 ∷ 79 ∷ 78 ∷ []

-- "User not found"
abbrev pub user_not_found : Bytes
user_not_found = 85 ∷ 115 ∷ 101 ∷ 114 ∷ 32 ∷ 110 ∷ 111 ∷ 116 ∷ 32 ∷ 102 ∷ 111 ∷ 117 ∷ 110 ∷ 100 ∷ []

-- "User does not exist"
abbrev pub user_does_not_exist : Bytes
user_does_not_exist =
    85 ∷ 115 ∷ 101 ∷ 114 ∷ 32 ∷ 100 ∷ 111 ∷ 101 ∷ 115 ∷ 32 ∷ 110 ∷ 111 ∷ 116 ∷ 32 ∷ 101 ∷ 120 ∷ 105
    ∷ 115 ∷ 116 ∷ []

-- "User inactive"
abbrev pub user_inactive : Bytes
user_inactive = 85 ∷ 115 ∷ 101 ∷ 114 ∷ 32 ∷ 105 ∷ 110 ∷ 97 ∷ 99 ∷ 116 ∷ 105 ∷ 118 ∷ 101 ∷ []

-- "Account disabled"
abbrev pub account_disabled : Bytes
account_disabled =
    65 ∷ 99 ∷ 99 ∷ 111 ∷ 117 ∷ 110 ∷ 116 ∷ 32 ∷ 100 ∷ 105 ∷ 115 ∷ 97 ∷ 98 ∷ 108 ∷ 101 ∷ 100 ∷ []

-- "Invalid password"
abbrev pub invalid_password : Bytes
invalid_password =
    73 ∷ 110 ∷ 118 ∷ 97 ∷ 108 ∷ 105 ∷ 100 ∷ 32 ∷ 112 ∷ 97 ∷ 115 ∷ 115 ∷ 119 ∷ 111 ∷ 114 ∷ 100 ∷ []

-- "Password mismatch"
abbrev pub password_mismatch : Bytes
password_mismatch =
    80 ∷ 97 ∷ 115 ∷ 115 ∷ 119 ∷ 111 ∷ 114 ∷ 100 ∷ 32 ∷ 109 ∷ 105 ∷ 115 ∷ 109 ∷ 97 ∷ 116 ∷ 99 ∷ 104
    ∷ []

-- "Login successful"
abbrev pub login_successful : Bytes
login_successful =
    76 ∷ 111 ∷ 103 ∷ 105 ∷ 110 ∷ 32 ∷ 115 ∷ 117 ∷ 99 ∷ 99 ∷ 101 ∷ 115 ∷ 115 ∷ 102 ∷ 117 ∷ 108 ∷ []

-- "Insufficient permissions"
abbrev pub insufficient_permissions : Bytes
insufficient_permissions =
    73 ∷ 110 ∷ 115 ∷ 117 ∷ 102 ∷ 102 ∷ 105 ∷ 99 ∷ 105 ∷ 101 ∷ 110 ∷ 116 ∷ 32 ∷ 112 ∷ 101 ∷ 114 ∷ 109
    ∷ 105 ∷ 115 ∷ 115 ∷ 105 ∷ 111 ∷ 110 ∷ 115 ∷ []

-- "Operation not allowed for permission level"
abbrev pub operation_not_allowed : Bytes
operation_not_allowed =
    79 ∷ 112 ∷ 101 ∷ 114 ∷ 97 ∷ 116 ∷ 105 ∷ 111 ∷ 110 ∷ 32 ∷ 110 ∷ 111 ∷ 116 ∷ 32 ∷ 97 ∷ 108 ∷ 108
    ∷ 111 ∷ 119 ∷ 101 ∷ 100 ∷ 32 ∷ 102 ∷ 111 ∷ 114 ∷ 32 ∷ 112 ∷ 101 ∷ 114 ∷ 109 ∷ 105 ∷ 115 ∷ 115
    ∷ 105 ∷ 111 ∷ 110 ∷ 32 ∷ 108 ∷ 101 ∷ 118 ∷ 101 ∷ 108 ∷ []

-- "Symbol access denied"
abbrev pub symbol_access_denied : Bytes
symbol_access_denied =
    83 ∷ 121 ∷ 109 ∷ 98 ∷ 111 ∷ 108 ∷ 32 ∷ 97 ∷ 99 ∷ 99 ∷ 101 ∷ 115 ∷ 115 ∷ 32 ∷ 100 ∷ 101 ∷ 110
    ∷ 105 ∷ 101 ∷ 100 ∷ []

-- "Symbol not in allowed list"
abbrev pub symbol_not_in_allowed_list : Bytes
symbol_not_in_allowed_list =
    83 ∷ 121 ∷ 109 ∷ 98 ∷ 111 ∷ 108 ∷ 32 ∷ 110 ∷ 111 ∷ 116 ∷ 32 ∷ 105 ∷ 110 ∷ 32 ∷ 97 ∷ 108 ∷ 108
    ∷ 111 ∷ 119 ∷ 101 ∷ 100 ∷ 32 ∷ 108 ∷ 105 ∷ 115 ∷ 116 ∷ []

-- "Rate limit exceeded"
abbrev pub rate_limit_exceeded : Bytes
rate_limit_exceeded =
    82 ∷ 97 ∷ 116 ∷ 101 ∷ 32 ∷ 108 ∷ 105 ∷ 109 ∷ 105 ∷ 116 ∷ 32 ∷ 101 ∷ 120 ∷ 99 ∷ 101 ∷ 101 ∷ 100
    ∷ 101 ∷ 100 ∷ []

-- "Too many requests per second"
abbrev pub too_many_requests : Bytes
too_many_requests =
    84 ∷ 111 ∷ 111 ∷ 32 ∷ 109 ∷ 97 ∷ 110 ∷ 121 ∷ 32 ∷ 114 ∷ 101 ∷ 113 ∷ 117 ∷ 101 ∷ 115 ∷ 116 ∷ 115
    ∷ 32 ∷ 112 ∷ 101 ∷ 114 ∷ 32 ∷ 115 ∷ 101 ∷ 99 ∷ 111 ∷ 110 ∷ 100 ∷ []

-- "User created"
abbrev pub user_created : Bytes
user_created = 85 ∷ 115 ∷ 101 ∷ 114 ∷ 32 ∷ 99 ∷ 114 ∷ 101 ∷ 97 ∷ 116 ∷ 101 ∷ 100 ∷ []

-- "Created user: "
abbrev pub created_user : Bytes
created_user = 67 ∷ 114 ∷ 101 ∷ 97 ∷ 116 ∷ 101 ∷ 100 ∷ 32 ∷ 117 ∷ 115 ∷ 101 ∷ 114 ∷ 58 ∷ 32 ∷ []

-- "Permissions updated"
abbrev pub permissions_updated : Bytes
permissions_updated =
    80 ∷ 101 ∷ 114 ∷ 109 ∷ 105 ∷ 115 ∷ 115 ∷ 105 ∷ 111 ∷ 110 ∷ 115 ∷ 32 ∷ 117 ∷ 112 ∷ 100 ∷ 97 ∷ 116
    ∷ 101 ∷ 100 ∷ []

-- "Updated permissions for: "
abbrev pub updated_permissions_for : Bytes
updated_permissions_for =
    85 ∷ 112 ∷ 100 ∷ 97 ∷ 116 ∷ 101 ∷ 100 ∷ 32 ∷ 112 ∷ 101 ∷ 114 ∷ 109 ∷ 105 ∷ 115 ∷ 115 ∷ 105 ∷ 111
    ∷ 110 ∷ 115 ∷ 32 ∷ 102 ∷ 111 ∷ 114 ∷ 58 ∷ 32 ∷ []

-- "User deactivated"
abbrev pub user_deactivated : Bytes
user_deactivated =
    85 ∷ 115 ∷ 101 ∷ 114 ∷ 32 ∷ 100 ∷ 101 ∷ 97 ∷ 99 ∷ 116 ∷ 105 ∷ 118 ∷ 97 ∷ 116 ∷ 101 ∷ 100 ∷ []

-- "Deactivated user: "
abbrev pub deactivated_user : Bytes
deactivated_user =
    68 ∷ 101 ∷ 97 ∷ 99 ∷ 116 ∷ 105 ∷ 118 ∷ 97 ∷ 116 ∷ 101 ∷ 100 ∷ 32 ∷ 117 ∷ 115 ∷ 101 ∷ 114 ∷ 58
    ∷ 32 ∷ []

-- "'"
abbrev pub quote : Bytes
quote = 39 ∷ []

-- ";"
abbrev pub semicolon : Bytes
semicolon = 59 ∷ []

-- "<script>"
abbrev pub script : Bytes
script = 60 ∷ 115 ∷ 99 ∷ 114 ∷ 105 ∷ 112 ∷ 116 ∷ 62 ∷ []

-- "admin"
abbrev pub admin_name : Bytes
admin_name = 97 ∷ 100 ∷ 109 ∷ 105 ∷ 110 ∷ []

-- "admin123"
abbrev pub admin_password : Bytes
admin_password = 97 ∷ 100 ∷ 109 ∷ 105 ∷ 110 ∷ 49 ∷ 50 ∷ 51 ∷ []

-- "reader"
abbrev pub reader_name : Bytes
reader_name = 114 ∷ 101 ∷ 97 ∷ 100 ∷ 101 ∷ 114 ∷ []

-- "reader123"
abbrev pub reader_password : Bytes
reader_password = 114 ∷ 101 ∷ 97 ∷ 100 ∷ 101 ∷ 114 ∷ 49 ∷ 50 ∷ 51 ∷ []
