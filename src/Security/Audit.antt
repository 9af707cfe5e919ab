-- ===== src/Security/Audit.antt =====
-- src/security_manager.cpp: the constructor, the audit log's readers, encryption and validation.
use hft_radial_cache.Common.{
  ℕ, suc, Bool, true, false, not, ◌&&◌, ◌||◌, List, [], ◌∷◌, ◌++◌, ltb, leb, ◌==◌, if◌then◌else◌,
  length,
}
use hft_radial_cache.Common.Bytes.{Bytes, bytes_eq}
use hft_radial_cache.Security.{SecurityManager, AuditLogEntry, read_only, super_admin, create_user}
use hft_radial_cache.Security.Literals

-- The two default users of the constructor.
unfoldable pub new : Bytes → Bytes → ℕ → SecurityManager
new admin_salt reader_salt now =
    let nobody : SecurityManager = record {
      users = [];
      rate_limiters = [];
      audit_log = [];
      encryption_key = [];
      encryption_enabled = false;
    } in
    let first =
      create_user nobody Literals.admin_name Literals.admin_password super_admin admin_salt now in
    (create_user first.0 Literals.reader_name Literals.reader_password read_only reader_salt now).0

-- The loop of get_audit_log, which ends once the result has `limit` entries.
unfoldable pub audit_loop : Bytes → ℕ → List AuditLogEntry → List AuditLogEntry → List AuditLogEntry
audit_loop username limit filtered_log [] = filtered_log
audit_loop username limit filtered_log (entry ∷ rest) =
    let longer = filtered_log ++ entry ∷ [] in
    let more = audit_loop username limit longer rest in
    let same = audit_loop username limit filtered_log rest in
    if length username == 0 || bytes_eq entry.username username
    then (if leb limit (length longer) then longer else more)
    else same

unfoldable pub get_audit_log : SecurityManager → Bytes → ℕ → List AuditLogEntry
unfolding audit_loop
get_audit_log s username limit = audit_loop username limit [] s.audit_log

unfoldable pub enable_encryption : SecurityManager → Bytes → SecurityManager
enable_encryption s key = record s { encryption_key = key; encryption_enabled = true }

unfoldable pub disable_encryption : SecurityManager → SecurityManager
disable_encryption s = record s { encryption_key = []; encryption_enabled = false }

-- Neither changes the data, whether encryption is enabled or not.
unfoldable pub encrypt_data : SecurityManager → Bytes → Bytes
encrypt_data s plain = if not s.encryption_enabled then plain else plain

unfoldable pub decrypt_data : SecurityManager → Bytes → Bytes
decrypt_data s encrypted_data = if not s.encryption_enabled then encrypted_data else encrypted_data

unfoldable pub starts_with : Bytes → Bytes → Bool
starts_with [] text = true
starts_with (c ∷ pattern) [] = false
starts_with (c ∷ pattern) (t ∷ text) = c == t && starts_with pattern text

-- `text.find(pattern) != npos`
unfoldable pub contains : Bytes → Bytes → Bool
unfolding starts_with
contains pattern [] = starts_with pattern []
contains pattern (t ∷ text) = starts_with pattern (t ∷ text) || contains pattern text

unfoldable pub validate_input : Bytes → Bool
unfolding contains
validate_input input = not (
    contains Literals.quote input
    || contains Literals.semicolon input
    || contains Literals.script input)

-- How many of the entries are failed authentications.
unfoldable pub failed_attempts : List AuditLogEntry → ℕ
failed_attempts [] = 0
failed_attempts (entry ∷ rest) =
    let more = failed_attempts rest in
    if not entry.success && bytes_eq entry.operation Literals.authentication then suc more else more

unfoldable pub is_suspicious_activity : SecurityManager → Bytes → Bool
unfolding get_audit_log failed_attempts
is_suspicious_activity s username = ltb 5 (failed_attempts (get_audit_log s username 100))
