-- ===== src/Users/Profile.antt =====
-- backend/services/user_service.py: what users do to their own account.
use aiops_aws.Prelude.{String, false, not, Option, none, some, strip, str_eq, if◌then◌else◌}
use aiops_aws.Models.{User, AuditEventType}
use aiops_aws.Outcome.{pure, raise_if, ◌>>=◌, ◌>>◌, when}
use aiops_aws.Database.Session.{Action, write_user}
use aiops_aws.Security.{Env, utcnow, hash_password, verify_password}
use aiops_aws.Auth.{Client, audit}
use aiops_aws.Users.{revoke_refresh_tokens}

-- `display_name.strip() if display_name else None`
unfoldable pub cleaned_name : String → Option String
unfolding strip
cleaned_name name = if str_eq name "" then none else some (strip name)

-- `if payload.display_name is not None: user.display_name = …`
unfoldable pub rename : Option String → User → User
unfolding cleaned_name
rename none user = user
rename (some name) user = record user { display_name = cleaned_name name }

unfoldable pub update_profile : Env → User → Option String → Client → Action User
unfolding rename audit
update_profile env user display_name client = do
  let user' = rename display_name user
  write_user user'
  audit env AuditEventType.profile_updated (some user.id) client "Profile updated" none
  pure user'

unfoldable pub change_password : Env → User → String → String → Client → Action (Unit {0})
unfolding audit revoke_refresh_tokens
change_password env user current_password new_password client = do
  raise_if (not (verify_password env current_password user.password_hash)) 401
      "Current password is incorrect"
  raise_if (str_eq current_password new_password) 400
      "New password must differ from current password"
  password_hash ← hash_password env new_password
  now ← utcnow env
  write_user (record user { password_hash = password_hash; password_changed_at = some now })
  revoke_refresh_tokens env user.id none none client AuditEventType.session_revoked
      "Sessions revoked after password change"
  audit env AuditEventType.password_changed (some user.id) client "Password changed" none

unfoldable pub deactivate_active : Env → User → Client → Action (Unit {0})
unfolding audit revoke_refresh_tokens
deactivate_active env user client = do
  now ← utcnow env
  write_user (record user { is_active = false; deactivated_at = some now })
  revoke_refresh_tokens env user.id none none client AuditEventType.account_deactivated
      "Account deactivated"
  audit env AuditEventType.account_deactivated (some user.id) client "Account deactivated" none

unfoldable pub deactivate_account : Env → User → Client → Action (Unit {0})
unfolding deactivate_active
deactivate_account env user client = when user.is_active (deactivate_active env user client)
