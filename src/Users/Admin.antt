-- ===== src/Users/Admin.antt =====
-- backend/services/user_service.py: what administrators do to an account.
use aiops_aws.Prelude.{
  ℕ, String, Bool, true, false, not, ◌&&◌, Option, none, some, length, leb, ◌==◌, if◌then◌else◌,
}
use aiops_aws.Models.{
  User, UserRole, role_eq, role_value, is_admin, AuditEventType, Json, Fields, null, text, flag,
  object, end, field,
}
use aiops_aws.Database.Table.{select}
use aiops_aws.Outcome.{pure, gets, raise_if, or_raise, ◌>>=◌, ◌>>◌}
use aiops_aws.Database.Session.{Action, find_user, write_user}
use aiops_aws.Security.{Env, utcnow}
use aiops_aws.Auth.{Client, audit}
use aiops_aws.Users.{revoke_refresh_tokens}
use aiops_aws.Users.Profile.{rename}

-- A field of a request body: left out, or given, perhaps as `null`.
pub data Field (A : Type 0) : Type 0 where
  unset : Field A
  given : Option A → Field A

-- the attribute of the parsed body
abbrev pub value : {A : Type 0} → Field A → Option A
value unset = none
value (given a) = a

pub record AdminUserUpdateRequest : Type 0 where
  pub display_name : Field String
  pub role : Field UserRole
  pub is_active : Field Bool
  pub is_verified : Field Bool

abbrev json_or_null : {A : Type 0} → (A → Json) → Option A → Json
json_or_null f none = null
json_or_null f (some a) = f a

abbrev dump_field : {A : Type 0} → String → (A → Json) → Field A → Fields → Fields
dump_field name f unset rest = rest
dump_field name f (given a) rest = field name (json_or_null f a) rest

-- `payload.model_dump(exclude_unset=True)`
abbrev pub changes : AdminUserUpdateRequest → Fields
changes payload = dump_field "display_name" text payload.display_name (
    dump_field "role" (λ r. text (role_value r)) payload.role
      (dump_field "is_active" flag payload.is_active
        (dump_field "is_verified" flag payload.is_verified end)))

abbrev pub is_active_admin : User → Bool
is_active_admin u = is_admin u.role && u.is_active

-- `_count_admins`: the database counts its stored rows
abbrev pub count_admins : Action ℕ
count_admins = gets (λ s. length (select is_active_admin s.users))

abbrev is_last : Bool → ℕ → Bool
is_last matters admins = matters && leb admins 1

unfoldable pub change_role : User → Option UserRole → Action User
change_role target none = pure target
change_role target (some role) = if role_eq role target.role then pure target else do
  admins ← count_admins
  raise_if (is_last (is_admin target.role && not (is_admin role)) admins) 400
      "Cannot demote the last active admin"
  write_user (record target { role = role })
  pure (record target { role = role })

unfoldable pub activate : User → Action User
activate target = do
  let target' = record target { is_active = true; deactivated_at = none }
  write_user target'
  pure target'

unfoldable pub deactivate : Env → User → User → Client → Action User
unfolding revoke_refresh_tokens
deactivate env actor target client = do
  admins ← count_admins
  raise_if (is_last (is_admin target.role) admins) 400 "Cannot deactivate the last active admin"
  now ← utcnow env
  let target' = record target { is_active = false; deactivated_at = some now }
  write_user target'
  revoke_refresh_tokens env target.id none (some actor.id) client
      AuditEventType.admin_sessions_revoked "Sessions revoked due to deactivation"
  pure target'

unfoldable pub change_active : Env → User → User → Option Bool → Client → Action User
unfolding activate deactivate
change_active env actor target none client = pure target
change_active env actor target (some true) client =
    if target.is_active then pure target else activate target
change_active env actor target (some false) client =
    if target.is_active then deactivate env actor target client else pure target

-- `if payload.is_verified is not None: target.is_verified = payload.is_verified`
abbrev pub verify : Option Bool → User → User
verify none target = target
verify (some is_verified) target = record target { is_verified = is_verified }

abbrev pub is_false : Option Bool → Bool
is_false none = false
is_false (some b) = not b

unfoldable pub admin_update_user : Env → User → User → AdminUserUpdateRequest → Client → Action User
unfolding audit rename change_role change_active revoke_refresh_tokens
admin_update_user env actor target payload client = do
  raise_if (actor.id == target.id && is_false (value payload.is_active)) 400
      "You cannot deactivate your own account"
  target₁ ← change_role target (value payload.role)
  target₂ ← change_active env actor target₁ (value payload.is_active) client
  let target₃ = rename (value payload.display_name) (verify (value payload.is_verified) target₂)
  write_user target₃
  audit env AuditEventType.admin_user_updated (some actor.id) client "Admin updated user" (
      some (
        field "target_user_id" (text (env.uuid_text target.id))
          (field "changes" (object (changes payload)) end)))
  pure target₃

unfoldable pub admin_unlock_user : Env → User → User → Client → Action User
unfolding audit
admin_unlock_user env actor target client = do
  let target' = record target { failed_attempts = 0; locked_until = none }
  write_user target'
  audit env AuditEventType.admin_user_unlocked (some actor.id) client "Admin unlocked user account"
      (some (field "target_user_id" (text (env.uuid_text target.id)) end))
  pure target'

unfoldable pub admin_revoke_sessions : Env → User → User → Client → Action ℕ
unfolding revoke_refresh_tokens
admin_revoke_sessions env actor target client =
    revoke_refresh_tokens env target.id none (some actor.id) client
      AuditEventType.admin_sessions_revoked "Admin revoked user sessions"

unfoldable pub get_user_by_id : ℕ → Action User
get_user_by_id user_id = do
  user ← find_user (λ u. u.id == user_id)
  or_raise user 404 "User not found"
