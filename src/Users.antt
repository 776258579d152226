-- ===== src/Users.antt =====
-- backend/services/user_service.py: the refresh tokens of an account here, and the operations in
-- the child modules.
pub mod Profile
pub mod Sessions
pub mod Admin
pub mod RevokedRows
pub mod Revocation
pub mod Listing
pub mod Growth
pub mod Benign
pub mod LastAdmin
pub mod Closing
pub mod Pages
use aiops_aws.Prelude.{
  ℕ, zero, suc, ◌+◌, String, Bool, true, false, not, ◌&&◌, Option, none, some, List, [], ◌∷◌,
  str_eq, ltb, ◌==◌, if◌then◌else◌,
}
use aiops_aws.Models.{User, RefreshToken, AuditEventType, Json, Fields, text, number, end, field}
use aiops_aws.Database.Table.{select, newest_first}
use aiops_aws.Outcome.{Result, ok, err, pure, gets, ◌>>=◌, ◌>>◌, when}
use aiops_aws.Database.Session.{Session, Action, write_refresh_token}
use aiops_aws.Security.{Env, utcnow}
use aiops_aws.Auth.{Client, audit}
use aiops_aws.Auth.Sessions.{is_live}

abbrev pub is_live_of : ℕ → ℕ → RefreshToken → Bool
is_live_of user_id now t = t.user_id == user_id && is_live now t

-- `_get_active_refresh_tokens`
abbrev pub get_active_refresh_tokens : Env → ℕ → Action (List RefreshToken)
get_active_refresh_tokens env user_id = do
  now ← utcnow env
  gets (λ s. newest_first (λ t. t.created_at) (select (is_live_of user_id now) s.refresh_tokens))

-- `except_jti and token.jti == except_jti`
abbrev pub is_kept : Option String → RefreshToken → Bool
is_kept none t = false
is_kept (some jti) t = not (str_eq jti "") && str_eq t.jti jti

-- the loop of `_revoke_refresh_tokens`, with the count that it adds up
unfoldable pub revoke_each : ℕ → Option String → List RefreshToken → Action ℕ
revoke_each now except_jti [] = pure 0
revoke_each now except_jti (token ∷ tokens) = do
  when (not (is_kept except_jti token))
      (write_refresh_token (record token { revoked_at = some now }))
  revoked_count ← revoke_each now except_jti tokens
  pure (if is_kept except_jti token then revoked_count else revoked_count + 1)

-- `actor_user_id or user_id`
abbrev actor_or : Option ℕ → ℕ → ℕ
actor_or none user_id = user_id
actor_or (some actor) user_id = actor

-- `_revoke_refresh_tokens`
unfoldable pub revoke_refresh_tokens :
    Env → ℕ → Option String → Option ℕ → Client → AuditEventType → String → Action ℕ
unfolding audit
revoke_refresh_tokens env user_id except_jti actor_user_id client audit_type detail = do
  now ← utcnow env
  tokens ← get_active_refresh_tokens env user_id
  revoked_count ← revoke_each now except_jti tokens
  when (not (revoked_count == 0)) (
      audit env audit_type (some (actor_or actor_user_id user_id)) client detail (
        some (
          field "target_user_id" (text (env.uuid_text user_id))
            (field "revoked_count" (number revoked_count) end))))
  pure revoked_count
