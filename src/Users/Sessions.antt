-- ===== src/Users/Sessions.antt =====
-- backend/services/user_service.py: the list of a user's sessions, and their revocation.
use aiops_aws.Prelude.{
  ℕ, String, Bool, not, ◌&&◌, Option, none, some, List, map, length, str_eq, ◌==◌, if◌then◌else◌,
}
use aiops_aws.Models.{User, RefreshToken, AuditEventType, text, end, field}
use aiops_aws.Outcome.{pure, raise, raise_if, ◌>>=◌, ◌>>◌}
use aiops_aws.Database.Session.{find_refresh_token, Action, write_refresh_token}
use aiops_aws.Security.{Env, Payload, utcnow, decode_refresh_token, matches}
use aiops_aws.Auth.{Client, audit}
use aiops_aws.Auth.Sessions.{is_live}
use aiops_aws.Users.{get_active_refresh_tokens, revoke_refresh_tokens}

-- `if token:`, which an empty text fails too
abbrev pub given : Option String → Option String
given none = none
given (some s) = if str_eq s "" then none else some s

abbrev pub jti_of : Option Payload → Option String
jti_of none = none
jti_of (some payload) = payload.jti

unfoldable pub current_jti : Env → Option String → Action (Option String)
current_jti env none = pure none
current_jti env (some token) = do payload ← decode_refresh_token env token; pure (jti_of payload)

unfoldable pub list_sessions : Env → User → Option String → Action (List (RefreshToken × Bool) × ℕ)
unfolding current_jti
list_sessions env user current_refresh_token = do
  tokens ← get_active_refresh_tokens env user.id
  jti ← current_jti env (given current_refresh_token)
  pure (map (λ t. (t, matches jti t.jti)) tokens, length tokens)

unfoldable pub revoke_found_session :
    Env → ℕ → User → ℕ → Client → Option RefreshToken → Action (Unit {0})
unfolding audit
revoke_found_session env session_id user now client none = raise 404 "Session not found"
revoke_found_session env session_id user now client (some token) = do
  write_refresh_token (record token { revoked_at = some now })
  audit env AuditEventType.session_revoked (some user.id) client "Session revoked"
      (some (field "session_id" (text (env.uuid_text session_id)) end))

unfoldable pub revoke_session : Env → User → ℕ → Client → Action (Unit {0})
unfolding revoke_found_session
revoke_session env user session_id client = do
  now ← utcnow env
  token ← find_refresh_token (λ t. t.id == session_id && (t.user_id == user.id && is_live now t))
  revoke_found_session env session_id user now client token

-- the `jti` of the token to keep, which must decode and be a refresh token
unfoldable pub checked_jti : Option Payload → Action (Option String)
checked_jti none = raise 400 "Invalid refresh token"
checked_jti (some payload) = do
  raise_if (not (matches payload.type "refresh")) 400 "Invalid refresh token"
  pure payload.jti

unfoldable pub kept_jti : Env → Option String → Action (Option String)
unfolding checked_jti
kept_jti env none = pure none
kept_jti env (some token) = do payload ← decode_refresh_token env token; checked_jti payload

abbrev revoke_all_detail : Option String → String
revoke_all_detail none = "All sessions revoked"
revoke_all_detail (some jti) = "All sessions revoked except current"

unfoldable pub revoke_all_sessions : Env → User → Option String → Client → Action ℕ
unfolding revoke_refresh_tokens kept_jti
revoke_all_sessions env user keep_refresh_token client = do
  except_jti ← kept_jti env (given keep_refresh_token)
  revoke_refresh_tokens env user.id except_jti none client AuditEventType.session_revoked
      (revoke_all_detail (given except_jti))
