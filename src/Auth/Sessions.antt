-- ===== src/Auth/Sessions.antt =====
-- backend/services/auth_service.py: login, the rotation of refresh tokens, and logout.
use aiops_aws.Prelude.{
  ℕ, ◌+◌, ◌/◌, String, Bool, true, false, not, ◌&&◌, Option, none, some, ltb, str_eq, ◌==◌,
  if◌then◌else◌,
}
use aiops_aws.Models.{User, RefreshToken, AuditEventType, role_value}
use aiops_aws.Outcome.{pure, raise, crash, raise_if, ◌>>=◌, ◌>>◌}
use aiops_aws.Database.Session.{
  find_refresh_token, Action, find_user, add_refresh_token, write_refresh_token,
}
use aiops_aws.Security.{
  Env, Payload, utcnow, uuid4, hash_token, create_access_token, create_refresh_token,
  decode_refresh_token, matches, parse_uuid,
}
use aiops_aws.Auth.{Client, audit}
use aiops_aws.Auth.Accounts.{authenticate_user}

pub record AuthTokens : Type 0 where
  pub access_token : String
  pub refresh_token : String
  pub access_expires_in_seconds : ℕ
  pub refresh_expires_in_seconds : ℕ

abbrev pub is_unset : Option ℕ → Bool
is_unset none = true
is_unset (some t) = false

-- not revoked, and not expired at a time
abbrev pub is_live : ℕ → RefreshToken → Bool
is_live now t = is_unset t.revoked_at && ltb now t.expires_at

-- `_issue_tokens`
unfoldable pub issue_tokens : Env → User → Client → Action AuthTokens
issue_tokens env user client = do
  now ← utcnow env
  let access_expires_at = now + env.settings.access_token_expires
  let refresh_expires_at = now + env.settings.refresh_token_expires
  refresh_uuid ← uuid4 env
  let refresh_jti = env.uuid_text refresh_uuid
  access_token ←
      create_access_token env (env.uuid_text user.id) (role_value user.role) access_expires_at
  refresh_token ← create_refresh_token env (env.uuid_text user.id) refresh_jti refresh_expires_at
  id ← uuid4 env
  created_at ← utcnow env
  add_refresh_token (record {
    id = id;
    user_id = user.id;
    jti = refresh_jti;
    token_hash = hash_token env refresh_token;
    expires_at = refresh_expires_at;
    revoked_at = none;
    created_at = created_at;
    ip_address = client.ip_address;
    user_agent = client.user_agent;
  })
  pure (record {
    access_token = access_token;
    refresh_token = refresh_token;
    access_expires_in_seconds = env.settings.access_token_expires / 1000000;
    refresh_expires_in_seconds = env.settings.refresh_token_expires / 1000000;
  })

unfoldable pub login : Env → String → String → Client → Action (User × AuthTokens)
unfolding authenticate_user issue_tokens
login env email password client = do
  user ← authenticate_user env email password client
  raise_if (not user.is_active) 403 "User account is inactive"
  tokens ← issue_tokens env user client
  pure (user, tokens)

-- the user of a token that was found, who must be there and active
unfoldable pub active_user : Option User → Action User
active_user none = raise 401 "Invalid user"
active_user (some user) = if user.is_active then pure user else raise 401 "Invalid user"

-- `UUID(user_id)`, which raises on `None` and on a text that is no UUID
unfoldable pub uuid_or_crash : Option String → Option ℕ → Action ℕ
uuid_or_crash sub (some id) = pure id
uuid_or_crash none none = crash "TypeError"
uuid_or_crash (some text) none = crash "ValueError"

unfoldable pub rotate :
    Env → Client → ℕ → Payload → Option RefreshToken → Action (User × AuthTokens)
unfolding issue_tokens audit active_user uuid_or_crash
rotate env client now payload none = raise 401 "Refresh token revoked or expired"
rotate env client now payload (some stored_token) = do
  user_id ← uuid_or_crash payload.sub (parse_uuid env payload.sub)
  found ← find_user (λ u. u.id == user_id)
  user ← active_user found
  write_refresh_token (record stored_token { revoked_at = some now })
  tokens ← issue_tokens env user client
  audit env AuditEventType.token_refresh (some user.id) client "Refresh token rotated" none
  pure (user, tokens)

-- the conditions of the query for the presented token
abbrev pub is_presented : Env → String → Payload → ℕ → RefreshToken → Bool
is_presented env refresh_token payload now t =
    matches payload.jti t.jti
    && (str_eq t.token_hash (hash_token env refresh_token) && is_live now t)

unfoldable pub refresh_decoded : Env → String → Client → Option Payload → Action (User × AuthTokens)
unfolding rotate
refresh_decoded env refresh_token client none = raise 401 "Invalid refresh token"
refresh_decoded env refresh_token client (some payload) = do
  raise_if (not (matches payload.type "refresh")) 401 "Invalid token type"
  now ← utcnow env
  stored_token ← find_refresh_token (is_presented env refresh_token payload now)
  rotate env client now payload stored_token

unfoldable pub refresh_tokens : Env → String → Client → Action (User × AuthTokens)
unfolding refresh_decoded
refresh_tokens env refresh_token client = do
  payload ← decode_refresh_token env refresh_token
  refresh_decoded env refresh_token client payload

unfoldable pub revoke_found : Env → Client → Option RefreshToken → Action (Unit {0})
unfolding audit
revoke_found env client none = pure tt
revoke_found env client (some stored_token) = do
  now ← utcnow env
  write_refresh_token (record stored_token { revoked_at = some now })
  audit env AuditEventType.logout (some stored_token.user_id) client "User logout" none

unfoldable pub logout_decoded : Env → Client → Option Payload → Action (Unit {0})
unfolding revoke_found
logout_decoded env client none = pure tt
logout_decoded env client (some payload) = do
  stored_token ← find_refresh_token (λ t. matches payload.jti t.jti && is_unset t.revoked_at)
  revoke_found env client stored_token

unfoldable pub logout : Env → String → Client → Action (Unit {0})
unfolding logout_decoded
logout env refresh_token client = do
  payload ← decode_refresh_token env refresh_token
  logout_decoded env client payload
