-- ===== src/Auth/Tokens.antt =====
-- backend/services/auth_service.py: the verification of email addresses and the reset of passwords,
-- by a random token that is stored hashed, expires, and is used once.
use aiops_aws.Prelude.{ℕ, ◌+◌, String, Bool, true, ◌&&◌, Option, none, some, ltb, str_eq, ◌==◌}
use aiops_aws.Models.{User, EmailVerificationToken, PasswordResetToken, AuditEventType}
use aiops_aws.Outcome.{pure, raise, ◌>>=◌, ◌>>◌}
use aiops_aws.Database.Session.{
  flush_session, find_email_token, write_email_token, add_email_token, find_reset_token,
  write_reset_token, add_reset_token, Action, find_user, write_user,
}
use aiops_aws.Security.{
  Env, utcnow, uuid4, hash_password, hash_token, generate_opaque_token, hours, minutes,
}
use aiops_aws.Auth.{Client, audit}
use aiops_aws.Auth.Accounts.{has_email}
use aiops_aws.Auth.Sessions.{is_unset}

-- the user that a token of an account was issued to
unfoldable pub owner : Option User → Action User
owner none = raise 400 "Invalid token"
owner (some user) = pure user

unfoldable pub request_verification_for : Env → Client → Option User → Action (Option String)
unfolding audit
request_verification_for env client none = pure none
request_verification_for env client (some user) = do
  raw_token ← generate_opaque_token env
  now ← utcnow env
  id ← uuid4 env
  created_at ← utcnow env
  add_email_token (record {
    id = id;
    user_id = user.id;
    token_hash = hash_token env raw_token;
    expires_at = now + hours env.settings.email_token_expire_hours;
    used_at = none;
    created_at = created_at;
  })
  flush_session
  audit env AuditEventType.verify_email_request (some user.id) client "Email verification requested"
      none
  pure (some raw_token)

unfoldable pub request_email_verification : Env → String → Client → Action (Option String)
unfolding request_verification_for
request_email_verification env email client = do
  user ← find_user (has_email email)
  request_verification_for env client user

abbrev pub is_email_token : String → ℕ → EmailVerificationToken → Bool
is_email_token token_hash now t =
    str_eq t.token_hash token_hash && (is_unset t.used_at && ltb now t.expires_at)

unfoldable pub confirm_verification_of :
    Env → Client → ℕ → Option EmailVerificationToken → Action (Unit {0})
unfolding audit owner
confirm_verification_of env client now none = raise 400 "Invalid or expired token"
confirm_verification_of env client now (some verification) = do
  found ← find_user (λ u. u.id == verification.user_id)
  user ← owner found
  write_email_token (record verification { used_at = some now })
  write_user (record user { is_verified = true })
  audit env AuditEventType.verify_email_success (some user.id) client "Email verified" none

unfoldable pub confirm_email_verification : Env → String → Client → Action (Unit {0})
unfolding confirm_verification_of
confirm_email_verification env token client = do
  now ← utcnow env
  let token_hash = hash_token env token
  verification ← find_email_token (is_email_token token_hash now)
  confirm_verification_of env client now verification

unfoldable pub request_reset_for : Env → Client → Option User → Action (Option String)
unfolding audit
request_reset_for env client none = pure none
request_reset_for env client (some user) = do
  raw_token ← generate_opaque_token env
  now ← utcnow env
  id ← uuid4 env
  created_at ← utcnow env
  add_reset_token (record {
    id = id;
    user_id = user.id;
    token_hash = hash_token env raw_token;
    expires_at = now + minutes env.settings.password_reset_expire_minutes;
    used_at = none;
    created_at = created_at;
  })
  flush_session
  audit env AuditEventType.password_reset_request (some user.id) client "Password reset requested"
      none
  pure (some raw_token)

unfoldable pub request_password_reset : Env → String → Client → Action (Option String)
unfolding request_reset_for
request_password_reset env email client = do
  user ← find_user (has_email email)
  request_reset_for env client user

abbrev pub is_reset_token : String → ℕ → PasswordResetToken → Bool
is_reset_token token_hash now t =
    str_eq t.token_hash token_hash && (is_unset t.used_at && ltb now t.expires_at)

unfoldable pub confirm_reset_of :
    Env → String → Client → ℕ → Option PasswordResetToken → Action (Unit {0})
unfolding audit owner
confirm_reset_of env new_password client now none = raise 400 "Invalid or expired token"
confirm_reset_of env new_password client now (some reset) = do
  found ← find_user (λ u. u.id == reset.user_id)
  user ← owner found
  password_hash ← hash_password env new_password
  write_user (record user { password_hash = password_hash })
  write_reset_token (record reset { used_at = some now })
  audit env AuditEventType.password_reset_success (some user.id) client "Password reset successful"
      none

unfoldable pub confirm_password_reset : Env → String → String → Client → Action (Unit {0})
unfolding confirm_reset_of
confirm_password_reset env token new_password client = do
  now ← utcnow env
  let token_hash = hash_token env token
  reset ← find_reset_token (is_reset_token token_hash now)
  confirm_reset_of env new_password client now reset
