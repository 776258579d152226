-- ===== src/Auth/Accounts.antt =====
-- backend/services/auth_service.py: registration and the check of credentials.
use aiops_aws.Prelude.{
  ℕ, ◌+◌, String, Bool, true, false, Option, none, some, lower, ltb, leb, str_eq, if◌then◌else◌,
}
use aiops_aws.Models.{User, UserRole, AuditEventType}
use aiops_aws.Outcome.{pure, raise, ◌>>=◌, ◌>>◌}
use aiops_aws.Database.Session.{flush_session, Action, find_user, write_user, add_user}
use aiops_aws.Security.{Env, utcnow, uuid4, hash_password, verify_password, minutes}
use aiops_aws.Auth.{Client, audit}

abbrev pub has_email : String → User → Bool
has_email email u = str_eq u.email (lower email)

-- `User(email=…, password_hash=…, role=UserRole.user)` with the columns' defaults
abbrev pub new_user : ℕ → String → String → ℕ → User
new_user id email password_hash now = record {
  id = id;
  email = email;
  password_hash = password_hash;
  role = UserRole.user;
  is_active = true;
  is_verified = false;
  failed_attempts = 0;
  locked_until = none;
  display_name = none;
  last_login_at = none;
  password_changed_at = none;
  deactivated_at = none;
  created_at = now;
}

unfoldable pub register_found : Env → String → String → Client → Option User → Action User
unfolding lower audit
register_found env email password client (some u) = raise 409 "Email already registered"
register_found env email password client none = do
  password_hash ← hash_password env password
  id ← uuid4 env
  now ← utcnow env
  let user = new_user id (lower email) password_hash now
  add_user user
  flush_session
  audit env AuditEventType.register (some user.id) client "User registered" none
  pure user

unfoldable pub register_user : Env → String → String → Client → Action User
unfolding register_found
register_user env email password client = do
  user_exists ← find_user (has_email email)
  register_found env email password client user_exists

-- `user.locked_until and user.locked_until > now`
abbrev pub is_locked : User → ℕ → Bool
is_locked u now = elim u.locked_until [ none ↦ false | some until ↦ ltb now until ]

-- the account after a wrong password, and the detail that is written to the log
unfoldable pub count_failure : Env → ℕ → User → User × String
count_failure env now u =
    let attempts = u.failed_attempts + 1 in
    if leb env.settings.lockout_threshold attempts
    then (
      record u {
        failed_attempts = 0;
        locked_until = some (now + minutes env.settings.lockout_minutes);
      },
      "Account locked due to failed attempts",
    )
    else (record u { failed_attempts = attempts }, "Invalid password")

unfoldable pub refuse_locked : Env → Client → User → Action User
unfolding audit
refuse_locked env client u = do
  audit env AuditEventType.login_failure (some u.id) client "Account locked" none
  raise 429 "Account temporarily locked"

unfoldable pub reject_password : Env → Client → ℕ → User → Action User
unfolding audit count_failure
reject_password env client now u = do
  let (u', detail) = count_failure env now u
  write_user u'
  audit env AuditEventType.login_failure (some u.id) client detail none
  raise 401 "Invalid credentials"

unfoldable pub accept_password : Env → Client → User → Action User
unfolding audit
accept_password env client u = do
  now ← utcnow env
  let u' = record u { failed_attempts = 0; locked_until = none; last_login_at = some now }
  write_user u'
  audit env AuditEventType.login_success (some u.id) client "Login successful" none
  pure u'

unfoldable pub authenticate_found : Env → String → Client → Option User → Action User
unfolding audit refuse_locked reject_password accept_password
authenticate_found env password client none = do
  audit env AuditEventType.login_failure none client "Unknown user login attempt" none
  raise 401 "Invalid credentials"
authenticate_found env password client (some u) = do
  now ← utcnow env
  if is_locked u now
      then refuse_locked env client u
      else if verify_password env password u.password_hash
      then accept_password env client u
      else reject_password env client now u

unfoldable pub authenticate_user : Env → String → String → Client → Action User
unfolding authenticate_found
authenticate_user env email password client = do
  user ← find_user (has_email email)
  authenticate_found env password client user
