-- ===== src/Api/Auth.antt =====
-- backend/api/auth.py. The bodies have passed the validation, which Schemas has. `db.refresh(user)` after the
-- commit reads back the row that was just written, so the response is made from the same object.
use Prim.Native.String
use aiops_aws.Prelude.{String, Option, none, some}
use aiops_aws.Outcome.{pure, ◌>>=◌, ◌>>◌}
use aiops_aws.Models.{UserRole}
use aiops_aws.Security.{Env}
use aiops_aws.Auth.{Client}
use aiops_aws.Auth.Accounts
use aiops_aws.Auth.Sessions
use aiops_aws.Auth.Sessions.{AuthTokens}
use aiops_aws.Auth.Tokens
use aiops_aws.Api.{
  Handler, in_session, commit, limit, limit_key, send_email, UserResponse, user_response,
}
use aiops_aws.Api.Dependencies.{get_current_user, require_role}

unfoldable pub register : Env → String → String → Client → Handler UserResponse
unfolding in_session commit limit
register env email password client = do
  limit env (limit_key "register" client email)
  user ← in_session (Accounts.register_user env email password client)
  commit
  pure (user_response user)

pub record AuthResponse : Type 0 where
  pub user : UserResponse
  pub tokens : AuthTokens

unfoldable pub login_user : Env → String → String → Client → Handler AuthResponse
unfolding in_session commit limit
login_user env email password client = do
  limit env (limit_key "login" client email)
  found ← in_session (Sessions.login env email password client)
  commit
  pure (record { user = user_response found.0; tokens = found.1 })

unfoldable pub refresh : Env → String → Client → Handler AuthResponse
unfolding in_session commit
refresh env refresh_token client = do
  found ← in_session (Sessions.refresh_tokens env refresh_token client)
  commit
  pure (record { user = user_response found.0; tokens = found.1 })

unfoldable pub logout_user : Env → String → Client → Handler String
unfolding in_session commit
logout_user env refresh_token client = do
  in_session (Sessions.logout env refresh_token client)
  commit
  pure "Logged out successfully"

-- the mail with a link, if there is a token
unfoldable pub send_link :
    Env → String → String → String → String → Option String → Handler (Unit {0})
unfolding send_email
send_link env email subject text path none = pure tt
send_link env email subject text path (some token) = send_email env (record {
  to_email = email;
  subject = subject;
  body = String.◌++◌ text (String.◌++◌ env.settings.frontend_base_url (String.◌++◌ path token));
})

unfoldable pub verify_email_request : Env → String → Client → Handler String
unfolding in_session commit send_link
verify_email_request env email client = do
  token ← in_session (Tokens.request_email_verification env email client)
  commit
  send_link env email "Verify your email" "Open this link to verify your account:\n"
      "/verify-email?token=" token
  pure "If the account exists, a verification link has been generated"

unfoldable pub verify_email_confirm : Env → String → Client → Handler String
unfolding in_session commit
verify_email_confirm env token client = do
  in_session (Tokens.confirm_email_verification env token client)
  commit
  pure "Email verified successfully"

unfoldable pub password_reset_request : Env → String → Client → Handler String
unfolding in_session commit send_link
password_reset_request env email client = do
  token ← in_session (Tokens.request_password_reset env email client)
  commit
  send_link env email "Reset your password" "Open this link to reset your password:\n"
      "/reset-password?token=" token
  pure "If the account exists, a reset link has been generated"

unfoldable pub password_reset_confirm : Env → String → String → Client → Handler String
unfolding in_session commit
password_reset_confirm env token new_password client = do
  in_session (Tokens.confirm_password_reset env token new_password client)
  commit
  pure "Password reset successful"

unfoldable pub get_me : Env → Option String → Handler UserResponse
unfolding in_session
get_me env credentials = do
  user ← in_session (get_current_user env credentials)
  pure (user_response user)

unfoldable pub admin_only : Env → Option String → Handler String
unfolding in_session
admin_only env credentials = do
  in_session (require_role env UserRole.admin credentials)
  pure "Admin access granted"
