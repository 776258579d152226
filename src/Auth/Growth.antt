-- ===== src/Auth/Growth.antt =====
-- backend/services/auth_service.py: how the operations change the data, for Database.Grows.
use aiops_aws.Prelude.{ℕ, String, Option, none, some}
use aiops_aws.Outcome.Preserves.{Preserves}
use aiops_aws.Models.{User, EmailVerificationToken, PasswordResetToken}
use aiops_aws.Database.Session.{Session}
use aiops_aws.Database.Grows.{Grows}
use aiops_aws.Database.Grows.Calls.{grows_rules, add_refresh_token-Grows}
use aiops_aws.Security.{Env}
use aiops_aws.Auth.{Client}
use aiops_aws.Auth.Accounts.{register_found, register_user, authenticate_found, authenticate_user}
use aiops_aws.Auth.Sessions.{login}
use aiops_aws.Auth.Tokens.{
  confirm_verification_of, confirm_email_verification, confirm_reset_of, confirm_password_reset,
}
use aiops_aws.Auth.Benign.{issue_tokens-Preserves, owner-Preserves}

module _ (env : Env) {s₀ : Session} where
  register_found-Grows :
      (email password : String) (client : Client) (u : Option User)
      → Preserves (Grows s₀) (register_found env email password client u)
  unfolding register_found
  register_found-Grows email password client none = search grows_rules depth 40
  register_found-Grows email password client (some u) = search grows_rules

  pub register_user-Grows :
      (email password : String) (client : Client)
      → Preserves (Grows s₀) (register_user env email password client)
  unfolding register_user
  register_user-Grows email password client = search (grows_rules, register_found-Grows)

  authenticate_found-Grows :
      (password : String) (client : Client) (u : Option User)
      → Preserves (Grows s₀) (authenticate_found env password client u)
  unfolding authenticate_found
  authenticate_found-Grows password client none = search grows_rules depth 40
  authenticate_found-Grows password client (some u) = search grows_rules depth 40

  pub authenticate_user-Grows :
      (email password : String) (client : Client)
      → Preserves (Grows s₀) (authenticate_user env email password client)
  unfolding authenticate_user
  authenticate_user-Grows email password client = search (grows_rules, authenticate_found-Grows)

  pub login-Grows :
      (email password : String) (client : Client)
      → Preserves (Grows s₀) (login env email password client)
  unfolding login
  login-Grows email password client =
      search (grows_rules, authenticate_user-Grows, issue_tokens-Preserves, add_refresh_token-Grows)
        depth 40

  confirm_verification_of-Grows :
      (client : Client) (now : ℕ) (t : Option EmailVerificationToken)
      → Preserves (Grows s₀) (confirm_verification_of env client now t)
  unfolding confirm_verification_of
  confirm_verification_of-Grows client now none = search grows_rules
  confirm_verification_of-Grows client now (some t) = search (grows_rules, owner-Preserves) depth 40

  pub confirm_email_verification-Grows :
      (token : String) (client : Client)
      → Preserves (Grows s₀) (confirm_email_verification env token client)
  unfolding confirm_email_verification
  confirm_email_verification-Grows token client =
      search (grows_rules, confirm_verification_of-Grows)

  confirm_reset_of-Grows :
      (password : String) (client : Client) (now : ℕ) (t : Option PasswordResetToken)
      → Preserves (Grows s₀) (confirm_reset_of env password client now t)
  unfolding confirm_reset_of
  confirm_reset_of-Grows password client now none = search grows_rules
  confirm_reset_of-Grows password client now (some t) =
      search (grows_rules, owner-Preserves) depth 40

  pub confirm_password_reset-Grows :
      (token password : String) (client : Client)
      → Preserves (Grows s₀) (confirm_password_reset env token password client)
  unfolding confirm_password_reset
  confirm_password_reset-Grows token password client = search (grows_rules, confirm_reset_of-Grows)
