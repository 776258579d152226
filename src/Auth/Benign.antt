-- ===== src/Auth/Benign.antt =====
-- backend/services/auth_service.py: the functions that write no account, for Database.Benign.
use aiops_aws.Prelude.{ℕ, String, Option, none, some}
use aiops_aws.Outcome.Preserves.{Preserves}
use aiops_aws.Models.{
  User, RefreshToken, AuditEventType, Fields, EmailVerificationToken, PasswordResetToken,
}
use aiops_aws.Database.Session.{Session, add_refresh_token, add_email_token, add_reset_token}
use aiops_aws.Database.Benign.{Benign, benign_rules}
use aiops_aws.Security.{Env, Payload}
use aiops_aws.Auth.{Client, audit}
use aiops_aws.Auth.Sessions.{
  issue_tokens, active_user, uuid_or_crash, rotate, refresh_decoded, refresh_tokens, revoke_found,
  logout_decoded, logout,
}
use aiops_aws.Auth.Tokens.{
  owner, request_verification_for, request_email_verification, request_reset_for,
  request_password_reset,
}

module _ (env : Env) {P : Session → Type 0} (b : Benign P) where
  pub audit-Preserves :
      (event_type : AuditEventType) (user_id : Option ℕ) (client : Client) (detail : String)
      (event_metadata : Option Fields)
      → Preserves P (audit env event_type user_id client detail event_metadata)
  unfolding audit
  audit-Preserves event_type user_id client detail event_metadata = search benign_rules

  module _ (adds : (t : RefreshToken) → Preserves P (add_refresh_token t)) where
    pub issue_tokens-Preserves :
        (u : User) (client : Client) → Preserves P (issue_tokens env u client)
    unfolding issue_tokens
    issue_tokens-Preserves u client = search (benign_rules, adds) depth 40

  active_user-Preserves : (u : Option User) → Preserves P (active_user u)
  unfolding active_user
  active_user-Preserves none = search benign_rules
  active_user-Preserves (some u) = search benign_rules

  uuid_or_crash-Preserves : (t : Option String) (n : Option ℕ) → Preserves P (uuid_or_crash t n)
  unfolding uuid_or_crash
  uuid_or_crash-Preserves t (some n) = search benign_rules
  uuid_or_crash-Preserves none none = search benign_rules
  uuid_or_crash-Preserves (some text) none = search benign_rules

  module _ (issues : (u : User) (client : Client) → Preserves P (issue_tokens env u client)) where
    rotate-Preserves :
        (client : Client) (now : ℕ) (p : Payload) (t : Option RefreshToken)
        → Preserves P (rotate env client now p t)
    unfolding rotate
    rotate-Preserves client now p none = search benign_rules
    rotate-Preserves client now p (some t) =
        search (benign_rules, active_user-Preserves, uuid_or_crash-Preserves, issues) depth 40

    refresh_decoded-Preserves :
        (token : String) (client : Client) (p : Option Payload)
        → Preserves P (refresh_decoded env token client p)
    unfolding refresh_decoded
    refresh_decoded-Preserves token client none = search benign_rules
    refresh_decoded-Preserves token client (some p) =
        search (benign_rules, rotate-Preserves) depth 40

    pub refresh_tokens-Preserves :
        (token : String) (client : Client) → Preserves P (refresh_tokens env token client)
    unfolding refresh_tokens
    refresh_tokens-Preserves token client = search (benign_rules, refresh_decoded-Preserves)

  revoke_found-Preserves :
      (client : Client) (t : Option RefreshToken) → Preserves P (revoke_found env client t)
  unfolding revoke_found
  revoke_found-Preserves client none = search benign_rules
  revoke_found-Preserves client (some t) = search benign_rules depth 40

  logout_decoded-Preserves :
      (client : Client) (p : Option Payload) → Preserves P (logout_decoded env client p)
  unfolding logout_decoded
  logout_decoded-Preserves client none = search benign_rules
  logout_decoded-Preserves client (some p) = search (benign_rules, revoke_found-Preserves)

  pub logout-Preserves : (token : String) (client : Client) → Preserves P (logout env token client)
  unfolding logout
  logout-Preserves token client = search (benign_rules, logout_decoded-Preserves)

  pub owner-Preserves : (u : Option User) → Preserves P (owner u)
  unfolding owner
  owner-Preserves none = search benign_rules
  owner-Preserves (some u) = search benign_rules

module _ (env : Env) {P : Session → Type 0} (b : Benign P) where
  module _ (adds : (t : EmailVerificationToken) → Preserves P (add_email_token t)) where
    request_verification_for-Preserves :
        (client : Client) (u : Option User) → Preserves P (request_verification_for env client u)
    unfolding request_verification_for
    request_verification_for-Preserves client none = search benign_rules
    request_verification_for-Preserves client (some u) =
        search (benign_rules, audit-Preserves, adds) depth 40

    pub request_email_verification-Preserves :
        (email : String) (client : Client)
        → Preserves P (request_email_verification env email client)
    unfolding request_email_verification
    request_email_verification-Preserves email client =
        search (benign_rules, request_verification_for-Preserves)

  module _ (adds : (t : PasswordResetToken) → Preserves P (add_reset_token t)) where
    request_reset_for-Preserves :
        (client : Client) (u : Option User) → Preserves P (request_reset_for env client u)
    unfolding request_reset_for
    request_reset_for-Preserves client none = search benign_rules
    request_reset_for-Preserves client (some u) =
        search (benign_rules, audit-Preserves, adds) depth 40

    pub request_password_reset-Preserves :
        (email : String) (client : Client) → Preserves P (request_password_reset env email client)
    unfolding request_password_reset
    request_password_reset-Preserves email client =
        search (benign_rules, request_reset_for-Preserves)
