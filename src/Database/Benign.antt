-- ===== src/Database/Benign.antt =====
-- Invariants of sessions that every call of the services keeps, but for those that write accounts
-- or add tokens.
use aiops_aws.Prelude.{ℕ, Bool, some}
use aiops_aws.Outcome.Preserves.{Preserves, preserves_rules}
use aiops_aws.Models.{
  User, RefreshToken, EmailVerificationToken, PasswordResetToken, AuthAuditEvent,
}
use aiops_aws.Database.Session.{
  Session, find_user, find_refresh_token, write_refresh_token, find_email_token, write_email_token,
  find_reset_token, write_reset_token, add_audit_event, tick, flush_session,
}

-- Tokens are only written to revoke them, or to mark them as used.
pub record Benign (P : Session → Type 0) : Type 1 where
  pub ticks : {A : Type 0} (source : ℕ → A) → Preserves P (tick source)
  pub finds_user : (p : User → Bool) → Preserves P (find_user p)
  pub finds_refresh : (p : RefreshToken → Bool) → Preserves P (find_refresh_token p)
  pub finds_email : (p : EmailVerificationToken → Bool) → Preserves P (find_email_token p)
  pub finds_reset : (p : PasswordResetToken → Bool) → Preserves P (find_reset_token p)
  pub revokes :
      (t : RefreshToken) (now : ℕ)
      → Preserves P (write_refresh_token (record t { revoked_at = some now }))
  pub uses_email :
      (t : EmailVerificationToken) (now : ℕ)
      → Preserves P (write_email_token (record t { used_at = some now }))
  pub uses_reset :
      (t : PasswordResetToken) (now : ℕ)
      → Preserves P (write_reset_token (record t { used_at = some now }))
  pub adds_event : (e : AuthAuditEvent) → Preserves P (add_audit_event e)
  pub flushes : Preserves P flush_session

-- The fields as rules for search.
module _ {P : Session → Type 0} (b : Benign P) where
  pub tick-Preserves : {A : Type 0} (source : ℕ → A) → Preserves P (tick source)
  tick-Preserves source = b.ticks source

  pub find_user-Preserves : (p : User → Bool) → Preserves P (find_user p)
  find_user-Preserves p = b.finds_user p

  pub find_refresh_token-Preserves : (p : RefreshToken → Bool) → Preserves P (find_refresh_token p)
  find_refresh_token-Preserves p = b.finds_refresh p

  pub find_email_token-Preserves :
      (p : EmailVerificationToken → Bool) → Preserves P (find_email_token p)
  find_email_token-Preserves p = b.finds_email p

  pub find_reset_token-Preserves :
      (p : PasswordResetToken → Bool) → Preserves P (find_reset_token p)
  find_reset_token-Preserves p = b.finds_reset p

  pub revoke-Preserves :
      (t : RefreshToken) (now : ℕ)
      → Preserves P (write_refresh_token (record t { revoked_at = some now }))
  revoke-Preserves t now = b.revokes t now

  pub use_email-Preserves :
      (t : EmailVerificationToken) (now : ℕ)
      → Preserves P (write_email_token (record t { used_at = some now }))
  use_email-Preserves t now = b.uses_email t now

  pub use_reset-Preserves :
      (t : PasswordResetToken) (now : ℕ)
      → Preserves P (write_reset_token (record t { used_at = some now }))
  use_reset-Preserves t now = b.uses_reset t now

  pub add_audit_event-Preserves : (e : AuthAuditEvent) → Preserves P (add_audit_event e)
  add_audit_event-Preserves e = b.adds_event e

  pub flush_session-Preserves : Preserves P flush_session
  flush_session-Preserves = b.flushes

pub ruleset benign_rules = (
  preserves_rules, tick-Preserves, find_user-Preserves, find_refresh_token-Preserves,
  find_email_token-Preserves, find_reset_token-Preserves, revoke-Preserves, use_email-Preserves,
  use_reset-Preserves, add_audit_event-Preserves, flush_session-Preserves,
)
