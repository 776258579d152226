-- ===== src/Database/Session.antt =====
-- A session and its actions: state and exceptions. What was changed before a `raise` stays changed
-- in the session; whether it reaches the database is for the caller to decide.
use aiops_aws.Prelude.{ℕ, ◌+◌, Option, Bool}
use aiops_aws.Models.{
  User, RefreshToken, EmailVerificationToken, PasswordResetToken, AuthAuditEvent,
}
use aiops_aws.Database.Table.{Table, insert, write, flush, select}
use aiops_aws.Outcome.{Result, ok, scalar_one_or_none, modify, ◌>>=◌}

pub record Session : Type 0 where
  pub users : Table User
  pub refresh_tokens : Table RefreshToken
  pub email_tokens : Table EmailVerificationToken
  pub reset_tokens : Table PasswordResetToken
  pub audit_events : Table AuthAuditEvent
  -- how often the program has asked for a time or for random bits
  pub step : ℕ

abbrev pub Action {ℓ} : Type ℓ → Type ℓ
Action A = Session → Result A × Session

unfoldable pub find_user : (User → Bool) → Action (Option User)
find_user p s = scalar_one_or_none (select p s.users) s

unfoldable pub write_user : User → Action (Unit {0})
write_user u = modify (λ s. record s { users = write (λ u. u.id) u s.users })

unfoldable pub add_user : User → Action (Unit {0})
add_user u = modify (λ s. record s { users = insert u s.users })

unfoldable pub write_refresh_token : RefreshToken → Action (Unit {0})
write_refresh_token t =
    modify (λ s. record s { refresh_tokens = write (λ t. t.id) t s.refresh_tokens })

unfoldable pub add_refresh_token : RefreshToken → Action (Unit {0})
add_refresh_token t = modify (λ s. record s { refresh_tokens = insert t s.refresh_tokens })

unfoldable pub find_refresh_token : (RefreshToken → Bool) → Action (Option RefreshToken)
find_refresh_token p s = scalar_one_or_none (select p s.refresh_tokens) s

unfoldable pub find_email_token :
    (EmailVerificationToken → Bool) → Action (Option EmailVerificationToken)
find_email_token p s = scalar_one_or_none (select p s.email_tokens) s

unfoldable pub write_email_token : EmailVerificationToken → Action (Unit {0})
write_email_token t = modify (λ s. record s { email_tokens = write (λ t. t.id) t s.email_tokens })

unfoldable pub add_email_token : EmailVerificationToken → Action (Unit {0})
add_email_token t = modify (λ s. record s { email_tokens = insert t s.email_tokens })

unfoldable pub find_reset_token : (PasswordResetToken → Bool) → Action (Option PasswordResetToken)
find_reset_token p s = scalar_one_or_none (select p s.reset_tokens) s

unfoldable pub write_reset_token : PasswordResetToken → Action (Unit {0})
write_reset_token t = modify (λ s. record s { reset_tokens = write (λ t. t.id) t s.reset_tokens })

unfoldable pub add_reset_token : PasswordResetToken → Action (Unit {0})
add_reset_token t = modify (λ s. record s { reset_tokens = insert t s.reset_tokens })

unfoldable pub add_audit_event : AuthAuditEvent → Action (Unit {0})
add_audit_event e = modify (λ s. record s { audit_events = insert e s.audit_events })

-- a clock reading or random bits: the next step
unfoldable pub tick {ℓ} : {A : Type ℓ} → (ℕ → A) → Action A
tick source s = (ok (source s.step), record s { step = s.step + 1 })

abbrev pub flush_all : Session → Session
flush_all s = record s {
  users = flush s.users;
  refresh_tokens = flush s.refresh_tokens;
  email_tokens = flush s.email_tokens;
  reset_tokens = flush s.reset_tokens;
  audit_events = flush s.audit_events;
}

-- `db.flush()`
unfoldable pub flush_session : Action (Unit {0})
flush_session = modify flush_all

-- Opening this opens all calls above, and those of any state.
unfoldable pub Calls : Type 0
unfolding ◌>>=◌ find_user write_user add_user find_refresh_token write_refresh_token
    add_refresh_token find_email_token write_email_token add_email_token find_reset_token
    write_reset_token add_reset_token add_audit_event tick flush_session
Calls = Session
