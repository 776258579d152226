-- ===== src/Api/Atomicity.antt =====
-- backend/api/ and backend/db/session.py: what a request that raises does to the database.
use Prim.Native.String
use aiops_aws.Prelude.{
  ℕ, String, ◌≡◌, ◌≢◌, ◌∙◌, ◌⊎◌, inl, inr, Option, Option-cases, none, some, refl, arith,
}
use aiops_aws.Outcome.{pure, ◌>>=◌, ◌>>◌, Result-cases, Result, ok, err, unhandled}
use aiops_aws.Database.Session.{Session, Action}
use aiops_aws.Security.{Env, Mail}
use aiops_aws.Api.{Server, Handler, in_session, commit, smtp_failure, send_email, serve}
use aiops_aws.Auth.Tokens.{request_email_verification, request_password_reset}
use aiops_aws.Api.Auth
use aiops_aws.Api.Profile
use aiops_aws.Api.Users
use aiops_aws.Api.Endpoints.{Call, handler, answer}

-- The tables are the same; the count of clock readings may differ.
pub record SameData (a b : Session) : Type 0 where
  pub users : a.users ≡ b.users
  pub refresh_tokens : a.refresh_tokens ≡ b.refresh_tokens
  pub email_tokens : a.email_tokens ≡ b.email_tokens
  pub reset_tokens : a.reset_tokens ≡ b.reset_tokens
  pub audit_events : a.audit_events ≡ b.audit_events

-- where the endpoints that send a mail after their commit send it
abbrev pub sends_mail : Call → Option String
sends_mail (Call.verify_email_request email client) = some email
sends_mail (Call.password_reset_request email client) = some email
sends_mail _ = none

-- The answer is the exception that the delivery of a mail raised, and the call is one that
-- sends it.
pub record MailFailed (env : Env) (call : Call) (r : Result (Unit {0})) : Type 0 where
  pub step : ℕ
  pub mail : Mail
  pub sends : sends_mail call ≡ some mail.to_email
  pub name : String
  pub raised : smtp_failure env step mail ≡ some name
  pub answered : r ≡ err (unhandled name)

pub SameData-refl : (a : Session) → SameData a a
SameData-refl a = ground arith

pub SameData-trans : {a b c : Session} → SameData a b → SameData b c → SameData a c
SameData-trans h k = record {
  users = h.users ∙ k.users;
  refresh_tokens = h.refresh_tokens ∙ k.refresh_tokens;
  email_tokens = h.email_tokens ∙ k.email_tokens;
  reset_tokens = h.reset_tokens ∙ k.reset_tokens;
  audit_events = h.audit_events ∙ k.audit_events;
}

-- An endpoint that sends a mail after its commit, for a token that the service may give.
module _ (env : Env) (email subject text path message : String) (m : Action (Option String))
    (server : Server) where
  abbrev mailing : Handler (Unit {0})
  mailing =
      (in_session m >>= λ token.
      commit >> (Auth.send_link env email subject text path token >> pure message))
      >>= λ x. pure tt

  abbrev link_mail : String → Mail
  link_mail token = record {
    to_email = email;
    subject = subject;
    body = String.◌++◌ text (String.◌++◌ env.settings.frontend_base_url (String.◌++◌ path token));
  }

  mailing-SameData :
      (call : Call)
      → sends_mail call ≡ some email
      → (serve mailing server).0 ≢ ok tt
      → SameData (serve mailing server).1.db server.db
        ⊎ MailFailed env call (serve mailing server).0
  unfolding ◌>>=◌ serve in_session commit Auth.send_link send_email
  mailing-SameData call sends h = elim (Result-cases (m server.db).0) [
    | inr (e, failed) ↦ inl (ground arith)
    | inl (o, good) ↦ elim (Option-cases o) [
      | inl missing ↦ absurd (h (rw (good, missing) refl))
      | inr (token, made) ↦
          elim (Option-cases (smtp_failure env (m server.db).1.step (link_mail token))) [
            | inl sent ↦ absurd (h (rw (good, made, sent) refl))
            | inr (name, raised) ↦ inr (record {
              sends = sends;
              step = (m server.db).1.step;
              mail = link_mail token;
              name = name;
              raised = raised;
              answered = rw (good, made, raised) refl;
            })
          ]
    ]
  ]

-- A call that is answered by an error has changed no table of the database, whatever the endpoint,
-- but where the delivery of a mail raised in a call that sends one after its commit: then the answer
-- is that exception.
pub answer-SameData :
    (env : Env) (call : Call) (server : Server)
    → (answer env call server).0 ≢ ok tt
    → SameData (answer env call server).1.db server.db
      ⊎ MailFailed env call (answer env call server).0
unfolding ◌>>=◌ handler serve Auth.verify_email_request Auth.password_reset_request Auth.register
    Auth.login_user Auth.refresh Auth.logout_user Auth.verify_email_confirm
    Auth.password_reset_confirm Auth.get_me Auth.admin_only Profile.patch_me
    Profile.change_password_me Profile.deactivate_me Profile.get_my_sessions
    Profile.delete_my_session Profile.revoke_all_my_sessions Profile.get_my_activity Users.get_users
    Users.get_user Users.patch_user Users.unlock_user Users.revoke_user_sessions
    Users.deactivate_user
answer-SameData env (Call.verify_email_request email client) server h =
    mailing-SameData env email "Verify your email" "Open this link to verify your account:\n"
      "/verify-email?token=" "If the account exists, a verification link has been generated"
      (request_email_verification env email client) server (Call.verify_email_request email client)
      refl h
answer-SameData env (Call.password_reset_request email client) server h =
    mailing-SameData env email "Reset your password" "Open this link to reset your password:\n"
      "/reset-password?token=" "If the account exists, a reset link has been generated"
      (request_password_reset env email client) server (Call.password_reset_request email client)
      refl h
answer-SameData env (Call.register email password client) server h = inl (ground arith)
answer-SameData env _ server h = inl (ground arith)
