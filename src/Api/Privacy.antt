-- ===== src/Api/Privacy.antt =====
-- backend/api/auth.py: what a response to a request for a mail tells.
use Prim.Native.String
use aiops_aws.Prelude.{
  ℕ, ◌+◌, ◌≤◌, ◌↔◌, ◌⊎◌, inl, inr, Option, Option-cases, none, some, String, ◌≡◌, List, [], ◌∷◌,
  ◌++◌, length, arith, append-nil, Answer, answer,
}
use aiops_aws.Outcome.{Result, ok, err, unhandled}
use aiops_aws.Models.{User}
use aiops_aws.Database.Table.{select}
use aiops_aws.Database.Session.{Calls}
use aiops_aws.Security.{Env, Mail}
use aiops_aws.Auth.{Client}
use aiops_aws.Auth.Accounts.{has_email}
use aiops_aws.Auth.Tokens.{request_password_reset}
use aiops_aws.Api.{Server, smtp_failure, send_email, serve}
use aiops_aws.Api.Auth

-- the mail with the token that is made at a step
abbrev pub reset_mail : Env → String → ℕ → Mail
reset_mail env email step = record {
  to_email = email;
  subject = "Reset your password";
  body = String.◌++◌ "Open this link to reset your password:\n" (
      String.◌++◌ env.settings.frontend_base_url
        (String.◌++◌ "/reset-password?token=" (env.token_urlsafe step)));
}

-- the mails of a reset request: none without an account
abbrev pub reset_mails : Env → String → ℕ → List User → List Mail
reset_mails env email step [] = []
reset_mails env email step (u ∷ us) = reset_mail env email step ∷ []

-- how many steps the service takes for an account
abbrev pub reset_steps : ℕ
reset_steps = 6

module _ (env : Env) (email : String) (client : Client) (server : Server)
    (few : length (select (has_email email) server.db.users) ≤ 1) where
  abbrev request : Result String × Server
  request = serve (Auth.password_reset_request env email client) server

  abbrev accounts : List User
  accounts = select (has_email email) server.db.users

  -- what the delivery of the mail raises, if it raises
  abbrev failure : Option String
  failure = smtp_failure env (server.db.step + reset_steps) (reset_mail env email server.db.step)

  abbrev text : String
  text = "If the account exists, a reset link has been generated"

  uniform :
      failure ≡ none
      → (request.0 ≡ ok text)
        × (request.1.outbox ≡ server.outbox ++ reset_mails env email server.db.step accounts)
  unfolding Auth.password_reset_request send_email request_password_reset serve Calls
  uniform sent = elim (answer (select (has_email email) server.db.users)) [
    | Answer.absent a ↦ ground (arith, append-nil server.outbox)
    | Answer.single u one ↦ ground (arith, sent)
    | Answer.several a b r m ↦ absurd (ground (arith, few, m))
  ]

  tells :
      {name : String}
      → failure ≡ some name
      → ((request.0 ≡ ok text) ↔ (accounts ≡ []))
        × ((request.0 ≡ err (unhandled name)) ↔ (length accounts ≡ 1))
        × (request.1.outbox ≡ server.outbox)
  unfolding Auth.password_reset_request send_email request_password_reset serve Calls
  tells raised = elim (answer (select (has_email email) server.db.users)) [
    | Answer.absent a ↦ (
      (λ e. a, λ e. ground (arith, a)),
      (λ e. ground (arith, a, e), λ e. ground (arith, a, e)),
      ground (arith, a),
    )
    | Answer.single u one ↦ (
      (λ e. ground (arith, one, e, raised), λ e. ground (arith, one, e)),
      (λ e. ground (arith, one), λ e. ground (arith, one, raised)),
      ground (arith, one, raised),
    )
    | Answer.several a b r m ↦ absurd (ground (arith, few, m))
  ]

  -- A request to reset the password of an address that one account has at most: where the delivery
  -- of the mail does not raise, the response is the same whether or not an account has the address;
  -- a mail with the new token goes to the address where one has it, and no mail is sent where none
  -- has. Where the delivery raises, no mail is sent, and the response is the exception exactly where
  -- an account has the address, and the same as before exactly where none has.
  pub password_reset_request-answers :
      ((failure ≡ none)
        × (request.0 ≡ ok text)
        × (request.1.outbox ≡ server.outbox ++ reset_mails env email server.db.step accounts))
      ⊎ ((name : String) × (failure ≡ some name)
          × ((request.0 ≡ ok text) ↔ (accounts ≡ []))
          × ((request.0 ≡ err (unhandled name)) ↔ (length accounts ≡ 1))
          × (request.1.outbox ≡ server.outbox))
  password_reset_request-answers = elim (Option-cases failure) [
    | inl sent ↦ inl (sent, (uniform sent).0, (uniform sent).1)
    | inr (name, raised) ↦ let t = tells raised in inr (name, raised, t.0, t.1, t.2)
  ]
