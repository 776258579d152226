-- ===== src/Tests/Api.antt =====
-- The theorems on the endpoints at concrete inputs.
use aiops_aws.Prelude.{
  Option, none, String, ◌≡◌, ◌⊎◌, length, ◌↔◌, refl, true, some, List, [], ◌∷◌, map, arith, lower,
}
use aiops_aws.Outcome.{Result, ok, err, unhandled}
use aiops_aws.Models.{User, UserRole, role_eq}
use aiops_aws.Database.Session.{Session, Calls}
use aiops_aws.Database.Grows.{Grows}
use aiops_aws.Auth.Sessions.{AuthTokens, issue_tokens}
use aiops_aws.Auth.Tokens.{confirm_email_verification}
use aiops_aws.Api.Dependencies.{get_current_user, require_role}
use aiops_aws.Api.Endpoints.{Call, answer, serve_all, handler}
use aiops_aws.Api.Auth
use aiops_aws.Api.{Server, smtp_failure, serve}
use aiops_aws.Api.Access.{HasAccess, require_role-HasAccess, issue_tokens-get_current_user}
use aiops_aws.Api.Atomicity.{SameData, MailFailed, answer-SameData}
use aiops_aws.Api.Growth.{serve_all-Grows}
use aiops_aws.Api.Lockout.{login_call, login_failures_forgotten}
use aiops_aws.Database.Table.{select}
use aiops_aws.Auth.Accounts.{has_email}
use aiops_aws.Api.Privacy.{reset_mail, reset_mails, password_reset_request-answers}
use aiops_aws.Security.{Env}
use aiops_aws.Tests.Concrete.{marks, env, env-Laws}
use aiops_aws.Tests.Data.{here, alice, begun, server, presented, payload_of}
use aiops_aws.Tests.Codec.{encode}

abbrev calls : List Call
calls =
    Call.refresh presented here
    ∷ Call.refresh presented here
    ∷ Call.password_reset_confirm "reset" "new" here
    ∷ Call.login_user "a@x.org" "pw" here
    ∷ []

serve_all-Grows_example : Grows begun (serve_all env calls server).db
serve_all-Grows_example = serve_all-Grows env calls server

answer-SameData_example :
    SameData (answer env (Call.verify_email_confirm "wrong" here) server).1.db begun
    ⊎ MailFailed env
        (Call.verify_email_confirm "wrong" here)
        (answer env (Call.verify_email_confirm "wrong" here) server).0
unfolding handler serve confirm_email_verification Auth.verify_email_confirm Calls
answer-SameData_example =
    answer-SameData env (Call.verify_email_confirm "wrong" here) server (ground arith)

abbrev carried : String
carried = encode (payload_of "access" 1 "j" 80) env.settings.jwt_access_secret

require_role-HasAccess_example :
    (((get_current_user env (some carried) begun).0 ≡ ok alice) ↔ HasAccess env carried begun alice)
    × (((require_role env UserRole.admin (some carried) begun).0 ≡ ok alice)
        ↔ (HasAccess env carried begun alice × (role_eq alice.role UserRole.admin ≡ true)))
require_role-HasAccess_example = require_role-HasAccess env UserRole.admin carried begun alice

abbrev issued : AuthTokens
issued = record {
  access_token =
      encode (record (payload_of "access" 1 (marks 22) 40) { role = some "user" })
        env.settings.jwt_access_secret;
  refresh_token = encode (payload_of "refresh" 1 (marks 21) 80) env.settings.jwt_refresh_secret;
  access_expires_in_seconds = 40;
  refresh_expires_in_seconds = 80;
}

abbrev later : Session
later = record begun { step = 39000000 }

issue_tokens-get_current_user_example :
    (get_current_user env (some issued.access_token) later).0 ≡ ok alice
unfolding issue_tokens Calls
issue_tokens-get_current_user_example =
    issue_tokens-get_current_user env env-Laws alice alice here begun later {tokens = issued} refl
      (omega arith) (omega arith) refl refl

login_failures_forgotten_example :
    SameData
      (serve_all env
        (map (login_call "a@x.org") (("x", here) ∷ ("y", here) ∷ ("z", here) ∷ []))
        server).db
      begun
unfolding lower
login_failures_forgotten_example =
    login_failures_forgotten env "a@x.org" alice (("x", here) ∷ ("y", here) ∷ ("z", here) ∷ [])
      server refl (refl, (refl, (refl, tt)))

-- an environment with a mail server, which drops every connection
abbrev mailing : Env
mailing = record env {
  settings = record env.settings {
    smtp_host = "mail.x.org";
    smtp_username = "auth";
    smtp_password = "secret";
  };
}

abbrev reset_request : Result String × Server
reset_request = serve (Auth.password_reset_request mailing "A@x.org" here) server

abbrev owners : List User
owners = select (has_email "A@x.org") begun.users

abbrev failure : Option String
failure = smtp_failure mailing 26 (reset_mail mailing "A@x.org" 20)

password_reset_request-answers_example :
    ((failure ≡ none)
      × (reset_request.0 ≡ ok "If the account exists, a reset link has been generated")
      × (reset_request.1.outbox ≡ reset_mails mailing "A@x.org" 20 owners))
    ⊎ ((name : String) × (failure ≡ some name)
        × ((reset_request.0 ≡ ok "If the account exists, a reset link has been generated")
            ↔ (owners ≡ []))
        × ((reset_request.0 ≡ err (unhandled name)) ↔ (length owners ≡ 1))
        × (reset_request.1.outbox ≡ []))
unfolding lower
password_reset_request-answers_example =
    password_reset_request-answers mailing "A@x.org" here server (omega arith)
