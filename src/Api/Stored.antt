-- ===== src/Api/Stored.antt =====
-- backend/db/session.py: between requests, no account of the database waits to be flushed.
use aiops_aws.Prelude.{String, Option, none, some}
use aiops_aws.Outcome.{modify, crash}
use aiops_aws.Outcome.Preserves.{Preserves, preserves_rules}
use aiops_aws.Database.Rows.{IsClean, flush-IsClean}
use aiops_aws.Database.Session.{Action}
use aiops_aws.Security.{Env, Mail}
use aiops_aws.Api.{
  Handler, Server, Running, in_session, commit, limit, smtp_failure, deliver, send_email, serve,
}
use aiops_aws.Api.Auth
use aiops_aws.Api.Profile
use aiops_aws.Api.Users
use aiops_aws.Api.Endpoints.{Call, handler}
use aiops_aws.Api.Requests.{Request, guard, respond_to}

abbrev IsStored : Running → Type 0
IsStored q = IsClean q.db.users

in_session-IsStored {ℓ} : {A : Type ℓ} (m : Action A) → Preserves IsStored (in_session m)
unfolding in_session
in_session-IsStored m = record { after = λ q h. h }

commit-IsStored : Preserves IsStored commit
unfolding commit
commit-IsStored = record { after = λ q h. flush-IsClean q.session.users }

limit-IsStored : (env : Env) (key : String) → Preserves IsStored (limit env key)
unfolding limit
limit-IsStored env key = record { after = λ q h. h }

deliver-IsStored :
    (mail : Mail) (failure : Option String) → Preserves IsStored (deliver mail failure)
unfolding modify crash
deliver-IsStored mail none = record { after = λ q h. h }
deliver-IsStored mail (some name) = record { after = λ q h. h }

send_link-IsStored :
    (env : Env) (email subject text path : String) (token : Option String)
    → Preserves IsStored (Auth.send_link env email subject text path token)
unfolding Auth.send_link send_email
send_link-IsStored env email subject text path none = search preserves_rules
send_link-IsStored env email subject text path (some token) = record {
  after = λ q h. (deliver-IsStored _ (smtp_failure env q.session.step _)).after q h;
}

ruleset stored_rules =
    (preserves_rules, in_session-IsStored, commit-IsStored, limit-IsStored, send_link-IsStored)

handler-IsStored : (env : Env) (call : Call) → Preserves IsStored (handler env call)
unfolding handler Auth.register Auth.login_user Auth.refresh Auth.logout_user
    Auth.verify_email_request Auth.verify_email_confirm Auth.password_reset_request
    Auth.password_reset_confirm Auth.get_me Auth.admin_only Profile.patch_me
    Profile.change_password_me Profile.deactivate_me Profile.get_my_sessions
    Profile.delete_my_session Profile.revoke_all_my_sessions Profile.get_my_activity Users.get_users
    Users.get_user Users.patch_user Users.unlock_user Users.revoke_user_sessions
    Users.deactivate_user
handler-IsStored env (Call.get_me cred) = search stored_rules depth 20
handler-IsStored env _ = search stored_rules depth 20

guard-IsStored : (env : Env) (r : Request) → Preserves IsStored (guard env r)
unfolding guard
guard-IsStored env (Request.get_me cred) = search stored_rules
guard-IsStored env _ = search stored_rules

serve-IsClean :
    (h : Handler (Unit {0})) (server : Server)
    → Preserves IsStored h
    → IsClean server.db.users
    → IsClean (serve h server).1.db.users
unfolding serve
serve-IsClean h server p c = p.after (record { server = server; session = server.db }) c

-- A request leaves it so, whatever it is.
pub respond_to-IsClean :
    (env : Env) (r : Request) (o : Option Call) (server : Server)
    → IsClean server.db.users
    → IsClean (respond_to env r o server).1.db.users
respond_to-IsClean env r none server c =
    serve-IsClean _ server (search (guard-IsStored, preserves_rules)) c
respond_to-IsClean env r (some call) server c = serve-IsClean _ server (handler-IsStored env call) c
