-- ===== src/Api/Growth.antt =====
-- backend/api/: how the endpoints change the data over the life of the server.
use aiops_aws.Prelude.{String, Option, none, some, List, [], ◌∷◌, arith}
use aiops_aws.Outcome.{modify, crash}
use aiops_aws.Outcome.Preserves.{Preserves, preserves_rules}
use aiops_aws.Database.Session.{Session, Action}
use aiops_aws.Database.Grows.{Grows, Grows-refl, Grows-trans, Grows-flush_all}
use aiops_aws.Security.{Env, Mail}
use aiops_aws.Auth.Growth.{
  register_user-Grows, login-Grows, confirm_email_verification-Grows, confirm_password_reset-Grows,
}
use aiops_aws.Users.Growth.{
  update_profile-Grows, change_password-Grows, deactivate_account-Grows, admin_update_user-Grows,
  admin_unlock_user-Grows,
}
use aiops_aws.Auth.Benign.{
  issue_tokens-Preserves, refresh_tokens-Preserves, logout-Preserves,
  request_email_verification-Preserves, request_password_reset-Preserves,
}
use aiops_aws.Users.Benign.{
  list_sessions-Preserves, revoke_session-Preserves, revoke_all_sessions-Preserves,
  admin_revoke_sessions-Preserves, get_user_by_id-Preserves,
}
use aiops_aws.Api.Benign.{get_current_user-Preserves, require_role-Preserves}
use aiops_aws.Database.Grows.Calls.{
  Grows-Benign, add_refresh_token-Grows, add_email_token-Grows, add_reset_token-Grows,
}
use aiops_aws.Api.{
  Server, Running, in_session, commit, limit, smtp_failure, deliver, send_email, serve,
}
use aiops_aws.Api.Auth
use aiops_aws.Api.Profile
use aiops_aws.Api.Users
use aiops_aws.Api.Endpoints.{Call, handler, answer, serve_all}

-- The database and the request's session are both ahead of an earlier session.
record IsAhead (s₀ : Session) (q : Running) : Type 0 where
  data_of : Grows s₀ q.db
  own : Grows s₀ q.session

module _ {s₀ : Session} where
  in_session-IsAhead {ℓ} :
      {A : Type ℓ} (m : Action A) → Preserves (Grows s₀) m → Preserves (IsAhead s₀) (in_session m)
  unfolding in_session
  in_session-IsAhead m h = record {
    after = λ q a. record { data_of = a.data_of; own = h.after q.session a.own };
  }

  commit-IsAhead : Preserves (IsAhead s₀) commit
  unfolding commit
  commit-IsAhead = record {
    after = λ q a.
        let g = Grows-trans a.own (Grows-flush_all q.session) in record { data_of = g; own = g };
  }

  limit-IsAhead : (env : Env) (key : String) → Preserves (IsAhead s₀) (limit env key)
  unfolding limit
  limit-IsAhead env key = record { after = λ q a. ground arith }

  deliver-IsAhead :
      (mail : Mail) (failure : Option String) → Preserves (IsAhead s₀) (deliver mail failure)
  unfolding modify crash
  deliver-IsAhead mail none = record { after = λ q a. ground arith }
  deliver-IsAhead mail (some name) = record { after = λ q a. a }

  send_link-IsAhead :
      (env : Env) (email subject text path : String) (token : Option String)
      → Preserves (IsAhead s₀) (Auth.send_link env email subject text path token)
  unfolding Auth.send_link send_email
  send_link-IsAhead env email subject text path none = search preserves_rules
  send_link-IsAhead env email subject text path (some token) = record {
    after = λ q a. (deliver-IsAhead _ (smtp_failure env q.session.step _)).after q a;
  }

ruleset ahead_rules = (
  preserves_rules, Grows-Benign, add_refresh_token-Grows, issue_tokens-Preserves,
  add_email_token-Grows, add_reset_token-Grows, in_session-IsAhead, commit-IsAhead, limit-IsAhead,
  send_link-IsAhead, get_current_user-Preserves, require_role-Preserves, register_user-Grows,
  login-Grows, refresh_tokens-Preserves, logout-Preserves, request_email_verification-Preserves,
  confirm_email_verification-Grows, request_password_reset-Preserves, confirm_password_reset-Grows,
  update_profile-Grows, change_password-Grows, deactivate_account-Grows, list_sessions-Preserves,
  revoke_session-Preserves, revoke_all_sessions-Preserves, admin_update_user-Grows,
  admin_unlock_user-Grows, admin_revoke_sessions-Preserves, get_user_by_id-Preserves,
)

handler-IsAhead :
    (env : Env) (call : Call) {s₀ : Session} → Preserves (IsAhead s₀) (handler env call)
unfolding handler Auth.register Auth.login_user Auth.refresh Auth.logout_user
    Auth.verify_email_request Auth.verify_email_confirm Auth.password_reset_request
    Auth.password_reset_confirm Auth.get_me Auth.admin_only Profile.patch_me
    Profile.change_password_me Profile.deactivate_me Profile.get_my_sessions
    Profile.delete_my_session Profile.revoke_all_my_sessions Profile.get_my_activity Users.get_users
    Users.get_user Users.patch_user Users.unlock_user Users.revoke_user_sessions
    Users.deactivate_user
handler-IsAhead env (Call.register email password client) = search ahead_rules depth 20
handler-IsAhead env _ = search ahead_rules depth 20

-- One call, whatever it is and whether it succeeds or not, leaves the data of the database grown:
-- every row is still there under its key, a refresh token that was revoked is revoked, a token
-- from a mail that was used is used, and the log of events begins with the log as it was.
pub answer-Grows :
    (env : Env) (call : Call) (server : Server) → Grows server.db (answer env call server).1.db
unfolding serve
answer-Grows env call server =
    let a =
      (handler-IsAhead env call {s₀ = server.db}).after
        (record { server = server; session = server.db })
        (record { data_of = Grows-refl server.db; own = Grows-refl server.db }) in
    record {
      step = a.own.step;
      users = a.data_of.users;
      refresh = a.data_of.refresh;
      email = a.data_of.email;
      reset = a.data_of.reset;
      audit = a.data_of.audit;
    }

-- Over any list of calls, whatever they are and whether they succeed or not, every row stays under
-- its key, and no revocation, no use of a token and no entry of the log is ever taken back.
pub serve_all-Grows :
    (env : Env) (calls : List Call) (server : Server)
    → Grows server.db (serve_all env calls server).db
unfolding serve_all
serve_all-Grows env [] server = Grows-refl server.db
serve_all-Grows env (call ∷ calls) server =
    Grows-trans (answer-Grows env call server)
      (serve_all-Grows env calls (answer env call server).1)
