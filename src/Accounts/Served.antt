-- ===== src/Accounts/Served.antt =====
-- backend/api/: the accounts over the life of the server, whatever is asked of it.
use aiops_aws.Prelude.{ℕ, String, Option, none, some}
use aiops_aws.Outcome.{Result, modify, crash, ◌>>=◌}
use aiops_aws.Outcome.Preserves.{Preserves, preserves_rules, bind-Preserves}
use aiops_aws.Outcome.Yields.{Yields, Any, OnSome, bind-Yields, ignored-Yields}
use aiops_aws.Database.Session.{Session, Action, flush_session, tick}
use aiops_aws.Database.Benign.{Benign}
use aiops_aws.Models.{User, UserRole}
use aiops_aws.Database.Accounts.{Carries}
use aiops_aws.Security.{Env, Mail}
use aiops_aws.Schemas.{Pydantic}
use aiops_aws.Auth.{Client}
use aiops_aws.Auth.Benign.{
  refresh_tokens-Preserves, logout-Preserves, request_email_verification-Preserves,
  request_password_reset-Preserves,
}
use aiops_aws.Users.Benign.{
  list_sessions-Preserves, revoke_session-Preserves, revoke_all_sessions-Preserves,
  admin_revoke_sessions-Preserves, get_user_by_id-Preserves,
}
use aiops_aws.Users.Admin.{AdminUserUpdateRequest, value, get_user_by_id}
use aiops_aws.Api.Benign.{get_current_user-Preserves, require_role-Preserves}
use aiops_aws.Api.Dependencies.{require_role}
use aiops_aws.Api.{Running, in_session, commit, limit, smtp_failure, deliver, send_email}
use aiops_aws.Api.Auth
use aiops_aws.Api.Profile
use aiops_aws.Api.Users
use aiops_aws.Api.Endpoints.{Call, handler}
use aiops_aws.Accounts.{Kept, IsName, IsPassword}
use aiops_aws.Auth.Accounts.{register_user}
use aiops_aws.Auth.Sessions.{issue_tokens}
use aiops_aws.Auth.Tokens.{request_email_verification, request_password_reset}
use aiops_aws.Accounts.Auth.{
  login-Yields, confirm_email_verification-Yields, confirm_password_reset-Yields,
}
use aiops_aws.Accounts.Users.{
  update_profile-Yields, change_password-Yields, deactivate_account-Yields,
  admin_update_user-Yields, admin_unlock_user-Yields, get_user_by_id-Yields,
  get_current_user-Yields, require_role-Yields,
}
use aiops_aws.Accounts.Accepted.{IsAccepted}

-- The invariant holds of the database and of the request's session.
pub record Both (P : Session → Type 0) (q : Running) : Type 0 where
  pub stored : P q.db
  pub own : P q.session

module _ {P : Session → Type 0} where
  pub in_session-Preserves {ℓ} :
      {A : Type ℓ} (m : Action A) → Preserves P m → Preserves (Both P) (in_session m)
  unfolding in_session
  in_session-Preserves m h = record {
    after = λ q a. record { stored = a.stored; own = h.after q.session a.own };
  }

  in_session-Yields {ℓ} :
      {A : Type ℓ} {Q : A → Type 0} (m : Action A) → Yields P Q m → Yields (Both P) Q (in_session m)
  unfolding in_session
  in_session-Yields m h = record {
    keeps = in_session-Preserves m h.keeps;
    gives = λ q a. h.gives q.session a.own;
  }

  pub commit-Preserves : Benign P → Preserves (Both P) commit
  unfolding commit flush_session modify
  commit-Preserves b = record {
    after = λ q a. let g = b.flushes.after q.session a.own in record { stored = g; own = g };
  }

  pub limit-Preserves : Benign P → (env : Env) (key : String) → Preserves (Both P) (limit env key)
  unfolding limit tick
  limit-Preserves b env key = record {
    after = λ q a. record { stored = a.stored; own = (b.ticks env.clock).after q.session a.own };
  }

  deliver-Preserves :
      (mail : Mail) (failure : Option String) → Preserves (Both P) (deliver mail failure)
  unfolding modify crash
  deliver-Preserves mail none = record { after = λ q a. record { stored = a.stored; own = a.own } }
  deliver-Preserves mail (some name) = record { after = λ q a. a }

  pub send_link-Preserves :
      (env : Env) (email subject text path : String) (token : Option String)
      → Preserves (Both P) (Auth.send_link env email subject text path token)
  unfolding Auth.send_link send_email
  send_link-Preserves env email subject text path none = search preserves_rules
  send_link-Preserves env email subject text path (some token) = record {
    after = λ q a. (deliver-Preserves _ (smtp_failure env q.session.step _)).after q a;
  }

pub ruleset served_rules = (
  preserves_rules, in_session-Preserves, commit-Preserves, limit-Preserves, send_link-Preserves,
  get_current_user-Preserves, require_role-Preserves, logout-Preserves, list_sessions-Preserves,
  revoke_session-Preserves, revoke_all_sessions-Preserves, admin_revoke_sessions-Preserves,
  get_user_by_id-Preserves,
)

-- What a call must keep of the invariant: the accounts and the tokens that it may add.
abbrev pub Admits : (Session → Type 0) → Env → Call → Type 0
Admits P env (Call.register email password client) =
    Preserves P (register_user env email password client)
Admits P env (Call.login_user email password client) =
    (u : User) (c : Client) → Preserves P (issue_tokens env u c)
Admits P env (Call.refresh token client) =
    (u : User) (c : Client) → Preserves P (issue_tokens env u c)
Admits P env (Call.verify_email_request email client) =
    Preserves P (request_email_verification env email client)
Admits P env (Call.password_reset_request email client) =
    Preserves P (request_password_reset env email client)
Admits P env _ = Unit

module _ {P : Session → Type 0} {F : User → Type 0} (c : Carries P F) (env : Env)
    (k : Kept env F) where
  patch_me-Preserves :
      (cred name : Option String) (client : Client)
      → OnSome IsName name
      → Preserves (Both P) (Profile.patch_me env cred name client)
  unfolding Profile.patch_me
  patch_me-Preserves cred name client n =
      (bind-Yields {R = Any} _ _ (in_session-Yields _ (get_current_user-Yields c env cred)) λ u w.
        let h = (update_profile-Yields c env k u name client w n).keeps in
        ignored-Yields _ (search (served_rules, c.benign) depth 20)).keeps

  change_password_me-Preserves :
      (cred : Option String) (old new : String) (client : Client)
      → IsPassword new
      → Preserves (Both P) (Profile.change_password_me env cred old new client)
  unfolding Profile.change_password_me
  change_password_me-Preserves cred old new client p =
      (bind-Yields {R = Any} _ _ (in_session-Yields _ (get_current_user-Yields c env cred)) λ u w.
        let h = (change_password-Yields c env k u old new client w p).keeps in
        ignored-Yields _ (search (served_rules, c.benign) depth 20)).keeps

  deactivate_me-Preserves :
      (cred : Option String) (client : Client)
      → Preserves (Both P) (Profile.deactivate_me env cred client)
  unfolding Profile.deactivate_me
  deactivate_me-Preserves cred client =
      (bind-Yields {R = Any} _ _ (in_session-Yields _ (get_current_user-Yields c env cred)) λ u w.
        let h = (deactivate_account-Yields c env k u client w).keeps in
        ignored-Yields _ (search (served_rules, c.benign) depth 20)).keeps

  -- an administrator's call on the account that it names
  on_target {ℓ} :
      {A : Type ℓ} (cred : Option String) (id : ℕ) (f : User → User → Running → Result A × Running)
      → ((actor target : User) → F target → Preserves (Both P) (f actor target))
      → Preserves (Both P) (
          in_session (require_role env UserRole.admin cred) >>= λ actor.
          in_session (get_user_by_id id) >>= f actor)
  on_target cred id f h =
      (bind-Yields {R = Any} _ _
        (in_session-Yields _ (require_role-Yields c env UserRole.admin cred))
        λ actor _.
          bind-Yields _ _ (in_session-Yields _ (get_user_by_id-Yields c env id))
            λ target w. ignored-Yields _ (h actor target w)).keeps

  patch_user-Preserves :
      (cred : Option String) (id : ℕ) (payload : AdminUserUpdateRequest) (client : Client)
      → OnSome IsName (value payload.display_name)
      → Preserves (Both P) (Users.patch_user env cred id payload client)
  unfolding Users.patch_user
  patch_user-Preserves cred id payload client n = on_target cred id _ λ actor target w.
      let h = (admin_update_user-Yields c env k actor target payload client w n).keeps in
      search (served_rules, c.benign) depth 20

  unlock_user-Preserves :
      (cred : Option String) (id : ℕ) (client : Client)
      → Preserves (Both P) (Users.unlock_user env cred id client)
  unfolding Users.unlock_user
  unlock_user-Preserves cred id client = on_target cred id _ λ actor target w.
      let h = (admin_unlock_user-Yields c env k actor target client w).keeps in
      search (served_rules, c.benign) depth 20

  deactivate_user-Preserves :
      (cred : Option String) (id : ℕ) (client : Client)
      → Preserves (Both P) (Users.deactivate_user env cred id client)
  unfolding Users.deactivate_user
  deactivate_user-Preserves cred id client = on_target cred id _ λ actor target w.
      let h =
        (admin_update_user-Yields c env k actor target Users.deactivation client w tt).keeps in
      search (served_rules, c.benign) depth 20

  pub handler-Preserves :
      (pydantic : Pydantic) (call : Call)
      → IsAccepted pydantic call
      → Admits P env call
      → Preserves (Both P) (handler env call)
  unfolding handler Auth.register Auth.login_user Auth.refresh Auth.logout_user
      Auth.verify_email_request Auth.verify_email_confirm Auth.password_reset_request
      Auth.password_reset_confirm Auth.get_me Auth.admin_only Profile.get_my_sessions
      Profile.delete_my_session Profile.revoke_all_my_sessions Profile.get_my_activity
      Users.get_users Users.get_user Users.revoke_user_sessions
  handler-Preserves pydantic (Call.register email password client) a r =
      search (served_rules, c.benign) depth 20
  handler-Preserves pydantic (Call.refresh token client) a r =
      let h = refresh_tokens-Preserves env c.benign r token client in
      search (served_rules, c.benign) depth 20
  handler-Preserves pydantic (Call.verify_email_request email client) a r =
      search (served_rules, c.benign) depth 20
  handler-Preserves pydantic (Call.password_reset_request email client) a r =
      search (served_rules, c.benign) depth 20
  handler-Preserves pydantic (Call.login_user email password client) a r =
      let h = (login-Yields c env k email password client r).keeps in
      search (served_rules, c.benign) depth 20
  handler-Preserves pydantic (Call.verify_email_confirm token client) a r =
      let h = (confirm_email_verification-Yields c env k token client).keeps in
      search (served_rules, c.benign) depth 20
  handler-Preserves pydantic (Call.password_reset_confirm token password client) a r =
      let h = (confirm_password_reset-Yields c env k token password client a).keeps in
      search (served_rules, c.benign) depth 20
  handler-Preserves pydantic (Call.patch_me cred name client) a r =
      search (patch_me-Preserves, preserves_rules)
  handler-Preserves pydantic (Call.change_password_me cred old new client) a r =
      search (change_password_me-Preserves, preserves_rules)
  handler-Preserves pydantic (Call.deactivate_me cred client) a r =
      search (deactivate_me-Preserves, preserves_rules)
  handler-Preserves pydantic (Call.patch_user cred id payload client) a r =
      search (patch_user-Preserves, preserves_rules)
  handler-Preserves pydantic (Call.unlock_user cred id client) a r =
      search (unlock_user-Preserves, preserves_rules)
  handler-Preserves pydantic (Call.deactivate_user cred id client) a r =
      search (deactivate_user-Preserves, preserves_rules)
  handler-Preserves pydantic _ a r = search (served_rules, c.benign) depth 20
