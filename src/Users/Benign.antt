-- ===== src/Users/Benign.antt =====
-- backend/services/user_service.py: the functions that write no account, for Database.Benign.
use aiops_aws.Prelude.{ℕ, String, Option, none, some, List, [], ◌∷◌}
use aiops_aws.Outcome.Preserves.{Preserves, bind-Preserves, when-Preserves, pure-Preserves}
use aiops_aws.Models.{User, RefreshToken, AuditEventType}
use aiops_aws.Database.Session.{Session}
use aiops_aws.Database.Benign.{Benign, benign_rules, revoke-Preserves}
use aiops_aws.Security.{Env, Payload}
use aiops_aws.Auth.{Client}
use aiops_aws.Users.{revoke_each, revoke_refresh_tokens}
use aiops_aws.Users.Sessions.{
  current_jti, list_sessions, revoke_found_session, revoke_session, checked_jti, kept_jti,
  revoke_all_sessions, given,
}
use aiops_aws.Users.Admin.{admin_revoke_sessions, get_user_by_id}

module _ (env : Env) {P : Session → Type 0} (b : Benign P) where
  pub revoke_each-Preserves :
      (now : ℕ) (except_jti : Option String) (ts : List RefreshToken)
      → Preserves P (revoke_each now except_jti ts)
  unfolding revoke_each
  revoke_each-Preserves now except_jti [] = search benign_rules
  revoke_each-Preserves now except_jti (t ∷ ts) =
      bind-Preserves _ _ (when-Preserves _ _ (revoke-Preserves b t now))
        λ _. bind-Preserves _ _ (revoke_each-Preserves now except_jti ts) (λ n. pure-Preserves _)

  pub revoke_refresh_tokens-Preserves :
      (user_id : ℕ) (except_jti : Option String) (actor : Option ℕ) (client : Client)
      (audit_type : AuditEventType) (detail : String)
      → Preserves P (revoke_refresh_tokens env user_id except_jti actor client audit_type detail)
  unfolding revoke_refresh_tokens
  revoke_refresh_tokens-Preserves user_id except_jti actor client audit_type detail =
      search (benign_rules, revoke_each-Preserves) depth 40

  current_jti-Preserves : (t : Option String) → Preserves P (current_jti env t)
  unfolding current_jti
  current_jti-Preserves none = search benign_rules
  current_jti-Preserves (some t) = search benign_rules

  pub list_sessions-Preserves : (u : User) (t : Option String) → Preserves P (list_sessions env u t)
  unfolding list_sessions
  list_sessions-Preserves u t =
      bind-Preserves _ _ (search benign_rules)
        λ tokens. bind-Preserves _ _ (current_jti-Preserves (given t)) (λ jti. pure-Preserves _)

  revoke_found_session-Preserves :
      (id : ℕ) (u : User) (now : ℕ) (client : Client) (t : Option RefreshToken)
      → Preserves P (revoke_found_session env id u now client t)
  unfolding revoke_found_session
  revoke_found_session-Preserves id u now client none = search benign_rules
  revoke_found_session-Preserves id u now client (some t) = search benign_rules depth 40

  pub revoke_session-Preserves :
      (u : User) (id : ℕ) (client : Client) → Preserves P (revoke_session env u id client)
  unfolding revoke_session
  revoke_session-Preserves u id client =
      search (benign_rules, revoke_found_session-Preserves) depth 40

  checked_jti-Preserves : (p : Option Payload) → Preserves P (checked_jti p)
  unfolding checked_jti
  checked_jti-Preserves none = search benign_rules
  checked_jti-Preserves (some p) = search benign_rules

  kept_jti-Preserves : (t : Option String) → Preserves P (kept_jti env t)
  unfolding kept_jti
  kept_jti-Preserves none = search benign_rules
  kept_jti-Preserves (some t) = search (benign_rules, checked_jti-Preserves)

  pub revoke_all_sessions-Preserves :
      (u : User) (keep : Option String) (client : Client)
      → Preserves P (revoke_all_sessions env u keep client)
  unfolding revoke_all_sessions
  revoke_all_sessions-Preserves u keep client =
      bind-Preserves _ _ (kept_jti-Preserves (given keep))
        λ jti. search (benign_rules, revoke_each-Preserves) depth 40

  pub admin_revoke_sessions-Preserves :
      (actor target : User) (client : Client)
      → Preserves P (admin_revoke_sessions env actor target client)
  unfolding admin_revoke_sessions
  admin_revoke_sessions-Preserves actor target client =
      search (benign_rules, revoke_each-Preserves) depth 40

  pub get_user_by_id-Preserves : (id : ℕ) → Preserves P (get_user_by_id id)
  unfolding get_user_by_id
  get_user_by_id-Preserves id = search benign_rules
