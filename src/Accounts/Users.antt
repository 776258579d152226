-- ===== src/Accounts/Users.antt =====
-- backend/services/user_service.py and backend/api/dependencies.py: what they do to accounts,
-- and which accounts they find.
use aiops_aws.Prelude.{ℕ, String, Bool, true, false, Option, none, some, refl}
use aiops_aws.Outcome.Preserves.{when-Preserves}
use aiops_aws.Outcome.Yields.{Yields, Any, OnSome, bind-Yields, ignored-Yields, yields_rules}
use aiops_aws.Models.{User, UserRole}
use aiops_aws.Database.Session.{Session}
use aiops_aws.Database.Accounts.{Carries}
use aiops_aws.Security.{Env, Payload}
use aiops_aws.Auth.{Client}
use aiops_aws.Users.Benign.{revoke_refresh_tokens-Preserves}
use aiops_aws.Users.Profile.{update_profile, change_password, deactivate_active, deactivate_account}
use aiops_aws.Users.Admin.{
  AdminUserUpdateRequest, value, change_role, activate, deactivate, change_active, verify,
  admin_update_user, admin_unlock_user, get_user_by_id,
}
use aiops_aws.Api.Dependencies.{
  active_or_401, user_with_id, user_of_payload, get_current_user, require_role,
}
use aiops_aws.Accounts.{IsPassword, IsName, Kept, verify-kept}
use aiops_aws.Accounts.Auth.{accounts_rules, hash_password-Yields}

module _ {P : Session → Type 0} {F : User → Type 0} (c : Carries P F) (env : Env)
    (k : Kept env F) where
  pub update_profile-Yields :
      (u : User) (name : Option String) (client : Client)
      → F u
      → OnSome IsName name
      → Yields P F (update_profile env u name client)
  unfolding update_profile
  update_profile-Yields u name client w n =
      let w' = k.renamed u name n w in search (accounts_rules, c.benign, c.writes) depth 40

  pub change_password-Yields :
      (u : User) (old new : String) (client : Client)
      → F u
      → IsPassword new
      → Yields P Any (change_password env u old new client)
  unfolding change_password
  change_password-Yields u old new client w h =
      bind-Yields {Q = Any} _ _ (search (accounts_rules)) λ _ _.
        bind-Yields {Q = Any} _ _ (search (accounts_rules)) λ _ _.
          bind-Yields _ _ (hash_password-Yields c env k new h) λ hash d.
            bind-Yields {Q = Any} _ _ (search (accounts_rules, c.benign)) λ now _.
              let w' = k.rehashed u hash (some now) d w in
              search (accounts_rules, c.benign, c.writes, revoke_refresh_tokens-Preserves) depth 40

  deactivate_active-Yields :
      (u : User) (client : Client) → F u → Yields P Any (deactivate_active env u client)
  unfolding deactivate_active
  deactivate_active-Yields u client w =
      bind-Yields {Q = Any} _ _ (search (accounts_rules, c.benign)) λ now _.
        let w' = k.switched u false (some now) refl w in
        search (accounts_rules, c.benign, c.writes, revoke_refresh_tokens-Preserves) depth 40

  pub deactivate_account-Yields :
      (u : User) (client : Client) → F u → Yields P Any (deactivate_account env u client)
  unfolding deactivate_account
  deactivate_account-Yields u client w =
      ignored-Yields _ (when-Preserves _ _ (deactivate_active-Yields u client w).keeps)

  change_role-Yields : (u : User) (role : Option UserRole) → F u → Yields P F (change_role u role)
  unfolding change_role
  change_role-Yields u none w = search (accounts_rules)
  change_role-Yields u (some role) w =
      let w' = k.appointed u role u.is_verified w in search (accounts_rules, c.writes) depth 40

  activate-Yields : (u : User) → F u → Yields P F (activate u)
  unfolding activate
  activate-Yields u w =
      let w' = k.switched u true none refl w in search (accounts_rules, c.writes) depth 40

  deactivate-Yields :
      (actor u : User) (client : Client) → F u → Yields P F (deactivate env actor u client)
  unfolding deactivate
  deactivate-Yields actor u client w =
      bind-Yields {Q = Any} _ _ (search (accounts_rules)) λ admins _.
        bind-Yields {Q = Any} _ _ (search (accounts_rules)) λ _ _.
          bind-Yields {Q = Any} _ _ (search (accounts_rules, c.benign)) λ now _.
            let w' = k.switched u false (some now) refl w in
            search (accounts_rules, c.benign, c.writes, revoke_refresh_tokens-Preserves) depth 40

  change_active-Yields :
      (actor u : User) (active : Option Bool) (client : Client)
      → F u
      → Yields P F (change_active env actor u active client)
  unfolding change_active
  change_active-Yields actor u none client w = search (accounts_rules)
  change_active-Yields actor u (some true) client w =
      search (accounts_rules, activate-Yields) depth 40
  change_active-Yields actor u (some false) client w =
      search (accounts_rules, deactivate-Yields) depth 40

  pub admin_update_user-Yields :
      (actor u : User) (payload : AdminUserUpdateRequest) (client : Client)
      → F u
      → OnSome IsName (value payload.display_name)
      → Yields P F (admin_update_user env actor u payload client)
  unfolding admin_update_user
  admin_update_user-Yields actor u payload client w n =
      bind-Yields {Q = Any} _ _ (search (accounts_rules)) λ _ _.
        bind-Yields _ _ (change_role-Yields u (value payload.role) w) λ u₁ w₁.
          bind-Yields _ _ (change_active-Yields actor u₁ (value payload.is_active) client w₁)
            λ u₂ w₂.
              let w₃ =
                k.renamed (verify (value payload.is_verified) u₂) (value payload.display_name) n
                  (verify-kept k u₂ (value payload.is_verified) w₂) in
              search (accounts_rules, c.benign, c.writes) depth 40

  pub admin_unlock_user-Yields :
      (actor u : User) (client : Client) → F u → Yields P F (admin_unlock_user env actor u client)
  unfolding admin_unlock_user
  admin_unlock_user-Yields actor u client w =
      let w' = k.forgiven u none u.last_login_at w in
      search (accounts_rules, c.benign, c.writes) depth 40

-- Who signs in, and whom an administrator names, is an account of the session.
module _ {P : Session → Type 0} {F : User → Type 0} (c : Carries P F) (env : Env) where
  pub get_user_by_id-Yields : (id : ℕ) → Yields P F (get_user_by_id id)
  unfolding get_user_by_id
  get_user_by_id-Yields id = bind-Yields _ _ (c.finds _) λ found w. search yields_rules

  active_or_401-Yields : (u : Option User) → OnSome F u → Yields P F (active_or_401 u)
  unfolding active_or_401
  active_or_401-Yields none w = search yields_rules
  active_or_401-Yields (some u) w = search yields_rules

  user_with_id-Yields : (id : Option ℕ) → Yields P F (user_with_id id)
  unfolding user_with_id
  user_with_id-Yields none = search yields_rules
  user_with_id-Yields (some id) = bind-Yields _ _ (c.finds _) active_or_401-Yields

  user_of_payload-Yields : (p : Option Payload) → Yields P F (user_of_payload env p)
  unfolding user_of_payload
  user_of_payload-Yields none = search yields_rules
  user_of_payload-Yields (some p) = search (yields_rules, user_with_id-Yields)

  pub get_current_user-Yields : (cred : Option String) → Yields P F (get_current_user env cred)
  unfolding get_current_user
  get_current_user-Yields none = search (accounts_rules)
  get_current_user-Yields (some cred) = search (accounts_rules, c.benign, user_of_payload-Yields)

  pub require_role-Yields :
      (role : UserRole) (cred : Option String) → Yields P F (require_role env role cred)
  unfolding require_role
  require_role-Yields role cred =
      bind-Yields _ _ (get_current_user-Yields cred) (λ u w. search yields_rules)
