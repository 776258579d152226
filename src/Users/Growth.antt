-- ===== src/Users/Growth.antt =====
-- backend/services/user_service.py: how the operations change the data, for Database.Grows.
use aiops_aws.Prelude.{String, Bool, true, false, Option, none, some}
use aiops_aws.Outcome.Preserves.{Preserves}
use aiops_aws.Models.{User, UserRole}
use aiops_aws.Database.Session.{Session}
use aiops_aws.Database.Grows.{Grows}
use aiops_aws.Database.Grows.Calls.{grows_rules}
use aiops_aws.Security.{Env}
use aiops_aws.Auth.{Client}
use aiops_aws.Users.Profile.{update_profile, change_password, deactivate_account}
use aiops_aws.Users.Admin.{
  AdminUserUpdateRequest, change_role, change_active, admin_update_user, admin_unlock_user,
}
use aiops_aws.Users.Benign.{revoke_each-Preserves}

module _ (env : Env) {s₀ : Session} where
  pub update_profile-Grows :
      (u : User) (name : Option String) (client : Client)
      → Preserves (Grows s₀) (update_profile env u name client)
  unfolding update_profile
  update_profile-Grows u name client = search grows_rules depth 40

  pub change_password-Grows :
      (u : User) (old new : String) (client : Client)
      → Preserves (Grows s₀) (change_password env u old new client)
  unfolding change_password
  change_password-Grows u old new client = search (grows_rules, revoke_each-Preserves) depth 40

  pub deactivate_account-Grows :
      (u : User) (client : Client) → Preserves (Grows s₀) (deactivate_account env u client)
  unfolding deactivate_account
  deactivate_account-Grows u client = search (grows_rules, revoke_each-Preserves) depth 40

  change_role-Grows :
      (target : User) (role : Option UserRole) → Preserves (Grows s₀) (change_role target role)
  unfolding change_role
  change_role-Grows target none = search grows_rules
  change_role-Grows target (some role) = search grows_rules depth 40

  change_active-Grows :
      (actor target : User) (active : Option Bool) (client : Client)
      → Preserves (Grows s₀) (change_active env actor target active client)
  unfolding change_active
  change_active-Grows actor target none client = search grows_rules
  change_active-Grows actor target (some true) client = search grows_rules depth 40
  change_active-Grows actor target (some false) client =
      search (grows_rules, revoke_each-Preserves) depth 40

  pub admin_update_user-Grows :
      (actor target : User) (payload : AdminUserUpdateRequest) (client : Client)
      → Preserves (Grows s₀) (admin_update_user env actor target payload client)
  unfolding admin_update_user
  admin_update_user-Grows actor target payload client =
      search (grows_rules, change_role-Grows, change_active-Grows) depth 40

  pub admin_unlock_user-Grows :
      (actor target : User) (client : Client)
      → Preserves (Grows s₀) (admin_unlock_user env actor target client)
  unfolding admin_unlock_user
  admin_unlock_user-Grows actor target client = search grows_rules depth 40
