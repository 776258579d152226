-- ===== src/Api/Benign.antt =====
-- backend/api/dependencies.py: who signs in, for Database.Benign.
use aiops_aws.Prelude.{ℕ, String, Option, none, some}
use aiops_aws.Outcome.Preserves.{Preserves, bind-Preserves}
use aiops_aws.Models.{User, UserRole}
use aiops_aws.Database.Session.{Session}
use aiops_aws.Database.Benign.{Benign, benign_rules}
use aiops_aws.Security.{Env, Payload}
use aiops_aws.Api.Dependencies.{
  active_or_401, user_with_id, user_of_payload, get_current_user, require_role,
}

module _ (env : Env) {P : Session → Type 0} (b : Benign P) where
  active_or_401-Preserves : (u : Option User) → Preserves P (active_or_401 u)
  unfolding active_or_401
  active_or_401-Preserves none = search benign_rules
  active_or_401-Preserves (some u) = search benign_rules

  user_with_id-Preserves : (id : Option ℕ) → Preserves P (user_with_id id)
  unfolding user_with_id
  user_with_id-Preserves none = search benign_rules
  user_with_id-Preserves (some id) = search (benign_rules, active_or_401-Preserves)

  user_of_payload-Preserves : (p : Option Payload) → Preserves P (user_of_payload env p)
  unfolding user_of_payload
  user_of_payload-Preserves none = search benign_rules
  user_of_payload-Preserves (some p) = search (benign_rules, user_with_id-Preserves)

  pub get_current_user-Preserves : (cred : Option String) → Preserves P (get_current_user env cred)
  unfolding get_current_user
  get_current_user-Preserves none = search benign_rules
  get_current_user-Preserves (some cred) = search (benign_rules, user_of_payload-Preserves)

  pub require_role-Preserves :
      (role : UserRole) (cred : Option String) → Preserves P (require_role env role cred)
  unfolding require_role
  require_role-Preserves role cred =
      bind-Preserves _ _ (get_current_user-Preserves cred) (λ u. search benign_rules)
