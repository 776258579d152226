-- ===== src/Accounts/Registered.antt =====
-- backend/services/auth_service.py: the accounts that registration adds are well formed.
use aiops_aws.Prelude.{String, Option, none, some}
use aiops_aws.Outcome.Yields.{Yields, Any, bind-Yields}
use aiops_aws.Models.{User}
use aiops_aws.Database.Accounts.{AllUsers, AllUsers-Benign, AllUsers-Carries, add_user-Preserves}
use aiops_aws.Security.{Env}
use aiops_aws.Schemas.{Pydantic}
use aiops_aws.Auth.{Client}
use aiops_aws.Auth.Accounts.{register_found, register_user}
use aiops_aws.Accounts.{WellFormed, IsPassword, IsAddress, new_user-WellFormed, WellFormed-Kept}
use aiops_aws.Accounts.Auth.{accounts_rules, hash_password-Yields}

module _ (pydantic : Pydantic) (env : Env) where
  register_found-Yields :
      (email password : String) (client : Client) (found : Option User)
      → IsAddress pydantic email
      → IsPassword password
      → Yields
          (AllUsers (WellFormed pydantic env))
          Any
          (register_found env email password client found)
  unfolding register_found
  register_found-Yields email password client none a h =
      bind-Yields _ _ (hash_password-Yields (AllUsers-Carries _) env WellFormed-Kept password h)
        λ hash d.
          search (accounts_rules, AllUsers-Benign, add_user-Preserves, new_user-WellFormed) depth 40
  register_found-Yields email password client (some u) a h = search accounts_rules

  pub register_user-Yields :
      (email password : String) (client : Client)
      → IsAddress pydantic email
      → IsPassword password
      → Yields (AllUsers (WellFormed pydantic env)) Any (register_user env email password client)
  unfolding register_user
  register_user-Yields email password client a h =
      search (register_found-Yields, accounts_rules, AllUsers-Benign) depth 40
