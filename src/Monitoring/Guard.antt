-- ===== src/Monitoring/Guard.antt =====
-- backend/api/routes.py: an endpoint of the data for a caller who is signed in, and for others.
use aiops_aws.Prelude.{String, ◌≡◌, refl, Option}
use aiops_aws.Outcome.{ok, err, Error, ◌>>=◌, ◌>>◌}
use aiops_aws.Security.{Env}
use aiops_aws.Models.{User}
use aiops_aws.Api.{Running, in_session}
use aiops_aws.Api.Dependencies.{get_current_user}
use aiops_aws.Monitoring.{World, Job}
use aiops_aws.Monitoring.Routes.{in_world, signed_in}

module _ (env : Env) (credentials : Option String) (q : Running) (w : World) where
  -- The job runs in the world for an active user, as the guard of the account service tells.
  pub signed_in-ok {ℓ} :
      {A : Type ℓ} (job : Job A) (user : User)
      → (get_current_user env credentials q.session).0 ≡ ok user
      → ((signed_in env credentials >> in_world job) (q, w)).0 ≡ (job w).0
        × (((signed_in env credentials >> in_world job) (q, w)).1.1 ≡ (job w).1)
  unfolding signed_in in_world in_session ◌>>=◌
  signed_in-ok job user e = rw e (refl, refl)

  -- Nothing runs for others.
  pub signed_in-err {ℓ} :
      {A : Type ℓ} (job : Job A) (error : Error)
      → (get_current_user env credentials q.session).0 ≡ err error
      → ((signed_in env credentials >> in_world job) (q, w)).0 ≡ err error
        × (((signed_in env credentials >> in_world job) (q, w)).1.1 ≡ w)
  unfolding signed_in in_world in_session ◌>>=◌
  signed_in-err job error e = rw e (refl, refl)
