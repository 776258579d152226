-- ===== src/Auth/Lockout.antt =====
-- backend/services/auth_service.py: the count of wrong passwords within one session.
use aiops_aws.Prelude.{
  ℕ, ◌+◌, ◌≤◌, ◌<◌, String, ◌≡◌, refl, false, none, some, List, [], ◌∷◌, length, All, arith,
}
use aiops_aws.Models.{User}
use aiops_aws.Database.Table.{select}
use aiops_aws.Database.Rows.{select-write}
use aiops_aws.Database.Session.{Calls, Session}
use aiops_aws.Security.{Env, minutes, verify_password}
use aiops_aws.Auth.{Client}
use aiops_aws.Auth.Accounts.{has_email, authenticate_user}

module _ (env : Env) (email : String) (client : Client) where
  -- the session after some passwords were tried, each after the other
  abbrev pub tried : List String → Session → Session
  tried [] s = s
  tried (password ∷ rest) s = tried rest (authenticate_user env email password client s).1

  abbrev pub AreWrong : User → List String → Type 0
  AreWrong u = All (λ p. verify_password env p u.password_hash ≡ false)

  try_wrong :
      (p : String) (s : Session) (u : User)
      → select (has_email email) s.users ≡ u ∷ []
      → u.locked_until ≡ none
      → verify_password env p u.password_hash ≡ false
      → u.failed_attempts + 1 < env.settings.lockout_threshold
      → select (has_email email) (authenticate_user env email p client s).1.users
        ≡ record u { failed_attempts = u.failed_attempts + 1 } ∷ []
  unfolding authenticate_user Calls
  try_wrong p s u one unlocked wrong few = ground (
    arith,
    select-write (has_email email) (λ u. u.id)
        (record u { failed_attempts = u.failed_attempts + 1 }) s.users {a = u} refl one,
  )

  try_last :
      (p : String) (s : Session) (u : User)
      → select (has_email email) s.users ≡ u ∷ []
      → u.locked_until ≡ none
      → verify_password env p u.password_hash ≡ false
      → u.failed_attempts + 1 ≡ env.settings.lockout_threshold
      → select (has_email email) (authenticate_user env email p client s).1.users
        ≡ record u {
          failed_attempts = 0;
          locked_until = some (env.clock s.step + minutes env.settings.lockout_minutes);
        }
          ∷ []
  unfolding authenticate_user Calls
  try_last p s u one unlocked wrong last = ground (
    arith,
    select-write (has_email email) (λ u. u.id)
        (record u {
          failed_attempts = 0;
          locked_until = some (env.clock s.step + minutes env.settings.lockout_minutes);
        })
        s.users {a = u} refl one,
  )

  authenticate_user-step :
      (p : String) (s : Session) (u : User)
      → select (has_email email) s.users ≡ u ∷ []
      → s.step < (authenticate_user env email p client s).1.step
  unfolding authenticate_user Calls
  authenticate_user-step p s u one = ground arith

  -- In one session, when wrong passwords for an account that is the only one with its address and
  -- is not locked bring the failures that it has counted to the threshold, the account is locked
  -- for the configured minutes from the time that the clock shows at some step of these calls, and
  -- its count begins anew.
  pub tried_wrong_locks :
      (p : String) (ps : List String) (s : Session) (u : User)
      → select (has_email email) s.users ≡ u ∷ []
      → u.locked_until ≡ none
      → AreWrong u (p ∷ ps)
      → u.failed_attempts + length (p ∷ ps) ≡ env.settings.lockout_threshold
      → (step : ℕ) × (s.step ≤ step)
        × (step < (tried (p ∷ ps) s).step)
        × (select (has_email email) (tried (p ∷ ps) s).users
            ≡ record u {
              failed_attempts = 0;
              locked_until = some (env.clock step + minutes env.settings.lockout_minutes);
            }
              ∷ [])
  tried_wrong_locks p [] s u one unlocked wrong count = (
    s.step,
    omega arith,
    authenticate_user-step p s u one,
    try_last p s u one unlocked wrong.0 (omega arith),
  )
  tried_wrong_locks p (q ∷ ps) s u one unlocked wrong count =
      let (step, from, before, locked) =
        tried_wrong_locks q ps (authenticate_user env email p client s).1
          (record u { failed_attempts = u.failed_attempts + 1 })
          (try_wrong p s u one unlocked wrong.0 (omega arith)) unlocked wrong.1 (omega arith) in
      (step, omega (arith, from, authenticate_user-step p s u one), before, locked)
