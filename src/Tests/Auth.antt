-- ===== src/Tests/Auth.antt =====
-- The theorems on the authentication service at concrete inputs.
use aiops_aws.Prelude.{◌≤◌, ◌<◌, true, ℕ, ◌+◌, ◌≡◌, refl, some, [], ◌∷◌, arith, lower, str_eq}
use aiops_aws.Outcome.{ok}
use aiops_aws.Models.{User}
use aiops_aws.Database.Table.{write, select}
use aiops_aws.Database.Session.{Session, Calls}
use aiops_aws.Security.{minutes}
use aiops_aws.Auth.Accounts.{register_user, authenticate_user}
use aiops_aws.Auth.Tokens.{
  request_email_verification, confirm_email_verification, confirm_password_reset,
  request_password_reset,
}
use aiops_aws.Auth.Verification.{email_verification_round_trip}
use aiops_aws.Auth.Registration.{registered, register_user-authenticate_user}
use aiops_aws.Auth.Lockout.{tried, tried_wrong_locks}
use aiops_aws.Auth.Reset.{password_reset_round_trip}
use aiops_aws.Tests.Concrete.{env, env-Laws}
use aiops_aws.Tests.Data.{here, saved, alice, begun}

password_reset_round_trip_example :
    (confirm_password_reset env
      (env.token_urlsafe 20)
      "new"
      here
      (request_password_reset env "A@x.org" here begun).1).0
    ≡ ok tt
unfolding lower request_password_reset Calls
password_reset_round_trip_example =
    (password_reset_round_trip env env-Laws "A@x.org" "new" here here begun
      (request_password_reset env "A@x.org" here begun).1 alice (refl, (refl, tt)) (refl, tt) refl
      refl refl (omega arith) refl refl).1

abbrev locked : User
locked = record alice { locked_until = some 90 }

abbrev closed : Session
closed = record begun { users = saved (locked ∷ []) }

register_user-authenticate_user_example :
    ((register_user env "B@x.org" "pw" here begun).0 ≡ ok (registered env "B@x.org" "pw" begun))
    × ((authenticate_user env "b@X.org" "pw" here (register_user env "B@x.org" "pw" here begun).1).0
        ≡ ok (record (registered env "B@x.org" "pw" begun) {
          last_login_at =
              some (env.clock ((register_user env "B@x.org" "pw" here begun).1.step + 1));
        }))
unfolding lower
register_user-authenticate_user_example =
    register_user-authenticate_user env env-Laws "B@x.org" "b@X.org" "pw" here here begun
      (refl, (refl, tt)) refl refl

tried_wrong_locks_example :
    (step : ℕ) × (20 ≤ step)
    × (step < (tried env "a@x.org" here ("x" ∷ "y" ∷ []) begun).step)
    × (select
          (λ u. str_eq u.email (lower "a@x.org"))
          (tried env "a@x.org" here ("x" ∷ "y" ∷ []) begun).users
        ≡ record alice { failed_attempts = 0; locked_until = some (env.clock step + minutes 15) }
          ∷ [])
unfolding lower
tried_wrong_locks_example =
    tried_wrong_locks env "a@x.org" here "x" ("y" ∷ []) begun alice refl refl (refl, (refl, tt))
      refl

email_verification_round_trip_example :
    ((request_email_verification env "A@x.org" here begun).0 ≡ ok (some (env.token_urlsafe 20)))
    × ((confirm_email_verification env
          (env.token_urlsafe 20)
          here
          (request_email_verification env "A@x.org" here begun).1).0
        ≡ ok tt)
    × ((confirm_email_verification env
          (env.token_urlsafe 20)
          here
          (request_email_verification env "A@x.org" here begun).1).1.users
        ≡ write (λ u. u.id) (record alice { is_verified = true }) begun.users)
unfolding lower request_email_verification Calls
email_verification_round_trip_example =
    email_verification_round_trip env "A@x.org" here here begun
      (request_email_verification env "A@x.org" here begun).1 alice (refl, (refl, tt)) (refl, tt)
      refl refl refl (omega arith) refl refl
