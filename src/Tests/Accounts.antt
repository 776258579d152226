-- ===== src/Tests/Accounts.antt =====
-- The theorems on requests and accounts, with a pydantic that accepts texts as addresses.
use aiops_aws.Prelude.{
  ◌≡◌, ◌⊎◌, String, Bool, Option, refl, none, some, List, [], ◌∷◌, arith, lower,
}
use aiops_aws.Models.{User}
use aiops_aws.Outcome.{Result, Error, ok, err, http_exception}
use aiops_aws.Api.Dependencies.{get_current_user}
use aiops_aws.Api.Endpoints.{Call, answer}
use aiops_aws.Auth.Accounts.{new_user}
use aiops_aws.Database.Accounts.{AllUsers}
use aiops_aws.Schemas.{Value, Body, Pydantic}
use aiops_aws.Api.{Server}
use aiops_aws.Api.Requests.{Request, respond, respond_all}
use aiops_aws.Api.Refused.{HasPasswords, IsUntouched, change_password_me-checked}
use aiops_aws.Accounts.{WellFormed}
use aiops_aws.Accounts.Answered.{respond_all-WellFormed}
use aiops_aws.Accounts.Distinct.{Distinct, respond_all-Distinct}
use aiops_aws.Tests.Concrete.{env, env-Laws}
use aiops_aws.Tests.Data.{here, begun, server, saved, payload_of}
use aiops_aws.Tests.Codec.{encode}

abbrev flag_only : Value → Option Bool
flag_only (Value.flag b) = some b
flag_only _ = none

abbrev pub lax : Pydantic
lax = record { email_of = λ s. some s; int_of = λ s. none; bool_of = flag_only }

abbrev filled : String → Body
filled password = ("email", Value.text "B@x.org") ∷ ("password", Value.text password) ∷ []

abbrev dora : User
dora = new_user 1 "d@x.org" "password" 0

abbrev pub opened_server : Server
opened_server = record server { db = record begun { users = saved (dora ∷ []) } }

abbrev token : String
token = encode (payload_of "access" 1 "j" 80) env.settings.jwt_access_secret

abbrev pub requests : List Request
requests =
    Request.register (filled "12345678") here
    ∷ Request.login_user (filled "87654321") here
    ∷ Request.patch_me (some token) (("display_name", Value.text " Dora ") ∷ []) here
    ∷ Request.deactivate_me (some token) here
    ∷ []

-- a new password of seven characters
abbrev short : Body
short = ("current_password", Value.text "12345678") ∷ ("new_password", Value.text "1234567") ∷ []

abbrev asked : Result (Unit {0}) × Server
asked = respond lax env (Request.change_password_me (some token) short here) opened_server

change_password_me-checked_example :
    ((e : Error) × ((get_current_user env (some token) opened_server.db).0 ≡ err e)
      × (asked.0 ≡ err e)
      × IsUntouched opened_server asked.1)
    ⊎ ((u : User) × ((get_current_user env (some token) opened_server.db).0 ≡ ok u)
        × ((current new : String) → HasPasswords short current new → ⊥)
        × (asked.0 ≡ err (http_exception 422 "Unprocessable Entity"))
        × IsUntouched opened_server asked.1)
    ⊎ ((u : User) × ((get_current_user env (some token) opened_server.db).0 ≡ ok u)
        × (current : String) × (new : String) × HasPasswords short current new
        × (asked
            ≡ answer env (Call.change_password_me (some token) current new here) opened_server))
change_password_me-checked_example =
    change_password_me-checked lax env (some token) short here opened_server

dora-WellFormed : WellFormed lax env dora
unfolding lower
dora-WellFormed = record {
  digest = (0, "password", (omega arith, omega arith), refl);
  address = ("d@x.org", ("d@x.org", refl), refl);
  name = tt;
  failures = omega arith;
  closed = refl;
}

respond_all-WellFormed_example :
    AllUsers (WellFormed lax env) (respond_all lax env requests opened_server).db
respond_all-WellFormed_example =
    respond_all-WellFormed lax env requests opened_server ((dora-WellFormed, dora-WellFormed), tt)

opened_server-Distinct : Distinct env opened_server.db
unfolding lower
opened_server-Distinct = record {
  clean = (refl, tt);
  owner = λ i. "d@x.org";
  made = (
    ((refl, λ k le same. omega (arith, le, same)), (refl, λ k le same. omega (arith, le, same))),
    tt,
  );
  lowered = (refl, tt);
  unique = λ e. ground arith;
}

respond_all-Distinct_example : Distinct env (respond_all lax env requests opened_server).db
respond_all-Distinct_example =
    respond_all-Distinct lax env env-Laws requests opened_server opened_server-Distinct
