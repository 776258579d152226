-- ===== src/Api/Refused.antt =====
-- backend/api/user_profile.py and backend/schemas/users.py: which requests to change a password
-- reach the service.
use Prim.Native.String.{count}
use aiops_aws.Prelude.{
  String, refl, Option-cases, ap, ◌∙◌, ◌⊎◌, inl, inr, ◌≤◌, ◌↔◌, Option, some, lookup, none, ◌≡◌,
  arith,
}
use aiops_aws.Outcome.{Result, Result-cases, Error, http_exception, ok, err, ◌>>◌, raise, pure}
use aiops_aws.Security.{Env}
use aiops_aws.Models.{User}
use aiops_aws.Auth.{Client}
use aiops_aws.Api.Dependencies.{get_current_user}
use aiops_aws.Api.Endpoints.{Call, handler, answer}
use aiops_aws.Api.Profile
use aiops_aws.Schemas.{
  ◌>>=◌, ChangePasswordRequest, Pydantic, Value, Body, required, password_of,
  change_password_request,
}
use aiops_aws.Api.{Server, serve, in_session}
use aiops_aws.Api.Atomicity.{SameData}
use aiops_aws.Api.Requests.{Request, parse, guard, respond}

-- What a request leaves as it was that is refused before its endpoint begins: the tables, the rate
-- limiter's table, the mails.
pub record IsUntouched (server server' : Server) : Type 0 where
  pub data_same : SameData server'.db server.db
  pub requests : server'.requests ≡ server.requests
  pub outbox : server'.outbox ≡ server.outbox

-- A field of the body is a text of 8 to 128 characters.
abbrev pub IsPasswordField : Body → String → String → Type 0
IsPasswordField body name password =
    (lookup name body ≡ some (Value.text password)) × (8 ≤ count password) × (count password ≤ 128)

-- The body has both passwords.
abbrev pub HasPasswords : Body → String → String → Type 0
HasPasswords body current new =
    IsPasswordField body "current_password" current × IsPasswordField body "new_password" new

password_of-text :
    (o : Option Value) (password : String)
    → (o >>= password_of ≡ some password)
      ↔ ((o ≡ some (Value.text password)) × (8 ≤ count password) × (count password ≤ 128))
password_of-text none password = (λ e. ground (arith, e), λ h. ground (arith, h.0))
password_of-text (some (Value.text s)) password =
    (λ e. (ground (arith, e), ground (arith, e), ground (arith, e)), λ h. ground (arith, h))
password_of-text (some Value.null) password = (λ e. ground (arith, e), λ h. ground (arith, h.0))
password_of-text (some (Value.flag b)) password = (λ e. ground (arith, e), λ h. ground (arith, h.0))
password_of-text (some (Value.other s)) password =
    (λ e. ground (arith, e), λ h. ground (arith, h.0))

parse-HasPasswords :
    (body : Body) (r : ChangePasswordRequest)
    → (change_password_request body ≡ some r) ↔ HasPasswords body r.current_password r.new_password
parse-HasPasswords body r =
    let old = password_of-text (lookup "current_password" body) in
    let new = password_of-text (lookup "new_password" body) in
    (
      λ e. elim (Option-cases (required password_of "current_password" body)) [
        | inl missing ↦ absurd (ground (arith, rw missing at e))
        | inr (c, current) ↦ elim (Option-cases (required password_of "new_password" body)) [
          | inl missing ↦ absurd (ground (arith, rw (current, missing) at e))
          | inr (n, next) ↦
              let same = rw (current, next) at e in
              let c_same : c ≡ r.current_password = cc in
              let n_same : n ≡ r.new_password = cc in
              (
                (old r.current_password).0 (current ∙ ap some c_same),
                (new r.new_password).0 (next ∙ ap some n_same),
              )
        ]
      ],
      λ h. rw ((old r.current_password).1 h.0, (new r.new_password).1 h.1) refl,
    )

module _ (p : Pydantic) (env : Env) (cred : Option String) (body : Body) (client : Client)
    (server : Server) where
  abbrev response : Result (Unit {0}) × Server
  response = respond p env (Request.change_password_me cred body client) server

  -- A request to change a password ends in one of three ways. The caller is not let in: then the
  -- answer is the error of the check. The caller is let in, and the body does not have two
  -- passwords of 8 to 128 characters: then the answer is 422. In both cases no table changes, the
  -- request does not count against a rate limit, and no mail is sent. Else the body has such
  -- passwords, and the answer is that of the endpoint for them.
  pub change_password_me-checked :
      ((e : Error) × ((get_current_user env cred server.db).0 ≡ err e)
        × (response.0 ≡ err e)
        × IsUntouched server response.1)
      ⊎ ((u : User) × ((get_current_user env cred server.db).0 ≡ ok u)
          × ((current new : String) → HasPasswords body current new → ⊥)
          × (response.0 ≡ err (http_exception 422 "Unprocessable Entity"))
          × IsUntouched server response.1)
      ⊎ ((u : User) × ((get_current_user env cred server.db).0 ≡ ok u)
          × (current : String) × (new : String) × HasPasswords body current new
          × (response ≡ answer env (Call.change_password_me cred current new client) server))
  unfolding respond parse guard serve in_session handler Profile.change_password_me
      aiops_aws.Outcome.◌>>=◌
  change_password_me-checked = elim (Result-cases (get_current_user env cred server.db).0) [
    | inr (e, refused) ↦ elim (Option-cases (change_password_request body)) [
      | inl bad ↦ inl (e, refused, rw (bad, refused) refl, rw (bad, refused) (ground arith))
      | inr (r, good) ↦ inl (e, refused, rw (good, refused) refl, rw (good, refused) (ground arith))
    ]
    | inl (u, accepted) ↦ elim (Option-cases (change_password_request body)) [
      | inl bad ↦ inr (
          inl (
            u,
            accepted,
            λ current new h.
                let e =
                  (parse-HasPasswords body
                      (record { current_password = current; new_password = new })).1
                    h in
                ground (arith, bad, e),
            rw (bad, accepted) refl,
            rw (bad, accepted) (ground arith),
          ))
      | inr (r, good) ↦ inr (
          inr (
            u,
            accepted,
            r.current_password,
            r.new_password,
            (parse-HasPasswords body r).0 good,
            rw good refl,
          ))
    ]
  ]
