-- ===== src/Accounts/Answered.antt =====
-- backend/api/: the accounts after any requests.
use aiops_aws.Prelude.{Option, none, some, List, [], ◌∷◌}
use aiops_aws.Outcome.Preserves.{Preserves, preserves_rules}
use aiops_aws.Outcome.Yields.{OnSome}
use aiops_aws.Auth.{Client}
use aiops_aws.Auth.Sessions.{issue_tokens}
use aiops_aws.Auth.Benign.{
  issue_tokens-Preserves, request_email_verification-Preserves, request_password_reset-Preserves,
}
use aiops_aws.Database.Accounts.{
  AllUsers, AllUsers-Benign, AllUsers-adds_refresh, AllUsers-adds_email, AllUsers-adds_reset,
  Carries, AllUsers-Carries,
}
use aiops_aws.Security.{Env}
use aiops_aws.Schemas.{Pydantic}
use aiops_aws.Api.{Running, Handler, Server, serve}
use aiops_aws.Api.Endpoints.{Call, handler}
use aiops_aws.Api.Requests.{Request, parse, guard, respond, respond_to, respond_all}
use aiops_aws.Models.{User}
use aiops_aws.Database.Session.{Session}
use aiops_aws.Accounts.{Kept, WellFormed, WellFormed-Kept}
use aiops_aws.Accounts.Registered.{register_user-Yields}
use aiops_aws.Accounts.Accepted.{IsAccepted, parse-OnSome}
use aiops_aws.Accounts.Served.{Both, Admits, served_rules, handler-Preserves}

-- The invariant survives the count of clock readings that a request leaves.
abbrev pub TakesStep : (Session → Type 0) → Type 0
TakesStep P = (s t : Session) → P s → P t → P (record s { step = t.step })

module _ {P : Session → Type 0} {F : User → Type 0} (c : Carries P F) (env : Env) (k : Kept env F)
    (takes : TakesStep P) where
  guard-Preserves : (r : Request) → Preserves (Both P) (guard env r)
  unfolding guard
  guard-Preserves (Request.get_me cred) = search (served_rules, c.benign) depth 20
  guard-Preserves _ = search (served_rules) depth 20

  serve-invariant :
      (h : Handler (Unit {0})) (server : Server)
      → Preserves (Both P) h
      → P server.db
      → P (serve h server).1.db
  unfolding serve
  serve-invariant h server p a =
      let q : Running = record { server = server; session = server.db } in
      let b = p.after q (record { stored = a; own = a }) in takes _ _ b.stored b.own

  -- what a request that pydantic accepts, or does not, leaves
  pub respond_to-invariant :
      (pydantic : Pydantic) (r : Request) (o : Option Call) (server : Server)
      → OnSome (IsAccepted pydantic) o
      → OnSome (Admits P env) o
      → P server.db
      → P (respond_to env r o server).1.db
  respond_to-invariant pydantic r (some call) server h g a =
      serve-invariant (handler env call) server (handler-Preserves c env k pydantic call h g) a
  respond_to-invariant pydantic r none server h g a =
      serve-invariant _ server (search (guard-Preserves, preserves_rules)) a

module _ (pydantic : Pydantic) (env : Env) where
  issued :
      (u : User) (client : Client)
      → Preserves (AllUsers (WellFormed pydantic env)) (issue_tokens env u client)
  issued =
      issue_tokens-Preserves env (AllUsers-Benign (WellFormed pydantic env))
        (AllUsers-adds_refresh (WellFormed pydantic env))

  admits :
      (o : Option Call)
      → OnSome (IsAccepted pydantic) o
      → OnSome (Admits (AllUsers (WellFormed pydantic env)) env) o
  admits none h = tt
  admits (some (Call.register email password client)) h =
      (register_user-Yields pydantic env email password client h.0 h.1).keeps
  admits (some (Call.login_user email password client)) h = issued
  admits (some (Call.refresh token client)) h = issued
  admits (some (Call.verify_email_request email client)) h =
      request_email_verification-Preserves env (AllUsers-Benign (WellFormed pydantic env))
        (AllUsers-adds_email (WellFormed pydantic env)) email client
  admits (some (Call.password_reset_request email client)) h =
      request_password_reset-Preserves env (AllUsers-Benign (WellFormed pydantic env))
        (AllUsers-adds_reset (WellFormed pydantic env)) email client
  admits (some _) h = tt

  respond-WellFormed :
      (r : Request) (server : Server)
      → AllUsers (WellFormed pydantic env) server.db
      → AllUsers (WellFormed pydantic env) (respond pydantic env r server).1.db
  unfolding respond
  respond-WellFormed r server a =
      let o = parse-OnSome pydantic r in
      respond_to-invariant (AllUsers-Carries _) env WellFormed-Kept (λ s t h i. h) pydantic r
        (parse pydantic r) server o (admits (parse pydantic r) o) a

  -- Whatever requests come, with whatever bodies, in whatever order: the accounts of the database
  -- stay well formed. Every password hash is the digest of a password of 8 to 128 characters, every
  -- address is one that pydantic accepts, in lower case, every name has at most 120 characters, the
  -- count of failures is below the threshold, and an account is active just if it has no time of
  -- deactivation.
  pub respond_all-WellFormed :
      (requests : List Request) (server : Server)
      → AllUsers (WellFormed pydantic env) server.db
      → AllUsers (WellFormed pydantic env) (respond_all pydantic env requests server).db
  unfolding respond_all
  respond_all-WellFormed [] server a = a
  respond_all-WellFormed (r ∷ requests) server a =
      respond_all-WellFormed requests (respond pydantic env r server).1
        (respond-WellFormed r server a)
