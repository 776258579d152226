-- ===== src/Api/Lockout.antt =====
-- backend/api/auth.py: wrong passwords at the login endpoint, request after request.
use aiops_aws.Prelude.{String, ◌≡◌, ◌≢◌, ◌⊎◌, inl, inr, false, List, [], ◌∷◌, map, All, arith}
use aiops_aws.Outcome.{ok}
use aiops_aws.Models.{User}
use aiops_aws.Database.Table.{select}
use aiops_aws.Database.Session.{Calls}
use aiops_aws.Security.{Env, verify_password}
use aiops_aws.Auth.{Client}
use aiops_aws.Auth.Accounts.{has_email, authenticate_user}
use aiops_aws.Auth.Sessions.{login}
use aiops_aws.Api.{Server, serve}
use aiops_aws.Api.Auth
use aiops_aws.Api.Endpoints.{Call, handler, answer, serve_all}
use aiops_aws.Api.Atomicity.{SameData, MailFailed, answer-SameData, SameData-refl, SameData-trans}

-- an attempt to sign in: a password, and where it comes from
abbrev pub Attempt : Type 0
Attempt = String × Client

abbrev pub login_call : String → Attempt → Call
login_call email (password, client) = Call.login_user email password client

abbrev pub IsWrong : Env → User → Attempt → Type 0
IsWrong env u (password, client) = verify_password env password u.password_hash ≡ false

login_wrong :
    (env : Env) (email : String) (attempt : Attempt) (server : Server) (u : User)
    → select (has_email email) server.db.users ≡ u ∷ []
    → IsWrong env u attempt
    → (answer env (login_call email attempt) server).0 ≢ ok tt
unfolding Calls handler serve Auth.login_user login authenticate_user
login_wrong env email attempt server u one wrong = ground arith

module _ (env : Env) (email : String) (u : User) where
  -- no mail is sent
  login_call-SameData :
      (a : Attempt) (server : Server)
      → SameData (answer env (login_call email a) server).1.db server.db
        ⊎ MailFailed env (login_call email a) (answer env (login_call email a) server).0
      → SameData (answer env (login_call email a) server).1.db server.db
  login_call-SameData a server (inl same) = same
  login_call-SameData a server (inr failed) = absurd (ground (arith, failed.sends))

  -- However often wrong passwords for an account, the only one with its address, are sent to the
  -- login endpoint, no table of the database changes: no failure is counted, no lock is set, and
  -- no entry of the log is kept.
  pub login_failures_forgotten :
      (attempts : List Attempt) (server : Server)
      → select (has_email email) server.db.users ≡ u ∷ []
      → All (IsWrong env u) attempts
      → SameData (serve_all env (map (login_call email) attempts) server).db server.db
  unfolding serve_all
  login_failures_forgotten [] server one wrong = SameData-refl server.db
  login_failures_forgotten (a ∷ attempts) server one wrong =
      let same : SameData (answer env (login_call email a) server).1.db server.db =
        login_call-SameData a server (
          answer-SameData env (login_call email a) server
            (login_wrong env email a server u one wrong.0)) in
      SameData-trans
        (login_failures_forgotten attempts (answer env (login_call email a) server).1
          (rw same.users one) wrong.1)
        same
