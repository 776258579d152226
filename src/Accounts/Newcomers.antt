-- ===== src/Accounts/Newcomers.antt =====
-- backend/api/auth.py: the account that a request to register adds, if it adds one.
use aiops_aws.Prelude.{
  ℕ, ◌+◌, ◌-◌, ◌≤◌, ◌<◌, ◌≡◌, refl, String, ◌⊎◌, inl, inr, Bool-cases, [], Answer, answer, length,
  leb, lower, arith,
}
use aiops_aws.Outcome.{◌>>=◌}
use aiops_aws.Models.{User}
use aiops_aws.Database.Table.{select, flush, insert}
use aiops_aws.Database.Rows.{IsClean, flush-clean, flush-IsClean}
use aiops_aws.Database.Session.{Calls, Session}
use aiops_aws.Security.{Env}
use aiops_aws.RateLimiter.{max_requests_per_window, window, evict, assert_not_rate_limited}
use aiops_aws.Auth.{Client}
use aiops_aws.Auth.Accounts.{has_email, register_user}
use aiops_aws.Auth.Registration.{registered}
use aiops_aws.Api.{Server, limit_key, serve}
use aiops_aws.Api.Auth
use aiops_aws.Api.Endpoints.{Call, handler}
use aiops_aws.Api.Endpoints

-- A new account, which no account had the address of.
pub record Adds (env : Env) (email : String) (s s' : Session) : Type 0 where
  pub user : User
  pub made_at : ℕ
  pub from : s.step ≤ made_at
  pub before : made_at < s'.step
  pub id : user.id ≡ env.uuid made_at
  pub address : user.email ≡ lower email
  pub unknown : select (has_email email) s.users ≡ []
  pub users : s'.users ≡ flush (insert user s.users)

module _ (env : Env) (email password : String) (client : Client) (server : Server) where
  -- the request's session after the check of the rate limit
  abbrev pub begun : Session
  begun = record server.db { step = server.db.step + 1 }

  pub registers :
      IsClean server.db.users
      → ((Endpoints.answer env (Call.register email password client) server).1.db.users
          ≡ server.db.users)
        ⊎ Adds env email server.db
            (Endpoints.answer env (Call.register email password client) server).1.db
  unfolding ◌>>=◌ serve handler Auth.register register_user assert_not_rate_limited Calls
  registers c =
      elim (Bool-cases (
        leb max_requests_per_window (
          length (
            evict (env.clock server.db.step - window)
              (server.requests (limit_key "register" client email)))))) [
                | inl full ↦ inl (ground arith)
                | inr free ↦ elim (answer (select (has_email email) server.db.users)) [
                  | Answer.absent a ↦ inr (record {
                    user = registered env email password begun;
                    made_at = server.db.step + 1 + 1;
                    from = omega arith;
                    before = ground arith;
                    id = refl;
                    address = refl;
                    unknown = a;
                    users = ground (
                      arith,
                      flush-clean _ (
                          flush-IsClean
                            (insert (registered env email password begun) server.db.users)),
                    );
                  })
                  | Answer.single u one ↦ inl (ground arith)
                  | Answer.several u v r more ↦ inl (ground arith)
                ]
              ]
