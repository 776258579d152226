-- ===== src/Accounts/UsedOnce.antt =====
-- backend/api/auth.py: a token from a mail that has done its work, whatever is asked of the server
-- afterwards.
use aiops_aws.Prelude.{ℕ, ◌≤◌, ◌≡◌, ◌≢◌, refl, String, false, List, Answer, answer, ◌==◌, arith}
use aiops_aws.Outcome.{ok, err, http_exception}
use aiops_aws.Models.{User}
use aiops_aws.Database.Table.{select}
use aiops_aws.Database.Rows.{IsClean, flush-IsClean}
use aiops_aws.Database.AllRows.{Fails, All-always, Fails-select, select-none-Fails}
use aiops_aws.Database.Session.{Session, Calls}
use aiops_aws.Security.{Env, Laws, hash_token}
use aiops_aws.Schemas.{Pydantic}
use aiops_aws.Auth.{Client}
use aiops_aws.Auth.Tokens.{
  is_email_token, is_reset_token, confirm_email_verification, confirm_password_reset,
}
use aiops_aws.Auth.SingleUse.{email_used, reset_used}
use aiops_aws.Api.{Server, serve}
use aiops_aws.Api.Auth
use aiops_aws.Api.Endpoints.{Call, handler}
use aiops_aws.Api.Endpoints
use aiops_aws.Api.Requests.{Request, respond_all}
use aiops_aws.Accounts.Spent.{Unusable}
use aiops_aws.Accounts.Unusable.{
  respond_all-Unusable, email_test, reset_test, email-Spends, reset-Spends,
}

-- the database after a reset of a password that succeeds
password_reset_confirm-Unusable :
    (env : Env) (laws : Laws env) (token password : String) (client : Client) (server : Server)
    → IsClean server.db.reset_tokens
    → (Endpoints.answer env (Call.password_reset_confirm token password client) server).0 ≡ ok tt
    → Unusable
        (reset_test env token (env.clock server.db.step))
        server.db.step
        (Endpoints.answer env (Call.password_reset_confirm token password client) server).1.db
unfolding Auth.password_reset_confirm confirm_password_reset handler serve Calls
password_reset_confirm-Unusable env laws token password client server clean done =
    let s : Session = server.db in
    elim (answer
      (select (is_reset_token (hash_token env token) (env.clock s.step)) s.reset_tokens)) [
        | Answer.absent a ↦ ground arith
        | Answer.several a b r m ↦ ground arith
        | Answer.single t one ↦ elim (answer (select (λ (u : User). u.id == t.user_id) s.users)) [
          | Answer.absent a ↦ ground arith
          | Answer.several a b r m ↦ ground arith
          | Answer.single u owner ↦
              rw (one, owner)
                (record {
                  no_refresh = All-always (Fails (λ t. false)) _ (λ x. refl);
                  no_email = All-always (Fails (λ t. false)) _ (λ x. refl);
                  no_reset =
                      select-none-Fails (is_reset_token (hash_token env token) (env.clock s.step)) _
                        (flush-IsClean _)
                        (reset_used env laws token client client s s t clean (omega arith) one);
                  later = omega arith;
                })
        ]
      ]

-- the database after a verification of an address that succeeds
verify_email_confirm-Unusable :
    (env : Env) (laws : Laws env) (token : String) (client : Client) (server : Server)
    → IsClean server.db.email_tokens
    → (Endpoints.answer env (Call.verify_email_confirm token client) server).0 ≡ ok tt
    → Unusable
        (email_test env token (env.clock server.db.step))
        server.db.step
        (Endpoints.answer env (Call.verify_email_confirm token client) server).1.db
unfolding Auth.verify_email_confirm confirm_email_verification handler serve Calls
verify_email_confirm-Unusable env laws token client server clean done =
    let s : Session = server.db in
    elim (answer
      (select (is_email_token (hash_token env token) (env.clock s.step)) s.email_tokens)) [
        | Answer.absent a ↦ ground arith
        | Answer.several a b r m ↦ ground arith
        | Answer.single t one ↦ elim (answer (select (λ (u : User). u.id == t.user_id) s.users)) [
          | Answer.absent a ↦ ground arith
          | Answer.several a b r m ↦ ground arith
          | Answer.single u owner ↦
              rw (one, owner)
                (record {
                  no_refresh = All-always (Fails (λ t. false)) _ (λ x. refl);
                  no_email =
                      select-none-Fails (is_email_token (hash_token env token) (env.clock s.step)) _
                        (flush-IsClean _)
                        (email_used env laws token client client s s t clean (omega arith) one);
                  no_reset = All-always (Fails (λ t. false)) _ (λ x. refl);
                  later = omega arith;
                })
        ]
      ]

module _ (env : Env) (laws : Laws env) (token : String) (n : ℕ) where
  password_reset_confirm_refused :
      (password : String) (client : Client) (server : Server)
      → Unusable (reset_test env token (env.clock n)) n server.db
      → (Endpoints.answer env (Call.password_reset_confirm token password client) server).0
        ≡ err (http_exception 400 "Invalid or expired token")
  unfolding Auth.password_reset_confirm confirm_password_reset handler serve Calls
  password_reset_confirm_refused password client server h =
      rw
        (Fails-select (is_reset_token (hash_token env token) (env.clock n))
          (is_reset_token (hash_token env token) (env.clock server.db.step)) server.db.reset_tokens
          (λ t f. ground (arith, laws.clock_mono n server.db.step h.later)) h.no_reset)
        refl

  verify_email_confirm_refused :
      (client : Client) (server : Server)
      → Unusable (email_test env token (env.clock n)) n server.db
      → (Endpoints.answer env (Call.verify_email_confirm token client) server).0
        ≡ err (http_exception 400 "Invalid or expired token")
  unfolding Auth.verify_email_confirm confirm_email_verification handler serve Calls
  verify_email_confirm_refused client server h =
      rw
        (Fails-select (is_email_token (hash_token env token) (env.clock n))
          (is_email_token (hash_token env token) (env.clock server.db.step)) server.db.email_tokens
          (λ t f. ground (arith, laws.clock_mono n server.db.step h.later)) h.no_email)
        refl

module _ (pydantic : Pydantic) (env : Env) (laws : Laws env) (token : String)
    (client client' : Client) (requests : List Request) (server : Server)
    (fresh : (k : ℕ)
      → server.db.step ≤ k
      → hash_token env (env.token_urlsafe k) ≢ hash_token env token) where
  -- Once the endpoint has set a password for a reset token, it answers 400 to the token for ever,
  -- whatever requests come in between and whatever the new password is. When the first call came,
  -- no reset token waited to be flushed; no token made since has the hash of this one.
  pub password_reset_confirm_once :
      (password password' : String)
      → IsClean server.db.reset_tokens
      → (Endpoints.answer env (Call.password_reset_confirm token password client) server).0 ≡ ok tt
      → (Endpoints.answer env (Call.password_reset_confirm token password' client') (
          respond_all pydantic env requests
            (Endpoints.answer env (Call.password_reset_confirm token password client) server).1)).0
        ≡ err (http_exception 400 "Invalid or expired token")
  password_reset_confirm_once password password' clean done =
      password_reset_confirm_refused env laws token server.db.step password' client' _ (
        respond_all-Unusable pydantic env _ server.db.step
          (reset-Spends env token server.db.step fresh (env.clock server.db.step)) requests _
          (password_reset_confirm-Unusable env laws token password client server clean done))

  -- Once the endpoint has verified an address for a token, it answers 400 to the token for ever,
  -- whatever requests come in between. When the first call came, no verification token waited to
  -- be flushed; no token made since has the hash of this one.
  pub verify_email_confirm_once :
      IsClean server.db.email_tokens
      → (Endpoints.answer env (Call.verify_email_confirm token client) server).0 ≡ ok tt
      → (Endpoints.answer env (Call.verify_email_confirm token client') (
          respond_all pydantic env requests
            (Endpoints.answer env (Call.verify_email_confirm token client) server).1)).0
        ≡ err (http_exception 400 "Invalid or expired token")
  verify_email_confirm_once clean done =
      verify_email_confirm_refused env laws token server.db.step client' _ (
        respond_all-Unusable pydantic env _ server.db.step
          (email-Spends env token server.db.step fresh (env.clock server.db.step)) requests _
          (verify_email_confirm-Unusable env laws token client server clean done))
