-- ===== src/Accounts/Unusable.antt =====
-- backend/api/: tokens that can no longer be used stay so, whatever is asked of the server.
use aiops_aws.Prelude.{
  ℕ, ◌≤◌, ◌≡◌, ◌≢◌, refl, String, false, Option, none, some, List, [], ◌∷◌, inl, inr, Bool-cases,
  str_eq, eq_iff, arith,
}
use aiops_aws.Outcome.Yields.{OnSome}
use aiops_aws.Security.{Env, Payload, hash_token, matches}
use aiops_aws.Schemas.{Pydantic}
use aiops_aws.Auth.Sessions.{is_presented}
use aiops_aws.Auth.Tokens.{is_email_token, is_reset_token}
use aiops_aws.Api.{Server}
use aiops_aws.Api.Endpoints.{Call}
use aiops_aws.Api.Requests.{Request, parse, respond, respond_to, respond_all}
use aiops_aws.Accounts.Accepted.{parse-OnSome}
use aiops_aws.Accounts.Served.{Admits}
use aiops_aws.Accounts.Answered.{respond_to-invariant}
use aiops_aws.Accounts.Spent.{
  Tests, Spends, Unusable, Unusable-Carries, Unusable-TakesStep, Kept-always,
}
use aiops_aws.Accounts.MailTokens.{
  issue_tokens-Unusable, register_user-Unusable, request_email_verification-Unusable,
  request_password_reset-Unusable,
}

module _ (pydantic : Pydantic) (env : Env) (q : Tests) (n : ℕ) (p : Spends env q n) where
  admits : (o : Option Call) → OnSome (Admits (Unusable q n) env) o
  admits none = tt
  admits (some (Call.register address password client)) =
      register_user-Unusable q n env p address password client
  admits (some (Call.login_user address password client)) = issue_tokens-Unusable q n env p
  admits (some (Call.refresh token client)) = issue_tokens-Unusable q n env p
  admits (some (Call.verify_email_request address client)) =
      request_email_verification-Unusable q n env p address client
  admits (some (Call.password_reset_request address client)) =
      request_password_reset-Unusable q n env p address client
  admits (some _) = tt

  pub respond_all-Unusable :
      (requests : List Request) (server : Server)
      → Unusable q n server.db
      → Unusable q n (respond_all pydantic env requests server).db
  unfolding respond respond_all
  respond_all-Unusable [] server h = h
  respond_all-Unusable (r ∷ requests) server h =
      respond_all-Unusable requests (respond_to env r (parse pydantic r) server).1 (
        respond_to-invariant (Unusable-Carries q n env p) env (Kept-always env)
          (Unusable-TakesStep q n) pydantic r (parse pydantic r) server (parse-OnSome pydantic r)
          (admits (parse pydantic r)) h)

-- the tests that a token which is presented has to pass, at a time
abbrev pub refresh_test : Env → String → Payload → ℕ → Tests
refresh_test env token p time = record {
  refresh = is_presented env token p time;
  email = λ t. false;
  reset = λ t. false;
}

abbrev pub email_test : Env → String → ℕ → Tests
email_test env token time = record {
  refresh = λ t. false;
  email = is_email_token (hash_token env token) time;
  reset = λ t. false;
}

abbrev pub reset_test : Env → String → ℕ → Tests
reset_test env token time = record {
  refresh = λ t. false;
  email = λ t. false;
  reset = is_reset_token (hash_token env token) time;
}

pub refresh-Spends :
    (env : Env) (token : String) (p : Payload) (n : ℕ)
    → ((k : ℕ) → n ≤ k → matches p.jti (env.uuid_text (env.uuid k)) ≡ false)
    → (time : ℕ) → Spends env (refresh_test env token p time) n
refresh-Spends env token p n fresh time = record {
  revoked = λ t now. ground arith;
  used_email = λ t now. refl;
  used_reset = λ t now. refl;
  new_refresh = λ t k le e. rw (e, fresh k le) refl;
  new_email = λ t k le e. refl;
  new_reset = λ t k le e. refl;
}

module _ (env : Env) (token : String) (n : ℕ)
    (fresh : (k : ℕ) → n ≤ k → hash_token env (env.token_urlsafe k) ≢ hash_token env token) where
  other :
      (h : String) (k : ℕ)
      → n ≤ k
      → h ≡ hash_token env (env.token_urlsafe k)
      → str_eq h (hash_token env token) ≡ false
  other h k le e = elim (Bool-cases (str_eq h (hash_token env token))) [
    | inl same ↦ absurd (fresh k le (rw e at ((eq_iff h (hash_token env token)).0 same)))
    | inr different ↦ different
  ]

  pub email-Spends : (time : ℕ) → Spends env (email_test env token time) n
  email-Spends time = record {
    revoked = λ t now. refl;
    used_email = λ t now. ground arith;
    used_reset = λ t now. refl;
    new_refresh = λ t k le e. refl;
    new_email = λ t k le e. rw (other t.token_hash k le e) refl;
    new_reset = λ t k le e. refl;
  }

  pub reset-Spends : (time : ℕ) → Spends env (reset_test env token time) n
  reset-Spends time = record {
    revoked = λ t now. refl;
    used_email = λ t now. refl;
    used_reset = λ t now. ground arith;
    new_refresh = λ t k le e. refl;
    new_email = λ t k le e. refl;
    new_reset = λ t k le e. rw (other t.token_hash k le e) refl;
  }
