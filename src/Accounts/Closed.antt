-- ===== src/Accounts/Closed.antt =====
-- backend/api/auth.py: a refresh token that was exchanged or logged out, whatever is asked of the
-- server afterwards.
use aiops_aws.Prelude.{
  ℕ, ◌+◌, ◌≤◌, ◌≡◌, refl, subst, String, false, Option-cases, some, List, [], inl, inr, arith,
}
use aiops_aws.Outcome.{Result-cases, ok}
use aiops_aws.Database.Table.{select}
use aiops_aws.Database.Rows.{IsClean, flush-IsClean}
use aiops_aws.Database.AllRows.{Fails, All-always, Fails-select, select-none-Fails}
use aiops_aws.Database.Session.{Session, Calls}
use aiops_aws.Security.{Env, Payload, Laws, matches, decode_refresh_token}
use aiops_aws.Schemas.{Pydantic}
use aiops_aws.Auth.{Client}
use aiops_aws.Auth.Sessions.{is_presented, refresh_tokens, refresh_decoded, logout}
use aiops_aws.Auth.Logout.{logged_out}
use aiops_aws.Auth.Rotation.{IsUnauthorized, decoded, decoded-select, absent-IsUnauthorized}
use aiops_aws.Api.{Server, serve}
use aiops_aws.Api.Auth
use aiops_aws.Api.Endpoints.{Call, handler, answer}
use aiops_aws.Api.Growth.{answer-Grows}
use aiops_aws.Api.Requests.{Request, respond_all}
use aiops_aws.Accounts.Spent.{Unusable}
use aiops_aws.Accounts.Unusable.{respond_all-Unusable, refresh_test, refresh-Spends}

module _ (env : Env) (laws : Laws env) (token : String) (client : Client) (server : Server)
    (p : Payload) (first : decoded env token server.db ≡ some p) where
  exchanged :
      (clean : IsClean server.db.refresh_tokens)
      → ((k : ℕ) → server.db.step ≤ k → matches p.jti (env.uuid_text (env.uuid k)) ≡ false)
      → (answer env (Call.refresh token client) server).0 ≡ ok tt
      → Unusable
          (refresh_test env token p (env.clock (server.db.step + 1)))
          server.db.step
          (answer env (Call.refresh token client) server).1.db
  unfolding Auth.refresh refresh_tokens handler serve Calls
  exchanged clean fresh done =
      let s : Session = server.db in
      let grows = answer-Grows env (Call.refresh token client) server in
      elim (Result-cases
        (refresh_decoded env token client (some p) (record s { step = s.step + 1 })).0) [
          | inr (e, failed) ↦ absurd (ground (arith, rw (first, failed) at done))
          | inl (r, good) ↦
              rw (first, good)
                (record {
                  no_refresh =
                      select-none-Fails (is_presented env token p (env.clock (s.step + 1))) _
                        (flush-IsClean _)
                        (decoded-select env token client p (record s { step = s.step + 1 })
                          (env.clock (s.step + 1)) clean (laws.clock_mono _ _ (omega arith))
                          (λ k le. fresh k (omega arith)) good);
                  no_email = All-always (Fails (λ t. false)) _ (λ x. refl);
                  no_reset = All-always (Fails (λ t. false)) _ (λ x. refl);
                  later = rw (first, good) at grows.step;
                })
        ]

  left :
      IsClean server.db.refresh_tokens
      → (answer env (Call.logout_user token client) server).0 ≡ ok tt
      → Unusable
          (refresh_test env token p (env.clock (server.db.step + 1)))
          server.db.step
          (answer env (Call.logout_user token client) server).1.db
  unfolding Auth.logout_user handler serve Calls
  left clean done =
      let s : Session = server.db in
      let grows = answer-Grows env (Call.logout_user token client) server in
      elim (Result-cases (logout env token client s).0) [
        | inr (e, failed) ↦ absurd (ground (arith, rw failed at done))
        | inl (r, good) ↦ rw good (record {
          no_refresh =
              select-none-Fails (is_presented env token p (env.clock (s.step + 1))) _
                (flush-IsClean _)
                (logged_out env laws token client client s s p clean (rw first refl) good);
          no_email = All-always (Fails (λ t. false)) _ (λ x. refl);
          no_reset = All-always (Fails (λ t. false)) _ (λ x. refl);
          later = rw good at grows.step;
        })
      ]

refused :
    (env : Env) (laws : Laws env) (token : String) (client : Client) (server : Server) (p : Payload)
    (m n : ℕ)
    → env.jwt_decode m token env.settings.jwt_refresh_secret env.settings.jwt_audience
        env.settings.jwt_issuer
      ≡ some p
    → Unusable (refresh_test env token p (env.clock (n + 1))) n server.db
    → IsUnauthorized (answer env (Call.refresh token client) server).0
unfolding Auth.refresh refresh_tokens handler serve Calls
refused env laws token client server p m n first h =
    let s : Session = record server.db { step = server.db.step + 1 } in
    elim (Option-cases (decoded env token server.db)) [
      | inl expired ↦ rw expired refl
      | inr (p', second) ↦
          let no = absent-IsUnauthorized env token client p' s (
            subst (λ x. select (is_presented env token x (env.clock s.step)) s.refresh_tokens ≡ [])
              (laws.jwt_same m (env.clock server.db.step) token _ _ _ p p' first second)
              (Fails-select (is_presented env token p (env.clock (n + 1)))
                (is_presented env token p (env.clock s.step)) s.refresh_tokens
                (λ t f. ground (arith, laws.clock_mono (n + 1) s.step (omega (arith, h.later))))
                h.no_refresh)) in
          elim (Result-cases (refresh_decoded env token client (some p') s).0) [
            | inl (r, good) ↦ absurd (rw good at no)
            | inr (e, failed) ↦ rw (second, failed) (rw failed at no)
          ]
    ]

module _ (pydantic : Pydantic) (env : Env) (laws : Laws env) (token : String)
    (client client' : Client) (requests : List Request) (server : Server) where
  -- Once the endpoint has exchanged a refresh token for new ones, it answers 401 to the token for
  -- ever, whatever requests come in between. When the first call came, no refresh token waited to
  -- be flushed; no id made since is that of the token.
  pub refresh_once :
      IsClean server.db.refresh_tokens
      → ((p : Payload) (k : ℕ)
          → (decode_refresh_token env token server.db).0 ≡ ok (some p)
          → server.db.step ≤ k
          → matches p.jti (env.uuid_text (env.uuid k)) ≡ false)
      → (answer env (Call.refresh token client) server).0 ≡ ok tt
      → IsUnauthorized
          (answer env
            (Call.refresh token client')
            (respond_all pydantic env requests (answer env (Call.refresh token client) server).1)).0
  unfolding Auth.refresh refresh_tokens handler serve Calls
  refresh_once clean fresh done = elim (Option-cases (decoded env token server.db)) [
    | inl expired ↦ absurd (ground (arith, rw expired at done))
    | inr (p, first) ↦
        let new : (k : ℕ)
            → server.db.step ≤ k
            → matches p.jti (env.uuid_text (env.uuid k)) ≡ false =
          λ k le. fresh p k (rw first refl) le in
        refused env laws token client' _ p (env.clock server.db.step) server.db.step first (
          respond_all-Unusable pydantic env _ server.db.step
            (refresh-Spends env token p server.db.step new (env.clock (server.db.step + 1)))
            requests _ (exchanged env laws token client server p first clean new done))
  ]

  -- Once the endpoint has logged out a refresh token that could be decoded, the exchange of the
  -- token is answered by 401 for ever, whatever requests come in between. When the call came, no
  -- refresh token waited to be flushed; no id made since is that of the token.
  pub logout_user_closes :
      (p : Payload)
      → IsClean server.db.refresh_tokens
      → (decode_refresh_token env token server.db).0 ≡ ok (some p)
      → ((k : ℕ) → server.db.step ≤ k → matches p.jti (env.uuid_text (env.uuid k)) ≡ false)
      → (answer env (Call.logout_user token client) server).0 ≡ ok tt
      → IsUnauthorized
          (answer env (Call.refresh token client') (
            respond_all pydantic env requests
              (answer env (Call.logout_user token client) server).1)).0
  unfolding Calls
  logout_user_closes p clean read fresh done =
      let first : decoded env token server.db ≡ some p = ground (arith, read) in
      refused env laws token client' _ p (env.clock server.db.step) server.db.step first (
        respond_all-Unusable pydantic env _ server.db.step
          (refresh-Spends env token p server.db.step fresh (env.clock (server.db.step + 1)))
          requests _ (left env laws token client server p first clean done))
