-- ===== src/Api/Access.antt =====
-- backend/api/dependencies.py: who gets past `get_current_user` and `require_role`.
use aiops_aws.Prelude.{
  ℕ, ◌+◌, ◌≤◌, ◌<◌, String, ◌≡◌, refl, ◌↔◌, inl, inr, true, some, Option-cases, [], ◌∷◌, arith,
  ◌==◌, eq_refl, Answer, answer,
}
use aiops_aws.Outcome.{◌>>=◌, ok}
use aiops_aws.Models.{User, UserRole, role_eq, role_value}
use aiops_aws.Database.Table.{select}
use aiops_aws.Database.Session.{Session, Calls}
use aiops_aws.Security.{Env, Payload, Laws, seconds, matches, parse_uuid, decode_access_token}
use aiops_aws.Auth.{Client}
use aiops_aws.Auth.Sessions.{AuthTokens, issue_tokens}
use aiops_aws.Api.Dependencies.{get_current_user, require_role}

-- What a caller has shown who was let in: an access token whose subject is the id of an account
-- that is active.
pub record HasAccess (env : Env) (token : String) (s : Session) (u : User) : Type 0 where
  pub payload : Payload
  pub user_id : ℕ
  pub decodes : (decode_access_token env token s).0 ≡ ok (some payload)
  pub is_access : matches payload.type "access" ≡ true
  pub subject : parse_uuid env payload.sub ≡ some user_id
  pub account : select (λ u. u.id == user_id) s.users ≡ u ∷ []
  pub active : u.is_active ≡ true

let_in-HasAccess :
    (env : Env) (token : String) (s : Session) (u : User)
    → (get_current_user env (some token) s).0 ≡ ok u
    → HasAccess env token s u
unfolding get_current_user Calls
let_in-HasAccess env token s u e =
    elim (Option-cases (
      env.jwt_decode (env.clock s.step) token env.settings.jwt_access_secret
        env.settings.jwt_audience env.settings.jwt_issuer)) [
          | inl bad ↦ ground arith
          | inr (p, good) ↦ elim (Option-cases (parse_uuid env p.sub)) [
            | inl bad ↦ ground arith
            | inr (id, parsed) ↦ elim (answer (select (λ (u : User). u.id == id) s.users)) [
              | Answer.absent a ↦ ground arith
              | Answer.several a b r m ↦ ground arith
              | Answer.single v one ↦ record {
                payload = p;
                user_id = id;
                decodes = ground arith;
                is_access = ground arith;
                subject = parsed;
                account = ground arith;
                active = ground arith;
              }
            ]
          ]
        ]

HasAccess-let_in :
    (env : Env) (token : String) (s : Session) (u : User)
    → HasAccess env token s u
    → (get_current_user env (some token) s).0 ≡ ok u
unfolding get_current_user Calls
HasAccess-let_in env token s u h = ground arith

get_current_user-HasAccess :
    (env : Env) (token : String) (s : Session) (u : User)
    → ((get_current_user env (some token) s).0 ≡ ok u) ↔ HasAccess env token s u
get_current_user-HasAccess env token s u =
    (let_in-HasAccess env token s u, HasAccess-let_in env token s u)

require_role-eq :
    (env : Env) (role : UserRole) (token : String) (s : Session) (u : User)
    → ((require_role env role (some token) s).0 ≡ ok u)
      ↔ (((get_current_user env (some token) s).0 ≡ ok u) × (role_eq u.role role ≡ true))
unfolding require_role ◌>>=◌
require_role-eq env role token s u = (λ e. (ground arith, ground arith), λ h. ground arith)

-- The guard lets a caller with a token in as an account exactly when the token can be decoded as
-- an access token whose subject is the id of that account, the only one with the id, and the
-- account is active; and `require_role` does exactly when the account has the role too.
pub require_role-HasAccess :
    (env : Env) (role : UserRole) (token : String) (s : Session) (u : User)
    → (((get_current_user env (some token) s).0 ≡ ok u) ↔ HasAccess env token s u)
      × (((require_role env role (some token) s).0 ≡ ok u)
          ↔ (HasAccess env token s u × (role_eq u.role role ≡ true)))
require_role-HasAccess env role token s u =
    let e = require_role-eq env role token s u in
    let g = get_current_user-HasAccess env token s u in
    (g, (λ h. (g.0 (e.0 h).0, (e.0 h).1), λ h. e.1 (g.1 h.0, h.1)))

module _ (env : Env) (laws : Laws env) (u u' : User) (client : Client) (s s' : Session) where
  -- what the first access token after `s` says
  abbrev issued_payload : Payload
  issued_payload = record {
    sub = some (env.uuid_text u.id);
    role = some (role_value u.role);
    type = some "access";
    jti = some (env.uuid_text (env.uuid (s.step + 1 + 1)));
    iss = some env.settings.jwt_issuer;
    aud = some env.settings.jwt_audience;
    exp = env.jwt_time (env.clock s.step + env.settings.access_token_expires);
    iat = env.jwt_time (env.clock (s.step + 1 + 1 + 1));
  }

  -- The access token that is issued to an account lets its holder in as that account in a session
  -- after the issue, until the whole second in which the token's time ends, while the account is
  -- stored and active.
  pub issue_tokens-get_current_user :
      {tokens : AuthTokens}
      → (issue_tokens env u client s).0 ≡ ok tokens
      → (issue_tokens env u client s).1.step ≤ s'.step
      → env.clock s'.step
        < seconds (env.jwt_time (env.clock s.step + env.settings.access_token_expires))
      → select (λ v. v.id == u.id) s'.users ≡ u' ∷ []
      → u'.is_active ≡ true
      → (get_current_user env (some tokens.access_token) s').0 ≡ ok u'
  unfolding issue_tokens get_current_user Calls
  issue_tokens-get_current_user {tokens} issued after time one active =
      let begun : seconds (env.jwt_time (env.clock (s.step + 1 + 1 + 1))) ≤ env.clock s'.step =
        omega (
          arith,
          (laws.jwt_time_whole (env.clock (s.step + 1 + 1 + 1))).0,
          laws.clock_mono (s.step + 1 + 1 + 1) s'.step (ground (arith, after)),
        ) in
      ground (
        arith,
        laws.jwt_round_trip issued_payload env.settings.jwt_access_secret env.settings.jwt_audience
            env.settings.jwt_issuer (env.clock s'.step) refl refl begun time,
        laws.uuid_round_trip u.id,
        eq_refl "access",
      )
