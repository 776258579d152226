-- ===== src/Auth/Rotation.antt =====
-- backend/services/auth_service.py: a refresh token after it was exchanged.
use aiops_aws.Prelude.{
  ℕ, suc, ◌+◌, ◌≤◌, ◌<◌, String, ◌≡◌, refl, subst, inl, inr, Bool, true, false, Option, some,
  Option-cases, [], ◌∷◌, arith, ◌==◌, Answer, answer, Bool-cases,
}
use aiops_aws.Outcome.{Result, ok, err, http_exception, unhandled}
use aiops_aws.Models.{User, RefreshToken}
use aiops_aws.Database.Table.{select, write, flush}
use aiops_aws.Database.Rows.{IsClean, select_used, select_inserted}
use aiops_aws.Database.Session.{Calls, Session}
use aiops_aws.Security.{Env, Payload, Laws, matches, decode_refresh_token, parse_uuid}
use aiops_aws.Auth.{Client}
use aiops_aws.Auth.Sessions.{AuthTokens, refresh_tokens, refresh_decoded, is_presented, rotate}

module _ (env : Env) (client : Client) (now : ℕ) (p : Payload) (tok : RefreshToken) (s : Session)
    (q : RefreshToken → Bool)
    (fresh : (t : RefreshToken) (n : ℕ)
      → s.step ≤ n
      → t.jti ≡ env.uuid_text (env.uuid n)
      → q t ≡ false) where
  rotate-select :
      {r : User × AuthTokens}
      → (rotate env client now p (some tok) s).0 ≡ ok r
      → select q (flush (write (λ t. t.id) (record tok { revoked_at = some now }) s.refresh_tokens))
        ≡ []
      → select q (flush (rotate env client now p (some tok) s).1.refresh_tokens) ≡ []
  unfolding rotate Calls
  rotate-select e used = elim (Option-cases (parse_uuid env p.sub)) [
    | inl bad ↦ ground arith
    | inr (uid, good) ↦ elim (answer (select (λ u. u.id == uid) s.users)) [
      | Answer.absent a ↦ ground arith
      | Answer.several a b r m ↦ ground arith
      | Answer.single u one ↦ elim (Bool-cases u.is_active) [
        | inl act ↦
            rw (good, one, act)
              (select_inserted q _ _ used (fresh _ (s.step + 1) (omega arith) refl))
        | inr act ↦ ground arith
      ]
    ]
  ]

module _ (env : Env) (token : String) (client : Client) (p : Payload) (s : Session) (time : ℕ)
    (clean : IsClean s.refresh_tokens) (later : env.clock s.step ≤ time)
    (fresh : (n : ℕ) → s.step ≤ n → matches p.jti (env.uuid_text (env.uuid n)) ≡ false) where
  presented_fresh :
      (t : RefreshToken) (n : ℕ)
      → suc s.step ≤ n
      → t.jti ≡ env.uuid_text (env.uuid n)
      → is_presented env token p time t ≡ false
  presented_fresh t n h e = rw (e, fresh n (omega arith))

  presented_earlier :
      (t : RefreshToken)
      → is_presented env token p time t ≡ true
      → is_presented env token p (env.clock s.step) t ≡ true
  presented_earlier t h = ground arith

  used :
      (tok : RefreshToken)
      → select (is_presented env token p (env.clock s.step)) s.refresh_tokens ≡ tok ∷ []
      → select (is_presented env token p time) (
          flush (
            write
              (λ t. t.id)
              (record tok { revoked_at = some (env.clock s.step) })
              s.refresh_tokens))
        ≡ []
  used tok one =
      select_used (is_presented env token p (env.clock s.step)) (is_presented env token p time)
        (λ t. t.id) (record tok { revoked_at = some (env.clock s.step) }) s.refresh_tokens clean
        presented_earlier (ground arith) refl one

  pub decoded-select :
      {r : User × AuthTokens}
      → (refresh_decoded env token client (some p) s).0 ≡ ok r
      → select
          (is_presented env token p time)
          (flush (refresh_decoded env token client (some p) s).1.refresh_tokens)
        ≡ []
  unfolding refresh_decoded Calls
  decoded-select e = elim (Bool-cases (matches p.type "refresh")) [
    | inr other ↦ ground arith
    | inl right ↦
        elim (answer (select (is_presented env token p (env.clock s.step)) s.refresh_tokens)) [
          | Answer.absent a ↦ ground arith
          | Answer.several a b r m ↦ ground arith
          | Answer.single tok one ↦
              rw (right, one)
                (rotate-select env client (env.clock s.step) p tok (record s { step = s.step + 1 })
                  (is_presented env token p time) (λ t n h. presented_fresh t n (omega arith))
                  (rw (right, one) at e) (used tok one))
        ]
  ]

-- The answer to a request that is refused for want of credentials.
abbrev pub IsUnauthorized : {A : Type 0} → Result A → Type 0
IsUnauthorized (ok a) = ⊥
IsUnauthorized (err (http_exception code detail)) = code ≡ 401
IsUnauthorized (err (unhandled name)) = ⊥

abbrev pub decoded : Env → String → Session → Option Payload
decoded env token s =
    env.jwt_decode (env.clock s.step) token env.settings.jwt_refresh_secret
      env.settings.jwt_audience env.settings.jwt_issuer

pub absent-IsUnauthorized :
    (env : Env) (token : String) (client : Client) (p : Payload) (s : Session)
    → select (is_presented env token p (env.clock s.step)) s.refresh_tokens ≡ []
    → IsUnauthorized (refresh_decoded env token client (some p) s).0
unfolding refresh_decoded Calls
absent-IsUnauthorized env token client p s a = ground arith

module _ (env : Env) (laws : Laws env) (token : String) (client client' : Client) (s s' : Session)
    {r : User × AuthTokens} where
  -- A refresh token that was exchanged for new ones in a session that begins, where the ids of the
  -- new tokens differ from its own, is refused with 401 from then on: in every later session that
  -- begins with the tokens which the exchange has committed.
  refresh_tokens_once :
      IsClean s.refresh_tokens
      → ((p : Payload) (n : ℕ)
          → (decode_refresh_token env token s).0 ≡ ok (some p)
          → s.step < n
          → matches p.jti (env.uuid_text (env.uuid n)) ≡ false)
      → (refresh_tokens env token client s).0 ≡ ok r
      → s'.refresh_tokens ≡ flush (refresh_tokens env token client s).1.refresh_tokens
      → s.step ≤ s'.step
      → IsUnauthorized (refresh_tokens env token client' s').0
  unfolding refresh_tokens Calls
  refresh_tokens_once clean fresh e stored later = elim (Option-cases (decoded env token s)) [
    | inl none_first ↦ ground arith
    | inr (p, first) ↦ elim (Option-cases (decoded env token s')) [
      | inl none_second ↦ rw none_second refl
      | inr (p', second) ↦ rw second (
          absent-IsUnauthorized env token client' p' (record s' { step = s'.step + 1 })
            (subst
              (λ x.
                select (is_presented env token x (env.clock (s'.step + 1))) s'.refresh_tokens ≡ [])
              (laws.jwt_same (env.clock s.step) (env.clock s'.step) token _ _ _ p p' first second)
              (rw (stored, first)
                (decoded-select env token client p (record s { step = s.step + 1 })
                  (env.clock (s'.step + 1)) clean (laws.clock_mono _ _ (omega arith))
                  (λ n h. fresh p n (rw first) (omega arith)) (rw first at e)))))
    ]
  ]
