-- ===== src/Auth/Logout.antt =====
-- backend/services/auth_service.py: a refresh token after its session was logged out.
use aiops_aws.Prelude.{
  ◌+◌, String, ◌≡◌, refl, subst, ap, ◌∙◌, Bool, true, ◌&&◌, some, Option-cases, [], ◌∷◌, arith,
  Answer, answer, inl, inr,
}
use aiops_aws.Outcome.{ok}
use aiops_aws.Models.{RefreshToken}
use aiops_aws.Database.Table.{Table, select, flush}
use aiops_aws.Database.Rows.{IsClean, select_used, flush-clean}
use aiops_aws.Database.Session.{Session, Calls}
use aiops_aws.Security.{Env, Laws, Payload, matches, decode_refresh_token}
use aiops_aws.Auth.{Client}
use aiops_aws.Auth.Sessions.{is_unset, is_presented, refresh_tokens, logout}
use aiops_aws.Auth.Rotation.{IsUnauthorized, absent-IsUnauthorized}

select_implied :
    {A : Type 0} (p q : A → Bool) (t : Table A)
    → ((x : A) → q x ≡ true → p x ≡ true)
    → select p t ≡ []
    → select q t ≡ []
select_implied p q [] i e = refl
select_implied p q (r ∷ t) i e = elim (Option-cases r.stored) [
  | inl new ↦ ground (arith, new, select_implied p q t i)
  | inr (x, old) ↦ ground (arith, old, i x, select_implied p q t i)
]

module _ (env : Env) (laws : Laws env) (token : String) (client client' : Client) (s s' : Session)
    (p : Payload) where
  -- what logging out looks for
  abbrev is_open : RefreshToken → Bool
  is_open t = matches p.jti t.jti && is_unset t.revoked_at

  abbrev later_presented : RefreshToken → Bool
  later_presented = is_presented env token p (env.clock (s'.step + 1))

  presented-is_open : (x : RefreshToken) → later_presented x ≡ true → is_open x ≡ true
  presented-is_open x h = ground (arith, h)

  pub logged_out :
      IsClean s.refresh_tokens
      → (decode_refresh_token env token s).0 ≡ ok (some p)
      → (logout env token client s).0 ≡ ok tt
      → select later_presented (flush (logout env token client s).1.refresh_tokens) ≡ []
  unfolding logout Calls
  logged_out c d e =
      let read : env.jwt_decode (env.clock s.step) token env.settings.jwt_refresh_secret
            env.settings.jwt_audience env.settings.jwt_issuer
          ≡ some p =
        ground (arith, d) in
      elim (answer (select is_open s.refresh_tokens)) [
        | Answer.absent a ↦
            rw (read, a, flush-clean s.refresh_tokens c)
              (select_implied is_open later_presented s.refresh_tokens presented-is_open a)
        | Answer.single t one ↦
            rw (read, one)
              (select_used is_open later_presented (λ t. t.id)
                (record t { revoked_at = some (env.clock (s.step + 1)) }) s.refresh_tokens {a = t} c
                presented-is_open (ground arith) refl one)
        | Answer.several a b r m ↦ absurd (ground (arith, read, m, e))
      ]

  -- After a logout that returned, in a session that begins and with a refresh token that could be
  -- decoded, the token is refused with 401 in every session that begins with the tokens that the
  -- logout has committed.
  logout_closes :
      IsClean s.refresh_tokens
      → (decode_refresh_token env token s).0 ≡ ok (some p)
      → (logout env token client s).0 ≡ ok tt
      → s'.refresh_tokens ≡ flush (logout env token client s).1.refresh_tokens
      → IsUnauthorized (refresh_tokens env token client' s').0
  unfolding refresh_tokens Calls
  logout_closes c d e stored =
      let read : env.jwt_decode (env.clock s.step) token env.settings.jwt_refresh_secret
            env.settings.jwt_audience env.settings.jwt_issuer
          ≡ some p =
        ground (arith, d) in
      elim (Option-cases (
        env.jwt_decode (env.clock s'.step) token env.settings.jwt_refresh_secret
          env.settings.jwt_audience env.settings.jwt_issuer)) [
            | inl none_later ↦ rw none_later refl
            | inr (p', later) ↦ rw later (
                absent-IsUnauthorized env token client' p' (record s' { step = s'.step + 1 })
                  (subst
                    (λ x.
                      select (is_presented env token x (env.clock (s'.step + 1))) s'.refresh_tokens
                      ≡ [])
                    (laws.jwt_same (env.clock s.step) (env.clock s'.step) token _ _ _ p p' read
                      later)
                    (ap (select later_presented) stored ∙ logged_out c d e)))
          ]
