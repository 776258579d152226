-- ===== src/Auth/Reset.antt =====
-- backend/services/auth_service.py: a password reset from the request to the confirmation.
use aiops_aws.Prelude.{
  ℕ, ◌+◌, ◌<◌, String, ◌≡◌, refl, ap, ◌∙◌, true, none, some, [], ◌∷◌, arith, ◌==◌, eq_refl,
}
use aiops_aws.Outcome.{ok}
use aiops_aws.Models.{User, PasswordResetToken}
use aiops_aws.Database.Table.{select, write, flush, insert}
use aiops_aws.Database.Rows.{IsClean, select-flush-insert, flush-clean}
use aiops_aws.Database.Session.{Calls, Session}
use aiops_aws.Security.{Env, Laws, minutes, hash_token, verify_password}
use aiops_aws.Auth.{Client}
use aiops_aws.Auth.Accounts.{has_email}
use aiops_aws.Auth.Tokens.{is_reset_token, request_password_reset, confirm_password_reset}

-- the stored token of a request
abbrev reset_token : Env → User → Session → PasswordResetToken
reset_token env u s = record {
  id = env.uuid (s.step + 1 + 1);
  user_id = u.id;
  token_hash = hash_token env (env.token_urlsafe s.step);
  expires_at = env.clock (s.step + 1) + minutes env.settings.password_reset_expire_minutes;
  used_at = none;
  created_at = env.clock (s.step + 1 + 1 + 1);
}

-- The token of a reset request is accepted until it expires.
select-reset_token :
    (env : Env) (u : User) (s : Session) (now : ℕ)
    → IsClean s.reset_tokens
    → select (is_reset_token (hash_token env (env.token_urlsafe s.step)) now) s.reset_tokens ≡ []
    → now < (reset_token env u s).expires_at
    → select
        (is_reset_token (hash_token env (env.token_urlsafe s.step)) now)
        (flush (insert (reset_token env u s) s.reset_tokens))
      ≡ reset_token env u s ∷ []
select-reset_token env u s now c n live =
    rw
      (
        select-flush-insert (is_reset_token (hash_token env (env.token_urlsafe s.step)) now)
            (reset_token env u s) s.reset_tokens,
        flush-clean s.reset_tokens c,
        n,
        eq_refl (hash_token env (env.token_urlsafe s.step)),
      )
      (ground (arith, live))

requested :
    (env : Env) (email : String) (client : Client) (s : Session) (u : User)
    → IsClean s.users
    → select (has_email email) s.users ≡ u ∷ []
    → let (r, s') = request_password_reset env email client s in
      (r ≡ ok (some (env.token_urlsafe s.step)))
      × (s'.users ≡ s.users)
      × (s'.reset_tokens ≡ flush (insert (reset_token env u s) s.reset_tokens))
unfolding request_password_reset Calls
requested env email client s u c one = rw one (refl, flush-clean s.users c, refl)

confirmed :
    (env : Env) (token password : String) (client : Client) (s : Session) (u : User)
    (t : PasswordResetToken)
    → select (is_reset_token (hash_token env token) (env.clock s.step)) s.reset_tokens ≡ t ∷ []
    → select (λ x. x.id == t.user_id) s.users ≡ u ∷ []
    → let (r, s') = confirm_password_reset env token password client s in
      (r ≡ ok tt)
      × (s'.users
          ≡ write
              (λ u. u.id)
              (record u { password_hash = env.password_digest (s.step + 1) password })
              s.users)
      × (s'.refresh_tokens ≡ s.refresh_tokens)
unfolding confirm_password_reset Calls
confirmed env token password client s u t one key = rw (one, key) (refl, refl, refl)

-- For an account that is the only one with its address and id, in a session that begins, a reset
-- request answers with a token. While the token has not expired, no earlier token has its hash,
-- and the tables of accounts and reset tokens are as the request left them, its confirmation
-- succeeds and sets the hash of the new password, which the password check accepts. It changes
-- nothing else of an account, and no refresh token: open sessions of the account stay open.
pub password_reset_round_trip :
    (env : Env) (laws : Laws env) (email password : String) (client client' : Client)
    (s s' : Session) (u : User)
    → IsClean s.users
    → IsClean s.reset_tokens
    → select (has_email email) s.users ≡ u ∷ []
    → select (λ x. x.id == u.id) s.users ≡ u ∷ []
    → select
        (is_reset_token (hash_token env (env.token_urlsafe s.step)) (env.clock s'.step))
        s.reset_tokens
      ≡ []
    → env.clock s'.step
      < env.clock (s.step + 1) + minutes env.settings.password_reset_expire_minutes
    → s'.users ≡ (request_password_reset env email client s).1.users
    → s'.reset_tokens ≡ (request_password_reset env email client s).1.reset_tokens
    → let (r, s'') = confirm_password_reset env (env.token_urlsafe s.step) password client' s' in
      ((request_password_reset env email client s).0 ≡ ok (some (env.token_urlsafe s.step)))
      × (r ≡ ok tt)
      × (s''.users
          ≡ write
              (λ u. u.id)
              (record u { password_hash = env.password_digest (s'.step + 1) password })
              s.users)
      × (verify_password env password (env.password_digest (s'.step + 1) password) ≡ true)
      × (s''.refresh_tokens ≡ s'.refresh_tokens)
password_reset_round_trip env laws email password client client' s s' u c c' one key fresh live same
      same' =
    let q = requested env email client s u c one in
    let users = same ∙ q.1 in
    let found =
      ap (select (is_reset_token (hash_token env (env.token_urlsafe s.step)) (env.clock s'.step)))
        (same' ∙ q.2)
      ∙ select-reset_token env u s (env.clock s'.step) c' fresh live in
    let done =
      confirmed env (env.token_urlsafe s.step) password client' s' u (reset_token env u s) found
        (ap (select (λ x. x.id == u.id)) users ∙ key) in
    (
      q.0,
      done.0,
      done.1
          ∙ ap
              (write (λ u. u.id)
                (record u { password_hash = env.password_digest (s'.step + 1) password }))
              users,
      laws.digest_matches (s'.step + 1) password,
      done.2,
    )
