-- ===== src/Auth/Verification.antt =====
-- backend/services/auth_service.py: the verification of an address from request to confirmation.
use aiops_aws.Prelude.{
  ℕ, ◌+◌, ◌<◌, String, ◌≡◌, refl, ap, ◌∙◌, true, none, some, [], ◌∷◌, arith, ◌==◌, eq_refl,
}
use aiops_aws.Outcome.{ok}
use aiops_aws.Models.{User, EmailVerificationToken}
use aiops_aws.Database.Table.{select, write, flush, insert}
use aiops_aws.Database.Rows.{IsClean, select-flush-insert, flush-clean}
use aiops_aws.Database.Session.{Calls, Session}
use aiops_aws.Security.{Env, hours, hash_token}
use aiops_aws.Auth.{Client}
use aiops_aws.Auth.Accounts.{has_email}
use aiops_aws.Auth.Tokens.{is_email_token, request_email_verification, confirm_email_verification}

-- the stored token of a request
abbrev email_token : Env → User → Session → EmailVerificationToken
email_token env u s = record {
  id = env.uuid (s.step + 1 + 1);
  user_id = u.id;
  token_hash = hash_token env (env.token_urlsafe s.step);
  expires_at = env.clock (s.step + 1) + hours env.settings.email_token_expire_hours;
  used_at = none;
  created_at = env.clock (s.step + 1 + 1 + 1);
}

select-email_token :
    (env : Env) (u : User) (s : Session) (now : ℕ)
    → IsClean s.email_tokens
    → select (is_email_token (hash_token env (env.token_urlsafe s.step)) now) s.email_tokens ≡ []
    → now < (email_token env u s).expires_at
    → select
        (is_email_token (hash_token env (env.token_urlsafe s.step)) now)
        (flush (insert (email_token env u s) s.email_tokens))
      ≡ email_token env u s ∷ []
select-email_token env u s now c n live =
    rw
      (
        select-flush-insert (is_email_token (hash_token env (env.token_urlsafe s.step)) now)
            (email_token env u s) s.email_tokens,
        flush-clean s.email_tokens c,
        n,
        eq_refl (hash_token env (env.token_urlsafe s.step)),
      )
      (ground (arith, live))

verification_requested :
    (env : Env) (email : String) (client : Client) (s : Session) (u : User)
    → IsClean s.users
    → select (has_email email) s.users ≡ u ∷ []
    → let (r, s') = request_email_verification env email client s in
      (r ≡ ok (some (env.token_urlsafe s.step)))
      × (s'.users ≡ s.users)
      × (s'.email_tokens ≡ flush (insert (email_token env u s) s.email_tokens))
unfolding request_email_verification Calls
verification_requested env email client s u c one = rw one (refl, flush-clean s.users c, refl)

verification_confirmed :
    (env : Env) (token : String) (client : Client) (s : Session) (u : User)
    (t : EmailVerificationToken)
    → select (is_email_token (hash_token env token) (env.clock s.step)) s.email_tokens ≡ t ∷ []
    → select (λ x. x.id == t.user_id) s.users ≡ u ∷ []
    → let (r, s') = confirm_email_verification env token client s in
      (r ≡ ok tt) × (s'.users ≡ write (λ u. u.id) (record u { is_verified = true }) s.users)
unfolding confirm_email_verification Calls
verification_confirmed env token client s u t one key = rw (one, key) (refl, refl)

-- For an account that is the only one with its address and id, in a session that begins, a request
-- for verification answers with a token. While the token has not expired, no earlier token has its
-- hash, and the tables of accounts and verification tokens are as the request left them, its
-- confirmation succeeds, marks that account as verified, and changes no other.
pub email_verification_round_trip :
    (env : Env) (email : String) (client client' : Client) (s s' : Session) (u : User)
    → IsClean s.users
    → IsClean s.email_tokens
    → select (has_email email) s.users ≡ u ∷ []
    → select (λ x. x.id == u.id) s.users ≡ u ∷ []
    → select
        (is_email_token (hash_token env (env.token_urlsafe s.step)) (env.clock s'.step))
        s.email_tokens
      ≡ []
    → env.clock s'.step < env.clock (s.step + 1) + hours env.settings.email_token_expire_hours
    → s'.users ≡ (request_email_verification env email client s).1.users
    → s'.email_tokens ≡ (request_email_verification env email client s).1.email_tokens
    → let (r, s'') = confirm_email_verification env (env.token_urlsafe s.step) client' s' in
      ((request_email_verification env email client s).0 ≡ ok (some (env.token_urlsafe s.step)))
      × (r ≡ ok tt)
      × (s''.users ≡ write (λ u. u.id) (record u { is_verified = true }) s.users)
email_verification_round_trip env email client client' s s' u c c' one key fresh live same same' =
    let q = verification_requested env email client s u c one in
    let users = same ∙ q.1 in
    let found =
      ap (select (is_email_token (hash_token env (env.token_urlsafe s.step)) (env.clock s'.step)))
        (same' ∙ q.2)
      ∙ select-email_token env u s (env.clock s'.step) c' fresh live in
    let done =
      verification_confirmed env (env.token_urlsafe s.step) client' s' u (email_token env u s) found
        (ap (select (λ x. x.id == u.id)) users ∙ key) in
    (q.0, done.0, done.1 ∙ ap (write (λ u. u.id) (record u { is_verified = true })) users)
