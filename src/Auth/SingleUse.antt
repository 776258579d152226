-- ===== src/Auth/SingleUse.antt =====
-- backend/services/auth_service.py: a token from a mail after it was used.
use aiops_aws.Prelude.{◌≤◌, String, ◌≡◌, refl, some, [], ◌∷◌, arith, ◌==◌, Answer, answer}
use aiops_aws.Outcome.{ok, err, http_exception}
use aiops_aws.Models.{User, EmailVerificationToken, PasswordResetToken}
use aiops_aws.Database.Table.{select, write, flush}
use aiops_aws.Database.Rows.{IsClean, select_used}
use aiops_aws.Database.Session.{Calls, Session}
use aiops_aws.Security.{Env, Laws, hash_token}
use aiops_aws.Auth.{Client}
use aiops_aws.Auth.Tokens.{
  is_email_token, is_reset_token, confirm_email_verification, confirm_password_reset,
}

module _ (env : Env) (laws : Laws env) (token : String) (client client' : Client)
    (s s' : Session) where
  pub email_used :
      (t : EmailVerificationToken)
      → IsClean s.email_tokens
      → s.step ≤ s'.step
      → select (is_email_token (hash_token env token) (env.clock s.step)) s.email_tokens ≡ t ∷ []
      → select (is_email_token (hash_token env token) (env.clock s'.step)) (
          flush (write (λ t. t.id) (record t { used_at = some (env.clock s.step) }) s.email_tokens))
        ≡ []
  email_used t clean later one =
      select_used (is_email_token (hash_token env token) (env.clock s.step))
        (is_email_token (hash_token env token) (env.clock s'.step)) (λ t. t.id)
        (record t { used_at = some (env.clock s.step) }) s.email_tokens clean
        (λ x h. ground (arith, laws.clock_mono s.step s'.step)) (ground arith) refl one

  -- A verification token that has verified an address in a session that begins is refused with 400
  -- from then on, in every later session that begins with the tokens which were committed then.
  confirm_email_verification_once :
      {u : Unit {0}}
      → IsClean s.email_tokens
      → (confirm_email_verification env token client s).0 ≡ ok u
      → s'.email_tokens ≡ flush (confirm_email_verification env token client s).1.email_tokens
      → s.step ≤ s'.step
      → (confirm_email_verification env token client' s').0
        ≡ err (http_exception 400 "Invalid or expired token")
  unfolding confirm_email_verification Calls
  confirm_email_verification_once clean done stored later =
      elim (answer
        (select (is_email_token (hash_token env token) (env.clock s.step)) s.email_tokens)) [
          | Answer.absent a ↦ ground arith
          | Answer.several a b r m ↦ ground arith
          | Answer.single t one ↦ elim (answer (select (λ (u : User). u.id == t.user_id) s.users)) [
            | Answer.absent a ↦ ground arith
            | Answer.several a b r m ↦ ground arith
            | Answer.single u owner ↦ ground (arith, email_used t clean later one)
          ]
        ]

  pub reset_used :
      (t : PasswordResetToken)
      → IsClean s.reset_tokens
      → s.step ≤ s'.step
      → select (is_reset_token (hash_token env token) (env.clock s.step)) s.reset_tokens ≡ t ∷ []
      → select (is_reset_token (hash_token env token) (env.clock s'.step)) (
          flush (write (λ t. t.id) (record t { used_at = some (env.clock s.step) }) s.reset_tokens))
        ≡ []
  reset_used t clean later one =
      select_used (is_reset_token (hash_token env token) (env.clock s.step))
        (is_reset_token (hash_token env token) (env.clock s'.step)) (λ t. t.id)
        (record t { used_at = some (env.clock s.step) }) s.reset_tokens clean
        (λ x h. ground (arith, laws.clock_mono s.step s'.step)) (ground arith) refl one

  -- A reset token that has set a password in a session that begins is refused with 400 from then
  -- on, in every later session that begins with the tokens which were committed then, whatever the
  -- new password of the second request is.
  confirm_password_reset_once :
      (password password' : String) {u : Unit {0}}
      → IsClean s.reset_tokens
      → (confirm_password_reset env token password client s).0 ≡ ok u
      → s'.reset_tokens ≡ flush (confirm_password_reset env token password client s).1.reset_tokens
      → s.step ≤ s'.step
      → (confirm_password_reset env token password' client' s').0
        ≡ err (http_exception 400 "Invalid or expired token")
  unfolding confirm_password_reset Calls
  confirm_password_reset_once password password' clean done stored later =
      elim (answer
        (select (is_reset_token (hash_token env token) (env.clock s.step)) s.reset_tokens)) [
          | Answer.absent a ↦ ground arith
          | Answer.several a b r m ↦ ground arith
          | Answer.single t one ↦ elim (answer (select (λ (u : User). u.id == t.user_id) s.users)) [
            | Answer.absent a ↦ ground arith
            | Answer.several a b r m ↦ ground arith
            | Answer.single u owner ↦ ground (arith, reset_used t clean later one)
          ]
        ]
