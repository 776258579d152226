-- ===== src/Accounts/Auth.antt =====
-- backend/services/auth_service.py: what it does to accounts.
use aiops_aws.Prelude.{ℕ, String, Option, none, some, true, refl}
use aiops_aws.Outcome.Preserves.{Preserves}
use aiops_aws.Outcome.Yields.{Yields, Any, OnSome, bind-Yields, yields_rules}
use aiops_aws.Models.{User, EmailVerificationToken, PasswordResetToken}
use aiops_aws.Database.Session.{Session, tick}
use aiops_aws.Database.Benign.{benign_rules}
use aiops_aws.Database.Accounts.{Carries}
use aiops_aws.Security.{Env, hash_password}
use aiops_aws.Auth.{Client}
use aiops_aws.Auth.Benign.{audit-Preserves, issue_tokens-Preserves}
use aiops_aws.Auth.Sessions.{issue_tokens, login}
use aiops_aws.Auth.Tokens.{
  owner, confirm_verification_of, confirm_email_verification, confirm_reset_of,
  confirm_password_reset,
}
use aiops_aws.Auth.Accounts.{
  refuse_locked, reject_password, accept_password, authenticate_found, authenticate_user,
}
use aiops_aws.Accounts.{IsPassword, IsDigest, Kept}

pub ruleset accounts_rules = (yields_rules, benign_rules, audit-Preserves)

module _ {P : Session → Type 0} {F : User → Type 0} (c : Carries P F) (env : Env)
    (k : Kept env F) where
  pub hash_password-Yields :
      (password : String)
      → IsPassword password
      → Yields P (IsDigest env) (hash_password env password)
  unfolding tick
  hash_password-Yields password h = record {
    keeps = search (accounts_rules, c.benign);
    gives = λ s p. (s.step, password, h, refl);
  }

  accept_password-Yields :
      (client : Client) (u : User) → F u → Yields P F (accept_password env client u)
  unfolding accept_password
  accept_password-Yields client u w =
      search (accounts_rules, c.benign, c.writes, k.forgiven) depth 40

  reject_password-Yields :
      (client : Client) (now : ℕ) (u : User) → F u → Yields P F (reject_password env client now u)
  unfolding reject_password
  reject_password-Yields client now u w =
      let w' = k.counted now u w in search (accounts_rules, c.benign, c.writes) depth 40

  refuse_locked-Yields : (client : Client) (u : User) → Yields P F (refuse_locked env client u)
  unfolding refuse_locked
  refuse_locked-Yields client u = search (accounts_rules, c.benign) depth 40

  authenticate_found-Yields :
      (password : String) (client : Client) (found : Option User)
      → OnSome F found
      → Yields P F (authenticate_found env password client found)
  unfolding authenticate_found
  authenticate_found-Yields password client none w = search (accounts_rules, c.benign) depth 40
  authenticate_found-Yields password client (some u) w =
      search
        (
          accept_password-Yields, reject_password-Yields, refuse_locked-Yields, accounts_rules,
          c.benign,
        )
        depth 40

  pub authenticate_user-Yields :
      (email password : String) (client : Client)
      → Yields P F (authenticate_user env email password client)
  unfolding authenticate_user
  authenticate_user-Yields email password client =
      bind-Yields _ _ (c.finds _) (authenticate_found-Yields password client)

  pub login-Yields :
      (email password : String) (client : Client)
      → ((u : User) (client : Client) → Preserves P (issue_tokens env u client))
      → Yields P Any (login env email password client)
  unfolding login
  login-Yields email password client issues =
      bind-Yields _ _ (authenticate_user-Yields email password client)
        λ u w. search (issues, accounts_rules) depth 40

  owner-Yields : (found : Option User) → OnSome F found → Yields P F (owner found)
  unfolding owner
  owner-Yields none w = search (accounts_rules)
  owner-Yields (some u) w = search (accounts_rules)

  confirm_verification_of-Yields :
      (client : Client) (now : ℕ) (t : Option EmailVerificationToken)
      → Yields P Any (confirm_verification_of env client now t)
  unfolding confirm_verification_of
  confirm_verification_of-Yields client now none = search (accounts_rules) depth 40
  confirm_verification_of-Yields client now (some t) = bind-Yields _ _ (c.finds _) λ found w.
      bind-Yields _ _ (owner-Yields found w) λ u w'.
        let v = k.appointed u u.role true w' in search (accounts_rules, c.benign, c.writes) depth 40

  pub confirm_email_verification-Yields :
      (token : String) (client : Client)
      → Yields P Any (confirm_email_verification env token client)
  unfolding confirm_email_verification
  confirm_email_verification-Yields token client =
      search (confirm_verification_of-Yields, accounts_rules, c.benign) depth 40

  confirm_reset_of-Yields :
      (password : String) (client : Client) (now : ℕ) (t : Option PasswordResetToken)
      → IsPassword password
      → Yields P Any (confirm_reset_of env password client now t)
  unfolding confirm_reset_of
  confirm_reset_of-Yields password client now none h = search (accounts_rules) depth 40
  confirm_reset_of-Yields password client now (some t) h = bind-Yields _ _ (c.finds _) λ found w.
      bind-Yields _ _ (owner-Yields found w) λ u w'.
        bind-Yields _ _ (hash_password-Yields password h) λ hash d.
          let v = k.rehashed u hash u.password_changed_at d w' in
          search (accounts_rules, c.benign, c.writes) depth 40

  pub confirm_password_reset-Yields :
      (token password : String) (client : Client)
      → IsPassword password
      → Yields P Any (confirm_password_reset env token password client)
  unfolding confirm_password_reset
  confirm_password_reset-Yields token password client h =
      search (confirm_reset_of-Yields, accounts_rules, c.benign) depth 40
