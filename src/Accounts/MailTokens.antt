-- ===== src/Accounts/MailTokens.antt =====
-- backend/services/auth_service.py: the calls that add accounts and tokens, after which tokens that
-- can no longer be used stay so.
use aiops_aws.Prelude.{ℕ, ◌+◌, refl, String, Option, none, some, Answer, answer, arith}
use aiops_aws.Outcome.Preserves.{Preserves}
use aiops_aws.Models.{User}
use aiops_aws.Database.Table.{select}
use aiops_aws.Database.AllRows.{Fails, flush-All, insert-All}
use aiops_aws.Database.Session.{Calls}
use aiops_aws.Database.Benign.{benign_rules}
use aiops_aws.Security.{Env}
use aiops_aws.Auth.{Client}
use aiops_aws.Auth.Accounts.{has_email, register_found, register_user}
use aiops_aws.Auth.Sessions.{issue_tokens}
use aiops_aws.Auth.Tokens.{
  request_verification_for, request_email_verification, request_reset_for, request_password_reset,
}
use aiops_aws.Auth.Benign.{audit-Preserves}
use aiops_aws.Accounts.Spent.{Tests, Spends, Unusable, Unusable-Benign, add_user-Unusable}

module _ (q : Tests) (n : ℕ) (env : Env) (p : Spends env q n) where
  register_found-Unusable :
      (address password : String) (client : Client) (u : Option User)
      → Preserves (Unusable q n) (register_found env address password client u)
  unfolding register_found
  register_found-Unusable address password client none =
      search (benign_rules, audit-Preserves, Unusable-Benign q n env p, add_user-Unusable) depth 40
  register_found-Unusable address password client (some u) = search benign_rules

  pub register_user-Unusable :
      (address password : String) (client : Client)
      → Preserves (Unusable q n) (register_user env address password client)
  unfolding register_user
  register_user-Unusable address password client =
      search (benign_rules, Unusable-Benign q n env p, register_found-Unusable)

  pub issue_tokens-Unusable :
      (u : User) (client : Client) → Preserves (Unusable q n) (issue_tokens env u client)
  unfolding issue_tokens Calls
  issue_tokens-Unusable u client = record {
    after = λ s h. record {
      no_refresh =
          insert-All (Fails q.refresh) _ s.refresh_tokens
            (p.new_refresh _ (s.step + 1) (let le = h.later in omega arith) refl) h.no_refresh;
      no_email = h.no_email;
      no_reset = h.no_reset;
      later = let le = h.later in omega arith;
    };
  }

  pub request_email_verification-Unusable :
      (address : String) (client : Client)
      → Preserves (Unusable q n) (request_email_verification env address client)
  unfolding request_email_verification request_verification_for Calls
  request_email_verification-Unusable address client = record {
    after = λ s h. elim (answer (select (has_email address) s.users)) [
      | Answer.absent a ↦ rw a h
      | Answer.several a b r m ↦ rw m h
      | Answer.single u one ↦ rw one (record {
        no_refresh = flush-All (Fails q.refresh) s.refresh_tokens h.no_refresh;
        no_email = flush-All (Fails q.email) _ (
            insert-All (Fails q.email) _ s.email_tokens (p.new_email _ s.step h.later refl)
              h.no_email);
        no_reset = flush-All (Fails q.reset) s.reset_tokens h.no_reset;
        later = let le = h.later in omega arith;
      })
    ];
  }

  pub request_password_reset-Unusable :
      (address : String) (client : Client)
      → Preserves (Unusable q n) (request_password_reset env address client)
  unfolding request_password_reset request_reset_for Calls
  request_password_reset-Unusable address client = record {
    after = λ s h. elim (answer (select (has_email address) s.users)) [
      | Answer.absent a ↦ rw a h
      | Answer.several a b r m ↦ rw m h
      | Answer.single u one ↦ rw one (record {
        no_refresh = flush-All (Fails q.refresh) s.refresh_tokens h.no_refresh;
        no_email = flush-All (Fails q.email) s.email_tokens h.no_email;
        no_reset = flush-All (Fails q.reset) _ (
            insert-All (Fails q.reset) _ s.reset_tokens (p.new_reset _ s.step h.later refl)
              h.no_reset);
        later = let le = h.later in omega arith;
      })
    ];
  }
