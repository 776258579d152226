-- ===== src/Accounts/Spent.antt =====
-- backend/services/: tokens that can no longer be used, and the calls that keep them so.
use aiops_aws.Prelude.{ℕ, ◌≤◌, ◌≡◌, refl, Bool, Option, none, some, List, All, arith}
use aiops_aws.Outcome.{Result, ok, err, scalar_one_or_none}
use aiops_aws.Outcome.Preserves.{Preserves}
use aiops_aws.Outcome.Yields.{OnOk, OnSome}
use aiops_aws.Models.{User, RefreshToken, EmailVerificationToken, PasswordResetToken}
use aiops_aws.Database.Table.{select}
use aiops_aws.Database.AllRows.{RowHas, Fails, flush-All, write-All}
use aiops_aws.Database.Session.{Session, Action, Calls, flush_all, write_user, add_user}
use aiops_aws.Database.Benign.{Benign}
use aiops_aws.Database.Accounts.{Carries, state-scalar}
use aiops_aws.Security.{Env, hash_token}
use aiops_aws.Accounts.{Kept}
use aiops_aws.Accounts.Answered.{TakesStep}

-- a test for each kind of token
pub record Tests : Type 0 where
  pub refresh : RefreshToken → Bool
  pub email : EmailVerificationToken → Bool
  pub reset : PasswordResetToken → Bool

-- No token that was used or revoked passes, and none that is made from a step on.
pub record Spends (env : Env) (q : Tests) (n : ℕ) : Type 0 where
  pub revoked : (t : RefreshToken) (now : ℕ) → Fails q.refresh (record t { revoked_at = some now })
  pub used_email :
      (t : EmailVerificationToken) (now : ℕ) → Fails q.email (record t { used_at = some now })
  pub used_reset :
      (t : PasswordResetToken) (now : ℕ) → Fails q.reset (record t { used_at = some now })
  pub new_refresh :
      (t : RefreshToken) (k : ℕ) → n ≤ k → t.jti ≡ env.uuid_text (env.uuid k) → Fails q.refresh t
  pub new_email :
      (t : EmailVerificationToken) (k : ℕ)
      → n ≤ k
      → t.token_hash ≡ hash_token env (env.token_urlsafe k)
      → Fails q.email t
  pub new_reset :
      (t : PasswordResetToken) (k : ℕ)
      → n ≤ k
      → t.token_hash ≡ hash_token env (env.token_urlsafe k)
      → Fails q.reset t

found : (r : Result (Option User)) → OnOk (OnSome (λ u. Unit)) r
found (ok none) = tt
found (ok (some u)) = tt
found (err e) = tt

module _ (q : Tests) (n : ℕ) where
  -- no token of the session passes
  pub record Unusable (s : Session) : Type 0 where
    pub no_refresh : All (RowHas (Fails q.refresh)) s.refresh_tokens
    pub no_email : All (RowHas (Fails q.email)) s.email_tokens
    pub no_reset : All (RowHas (Fails q.reset)) s.reset_tokens
    pub later : n ≤ s.step

  flush-Unusable : (s : Session) → Unusable s → Unusable (flush_all s)
  flush-Unusable s h = record {
    no_refresh = flush-All (Fails q.refresh) s.refresh_tokens h.no_refresh;
    no_email = flush-All (Fails q.email) s.email_tokens h.no_email;
    no_reset = flush-All (Fails q.reset) s.reset_tokens h.no_reset;
    later = h.later;
  }

  steady {ℓ} :
      {A : Type ℓ} (m : Action A)
      → ((s : Session)
          → ((m s).1.refresh_tokens ≡ s.refresh_tokens)
            × ((m s).1.email_tokens ≡ s.email_tokens)
            × ((m s).1.reset_tokens ≡ s.reset_tokens)
            × (s.step ≤ (m s).1.step))
      → Preserves Unusable m
  steady m e = record {
    after = λ s h. record {
      no_refresh = rw ((e s).0) h.no_refresh;
      no_email = rw ((e s).1) h.no_email;
      no_reset = rw ((e s).2) h.no_reset;
      later = let le = (e s).3 in omega (arith, le, h.later);
    };
  }

  looks {ℓ} :
      {A : Type ℓ} (l : Session → List A) → Preserves Unusable (λ s. scalar_one_or_none (l s) s)
  looks l = record { after = λ s h. rw (state-scalar (l s) s) h }

  module _ (env : Env) (p : Spends env q n) where
    pub Unusable-Benign : Benign Unusable
    unfolding Calls
    Unusable-Benign = record {
      ticks = λ source. steady _ (λ s. (refl, refl, refl, omega arith));
      finds_user = λ f. looks (λ s. select f s.users);
      finds_refresh = λ f. looks (λ s. select f s.refresh_tokens);
      finds_email = λ f. looks (λ s. select f s.email_tokens);
      finds_reset = λ f. looks (λ s. select f s.reset_tokens);
      revokes = λ t now. record {
        after = λ s h. record {
          no_refresh =
              write-All (Fails q.refresh) (λ t. t.id) _ s.refresh_tokens (p.revoked t now)
                h.no_refresh;
          no_email = h.no_email;
          no_reset = h.no_reset;
          later = h.later;
        };
      };
      uses_email = λ t now. record {
        after = λ s h. record {
          no_refresh = h.no_refresh;
          no_email =
              write-All (Fails q.email) (λ t. t.id) _ s.email_tokens (p.used_email t now)
                h.no_email;
          no_reset = h.no_reset;
          later = h.later;
        };
      };
      uses_reset = λ t now. record {
        after = λ s h. record {
          no_refresh = h.no_refresh;
          no_email = h.no_email;
          no_reset =
              write-All (Fails q.reset) (λ t. t.id) _ s.reset_tokens (p.used_reset t now)
                h.no_reset;
          later = h.later;
        };
      };
      adds_event = λ e. steady _ (λ s. (refl, refl, refl, omega arith));
      flushes = record { after = flush-Unusable };
    }

    write_user-Unusable : (u : User) → Preserves Unusable (write_user u)
    unfolding Calls
    write_user-Unusable u = steady _ (λ s. (refl, refl, refl, omega arith))

    pub add_user-Unusable : (u : User) → Preserves Unusable (add_user u)
    unfolding Calls
    add_user-Unusable u = steady _ (λ s. (refl, refl, refl, omega arith))

    pub Unusable-Carries : Carries Unusable (λ u. Unit)
    Unusable-Carries = record {
      benign = Unusable-Benign;
      finds = λ f. record { keeps = Unusable-Benign.finds_user f; gives = λ s h. found _ };
      writes = λ u f. write_user-Unusable u;
    }

  pub Unusable-TakesStep : TakesStep Unusable
  Unusable-TakesStep s t h i = record {
    no_refresh = h.no_refresh;
    no_email = h.no_email;
    no_reset = h.no_reset;
    later = i.later;
  }

-- nothing need be known of the accounts
pub Kept-always : (env : Env) → Kept env (λ u. Unit)
Kept-always env = record {
  counted = λ now u w. tt;
  forgiven = λ u until at w. tt;
  rehashed = λ u h changed d w. tt;
  switched = λ u active at e w. tt;
  appointed = λ u role is_verified w. tt;
  renamed = λ u name f w. tt;
}
