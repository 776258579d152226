-- ===== src/Accounts/Addresses.antt =====
-- backend/services/: the addresses of the accounts do not change, whatever the calls but
-- registration.
use aiops_aws.Prelude.{
  ℕ, ◌≤◌, ◌≡◌, ◌≢◌, refl, ap, ◌∙◌, String, Option, none, some, List, [], ◌∷◌, map, All, inl, inr,
  ◌+◌, leb, Bool-cases, arith,
}
use aiops_aws.Models.{User}
use aiops_aws.Database.Table.{Table, objects, write, flush}
use aiops_aws.Database.Session.{Session, Calls, flush_all, write_user}
use aiops_aws.Outcome.Preserves.{Preserves}
use aiops_aws.Auth.{Client}
use aiops_aws.Auth.Tokens.{request_email_verification, request_password_reset}
use aiops_aws.Auth.Sessions.{issue_tokens}
use aiops_aws.Auth.Benign.{
  issue_tokens-Preserves, request_email_verification-Preserves, request_password_reset-Preserves,
}
use aiops_aws.Database.AllRows.{RowHas}
use aiops_aws.Database.Benign.{Benign}
use aiops_aws.Database.Accounts.{
  AllUsers, AllUsers-Benign, Carries, users-Benign, adds_refresh_token, adds_email_token,
  adds_reset_token, found-OnSome, write_user-AllUsers,
}
use aiops_aws.Security.{Env}
use aiops_aws.Auth.Accounts.{count_failure}
use aiops_aws.Users.Profile.{rename}
use aiops_aws.Accounts.{Kept}
use aiops_aws.Accounts.Answered.{TakesStep}

-- the addresses of the session's accounts
abbrev pub emails : Table User → List String
emails t = map (λ u. u.email) (objects t)

-- The address is the one that its id has, and the id was made before a step.
abbrev pub IsOwn : Env → (ℕ → String) → ℕ → User → Type 0
IsOwn env owner n u = (u.email ≡ owner u.id) × ((k : ℕ) → n ≤ k → u.id ≢ env.uuid k)

module _ (env : Env) (owner : ℕ → String) (n : ℕ) (l : List String) where
  -- The session's accounts have the addresses of a list, in its order, each its own.
  pub record HasEmails (s : Session) : Type 0 where
    pub own : AllUsers (IsOwn env owner n) s
    pub listed : emails s.users ≡ l
    pub later : n ≤ s.step

  emails-flush : (t : Table User) → emails (flush t) ≡ emails t
  emails-flush [] = refl
  emails-flush (r ∷ t) = ap (λ m. r.object.email ∷ m) (emails-flush t)

  emails-write :
      (u : User) (t : Table User)
      → IsOwn env owner n u
      → All (RowHas (IsOwn env owner n)) t
      → emails (write (λ u. u.id) u t) ≡ emails t
  emails-write u [] f h = refl
  emails-write u (r ∷ t) f h =
      let own : r.object.email ≡ owner r.object.id = h.0.1.0 in
      let same : u.email ≡ owner u.id = f.0 in ground (arith, emails-write u t f h.1)

  counted-IsOwn :
      (now : ℕ) (u : User) → IsOwn env owner n u → IsOwn env owner n (count_failure env now u).0
  unfolding count_failure
  counted-IsOwn now u w =
      elim (Bool-cases (leb env.settings.lockout_threshold (u.failed_attempts + 1))) [
        | inl e ↦ rw e w
        | inr e ↦ rw e w
      ]

  renamed-IsOwn :
      (u : User) (name : Option String) → IsOwn env owner n u → IsOwn env owner n (rename name u)
  unfolding rename
  renamed-IsOwn u none w = w
  renamed-IsOwn u (some name) w = w

  pub IsOwn-Kept : Kept env (IsOwn env owner n)
  IsOwn-Kept = record {
    counted = counted-IsOwn;
    forgiven = λ u until at w. w;
    rehashed = λ u h changed d w. w;
    switched = λ u active at e w. w;
    appointed = λ u role is_verified w. w;
    renamed = λ u name f w. renamed-IsOwn u name w;
  }

  stays-HasEmails :
      (s t : Session) → t.users ≡ s.users → s.step ≤ t.step → HasEmails s → HasEmails t
  stays-HasEmails s t e le h = record {
    own = rw e h.own;
    listed = rw e h.listed;
    later = omega (arith, le, h.later);
  }

  flush-HasEmails : (s : Session) → HasEmails s → HasEmails (flush_all s)
  unfolding Calls
  flush-HasEmails s h = record {
    own = (AllUsers-Benign (IsOwn env owner n)).flushes.after s h.own;
    listed = emails-flush s.users ∙ h.listed;
    later = h.later;
  }

  HasEmails-Benign : Benign HasEmails
  HasEmails-Benign = users-Benign stays-HasEmails flush-HasEmails

  pub issue_tokens-HasEmails :
      (u : User) (client : Client) → Preserves HasEmails (issue_tokens env u client)
  issue_tokens-HasEmails =
      issue_tokens-Preserves env HasEmails-Benign
        (adds_refresh_token stays-HasEmails flush-HasEmails)

  pub verification-HasEmails :
      (email : String) (client : Client)
      → Preserves HasEmails (request_email_verification env email client)
  verification-HasEmails =
      request_email_verification-Preserves env HasEmails-Benign
        (adds_email_token stays-HasEmails flush-HasEmails)

  pub reset-HasEmails :
      (email : String) (client : Client)
      → Preserves HasEmails (request_password_reset env email client)
  reset-HasEmails =
      request_password_reset-Preserves env HasEmails-Benign
        (adds_reset_token stays-HasEmails flush-HasEmails)

  write_user-HasEmails :
      (u : User) (s : Session) → IsOwn env owner n u → HasEmails s → HasEmails (write_user u s).1
  unfolding Calls
  write_user-HasEmails u s f h = record {
    own = write_user-AllUsers (IsOwn env owner n) u s f h.own;
    listed = emails-write u s.users f h.own ∙ h.listed;
    later = h.later;
  }

  pub HasEmails-Carries : Carries HasEmails (IsOwn env owner n)
  HasEmails-Carries = record {
    benign = HasEmails-Benign;
    finds = λ p. record {
      keeps = HasEmails-Benign.finds_user p;
      gives = λ s h. found-OnSome (IsOwn env owner n) p s h.own;
    };
    writes = λ u f. record { after = λ s h. write_user-HasEmails u s f h };
  }

  pub HasEmails-TakesStep : TakesStep HasEmails
  HasEmails-TakesStep s t h i = record { own = h.own; listed = h.listed; later = i.later }
