-- ===== src/Database/Accounts.antt =====
-- A predicate that all accounts of a session have, as stored and as the session's objects are.
use aiops_aws.Prelude.{arith, ◌≤◌, ◌≡◌, refl, Bool, List, [], ◌∷◌, All}
use aiops_aws.Outcome.{scalar_one_or_none}
use aiops_aws.Outcome.Preserves.{Preserves}
use aiops_aws.Outcome.Yields.{Yields, OnOk, OnSome}
use aiops_aws.Models.{User, RefreshToken, EmailVerificationToken, PasswordResetToken}
use aiops_aws.Database.Table.{select}
use aiops_aws.Database.AllRows.{RowHas, flush-All, write-All, insert-All, select-All}
use aiops_aws.Database.Session.{
  Session, Calls, Action, flush_all, find_user, write_user, add_user, add_refresh_token,
  add_email_token, add_reset_token,
}
use aiops_aws.Database.Benign.{Benign}

-- What is needed of an invariant of sessions to follow accounts through calls: an account that is
-- found has `F`, and one that has `F` may be written.
pub record Carries (P : Session → Type 0) (F : User → Type 0) : Type 1 where
  pub benign : Benign P
  pub finds : (p : User → Bool) → Yields P (OnSome F) (find_user p)
  pub writes : (u : User) → F u → Preserves P (write_user u)

pub state-scalar {ℓ} : {A : Type ℓ} (l : List A) (s : Session) → (scalar_one_or_none l s).1 ≡ s
unfolding scalar_one_or_none
state-scalar [] s = refl
state-scalar (a ∷ []) s = refl
state-scalar (a ∷ b ∷ l) s = refl

-- An invariant that reads the accounts and the count of steps only, and lets time pass.
module _ {P : Session → Type 0}
    (stays : (s t : Session) → t.users ≡ s.users → s.step ≤ t.step → P s → P t)
    (flushed : (s : Session) → P s → P (flush_all s)) where
  steady {ℓ} :
      {A : Type ℓ} (m : Action A)
      → ((s : Session) → ((m s).1.users ≡ s.users) × (s.step ≤ (m s).1.step))
      → Preserves P m
  steady m e = record { after = λ s h. stays s _ (e s).0 (e s).1 h }

  looks {ℓ} : {A : Type ℓ} (l : Session → List A) → Preserves P (λ s. scalar_one_or_none (l s) s)
  looks l = record { after = λ s h. rw (state-scalar (l s) s) h }

  pub users-Benign : Benign P
  unfolding Calls
  users-Benign = record {
    ticks = λ source. steady _ (λ s. (refl, omega arith));
    finds_user = λ p. looks (λ s. select p s.users);
    finds_refresh = λ p. looks (λ s. select p s.refresh_tokens);
    finds_email = λ p. looks (λ s. select p s.email_tokens);
    finds_reset = λ p. looks (λ s. select p s.reset_tokens);
    revokes = λ t now. steady _ (λ s. (refl, omega arith));
    uses_email = λ t now. steady _ (λ s. (refl, omega arith));
    uses_reset = λ t now. steady _ (λ s. (refl, omega arith));
    adds_event = λ e. steady _ (λ s. (refl, omega arith));
    flushes = record { after = λ s h. flushed s h };
  }

  pub adds_refresh_token : (t : RefreshToken) → Preserves P (add_refresh_token t)
  unfolding Calls
  adds_refresh_token t = steady _ (λ s. (refl, omega arith))

  pub adds_email_token : (t : EmailVerificationToken) → Preserves P (add_email_token t)
  unfolding Calls
  adds_email_token t = steady _ (λ s. (refl, omega arith))

  pub adds_reset_token : (t : PasswordResetToken) → Preserves P (add_reset_token t)
  unfolding Calls
  adds_reset_token t = steady _ (λ s. (refl, omega arith))

module _ (F : User → Type 0) where
  abbrev pub AllUsers : Session → Type 0
  AllUsers s = All (RowHas F) s.users

  one-OnSome : (l : List User) (s : Session) → All F l → OnOk (OnSome F) (scalar_one_or_none l s).0
  unfolding scalar_one_or_none
  one-OnSome [] s h = tt
  one-OnSome (u ∷ []) s h = h.0
  one-OnSome (u ∷ v ∷ l) s h = tt

  stays-AllUsers : (s t : Session) → t.users ≡ s.users → s.step ≤ t.step → AllUsers s → AllUsers t
  stays-AllUsers s t e le h = rw e h

  pub AllUsers-Benign : Benign AllUsers
  AllUsers-Benign = users-Benign stays-AllUsers (λ s h. flush-All F s.users h)

  pub AllUsers-adds_refresh : (t : RefreshToken) → Preserves AllUsers (add_refresh_token t)
  AllUsers-adds_refresh = adds_refresh_token stays-AllUsers (λ s h. flush-All F s.users h)

  pub AllUsers-adds_email : (t : EmailVerificationToken) → Preserves AllUsers (add_email_token t)
  AllUsers-adds_email = adds_email_token stays-AllUsers (λ s h. flush-All F s.users h)

  pub AllUsers-adds_reset : (t : PasswordResetToken) → Preserves AllUsers (add_reset_token t)
  AllUsers-adds_reset = adds_reset_token stays-AllUsers (λ s h. flush-All F s.users h)

  pub found-OnSome :
      (p : User → Bool) (s : Session) → AllUsers s → OnOk (OnSome F) (find_user p s).0
  unfolding find_user
  found-OnSome p s h = one-OnSome (select p s.users) s (select-All F p s.users h)

  pub write_user-AllUsers :
      (u : User) (s : Session) → F u → AllUsers s → AllUsers (write_user u s).1
  unfolding Calls
  write_user-AllUsers u s f h = write-All F (λ u. u.id) u s.users f h

  pub add_user-Preserves : (u : User) → F u → Preserves AllUsers (add_user u)
  unfolding Calls
  add_user-Preserves u f = record { after = λ s h. insert-All F u s.users f h }

  pub AllUsers-Carries : Carries AllUsers F
  AllUsers-Carries = record {
    benign = AllUsers-Benign;
    finds = λ p. record { keeps = AllUsers-Benign.finds_user p; gives = found-OnSome p };
    writes = λ u f. record { after = λ s h. write_user-AllUsers u s f h };
  }
