-- ===== src/Database/Grows.antt =====
-- A relation of two sessions: the later one has kept the rows of the earlier one, its log, and
-- which tokens were revoked or used.
pub mod Calls
use aiops_aws.Prelude.{
  ℕ, ◌+◌, ◌≤◌, ◌≡◌, refl, ◌∙◌, Bool, true, false, Option, none, some, List, [], ◌∷◌, ◌++◌, arith,
  ◌==◌, if◌then◌else◌,
}
use aiops_aws.Outcome.{Result, ok, err, modify, scalar_one_or_none, ◌>>=◌}
use aiops_aws.Outcome.Preserves.{Preserves}
use aiops_aws.Models.{
  User, RefreshToken, EmailVerificationToken, PasswordResetToken, AuthAuditEvent,
}
use aiops_aws.Database.Table.{Row, Table, select, insert, written, write, flush}
use aiops_aws.Database.Session.{Session, flush_all}

module _ {A : Type 0} (key : A → ℕ) (spent : A → Bool) where
  -- Row by row the same keys, and what was spent is still spent; rows may have been added.
  abbrev pub KeepsSpent : Table A → Table A → Type 0
  KeepsSpent [] t' = Unit
  KeepsSpent (r ∷ t) [] = ⊥
  KeepsSpent (r ∷ t) (r' ∷ t') =
      (key r'.object ≡ key r.object)
      × (spent r.object ≡ true → spent r'.object ≡ true)
      × KeepsSpent t t'

  pub KeepsSpent-refl : (t : Table A) → KeepsSpent t t
  KeepsSpent-refl [] = tt
  KeepsSpent-refl (r ∷ t) = (refl, λ h. h, KeepsSpent-refl t)

  pub KeepsSpent-trans : (t u v : Table A) → KeepsSpent t u → KeepsSpent u v → KeepsSpent t v
  KeepsSpent-trans [] u v h k = tt
  KeepsSpent-trans (a ∷ t) [] v h k = absurd h
  KeepsSpent-trans (a ∷ t) (b ∷ u) [] h k = absurd k
  KeepsSpent-trans (a ∷ t) (b ∷ u) (c ∷ v) h k =
      (k.0 ∙ h.0, λ e. k.1 (h.1 e), KeepsSpent-trans t u v h.2 k.2)

  pub KeepsSpent-insert : (a : A) (t : Table A) → KeepsSpent t (insert a t)
  KeepsSpent-insert a [] = tt
  KeepsSpent-insert a (r ∷ t) = (refl, λ h. h, KeepsSpent-insert a t)

  pub KeepsSpent-flush : (t : Table A) → KeepsSpent t (flush t)
  KeepsSpent-flush [] = tt
  KeepsSpent-flush (r ∷ t) = (refl, λ h. h, KeepsSpent-flush t)

  -- Writing an object that is spent, where nothing is ever spent or the object is, loses nothing.
  pub KeepsSpent-write :
      (a : A) (t : Table A)
      → ((x : A) → spent x ≡ true → spent a ≡ true)
      → KeepsSpent t (write key a t)
  KeepsSpent-write a [] h = tt
  KeepsSpent-write a (r ∷ t) h = ground (arith, h r.object, KeepsSpent-write a t h)

module _ {A : Type 0} where
  -- The objects of the first table are the first objects of the second.
  abbrev pub IsExtended : Table A → Table A → Type 0
  IsExtended [] t' = Unit
  IsExtended (r ∷ t) [] = ⊥
  IsExtended (r ∷ t) (r' ∷ t') = (r'.object ≡ r.object) × IsExtended t t'

  pub IsExtended-refl : (t : Table A) → IsExtended t t
  IsExtended-refl [] = tt
  IsExtended-refl (r ∷ t) = (refl, IsExtended-refl t)

  pub IsExtended-trans : (t u v : Table A) → IsExtended t u → IsExtended u v → IsExtended t v
  IsExtended-trans [] u v h k = tt
  IsExtended-trans (a ∷ t) [] v h k = absurd h
  IsExtended-trans (a ∷ t) (b ∷ u) [] h k = absurd k
  IsExtended-trans (a ∷ t) (b ∷ u) (c ∷ v) h k = (k.0 ∙ h.0, IsExtended-trans t u v h.1 k.1)

  pub IsExtended-insert : (a : A) (t : Table A) → IsExtended t (insert a t)
  IsExtended-insert a [] = tt
  IsExtended-insert a (r ∷ t) = (refl, IsExtended-insert a t)

  pub IsExtended-flush : (t : Table A) → IsExtended t (flush t)
  IsExtended-flush [] = tt
  IsExtended-flush (r ∷ t) = (refl, IsExtended-flush t)

abbrev pub is_set : Option ℕ → Bool
is_set none = false
is_set (some t) = true

pub record Grows (s s' : Session) : Type 0 where
  pub step : s.step ≤ s'.step
  pub users : KeepsSpent (λ u. u.id) (λ u. false) s.users s'.users
  pub refresh : KeepsSpent (λ t. t.id) (λ t. is_set t.revoked_at) s.refresh_tokens s'.refresh_tokens
  pub email : KeepsSpent (λ t. t.id) (λ t. is_set t.used_at) s.email_tokens s'.email_tokens
  pub reset : KeepsSpent (λ t. t.id) (λ t. is_set t.used_at) s.reset_tokens s'.reset_tokens
  pub audit : IsExtended s.audit_events s'.audit_events

pub Grows-refl : (s : Session) → Grows s s
Grows-refl s = record {
  step = omega arith;
  users = KeepsSpent-refl (λ u. u.id) (λ u. false) s.users;
  refresh = KeepsSpent-refl (λ t. t.id) (λ t. is_set t.revoked_at) s.refresh_tokens;
  email = KeepsSpent-refl (λ t. t.id) (λ t. is_set t.used_at) s.email_tokens;
  reset = KeepsSpent-refl (λ t. t.id) (λ t. is_set t.used_at) s.reset_tokens;
  audit = IsExtended-refl s.audit_events;
}

pub Grows-trans : {s t u : Session} → Grows s t → Grows t u → Grows s u
Grows-trans {s} {t} {u} h k = record {
  step = omega arith;
  users = KeepsSpent-trans (λ u. u.id) (λ u. false) s.users t.users u.users h.users k.users;
  refresh =
      KeepsSpent-trans (λ t. t.id) (λ t. is_set t.revoked_at) s.refresh_tokens t.refresh_tokens
        u.refresh_tokens h.refresh k.refresh;
  email =
      KeepsSpent-trans (λ t. t.id) (λ t. is_set t.used_at) s.email_tokens t.email_tokens
        u.email_tokens h.email k.email;
  reset =
      KeepsSpent-trans (λ t. t.id) (λ t. is_set t.used_at) s.reset_tokens t.reset_tokens
        u.reset_tokens h.reset k.reset;
  audit = IsExtended-trans s.audit_events t.audit_events u.audit_events h.audit k.audit;
}

pub Grows-flush_all : (s : Session) → Grows s (flush_all s)
Grows-flush_all s = record {
  step = omega arith;
  users = KeepsSpent-flush (λ u. u.id) (λ u. false) s.users;
  refresh = KeepsSpent-flush (λ t. t.id) (λ t. is_set t.revoked_at) s.refresh_tokens;
  email = KeepsSpent-flush (λ t. t.id) (λ t. is_set t.used_at) s.email_tokens;
  reset = KeepsSpent-flush (λ t. t.id) (λ t. is_set t.used_at) s.reset_tokens;
  audit = IsExtended-flush s.audit_events;
}
