-- ===== src/Database/Grows/Calls.antt =====
-- The calls that the services are made of, for Database.Grows.
use aiops_aws.Prelude.{ℕ, ◌≡◌, refl, Bool, false, some, List, [], ◌∷◌, arith}
use aiops_aws.Outcome.{Result, scalar_one_or_none}
use aiops_aws.Outcome.Preserves.{Preserves}
use aiops_aws.Models.{
  User, RefreshToken, EmailVerificationToken, PasswordResetToken, AuthAuditEvent,
}
use aiops_aws.Database.Table.{select}
use aiops_aws.Database.Session.{
  Session, Calls, find_user, write_user, add_user, find_refresh_token, write_refresh_token,
  add_refresh_token, find_email_token, write_email_token, add_email_token, find_reset_token,
  write_reset_token, add_reset_token, add_audit_event, tick, flush_session,
}
use aiops_aws.Database.Benign.{Benign, benign_rules}
use aiops_aws.Database.Grows.{
  KeepsSpent-insert, KeepsSpent-write, IsExtended-insert, Grows, Grows-refl, Grows-trans,
  Grows-flush_all, is_set,
}

grows {ℓ} :
    {A : Type ℓ} {s₀ : Session} (m : Session → Result A × Session)
    → ((s : Session) → Grows s (m s).1)
    → Preserves (Grows s₀) m
grows m g = record { after = λ s h. Grows-trans h (g s) }

state-scalar_one_or_none {ℓ} :
    {A : Type ℓ} (l : List A) (s : Session) → (scalar_one_or_none l s).1 ≡ s
unfolding scalar_one_or_none
state-scalar_one_or_none [] s = refl
state-scalar_one_or_none (a ∷ []) s = refl
state-scalar_one_or_none (a ∷ b ∷ l) s = refl

found {ℓ} : {A : Type ℓ} (l : List A) (s : Session) → Grows s (scalar_one_or_none l s).1
found l s = rw (state-scalar_one_or_none l s) (Grows-refl s)

module _ {s₀ : Session} where
  pub tick-Grows {ℓ} : {A : Type ℓ} (source : ℕ → A) → Preserves (Grows s₀) (tick source)
  unfolding tick
  tick-Grows source = grows (tick source) (λ s. ground (arith, Grows-refl s))

  pub find_user-Grows : (p : User → Bool) → Preserves (Grows s₀) (find_user p)
  unfolding find_user
  find_user-Grows p = grows (find_user p) (λ s. found (select p s.users) s)

  pub find_refresh_token-Grows :
      (p : RefreshToken → Bool) → Preserves (Grows s₀) (find_refresh_token p)
  unfolding find_refresh_token
  find_refresh_token-Grows p =
      grows (find_refresh_token p) (λ s. found (select p s.refresh_tokens) s)

  pub find_email_token-Grows :
      (p : EmailVerificationToken → Bool) → Preserves (Grows s₀) (find_email_token p)
  unfolding find_email_token
  find_email_token-Grows p = grows (find_email_token p) (λ s. found (select p s.email_tokens) s)

  pub find_reset_token-Grows :
      (p : PasswordResetToken → Bool) → Preserves (Grows s₀) (find_reset_token p)
  unfolding find_reset_token
  find_reset_token-Grows p = grows (find_reset_token p) (λ s. found (select p s.reset_tokens) s)

  pub write_user-Grows : (u : User) → Preserves (Grows s₀) (write_user u)
  unfolding Calls
  write_user-Grows u = grows (write_user u) λ s.
      ground (arith, Grows-refl s, KeepsSpent-write (λ u. u.id) (λ u. false) u s.users (λ x h. h))

  pub add_user-Grows : (u : User) → Preserves (Grows s₀) (add_user u)
  unfolding Calls
  add_user-Grows u =
      grows (add_user u)
        λ s. ground (arith, Grows-refl s, KeepsSpent-insert (λ u. u.id) (λ u. false) u s.users)

  pub revoke-Grows :
      (t : RefreshToken) (now : ℕ)
      → Preserves (Grows s₀) (write_refresh_token (record t { revoked_at = some now }))
  unfolding Calls
  revoke-Grows t now = grows (write_refresh_token (record t { revoked_at = some now })) λ s.
      ground (
        arith,
        Grows-refl s,
        KeepsSpent-write (λ t. t.id) (λ t. is_set t.revoked_at) (record t { revoked_at = some now })
            s.refresh_tokens (λ x h. refl),
      )

  pub add_refresh_token-Grows : (t : RefreshToken) → Preserves (Grows s₀) (add_refresh_token t)
  unfolding Calls
  add_refresh_token-Grows t = grows (add_refresh_token t) λ s. ground (
    arith,
    Grows-refl s,
    KeepsSpent-insert (λ t. t.id) (λ t. is_set t.revoked_at) t s.refresh_tokens,
  )

  pub use_email-Grows :
      (t : EmailVerificationToken) (now : ℕ)
      → Preserves (Grows s₀) (write_email_token (record t { used_at = some now }))
  unfolding Calls
  use_email-Grows t now = grows (write_email_token (record t { used_at = some now })) λ s. ground (
    arith,
    Grows-refl s,
    KeepsSpent-write (λ t. t.id) (λ t. is_set t.used_at) (record t { used_at = some now })
        s.email_tokens (λ x h. refl),
  )

  pub add_email_token-Grows :
      (t : EmailVerificationToken) → Preserves (Grows s₀) (add_email_token t)
  unfolding Calls
  add_email_token-Grows t = grows (add_email_token t) λ s.
      ground (
        arith,
        Grows-refl s,
        KeepsSpent-insert (λ t. t.id) (λ t. is_set t.used_at) t s.email_tokens,
      )

  pub use_reset-Grows :
      (t : PasswordResetToken) (now : ℕ)
      → Preserves (Grows s₀) (write_reset_token (record t { used_at = some now }))
  unfolding Calls
  use_reset-Grows t now = grows (write_reset_token (record t { used_at = some now })) λ s. ground (
    arith,
    Grows-refl s,
    KeepsSpent-write (λ t. t.id) (λ t. is_set t.used_at) (record t { used_at = some now })
        s.reset_tokens (λ x h. refl),
  )

  pub add_reset_token-Grows : (t : PasswordResetToken) → Preserves (Grows s₀) (add_reset_token t)
  unfolding Calls
  add_reset_token-Grows t = grows (add_reset_token t) λ s.
      ground (
        arith,
        Grows-refl s,
        KeepsSpent-insert (λ t. t.id) (λ t. is_set t.used_at) t s.reset_tokens,
      )

  pub add_audit_event-Grows : (e : AuthAuditEvent) → Preserves (Grows s₀) (add_audit_event e)
  unfolding Calls
  add_audit_event-Grows e =
      grows (add_audit_event e)
        λ s. ground (arith, Grows-refl s, IsExtended-insert e s.audit_events)

  pub flush_session-Grows : Preserves (Grows s₀) flush_session
  unfolding Calls
  flush_session-Grows = grows flush_session Grows-flush_all

pub Grows-Benign : {s₀ : Session} → Benign (Grows s₀)
Grows-Benign = record {
  ticks = tick-Grows;
  finds_user = find_user-Grows;
  finds_refresh = find_refresh_token-Grows;
  finds_email = find_email_token-Grows;
  finds_reset = find_reset_token-Grows;
  revokes = revoke-Grows;
  uses_email = use_email-Grows;
  uses_reset = use_reset-Grows;
  adds_event = add_audit_event-Grows;
  flushes = flush_session-Grows;
}

pub ruleset grows_rules = (benign_rules, Grows-Benign, write_user-Grows, add_user-Grows)
