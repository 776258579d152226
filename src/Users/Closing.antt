-- ===== src/Users/Closing.antt =====
-- backend/services/user_service.py: which sessions a user closes.
use aiops_aws.Prelude.{
  ℕ, ◌+◌, ◌≤◌, String, ◌≡◌, refl, ap, ◌∙◌, Bool, true, false, ◌&&◌, none, some, [], ◌∷◌, map, arith,
  Answer, answer, str_eq, ◌==◌,
}
use aiops_aws.Outcome.{ok}
use aiops_aws.Models.{User, RefreshToken, AuditEventType}
use aiops_aws.Database.Table.{Table, select, write, flush}
use aiops_aws.Database.Rows.{IsClean}
use aiops_aws.Database.Session.{Session, Calls}
use aiops_aws.Security.{Env, Laws, verify_password}
use aiops_aws.Auth.{Client, audit}
use aiops_aws.Auth.Sessions.{is_live}
use aiops_aws.Users.{is_live_of}
use aiops_aws.Users.Profile.{change_password}
use aiops_aws.Users.Sessions.{revoke_session}
use aiops_aws.Users.Revocation.{IsKeyed, expire, revoke_refresh_tokens-expire}

select-satisfied :
    {A : Type 0} (p : A → Bool) (t : Table A) (a : A) → IsClean t → select p t ≡ a ∷ [] → p a ≡ true
select-satisfied p [] a c e = cc
select-satisfied p (r ∷ t) a c e = ground (arith, select-satisfied p t a c.1)

-- In a session that begins, a user closes a session only by its id and only if it is theirs and
-- live; then the rows with its id hold its token, marked as revoked at the time of the call, and
-- no other row changes.
pub revoke_session-own :
    (env : Env) (user : User) (session_id : ℕ) (client : Client) (s : Session) {u : Unit {0}}
    → IsClean s.refresh_tokens
    → (revoke_session env user session_id client s).0 ≡ ok u
    → (t : RefreshToken) × (t.id ≡ session_id)
      × (t.user_id ≡ user.id)
      × (is_live (env.clock s.step) t ≡ true)
      × ((revoke_session env user session_id client s).1.refresh_tokens
          ≡ write (λ t. t.id) (record t { revoked_at = some (env.clock s.step) }) s.refresh_tokens)
unfolding revoke_session Calls
revoke_session-own env user session_id client s c e =
    let own : RefreshToken → Bool =
      λ t. t.id == session_id && (t.user_id == user.id && is_live (env.clock s.step) t) in
    elim (answer (select own s.refresh_tokens)) [
      | Answer.absent a ↦ absurd (ground (arith, a, e))
      | Answer.several a b r m ↦ absurd (ground (arith, m, e))
      | Answer.single t one ↦
          let sat = select-satisfied own s.refresh_tokens t c one in
          (t, ground (arith, sat), ground (arith, sat), ground (arith, sat), rw one refl)
    ]

-- No token of the user is live once all were marked as revoked.
expire-none_live :
    (user_id live_at now later : ℕ) (t : Table RefreshToken)
    → IsClean t
    → live_at ≤ later
    → select (is_live_of user_id later) (flush (map (expire user_id live_at now none) t)) ≡ []
expire-none_live user_id live_at now later [] c h = refl
expire-none_live user_id live_at now later (r ∷ t) c h =
    ground (arith, expire-none_live user_id live_at now later t c.1 h)

-- With the right current password and a different new one, in a session that begins and whose ids
-- are a key, the change of a password succeeds, stores the hash of the new one, and leaves no live
-- refresh token of the user, now or later.
pub change_password-none_live :
    (env : Env) (laws : Laws env) (user : User) (current_password new_password : String)
    (client : Client) (s : Session) (n : ℕ)
    → IsClean s.refresh_tokens
    → IsKeyed s.refresh_tokens
    → verify_password env current_password user.password_hash ≡ true
    → str_eq current_password new_password ≡ false
    → s.step + 3 ≤ n
    → let (r, s') = change_password env user current_password new_password client s in
      (r ≡ ok tt)
      × (s'.users
          ≡ write
              (λ u. u.id)
              (record user {
                password_hash = env.password_digest s.step new_password;
                password_changed_at = some (env.clock (s.step + 1));
              })
              s.users)
      × (select (is_live_of user.id (env.clock n)) (flush s'.refresh_tokens) ≡ [])
unfolding change_password audit Calls
change_password-none_live env laws user current_password new_password client s n c k right other
      later =
    let user' = record user {
      password_hash = env.password_digest s.step new_password;
      password_changed_at = some (env.clock (s.step + 1));
    } in
    let e =
      revoke_refresh_tokens-expire env user.id none none client AuditEventType.session_revoked
        "Sessions revoked after password change"
        (record s { users = write (λ u. u.id) user' s.users; step = s.step + 1 + 1 }) c k in
    let mono = laws.clock_mono (s.step + 1 + 1 + 1) n (omega (arith, later)) in
    rw (right, other, e.0)
      (
        refl,
        e.2,
        ap (λ t. select (is_live_of user.id (env.clock n)) (flush t)) e.1
            ∙ expire-none_live user.id (env.clock (s.step + 1 + 1 + 1)) (env.clock (s.step + 1 + 1))
                (env.clock n) s.refresh_tokens c mono,
      )
