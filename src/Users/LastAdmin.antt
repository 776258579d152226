-- ===== src/Users/LastAdmin.antt =====
-- backend/services/user_service.py: the guard of the last active administrator.
mod Changes
pub use Changes.{admins}
use aiops_aws.Prelude.{
  ℕ, ◌+◌, ◌≤◌, String, ◌≡◌, refl, inl, inr, ap, ◌∙◌, sym, subst, Bool, true, false, not, ◌&&◌,
  Option, none, some, [], ◌∷◌, length, arith, ◌==◌, leb, if◌then◌else◌, Bool-cases,
}
use aiops_aws.Outcome.{Result, ok, err, continue}
use aiops_aws.Models.{User, UserRole, AuditEventType, role_eq, is_admin}
use aiops_aws.Database.Table.{Table, select, written, write, flush}
use aiops_aws.Database.Rows.{IsClean}
use aiops_aws.Database.Counts.{write-write, length-select-write, count-write, rewritten}
use aiops_aws.Database.Session.{Session, Action, Calls}
use aiops_aws.Security.{Env}
use aiops_aws.Auth.{Client, audit}
use aiops_aws.Users.{revoke_refresh_tokens}
use aiops_aws.Users.RevokedRows.{revoke_each-eq, count_revoked}
use aiops_aws.Users.Revocation.{doomed}
use aiops_aws.Users.Profile.{rename, deactivate_active, deactivate_account}
use aiops_aws.Users.Admin.{
  verify, is_false, value, AdminUserUpdateRequest, is_active_admin, change_role, activate,
  deactivate, change_active, admin_update_user,
}
use aiops_aws.Users.LastAdmin.Changes.{
  Alters, Changed, branch, revoke_refresh_tokens-users, admin_update_user-Changed,
}

Alters-admins :
    (target u : User) (t t' : Table User)
    → IsClean t
    → select (λ x. x.id == target.id) t ≡ target ∷ []
    → 1 ≤ admins t
    → Alters target t u t'
    → 1 ≤ admins (flush t')
Alters-admins target u t t' c k n (same_id, rest, _, guard, written) =
    let e = sym (rest u same_id) ∙ written (rewritten (λ u. u.id) target t c k) in
    let m = count-write (λ u. u.id) is_active_admin u t {a = target} c same_id k in
    subst (λ x. 1 ≤ admins (flush x)) e
      (elim (Bool-cases (is_active_admin target)) [
        | inl on ↦ elim (Bool-cases (is_active_admin u)) [
          | inl on' ↦ ground (arith, m, n)
          | inr off' ↦ ground (arith, m, guard on off')
        ]
        | inr off ↦ ground (arith, m, n)
      ])

-- Where the row of `target` is the one with its id and nothing waits to be flushed, an update of
-- `target` by an administrator that does not raise leaves an active administrator in the database,
-- if there was one before.
pub admin_update_user-keeps_admin :
    (env : Env) (actor target : User) (payload : AdminUserUpdateRequest) (client : Client)
    (s : Session) (u : User) (s' : Session)
    → IsClean s.users
    → select (λ x. x.id == target.id) s.users ≡ target ∷ []
    → 1 ≤ admins s.users
    → admin_update_user env actor target payload client s ≡ (ok u, s')
    → 1 ≤ admins (flush s'.users)
admin_update_user-keeps_admin env actor target payload client s u s' c k n e =
    Alters-admins target u s.users s'.users c k n
      (subst (Changed target s) e (admin_update_user-Changed env actor target payload client s))

-- When an active administrator deactivates their own account, whose row is the one with its id and
-- with nothing to flush, the call succeeds and there is one active administrator less: the last
-- one can do it too.
pub deactivate_account-one_admin_less :
    (env : Env) (user : User) (client : Client) (s : Session)
    → IsClean s.users
    → select (λ x. x.id == user.id) s.users ≡ user ∷ []
    → is_active_admin user ≡ true
    → let (r, s') = deactivate_account env user client s in
      (r ≡ ok tt) × (admins (flush s'.users) + 1 ≡ admins s.users)
unfolding deactivate_account deactivate_active audit Calls
deactivate_account-one_admin_less env user client s c k on =
    let user' = record user { is_active = false; deactivated_at = some (env.clock s.step) } in
    let e =
      revoke_refresh_tokens-users env user.id none none client AuditEventType.account_deactivated
        "Account deactivated"
        (record s { users = write (λ u. u.id) user' s.users; step = s.step + 1 }) in
    let m = count-write (λ u. u.id) is_active_admin user' s.users {a = user} c refl k in
    branch
      (λ (m : Session → Result (Unit {0}) × Session).
        ((m s).0 ≡ ok tt) × (admins (flush (m s).1.users) + 1 ≡ admins s.users))
      user.is_active
      (λ active. rw e.0 (refl, ap (λ t. admins (flush t) + 1) e.1 ∙ ground (arith, m, on)))
      (λ idle. absurd (ground (arith, on, idle)))
