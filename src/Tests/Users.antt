-- ===== src/Tests/Users.antt =====
-- The theorems on the user service at concrete inputs.
use aiops_aws.Prelude.{
  take, ◌*◌, true, length, min, ◌-◌, ◌*◌, ◌+◌, ◌≡◌, ◌≤◌, refl, none, some, [], ◌∷◌, map, arith,
}
use aiops_aws.Outcome.{ok}
use aiops_aws.Models.{RefreshToken, User, UserRole, AuditEventType}
use aiops_aws.Database.Table.{write, select, flush}
use aiops_aws.Database.Session.{Session, Calls}
use aiops_aws.Users.{is_live_of, revoke_refresh_tokens}
use aiops_aws.Users.Profile.{change_password, deactivate_account}
use aiops_aws.Users.Admin.{AdminUserUpdateRequest, Field, admin_update_user}
use aiops_aws.Auth.Sessions.{is_live}
use aiops_aws.Users.Sessions.{revoke_session}
use aiops_aws.Users.Closing.{change_password-none_live, revoke_session-own}
use aiops_aws.Users.Revocation.{IsKeyed, expire, revoke_refresh_tokens-expire}
use aiops_aws.Users.LastAdmin.{
  admins, admin_update_user-keeps_admin, deactivate_account-one_admin_less,
}
use aiops_aws.Users.Listing.{UserQuery, list_users, clamp, first_page}
use aiops_aws.Users.Pages.{pages, matching, list_users-pages}
use aiops_aws.Tests.Concrete.{env-Laws, env}
use aiops_aws.Tests.Data.{here, saved, alice, root, begun}

begun-IsKeyed : IsKeyed begun.refresh_tokens
begun-IsKeyed = (
  (λ e. refl, (λ e. absurd (omega (arith, e)), tt)),
  (((λ e. absurd (omega (arith, e))), ((λ e. refl), tt)), tt),
)

revoke_refresh_tokens-expire_example :
    let (r, s') =
      revoke_refresh_tokens env 1 none none here AuditEventType.session_revoked
        "All sessions revoked" begun in
    (r ≡ ok 1)
    × (s'.refresh_tokens ≡ map (expire 1 21 20 none) begun.refresh_tokens)
    × (s'.users ≡ begun.users)
revoke_refresh_tokens-expire_example =
    revoke_refresh_tokens-expire env 1 none none here AuditEventType.session_revoked
      "All sessions revoked" begun (refl, (refl, tt)) begun-IsKeyed

change_password-none_live_example :
    let (r, s') = change_password env alice "pw" "new" here begun in
    (r ≡ ok tt)
    × (s'.users
        ≡ write
            (λ u. u.id)
            (record alice { password_hash = "new"; password_changed_at = some 21 })
            begun.users)
    × (select (is_live_of 1 30) (flush s'.refresh_tokens) ≡ [])
change_password-none_live_example =
    change_password-none_live env env-Laws alice "pw" "new" here begun 30 (refl, (refl, tt))
      begun-IsKeyed refl refl (omega arith)

revoke_session-own_example :
    (t : RefreshToken) × (t.id ≡ 7)
    × (t.user_id ≡ 1)
    × (is_live 20 t ≡ true)
    × ((revoke_session env alice 7 here begun).1.refresh_tokens
        ≡ write (λ t. t.id) (record t { revoked_at = some 20 }) begun.refresh_tokens)
unfolding revoke_session Calls
revoke_session-own_example =
    revoke_session-own env alice 7 here begun {u = tt} (refl, (refl, tt)) refl

-- a second administrator, who loses the role
abbrev demoted : User
demoted = record alice { role = UserRole.admin }

abbrev two_admins : Session
two_admins = record begun { users = saved (demoted ∷ root ∷ []) }

abbrev demotion : AdminUserUpdateRequest
demotion = record {
  display_name = Field.unset;
  role = Field.given (some UserRole.user);
  is_active = Field.unset;
  is_verified = Field.unset;
}

admin_update_user-keeps_admin_example :
    1 ≤ admins (flush (admin_update_user env root demoted demotion here two_admins).1.users)
unfolding admin_update_user Calls
admin_update_user-keeps_admin_example =
    admin_update_user-keeps_admin env root demoted demotion here two_admins alice
      (admin_update_user env root demoted demotion here two_admins).1 (refl, (refl, tt)) refl
      (omega arith) refl

-- The only administrator leaves.
deactivate_account-one_admin_less_example :
    ((deactivate_account env root here begun).0 ≡ ok tt)
    × (admins (flush (deactivate_account env root here begun).1.users) + 1 ≡ 1)
deactivate_account-one_admin_less_example =
    deactivate_account-one_admin_less env root here begun (refl, (refl, tt)) refl refl

abbrev all_users : UserQuery
all_users = record { page = 1; page_size = 1; search = none; role = none; is_active = none }

list_users-pages_example :
    ((list_users env all_users begun).1 ≡ length (matching env all_users begun))
    × (pages env all_users 2 begun ≡ take (2 * clamp 1) (matching env all_users begun))
    × (length (list_users env all_users begun).0
        ≡ min (clamp 1) ((list_users env all_users begun).1 - (first_page 1 - 1) * clamp 1))
    × (1 ≤ clamp 1)
    × (clamp 1 ≤ 100)
list_users-pages_example = list_users-pages env all_users 2 begun
