-- ===== src/Api/Users.antt =====
-- backend/api/users.py: the administrators' endpoints.
use aiops_aws.Prelude.{ℕ, String, false, Option, some, List, map}
use aiops_aws.Outcome.{pure, gets, ◌>>=◌, ◌>>◌}
use aiops_aws.Models.{UserRole}
use aiops_aws.Security.{Env}
use aiops_aws.Auth.{Client}
use aiops_aws.Users.Admin.{
  AdminUserUpdateRequest, unset, given, admin_update_user, admin_unlock_user, admin_revoke_sessions,
  get_user_by_id,
}
use aiops_aws.Users.Listing.{UserQuery, list_users}
use aiops_aws.Api.{Handler, in_session, commit, UserResponse, user_response}
use aiops_aws.Api.Dependencies.{require_role}

pub record UserListResponse : Type 0 where
  pub items : List UserResponse
  pub total : ℕ
  pub page : ℕ
  pub page_size : ℕ

unfoldable pub get_users : Env → Option String → UserQuery → Handler UserListResponse
unfolding in_session
get_users env credentials query = do
  in_session (require_role env UserRole.admin credentials)
  found ← in_session (gets (list_users env query))
  pure (record {
    items = map user_response found.0;
    total = found.1;
    page = query.page;
    page_size = query.page_size;
  })

unfoldable pub get_user : Env → Option String → ℕ → Handler UserResponse
unfolding in_session
get_user env credentials user_id = do
  in_session (require_role env UserRole.admin credentials)
  user ← in_session (get_user_by_id user_id)
  pure (user_response user)

unfoldable pub patch_user :
    Env → Option String → ℕ → AdminUserUpdateRequest → Client → Handler UserResponse
unfolding in_session commit
patch_user env credentials user_id payload client = do
  actor ← in_session (require_role env UserRole.admin credentials)
  target ← in_session (get_user_by_id user_id)
  target' ← in_session (admin_update_user env actor target payload client)
  commit
  pure (user_response target')

unfoldable pub unlock_user : Env → Option String → ℕ → Client → Handler UserResponse
unfolding in_session commit
unlock_user env credentials user_id client = do
  actor ← in_session (require_role env UserRole.admin credentials)
  target ← in_session (get_user_by_id user_id)
  target' ← in_session (admin_unlock_user env actor target client)
  commit
  pure (user_response target')

-- The number is what the message "Revoked … session(s)" is made from.
unfoldable pub revoke_user_sessions : Env → Option String → ℕ → Client → Handler ℕ
unfolding in_session commit
revoke_user_sessions env credentials user_id client = do
  actor ← in_session (require_role env UserRole.admin credentials)
  target ← in_session (get_user_by_id user_id)
  revoked ← in_session (admin_revoke_sessions env actor target client)
  commit
  pure revoked

-- `AdminUserUpdateRequest(is_active=False)`
abbrev pub deactivation : AdminUserUpdateRequest
deactivation = record {
  display_name = unset;
  role = unset;
  is_active = given (some false);
  is_verified = unset;
}

unfoldable pub deactivate_user : Env → Option String → ℕ → Client → Handler UserResponse
unfolding in_session commit
deactivate_user env credentials user_id client = do
  actor ← in_session (require_role env UserRole.admin credentials)
  target ← in_session (get_user_by_id user_id)
  target' ← in_session (admin_update_user env actor target deactivation client)
  commit
  pure (user_response target')
