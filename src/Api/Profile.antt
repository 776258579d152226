-- ===== src/Api/Profile.antt =====
-- backend/api/user_profile.py: what signed-in users do to their own account.
use aiops_aws.Prelude.{ℕ, String, Bool, Option, List, map}
use aiops_aws.Outcome.{pure, gets, ◌>>=◌, ◌>>◌}
use aiops_aws.Models.{RefreshToken, AuditEventType, AuthAuditEvent}
use aiops_aws.Security.{Env}
use aiops_aws.Auth.{Client}
use aiops_aws.Users.Profile.{update_profile, change_password, deactivate_account}
use aiops_aws.Users.Sessions.{list_sessions, revoke_session, revoke_all_sessions}
use aiops_aws.Users.Listing.{get_user_activity}
use aiops_aws.Api.{Handler, in_session, commit, limit, limit_key, UserResponse, user_response}
use aiops_aws.Api.Dependencies.{get_current_user}

unfoldable pub patch_me : Env → Option String → Option String → Client → Handler UserResponse
unfolding in_session commit
patch_me env credentials display_name client = do
  user ← in_session (get_current_user env credentials)
  user' ← in_session (update_profile env user display_name client)
  commit
  pure (user_response user')

unfoldable pub change_password_me : Env → Option String → String → String → Client → Handler String
unfolding in_session commit limit
change_password_me env credentials current_password new_password client = do
  user ← in_session (get_current_user env credentials)
  limit env (limit_key "change-password" client user.email)
  in_session (change_password env user current_password new_password client)
  commit
  pure "Password changed successfully. Please sign in again."

unfoldable pub deactivate_me : Env → Option String → Client → Handler String
unfolding in_session commit
deactivate_me env credentials client = do
  user ← in_session (get_current_user env credentials)
  in_session (deactivate_account env user client)
  commit
  pure "Account deactivated successfully"

pub record SessionResponse : Type 0 where
  pub id : ℕ
  pub created_at : ℕ
  pub expires_at : ℕ
  pub ip_address : Option String
  pub user_agent : Option String
  pub is_current : Bool

abbrev session_response : RefreshToken × Bool → SessionResponse
session_response (token, is_current) = record {
  id = token.id;
  created_at = token.created_at;
  expires_at = token.expires_at;
  ip_address = token.ip_address;
  user_agent = token.user_agent;
  is_current = is_current;
}

pub record SessionListResponse : Type 0 where
  pub items : List SessionResponse
  pub total : ℕ

unfoldable pub get_my_sessions : Env → Option String → Option String → Handler SessionListResponse
unfolding in_session
get_my_sessions env credentials refresh_token = do
  user ← in_session (get_current_user env credentials)
  found ← in_session (list_sessions env user refresh_token)
  pure (record { items = map session_response found.0; total = found.1 })

unfoldable pub delete_my_session : Env → Option String → ℕ → Client → Handler String
unfolding in_session commit
delete_my_session env credentials session_id client = do
  user ← in_session (get_current_user env credentials)
  in_session (revoke_session env user session_id client)
  commit
  pure "Session revoked successfully"

-- The number is what the message "Revoked … session(s)" is made from.
unfoldable pub revoke_all_my_sessions : Env → Option String → Option String → Client → Handler ℕ
unfolding in_session commit
revoke_all_my_sessions env credentials keep_refresh_token client = do
  user ← in_session (get_current_user env credentials)
  revoked ← in_session (revoke_all_sessions env user keep_refresh_token client)
  commit
  pure revoked

pub record ActivityEventResponse : Type 0 where
  pub id : ℕ
  pub event_type : AuditEventType
  pub detail : Option String
  pub ip_address : Option String
  pub created_at : ℕ

-- `ActivityEventResponse.model_validate(event)`
abbrev activity_event_response : AuthAuditEvent → ActivityEventResponse
activity_event_response event = record {
  id = event.id;
  event_type = event.event_type;
  detail = event.detail;
  ip_address = event.ip_address;
  created_at = event.created_at;
}

pub record ActivityListResponse : Type 0 where
  pub items : List ActivityEventResponse
  pub total : ℕ

unfoldable pub get_my_activity : Env → Option String → ℕ → Handler ActivityListResponse
unfolding in_session
get_my_activity env credentials limit = do
  user ← in_session (get_current_user env credentials)
  found ← in_session (gets (get_user_activity user limit))
  pure (record { items = map activity_event_response found.0; total = found.1 })
