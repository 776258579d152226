-- ===== src/Api/Dependencies.antt =====
-- backend/api/dependencies.py: who may call an endpoint.
use aiops_aws.Prelude.{ℕ, String, not, Option, none, some, ◌==◌, if◌then◌else◌}
use aiops_aws.Outcome.{pure, raise, raise_if, ◌>>=◌, ◌>>◌}
use aiops_aws.Models.{User, UserRole, role_eq}
use aiops_aws.Database.Session.{Action, find_user}
use aiops_aws.Security.{Env, Payload, decode_access_token, matches, parse_uuid}

unfoldable pub active_or_401 : Option User → Action User
active_or_401 none = raise 401 "User is not active"
active_or_401 (some user) = if user.is_active then pure user else raise 401 "User is not active"

unfoldable pub user_with_id : Option ℕ → Action User
unfolding active_or_401
user_with_id none = raise 401 "Invalid access token"
user_with_id (some parsed_user_id) = do
  user ← find_user (λ u. u.id == parsed_user_id)
  active_or_401 user

unfoldable pub user_of_payload : Env → Option Payload → Action User
unfolding user_with_id
user_of_payload env none = raise 401 "Invalid access token"
user_of_payload env (some payload) = do
  raise_if (not (matches payload.type "access")) 401 "Invalid token type"
  user_with_id (parse_uuid env payload.sub)

unfoldable pub get_current_user : Env → Option String → Action User
unfolding user_of_payload
get_current_user env none = raise 401 "Missing authorization token"
get_current_user env (some credentials) = do
  payload ← decode_access_token env credentials
  user_of_payload env payload

unfoldable pub require_role : Env → UserRole → Option String → Action User
require_role env role credentials = do
  user ← get_current_user env credentials
  raise_if (not (role_eq user.role role)) 403 "Insufficient permissions"
  pure user
