-- ===== src/Api/Endpoints.antt =====
-- The endpoints of the account service as one type of calls, and a server that answers one call
-- after the other: what the routers of backend/main.py put together. The results' values are
-- dropped: an answer is the status 200 or that of the error.
use aiops_aws.Prelude.{ℕ, String, Option, List, [], ◌∷◌}
use aiops_aws.Outcome.{Result, ok, err, status, ◌>>=◌, pure}
use aiops_aws.Security.{Env}
use aiops_aws.Auth.{Client}
use aiops_aws.Users.Admin.{AdminUserUpdateRequest}
use aiops_aws.Users.Listing.{UserQuery}
use aiops_aws.Api.{Handler, Server, serve}
use aiops_aws.Api.Auth
use aiops_aws.Api.Profile
use aiops_aws.Api.Users

pub data Call : Type 0 where
  register login_user : String → String → Client → Call
  refresh logout_user : String → Client → Call
  verify_email_request verify_email_confirm : String → Client → Call
  password_reset_request : String → Client → Call
  password_reset_confirm : String → String → Client → Call
  get_me admin_only : Option String → Call
  patch_me : Option String → Option String → Client → Call
  change_password_me : Option String → String → String → Client → Call
  deactivate_me : Option String → Client → Call
  get_my_sessions : Option String → Option String → Call
  delete_my_session : Option String → ℕ → Client → Call
  revoke_all_my_sessions : Option String → Option String → Client → Call
  get_my_activity : Option String → ℕ → Call
  get_users : Option String → UserQuery → Call
  get_user : Option String → ℕ → Call
  patch_user : Option String → ℕ → AdminUserUpdateRequest → Client → Call
  unlock_user revoke_user_sessions deactivate_user : Option String → ℕ → Client → Call

abbrev drop {ℓ} : {A : Type ℓ} → Handler A → Handler (Unit {0})
drop h = h >>= λ _. pure tt

unfoldable pub handler : Env → Call → Handler (Unit {0})
handler env (Call.register email password client) = drop (Auth.register env email password client)
handler env (Call.login_user email password client) =
    drop (Auth.login_user env email password client)
handler env (Call.refresh token client) = drop (Auth.refresh env token client)
handler env (Call.logout_user token client) = drop (Auth.logout_user env token client)
handler env (Call.verify_email_request email client) =
    drop (Auth.verify_email_request env email client)
handler env (Call.verify_email_confirm token client) =
    drop (Auth.verify_email_confirm env token client)
handler env (Call.password_reset_request email client) =
    drop (Auth.password_reset_request env email client)
handler env (Call.password_reset_confirm token password client) =
    drop (Auth.password_reset_confirm env token password client)
handler env (Call.get_me cred) = drop (Auth.get_me env cred)
handler env (Call.admin_only cred) = drop (Auth.admin_only env cred)
handler env (Call.patch_me cred name client) = drop (Profile.patch_me env cred name client)
handler env (Call.change_password_me cred old new client) =
    drop (Profile.change_password_me env cred old new client)
handler env (Call.deactivate_me cred client) = drop (Profile.deactivate_me env cred client)
handler env (Call.get_my_sessions cred token) = drop (Profile.get_my_sessions env cred token)
handler env (Call.delete_my_session cred id client) =
    drop (Profile.delete_my_session env cred id client)
handler env (Call.revoke_all_my_sessions cred keep client) =
    drop (Profile.revoke_all_my_sessions env cred keep client)
handler env (Call.get_my_activity cred limit) = drop (Profile.get_my_activity env cred limit)
handler env (Call.get_users cred query) = drop (Users.get_users env cred query)
handler env (Call.get_user cred id) = drop (Users.get_user env cred id)
handler env (Call.patch_user cred id payload client) =
    drop (Users.patch_user env cred id payload client)
handler env (Call.unlock_user cred id client) = drop (Users.unlock_user env cred id client)
handler env (Call.revoke_user_sessions cred id client) =
    drop (Users.revoke_user_sessions env cred id client)
handler env (Call.deactivate_user cred id client) = drop (Users.deactivate_user env cred id client)

abbrev pub answer : Env → Call → Server → Result (Unit {0}) × Server
answer env call server = serve (handler env call) server

abbrev pub status_of : Result (Unit {0}) → ℕ
status_of (ok u) = 200
status_of (err e) = status e

-- the server after a list of calls
unfoldable pub serve_all : Env → List Call → Server → Server
unfolding serve
serve_all env [] server = server
serve_all env (call ∷ calls) server = serve_all env calls (answer env call server).1
