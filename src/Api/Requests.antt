-- ===== src/Api/Requests.antt =====
-- backend/api/: requests as they arrive, with what FastAPI does before an endpoint runs. It runs the
-- dependency that checks who signs in, and answers with its error where it raises; then it answers
-- with status 422 where the body or a parameter of the query is not valid; and only then it calls
-- the endpoint.
use aiops_aws.Prelude.{ℕ, String, Option, none, some, List, [], ◌∷◌}
use aiops_aws.Outcome.{Result, pure, raise, ◌>>◌}
use aiops_aws.Models.{UserRole}
use aiops_aws.Security.{Env}
use aiops_aws.Auth.{Client}
use aiops_aws.Users.Listing.{UserQuery}
use aiops_aws.Schemas.{
  Body, Pydantic, ◌>>=◌, credentials_of, refresh_request, verify_email_body, password_reset_body,
  verify_email_confirm_request, password_reset_confirm_request, user_update_me_request,
  change_password_request, revoke_all_sessions_request, admin_user_update_request, query_int,
  query_flag, query_role,
}
use aiops_aws.Api.{Handler, Server, serve, in_session}
use aiops_aws.Api.Dependencies.{get_current_user, require_role}
use aiops_aws.Api.Endpoints.{Call, answer}

-- the parameters of `get_users` that arrived
pub record UserParams : Type 0 where
  pub page : Option String
  pub page_size : Option String
  pub search : Option String
  pub role : Option String
  pub is_active : Option String

-- An endpoint with the credentials, the parts of the path, the parameters and the body that it
-- reads.
pub data Request : Type 0 where
  register login_user refresh logout_user verify_email_request verify_email_confirm
        password_reset_request password_reset_confirm :
      Body → Client → Request
  get_me admin_only : Option String → Request
  patch_me change_password_me revoke_all_my_sessions : Option String → Body → Client → Request
  deactivate_me : Option String → Client → Request
  get_my_sessions : Option String → Option String → Request
  delete_my_session : Option String → ℕ → Client → Request
  get_my_activity : Option String → Option String → Request
  get_users : Option String → UserParams → Request
  get_user : Option String → ℕ → Request
  patch_user : Option String → ℕ → Body → Client → Request
  unlock_user revoke_user_sessions deactivate_user : Option String → ℕ → Client → Request

abbrev pub query_of : Pydantic → UserParams → Option UserQuery
query_of p params = do
  page ← query_int p.int_of 1 1 none params.page
  page_size ← query_int p.int_of 20 1 (some 100) params.page_size
  role ← query_role params.role
  is_active ← query_flag p params.is_active
  some (record {
    page = page;
    page_size = page_size;
    search = params.search;
    role = role;
    is_active = is_active;
  })

-- the call of the endpoint, where pydantic accepts what arrived
unfoldable pub parse : Pydantic → Request → Option Call
parse p (Request.register body client) =
    credentials_of p body >>= λ c. some (Call.register c.email c.password client)
parse p (Request.login_user body client) =
    credentials_of p body >>= λ c. some (Call.login_user c.email c.password client)
parse p (Request.refresh body client) =
    refresh_request body >>= λ token. some (Call.refresh token client)
parse p (Request.logout_user body client) =
    refresh_request body >>= λ token. some (Call.logout_user token client)
parse p (Request.verify_email_request body client) =
    verify_email_body p body >>= λ email. some (Call.verify_email_request email client)
parse p (Request.verify_email_confirm body client) =
    verify_email_confirm_request body >>= λ token. some (Call.verify_email_confirm token client)
parse p (Request.password_reset_request body client) =
    password_reset_body p body >>= λ email. some (Call.password_reset_request email client)
parse p (Request.password_reset_confirm body client) = password_reset_confirm_request body >>= λ r.
    some (Call.password_reset_confirm r.token r.new_password client)
parse p (Request.get_me cred) = some (Call.get_me cred)
parse p (Request.admin_only cred) = some (Call.admin_only cred)
parse p (Request.patch_me cred body client) =
    user_update_me_request body >>= λ name. some (Call.patch_me cred name client)
parse p (Request.change_password_me cred body client) = change_password_request body >>= λ r.
    some (Call.change_password_me cred r.current_password r.new_password client)
parse p (Request.deactivate_me cred client) = some (Call.deactivate_me cred client)
parse p (Request.get_my_sessions cred token) = some (Call.get_my_sessions cred token)
parse p (Request.delete_my_session cred id client) = some (Call.delete_my_session cred id client)
parse p (Request.revoke_all_my_sessions cred body client) =
    revoke_all_sessions_request body >>= λ keep. some (Call.revoke_all_my_sessions cred keep client)
parse p (Request.get_my_activity cred limit) =
    query_int p.int_of 20 1 (some 100) limit >>= λ n. some (Call.get_my_activity cred n)
parse p (Request.get_users cred params) =
    query_of p params >>= λ query. some (Call.get_users cred query)
parse p (Request.get_user cred id) = some (Call.get_user cred id)
parse p (Request.patch_user cred id body client) =
    admin_user_update_request p body >>= λ payload. some (Call.patch_user cred id payload client)
parse p (Request.unlock_user cred id client) = some (Call.unlock_user cred id client)
parse p (Request.revoke_user_sessions cred id client) =
    some (Call.revoke_user_sessions cred id client)
parse p (Request.deactivate_user cred id client) = some (Call.deactivate_user cred id client)

abbrev signed_in : Env → Option String → Handler (Unit {0})
signed_in env cred = in_session (get_current_user env cred >> pure tt)

abbrev administrator : Env → Option String → Handler (Unit {0})
administrator env cred = in_session (require_role env UserRole.admin cred >> pure tt)

-- the dependency of the endpoint that checks who signs in
unfoldable pub guard : Env → Request → Handler (Unit {0})
unfolding in_session
guard env (Request.get_me cred) = signed_in env cred
guard env (Request.admin_only cred) = administrator env cred
guard env (Request.patch_me cred body client) = signed_in env cred
guard env (Request.change_password_me cred body client) = signed_in env cred
guard env (Request.deactivate_me cred client) = signed_in env cred
guard env (Request.get_my_sessions cred token) = signed_in env cred
guard env (Request.delete_my_session cred id client) = signed_in env cred
guard env (Request.revoke_all_my_sessions cred body client) = signed_in env cred
guard env (Request.get_my_activity cred limit) = signed_in env cred
guard env (Request.get_users cred params) = administrator env cred
guard env (Request.get_user cred id) = administrator env cred
guard env (Request.patch_user cred id body client) = administrator env cred
guard env (Request.unlock_user cred id client) = administrator env cred
guard env (Request.revoke_user_sessions cred id client) = administrator env cred
guard env (Request.deactivate_user cred id client) = administrator env cred
guard env _ = pure tt

abbrev pub respond_to : Env → Request → Option Call → Server → Result (Unit {0}) × Server
respond_to env r (some call) server = answer env call server
respond_to env r none server = serve (guard env r >> raise 422 "Unprocessable Entity") server

unfoldable pub respond : Pydantic → Env → Request → Server → Result (Unit {0}) × Server
unfolding parse serve guard
respond p env r server = respond_to env r (parse p r) server

-- the server after a list of requests
unfoldable pub respond_all : Pydantic → Env → List Request → Server → Server
unfolding respond
respond_all p env [] server = server
respond_all p env (r ∷ requests) server = respond_all p env requests (respond p env r server).1
