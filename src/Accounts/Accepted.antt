-- ===== src/Accounts/Accepted.antt =====
-- backend/schemas/: what pydantic's checks leave of the texts that reach the endpoints.
use Prim.Native.String.{count}
use mathlib.Core.Option
use aiops_aws.Prelude.{ℕ, ◌≤◌, ◌≡◌, refl, String, Option, none, some, lookup, arith}
use aiops_aws.Outcome.Yields.{OnSome}
use aiops_aws.Users.Admin.{Field, given, value}
use aiops_aws.Schemas.{
  Value, Body, Pydantic, ◌>>=◌, bounded, text_of, password_of, name_of, email_of, role_of, required,
  field_of, optional, credentials_of, refresh_request, verify_email_body, password_reset_body,
  verify_email_confirm_request, password_reset_confirm_request, user_update_me_request,
  change_password_request, revoke_all_sessions_request, admin_user_update_request, query_int,
}
use aiops_aws.Api.Endpoints.{Call}
use aiops_aws.Api.Requests.{Request, query_of, parse}
use aiops_aws.Accounts.{IsPassword, IsName, IsAddress}

-- the texts of a call that are stored are accepted ones
abbrev pub IsAccepted : Pydantic → Call → Type 0
IsAccepted p (Call.register email password client) = IsAddress p email × IsPassword password
IsAccepted p (Call.password_reset_confirm token password client) = IsPassword password
IsAccepted p (Call.patch_me cred name client) = OnSome IsName name
IsAccepted p (Call.change_password_me cred old new client) = IsPassword new
IsAccepted p (Call.patch_user cred id payload client) = OnSome IsName (value payload.display_name)
IsAccepted p _ = Unit

-- a read that succeeds has the property
abbrev Reads : {A : Type 0} → (A → Type 0) → (Value → Option A) → Type 0
Reads Q read = (v : Value) → OnSome Q (read v)

module _ {A B : Type 0} where
  bind-OnSome :
      (Q : B → Type 0) (o : Option A) (f : A → Option B)
      → ((a : A) → OnSome Q (f a))
      → OnSome Q (o >>= f)
  bind-OnSome Q none f h = tt
  bind-OnSome Q (some a) f h = h a

  binds-OnSome :
      (R : A → Type 0) (Q : B → Type 0) (o : Option A) (f : A → Option B)
      → OnSome R o
      → ((a : A) → R a → OnSome Q (f a))
      → OnSome Q (o >>= f)
  binds-OnSome R Q none f r h = tt
  binds-OnSome R Q (some a) f r h = h a r

bounded-OnSome :
    (lo hi : ℕ) (s : String) → OnSome (λ t. (lo ≤ count t) × (count t ≤ hi)) (bounded lo hi s)
bounded-OnSome lo hi s = ground arith

password_of-Reads : Reads IsPassword password_of
password_of-Reads v = bind-OnSome IsPassword (text_of v) (bounded 8 128) (bounded-OnSome 8 128)

name_of-Reads : Reads IsName name_of
name_of-Reads v = bind-OnSome IsName (text_of v) (bounded 1 120) (bounded-OnSome 1 120)

normalised-OnSome :
    (p : Pydantic) (s : String) (o : Option String) → p.email_of s ≡ o → OnSome (IsAddress p) o
normalised-OnSome p s none e = tt
normalised-OnSome p s (some a) e = (s, e)

email_of-Reads : (p : Pydantic) → Reads (IsAddress p) (email_of p)
email_of-Reads p v =
    bind-OnSome (IsAddress p) (text_of v) p.email_of λ s. normalised-OnSome p s (p.email_of s) refl

module _ {A : Type 0} (Q : A → Type 0) (read : Value → Option A) (h : Reads Q read) where
  required-OnSome : (name : String) (body : Body) → OnSome Q (required read name body)
  required-OnSome name body = bind-OnSome Q (lookup name body) read h

  given-OnSome :
      (o : Option A)
      → OnSome Q o
      → OnSome (λ f. OnSome Q (value f)) (Option.map (λ a. given (some a)) o)
  given-OnSome none q = tt
  given-OnSome (some a) q = q

  field-OnSome : (o : Option Value) → OnSome (λ f. OnSome Q (value f)) (field_of read o)
  field-OnSome none = tt
  field-OnSome (some Value.null) = tt
  field-OnSome (some (Value.text s)) = given-OnSome (read (Value.text s)) (h (Value.text s))
  field-OnSome (some (Value.flag b)) = given-OnSome (read (Value.flag b)) (h (Value.flag b))
  field-OnSome (some (Value.other s)) = given-OnSome (read (Value.other s)) (h (Value.other s))

  optional-OnSome :
      (name : String) (body : Body) → OnSome (λ f. OnSome Q (value f)) (optional read name body)
  optional-OnSome name body = field-OnSome (lookup name body)

credentials_of-OnSome :
    (p : Pydantic) (body : Body)
    → OnSome (λ c. IsAddress p c.email × IsPassword c.password) (credentials_of p body)
credentials_of-OnSome p body =
    binds-OnSome (IsAddress p) _ (required (email_of p) "email" body) _
      (required-OnSome (IsAddress p) (email_of p) (email_of-Reads p) "email" body)
      λ email a.
        binds-OnSome IsPassword _ (required password_of "password" body) _
          (required-OnSome IsPassword password_of password_of-Reads "password" body)
          λ password h. (a, h)

admin_user_update_request-OnSome :
    (p : Pydantic) (body : Body)
    → OnSome (λ r. OnSome IsName (value r.display_name)) (admin_user_update_request p body)
admin_user_update_request-OnSome p body =
    binds-OnSome (λ f. OnSome IsName (value f)) _ (optional name_of "display_name" body) _
      (optional-OnSome IsName name_of name_of-Reads "display_name" body)
      λ name n. bind-OnSome _ (optional role_of "role" body) _ λ role.
        bind-OnSome _ (optional p.bool_of "is_active" body) _
          λ active. bind-OnSome _ (optional p.bool_of "is_verified" body) _ (λ verified. n)

changed-OnSome : (body : Body) → OnSome IsPassword (required password_of "new_password" body)
changed-OnSome body = required-OnSome IsPassword password_of password_of-Reads "new_password" body

password_reset_confirm_request-OnSome :
    (body : Body) → OnSome (λ r. IsPassword r.new_password) (password_reset_confirm_request body)
password_reset_confirm_request-OnSome body =
    bind-OnSome _ (required text_of "token" body) _ λ token.
      binds-OnSome IsPassword _ (required password_of "new_password" body) _ (changed-OnSome body)
        (λ password h. h)

change_password_request-OnSome :
    (body : Body) → OnSome (λ r. IsPassword r.new_password) (change_password_request body)
change_password_request-OnSome body =
    bind-OnSome _ (required password_of "current_password" body) _ λ old.
      binds-OnSome IsPassword _ (required password_of "new_password" body) _ (changed-OnSome body)
        (λ password h. h)

map-OnSome :
    (o : Option (Field String))
    → OnSome (λ f. OnSome IsName (value f)) o
    → OnSome (OnSome IsName) (Option.map value o)
map-OnSome none n = tt
map-OnSome (some f) n = n

user_update_me_request-OnSome : (body : Body) → OnSome (OnSome IsName) (user_update_me_request body)
user_update_me_request-OnSome body =
    map-OnSome (optional name_of "display_name" body)
      (optional-OnSome IsName name_of name_of-Reads "display_name" body)

-- What pydantic accepts is accepted: passwords of 8 to 128 characters, names of 1 to 120, and
-- addresses as it normalises them.
pub parse-OnSome : (p : Pydantic) (r : Request) → OnSome (IsAccepted p) (parse p r)
unfolding parse
parse-OnSome p (Request.register body client) =
    binds-OnSome _ (IsAccepted p) (credentials_of p body) _ (credentials_of-OnSome p body)
      (λ c h. h)
parse-OnSome p (Request.password_reset_confirm body client) =
    binds-OnSome _ (IsAccepted p) (password_reset_confirm_request body) _
      (password_reset_confirm_request-OnSome body) (λ r h. h)
parse-OnSome p (Request.patch_me cred body client) =
    binds-OnSome _ (IsAccepted p) (user_update_me_request body) _
      (user_update_me_request-OnSome body) (λ name n. n)
parse-OnSome p (Request.change_password_me cred body client) =
    binds-OnSome _ (IsAccepted p) (change_password_request body) _
      (change_password_request-OnSome body) (λ r h. h)
parse-OnSome p (Request.patch_user cred id body client) =
    binds-OnSome _ (IsAccepted p) (admin_user_update_request p body) _
      (admin_user_update_request-OnSome p body) (λ r h. h)
parse-OnSome p (Request.login_user body client) =
    bind-OnSome (IsAccepted p) (credentials_of p body) _ (λ c. tt)
parse-OnSome p (Request.refresh body client) =
    bind-OnSome (IsAccepted p) (refresh_request body) _ (λ token. tt)
parse-OnSome p (Request.logout_user body client) =
    bind-OnSome (IsAccepted p) (refresh_request body) _ (λ token. tt)
parse-OnSome p (Request.verify_email_request body client) =
    bind-OnSome (IsAccepted p) (verify_email_body p body) _ (λ email. tt)
parse-OnSome p (Request.verify_email_confirm body client) =
    bind-OnSome (IsAccepted p) (verify_email_confirm_request body) _ (λ token. tt)
parse-OnSome p (Request.password_reset_request body client) =
    bind-OnSome (IsAccepted p) (password_reset_body p body) _ (λ email. tt)
parse-OnSome p (Request.revoke_all_my_sessions cred body client) =
    bind-OnSome (IsAccepted p) (revoke_all_sessions_request body) _ (λ keep. tt)
parse-OnSome p (Request.get_my_activity cred limit) =
    bind-OnSome (IsAccepted p) (query_int p.int_of 20 1 (some 100) limit) _ (λ n. tt)
parse-OnSome p (Request.get_users cred params) =
    bind-OnSome (IsAccepted p) (query_of p params) _ (λ query. tt)
parse-OnSome p _ = tt
