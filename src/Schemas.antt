-- ===== src/Schemas.antt =====
-- backend/schemas/auth.py and backend/schemas/users.py: the bodies of requests, and what pydantic
-- accepts of them. A body is the JSON object that arrived, or nothing where it is none. What
-- pydantic makes of an address and of a value for a flag is the parameter `Pydantic`.
use Prim.Native.String.{count}
use aiops_aws.Prelude.{
  ℕ, String, Bool, true, ◌&&◌, leb, str_eq, if◌then◌else◌, Option, none, some, Dict, lookup,
}
use mathlib.Core.Option
use aiops_aws.Models.{UserRole, role_value}
use aiops_aws.Users.Admin.{Field, unset, given, value, AdminUserUpdateRequest}

infixl 5 ◌>>=◌
-- what an attempt gives is passed on
abbrev pub ◌>>=◌ {ℓ κ} : {A : Type ℓ} {B : Type κ} → Option A → (A → Option B) → Option B
none >>= f = none
some a >>= f = f a

-- the value of a field: `other` is a number, a list or an object
pub data Value : Type 0 where
  null : Value
  text : String → Value
  flag : Bool → Value
  other : String → Value

abbrev pub Body : Type 0
Body = Dict Value

pub record Pydantic : Type 0 where
  -- `EmailStr`: the address as it is normalised
  pub email_of : String → Option String
  -- `int`, for the numbers from 0 on
  pub int_of : String → Option ℕ
  -- `bool`, which reads some texts and numbers too
  pub bool_of : Value → Option Bool

-- a field of type `str`
abbrev pub text_of : Value → Option String
text_of (text s) = some s
text_of _ = none

-- `Field(min_length=lo, max_length=hi)`
abbrev pub bounded : ℕ → ℕ → String → Option String
bounded lo hi s = if leb lo (count s) && leb (count s) hi then some s else none

-- `password: str = Field(min_length=8, max_length=128)`
abbrev pub password_of : Value → Option String
password_of v = text_of v >>= bounded 8 128

-- `str = Field(min_length=1, max_length=120)`
abbrev pub name_of : Value → Option String
name_of v = text_of v >>= bounded 1 120

abbrev pub email_of : Pydantic → Value → Option String
email_of pydantic v = text_of v >>= pydantic.email_of

-- an enum by its value
abbrev pub role_of : Value → Option UserRole
role_of v = text_of v >>= λ s.
    if str_eq s (role_value UserRole.user)
    then some UserRole.user
    else if str_eq s (role_value UserRole.admin)
    then some UserRole.admin
    else none

module _ {A : Type 0} (read : Value → Option A) where
  abbrev pub field_of : Option Value → Option (Field A)
  field_of none = some unset
  field_of (some null) = some (given none)
  field_of (some v) = Option.map (λ a. given (some a)) (read v)

  -- a field with no default
  abbrev pub required : String → Body → Option A
  required name body = lookup name body >>= read

  -- `… | None = None`
  abbrev pub optional : String → Body → Option (Field A)
  optional name body = field_of (lookup name body)

-- `RegisterRequest` and `LoginRequest`
pub record Credentials : Type 0 where
  pub email : String
  pub password : String

abbrev pub credentials_of : Pydantic → Body → Option Credentials
credentials_of pydantic body = do
  email ← required (email_of pydantic) "email" body
  password ← required password_of "password" body
  some (record { email = email; password = password })

-- `RefreshRequest`
abbrev pub refresh_request : Body → Option String
refresh_request body = required text_of "refresh_token" body

-- `VerifyEmailRequest`
abbrev pub verify_email_body : Pydantic → Body → Option String
verify_email_body pydantic body = required (email_of pydantic) "email" body

-- `PasswordResetRequest`
abbrev pub password_reset_body : Pydantic → Body → Option String
password_reset_body pydantic body = required (email_of pydantic) "email" body

-- `VerifyEmailConfirmRequest`
abbrev pub verify_email_confirm_request : Body → Option String
verify_email_confirm_request body = required text_of "token" body

pub record PasswordResetConfirmRequest : Type 0 where
  pub token : String
  pub new_password : String

abbrev pub password_reset_confirm_request : Body → Option PasswordResetConfirmRequest
password_reset_confirm_request body = do
  token ← required text_of "token" body
  new_password ← required password_of "new_password" body
  some (record { token = token; new_password = new_password })

-- `UserUpdateMeRequest`, whose field is `None` where it is left out
abbrev pub user_update_me_request : Body → Option (Option String)
user_update_me_request body = Option.map value (optional name_of "display_name" body)

pub record ChangePasswordRequest : Type 0 where
  pub current_password : String
  pub new_password : String

abbrev pub change_password_request : Body → Option ChangePasswordRequest
change_password_request body = do
  current_password ← required password_of "current_password" body
  new_password ← required password_of "new_password" body
  some (record { current_password = current_password; new_password = new_password })

-- `RevokeAllSessionsRequest`
abbrev pub revoke_all_sessions_request : Body → Option (Option String)
revoke_all_sessions_request body = Option.map value (optional text_of "keep_refresh_token" body)

-- `AdminUserUpdateRequest`
abbrev pub admin_user_update_request : Pydantic → Body → Option AdminUserUpdateRequest
admin_user_update_request pydantic body = do
  display_name ← optional name_of "display_name" body
  role ← optional role_of "role" body
  is_active ← optional pydantic.bool_of "is_active" body
  is_verified ← optional pydantic.bool_of "is_verified" body
  some (record {
    display_name = display_name;
    role = role;
    is_active = is_active;
    is_verified = is_verified;
  })

-- A parameter of a query, with the text that arrived, if any: an `int` with bounds and a default.
-- A number below 0 is out of all bounds here, and no number is read from it.
abbrev pub query_int : (String → Option ℕ) → ℕ → ℕ → Option ℕ → Option String → Option ℕ
query_int int_of default lo hi none = some default
query_int int_of default lo hi (some s) = int_of s >>= λ n.
    if leb lo n && (elim hi [ none ↦ true | some m ↦ leb n m ]) then some n else none

-- `UserRole | None = Query(default=None)`
abbrev pub query_role : Option String → Option (Option UserRole)
query_role none = some none
query_role (some s) = Option.map some (role_of (text s))

-- `bool | None = Query(default=None)`
abbrev pub query_flag : Pydantic → Option String → Option (Option Bool)
query_flag pydantic none = some none
query_flag pydantic (some s) = Option.map some (pydantic.bool_of (text s))
