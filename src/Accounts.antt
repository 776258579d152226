-- ===== src/Accounts.antt =====
-- backend/services/: what holds of each account, whoever calls the endpoints. The calls are those
-- that pydantic accepts; the other modules here follow an account through the services.

pub mod Auth
pub mod Users
pub mod Registered
pub mod Accepted
pub mod Served
pub mod Answered
pub mod Addresses
pub mod Newcomers
pub mod Distinct
pub mod Spent
pub mod MailTokens
pub mod Unusable
pub mod UsedOnce
pub mod Closed
use Prim.Native.String.{count}
use aiops_aws.Prelude.{
  ℕ, ◌+◌, ◌≤◌, ◌<◌, max, ◌≡◌, refl, String, Bool, true, false, Option, none, some, lower,
  count-strip-le, arith,
}
use aiops_aws.Outcome.Yields.{OnSome}
use aiops_aws.Models.{User, UserRole}
use aiops_aws.Security.{Env}
use aiops_aws.Auth.Sessions.{is_unset}
use aiops_aws.Auth.Accounts.{count_failure, new_user}
use aiops_aws.Users.Profile.{rename, cleaned_name}
use aiops_aws.Users.Admin.{verify}
use aiops_aws.Schemas.{Pydantic}

-- a password that pydantic accepts
abbrev pub IsPassword : String → Type 0
IsPassword p = (8 ≤ count p) × (count p ≤ 128)

-- a name that pydantic accepts
abbrev pub IsName : String → Type 0
IsName s = (1 ≤ count s) × (count s ≤ 120)

-- an address that pydantic accepts, as it is normalised
abbrev pub IsAddress : Pydantic → String → Type 0
IsAddress pydantic a = (raw : String) × (pydantic.email_of raw ≡ some a)

-- the digest of a password that pydantic accepts
abbrev pub IsDigest : Env → String → Type 0
IsDigest env h = (n : ℕ) × (p : String) × IsPassword p × (h ≡ env.password_digest n p)

-- The hash is a digest of an accepted password, the address is an accepted one in lower case, the
-- name fits its column, the failures that are counted stay below the threshold, and the account is
-- active just if it has no time of deactivation.
pub record WellFormed (pydantic : Pydantic) (env : Env) (u : User) : Type 0 where
  pub digest : IsDigest env u.password_hash
  pub address : (a : String) × IsAddress pydantic a × (u.email ≡ lower a)
  pub name : OnSome (λ s. count s ≤ 120) u.display_name
  pub failures : u.failed_attempts < max 1 env.settings.lockout_threshold
  pub closed : u.is_active ≡ is_unset u.deactivated_at

cleaned_name-fits : (s : String) → count s ≤ 120 → OnSome (λ s. count s ≤ 120) (cleaned_name s)
unfolding cleaned_name
cleaned_name-fits s h = ground (arith, count-strip-le s)

-- A predicate on accounts that every change of the services keeps.
pub record Kept (env : Env) (F : User → Type 0) : Type 0 where
  pub counted : (now : ℕ) (u : User) → F u → F (count_failure env now u).0
  pub forgiven :
      (u : User) (locked_until last_login_at : Option ℕ)
      → F u
      → F (record u {
        failed_attempts = 0;
        locked_until = locked_until;
        last_login_at = last_login_at;
      })
  pub rehashed :
      (u : User) (h : String) (changed : Option ℕ)
      → IsDigest env h
      → F u
      → F (record u { password_hash = h; password_changed_at = changed })
  pub switched :
      (u : User) (active : Bool) (deactivated_at : Option ℕ)
      → active ≡ is_unset deactivated_at
      → F u
      → F (record u { is_active = active; deactivated_at = deactivated_at })
  pub appointed :
      (u : User) (role : UserRole) (is_verified : Bool)
      → F u
      → F (record u { role = role; is_verified = is_verified })
  pub renamed : (u : User) (name : Option String) → OnSome IsName name → F u → F (rename name u)

pub verify-kept :
    {env : Env} {F : User → Type 0} (k : Kept env F) (u : User) (o : Option Bool)
    → F u
    → F (verify o u)
verify-kept k u none w = w
verify-kept k u (some b) w = k.appointed u u.role b w

module _ {pydantic : Pydantic} {env : Env} where
  pub new_user-WellFormed :
      (id : ℕ) (email h : String) (now : ℕ)
      → IsAddress pydantic email
      → IsDigest env h
      → WellFormed pydantic env (new_user id (lower email) h now)
  new_user-WellFormed id email h now a d = record {
    digest = d;
    address = (email, a, refl);
    name = tt;
    failures = omega arith;
    closed = refl;
  }

  count_failure-WellFormed :
      (now : ℕ) (u : User)
      → WellFormed pydantic env u
      → WellFormed pydantic env (count_failure env now u).0
  unfolding count_failure
  count_failure-WellFormed now u w = ground arith

  forgiven-WellFormed :
      (u : User) (locked_until last_login_at : Option ℕ)
      → WellFormed pydantic env u
      → WellFormed pydantic env (record u {
        failed_attempts = 0;
        locked_until = locked_until;
        last_login_at = last_login_at;
      })
  forgiven-WellFormed u locked_until last_login_at w = record {
    digest = w.digest;
    address = w.address;
    name = w.name;
    failures = omega arith;
    closed = w.closed;
  }

  rehashed-WellFormed :
      (u : User) (h : String) (changed : Option ℕ)
      → IsDigest env h
      → WellFormed pydantic env u
      → WellFormed pydantic env (record u { password_hash = h; password_changed_at = changed })
  rehashed-WellFormed u h changed d w = record {
    digest = d;
    address = w.address;
    name = w.name;
    failures = w.failures;
    closed = w.closed;
  }

  switched-WellFormed :
      (u : User) (active : Bool) (deactivated_at : Option ℕ)
      → active ≡ is_unset deactivated_at
      → WellFormed pydantic env u
      → WellFormed pydantic env (record u { is_active = active; deactivated_at = deactivated_at })
  switched-WellFormed u active deactivated_at e w = record {
    digest = w.digest;
    address = w.address;
    name = w.name;
    failures = w.failures;
    closed = e;
  }

  role-WellFormed :
      (u : User) (role : UserRole) (is_verified : Bool)
      → WellFormed pydantic env u
      → WellFormed pydantic env (record u { role = role; is_verified = is_verified })
  role-WellFormed u role is_verified w = record {
    digest = w.digest;
    address = w.address;
    name = w.name;
    failures = w.failures;
    closed = w.closed;
  }

  rename-WellFormed :
      (u : User) (name : Option String)
      → OnSome IsName name
      → WellFormed pydantic env u
      → WellFormed pydantic env (rename name u)
  unfolding rename
  rename-WellFormed u none n w = w
  rename-WellFormed u (some name) n w = record {
    digest = w.digest;
    address = w.address;
    name = cleaned_name-fits name n.1;
    failures = w.failures;
    closed = w.closed;
  }

  pub WellFormed-Kept : Kept env (WellFormed pydantic env)
  WellFormed-Kept = record {
    counted = count_failure-WellFormed;
    forgiven = forgiven-WellFormed;
    rehashed = rehashed-WellFormed;
    switched = switched-WellFormed;
    appointed = role-WellFormed;
    renamed = rename-WellFormed;
  }
