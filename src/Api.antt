-- ===== src/Api.antt =====
-- The HTTP layer: backend/api/, with the life of a session in backend/db/session.py. A request
-- works on a session of its own. `db.commit()` makes the session's state that of the database;
-- a session that is closed with no commit, as after a raise, is lost. The rate limiter's table is
-- the process's, and keeps what it was told. Requests are served one after the other.
pub mod Dependencies
pub mod Auth
pub mod Profile
pub mod Users
pub mod Access
pub mod Endpoints
pub mod Requests
pub mod Refused
pub mod Stored
pub mod Atomicity
pub mod Benign
pub mod Growth
pub mod Instances
pub mod Privacy
pub mod Lockout
use Prim.Native.String
use aiops_aws.Prelude.{
  ℕ, ◌+◌, String, Bool, Option, none, some, List, [], ◌∷◌, ◌++◌, lower, str_eq, not, ◌&&◌,
  if◌then◌else◌,
}
use aiops_aws.Outcome.{Result, ok, err, ◌>>=◌, modify, crash}
use aiops_aws.Models.{User, UserRole}
use aiops_aws.Database.Session.{Session, Action, flush_all}
use aiops_aws.Security.{Settings, Env, Mail}
use aiops_aws.RateLimiter.{Buckets, assert_not_rate_limited}
use aiops_aws.Auth.{Client}

-- what outlives a request
pub record Server : Type 0 where
  pub db : Session
  pub requests : Buckets
  -- the mails that `send_email` has handed over, or printed
  pub outbox : List Mail

-- a request at work
pub record Running : Type 0 where
  pub server : Server
  pub open server use *
  pub session : Session

abbrev pub Handler {ℓ} : Type ℓ → Type ℓ
Handler A = Running → Result A × Running

-- a call that works on the request's session
unfoldable pub in_session {ℓ} : {A : Type ℓ} → Action A → Handler A
in_session m q = let (r, s) = m q.session in (r, record q { session = s })

-- `db.commit()`
unfoldable pub commit : Handler (Unit {0})
commit q =
    let s = flush_all q.session in
    (ok tt, record q { server = record q.server { db = s }; session = s })

-- `assert_not_rate_limited(key)`, which reads the clock
unfoldable pub limit : Env → String → Handler (Unit {0})
limit env key q =
    let now = env.clock q.session.step in
    let (r, requests) = assert_not_rate_limited key now q.requests in
    (
      r,
      record q {
        server = record q.server { requests = requests };
        session = record q.session { step = q.session.step + 1 };
      },
    )

-- `SMTP_HOST`, `SMTP_USERNAME` and `SMTP_PASSWORD` are set
abbrev has_smtp : Settings → Bool
has_smtp settings =
    not (str_eq settings.smtp_host "")
    && (not (str_eq settings.smtp_username "") && not (str_eq settings.smtp_password ""))

-- what a mail raises at a count of steps: nothing where no server is set, and it is printed
abbrev pub smtp_failure : Env → ℕ → Mail → Option String
smtp_failure env step mail = if has_smtp env.settings then env.smtp step mail else none

abbrev pub deliver : Mail → Option String → Handler (Unit {0})
deliver mail none =
    modify (λ q. record q { server = record q.server { outbox = q.outbox ++ mail ∷ [] } })
deliver mail (some name) = crash name

-- `send_email(to_email, subject, body)`
unfoldable pub send_email : Env → Mail → Handler (Unit {0})
send_email env mail q = deliver mail (smtp_failure env q.session.step mail) q

-- A request from its first query to the close of its session.
unfoldable pub serve {ℓ} : {A : Type ℓ} → Handler A → Server → Result A × Server
serve h server =
    let (r, q) = h (record { server = server; session = server.db }) in
    (r, record q.server { db = record q.server.db { step = q.session.step } })

abbrev shown : Option String → String
shown none = "None"
shown (some s) = s

-- f"{name}:{ip_address}:{email.lower()}"
unfoldable pub limit_key : String → Client → String → String
unfolding lower
limit_key name client email =
    String.◌++◌ name
      (String.◌++◌ ":" (String.◌++◌ (shown client.ip_address) (String.◌++◌ ":" (lower email))))

-- `UserResponse.model_validate(user)`
pub record UserResponse : Type 0 where
  pub id : ℕ
  pub email : String
  pub display_name : Option String
  pub role : UserRole
  pub is_active : Bool
  pub is_verified : Bool
  pub last_login_at : Option ℕ
  pub password_changed_at : Option ℕ
  pub deactivated_at : Option ℕ
  pub created_at : ℕ

abbrev pub user_response : User → UserResponse
user_response u = record {
  id = u.id;
  email = u.email;
  display_name = u.display_name;
  role = u.role;
  is_active = u.is_active;
  is_verified = u.is_verified;
  last_login_at = u.last_login_at;
  password_changed_at = u.password_changed_at;
  deactivated_at = u.deactivated_at;
  created_at = u.created_at;
}
