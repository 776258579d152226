-- ===== src/Users/Listing.antt =====
-- backend/services/user_service.py: the pages of the user list, and a user's activity.
use Prim.Native.String
use aiops_aws.Prelude.{
  ℕ, ◌-◌, ◌*◌, String, Bool, true, false, ◌&&◌, ◌||◌, Option, none, some, List, length, take, drop,
  min, max, lower, strip, str_eq, ◌==◌,
}
use aiops_aws.Models.{User, UserRole, role_eq, AuthAuditEvent}
use aiops_aws.Database.Table.{select, newest_first}
use aiops_aws.Database.Session.{Session}
use aiops_aws.Security.{Env}

pub record UserQuery : Type 0 where
  pub page : ℕ
  pub page_size : ℕ
  pub search : Option String
  pub role : Option UserRole
  pub is_active : Option Bool

-- `max(page, 1)` and `min(max(page_size, 1), 100)`
abbrev pub first_page : ℕ → ℕ
first_page page = max page 1

abbrev pub clamp : ℕ → ℕ
clamp n = min (max n 1) 100

-- f"%{search.strip().lower()}%"
unfoldable pub search_pattern : String → String
unfolding lower strip
search_pattern search = String.◌++◌ "%" (String.◌++◌ (lower (strip search)) "%")

-- `func.lower(column).like(term)`, which no NULL satisfies
abbrev like_column : Env → Option String → String → Bool
like_column env none term = false
like_column env (some text) term = env.sql_like (env.sql_lower text) term

unfoldable pub search_filter : Env → Option String → User → Bool
unfolding search_pattern
search_filter env none u = true
search_filter env (some search) u =
    str_eq search ""
    || (like_column env (some u.email) (search_pattern search)
        || like_column env u.display_name (search_pattern search))

abbrev pub role_filter : Option UserRole → User → Bool
role_filter none u = true
role_filter (some role) u = role_eq u.role role

abbrev pub bool_eq : Bool → Bool → Bool
bool_eq true b = b
bool_eq false true = false
bool_eq false false = true

abbrev pub active_filter : Option Bool → User → Bool
active_filter none u = true
active_filter (some is_active) u = bool_eq u.is_active is_active

-- the conditions of the query, which are joined by AND
abbrev pub listed : Env → UserQuery → User → Bool
listed env q u =
    search_filter env q.search u && (role_filter q.role u && active_filter q.is_active u)

-- `.offset((page - 1) * page_size).limit(page_size)`
abbrev pub page_of {ℓ} : {A : Type ℓ} → ℕ → ℕ → List A → List A
page_of page page_size l = take page_size (drop ((page - 1) * page_size) l)

unfoldable pub list_users : Env → UserQuery → Session → List User × ℕ
list_users env q s =
    let found = select (listed env q) s.users in
    (
      page_of (first_page q.page) (clamp q.page_size) (newest_first (λ u. u.created_at) found),
      length found,
    )

abbrev pub is_of : ℕ → AuthAuditEvent → Bool
is_of user_id e = elim e.user_id [ none ↦ false | some id ↦ id == user_id ]

unfoldable pub get_user_activity : User → ℕ → Session → List AuthAuditEvent × ℕ
get_user_activity user limit s =
    let events = select (is_of user.id) s.audit_events in
    (take (clamp limit) (newest_first (λ e. e.created_at) events), length events)
