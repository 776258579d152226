-- ===== src/Migrations/Declared.antt =====
-- backend/models/auth.py: the tables that its classes declare, as SQLAlchemy's documentation reads
-- them: a column allows null if its annotation has `None`, `index=True` is an index named after the
-- table and the column, which is unique with `unique=True`, and an `Enum` has the names of the
-- members.
use Prim.Native.String
use aiops_aws.Prelude.{
  String, Bool, true, false, Option, none, some, List, [], ◌∷◌, ◌++◌, map, if◌then◌else◌,
}
use aiops_aws.Models.{AuditEventType, UserRole, role_value}
use aiops_aws.Migrations.{ColumnType, Column, OnDelete, Constraint, Index, Table}

-- `mapped_column(…)`
pub record Mapped : Type 0 where
  pub column : Column
  pub is_primary : Bool
  pub foreign : Option OnDelete
  pub is_unique : Bool
  pub is_indexed : Bool

abbrev column : String → ColumnType → Mapped
column name t = record {
  column = record { name = name; of_type = t; nullable = false; default_now = false };
  is_primary = false;
  foreign = none;
  is_unique = false;
  is_indexed = false;
}

abbrev optional : Mapped → Mapped
optional m = record m { column = record m.column { nullable = true } }

-- `server_default=func.now()`
abbrev defaulting : Mapped → Mapped
defaulting m = record m { column = record m.column { default_now = true } }

-- `primary_key=True`
abbrev primary : Mapped → Mapped
primary m = record m { is_primary = true }

-- `ForeignKey("users.id", ondelete=…)`
abbrev referring : OnDelete → Mapped → Mapped
referring d m = record m { foreign = some d }

-- `unique=True`
abbrev distinct : Mapped → Mapped
distinct m = record m { is_unique = true }

-- `index=True`
abbrev indexed : Mapped → Mapped
indexed m = record m { is_indexed = true }

abbrev primary_keys : List Mapped → List Constraint
primary_keys [] = []
primary_keys (m ∷ l) =
    let rest = primary_keys l in
    if m.is_primary then Constraint.primary_key m.column.name ∷ rest else rest

abbrev foreign_key : String → Option OnDelete → List Constraint
foreign_key name none = []
foreign_key name (some d) = Constraint.foreign_key name "users" d ∷ []

abbrev foreign_keys : List Mapped → List Constraint
foreign_keys [] = []
foreign_keys (m ∷ l) = foreign_key m.column.name m.foreign ++ foreign_keys l

abbrev index_of : String → Mapped → Index
index_of table m = record {
  name = String.◌++◌ "ix_" (String.◌++◌ table (String.◌++◌ "_" m.column.name));
  columns = m.column.name ∷ [];
  unique = m.is_unique;
}

abbrev indexes_of : String → List Mapped → List Index
indexes_of table [] = []
indexes_of table (m ∷ l) =
    let rest = indexes_of table l in if m.is_indexed then index_of table m ∷ rest else rest

-- a class with the name of its table, its columns and its `__table_args__`
abbrev table_of : String → List Mapped → List Constraint → Table
table_of name l args = record {
  columns = map (λ m. m.column) l;
  constraints = primary_keys l ++ foreign_keys l ++ args;
  indexes = indexes_of name l;
}

-- `class User`
abbrev pub users : Table
users =
    table_of "users"
      (primary (column "id" ColumnType.uuid)
        ∷ indexed (distinct (column "email" (ColumnType.string 255)))
        ∷ column "password_hash" (ColumnType.string 255)
        ∷ column "role" (ColumnType.enum "user_role")
        ∷ column "is_active" ColumnType.boolean
        ∷ column "is_verified" ColumnType.boolean
        ∷ column "failed_attempts" ColumnType.integer
        ∷ optional (column "locked_until" ColumnType.date_time)
        ∷ optional (column "display_name" (ColumnType.string 120))
        ∷ optional (column "last_login_at" ColumnType.date_time)
        ∷ optional (column "password_changed_at" ColumnType.date_time)
        ∷ optional (column "deactivated_at" ColumnType.date_time)
        ∷ defaulting (column "created_at" ColumnType.date_time)
        ∷ defaulting (column "updated_at" ColumnType.date_time)
        ∷ [])
      ([])

-- `class RefreshToken`
abbrev pub refresh_tokens : Table
refresh_tokens =
    table_of "refresh_tokens"
      (primary (column "id" ColumnType.uuid)
        ∷ indexed (referring OnDelete.cascade (column "user_id" ColumnType.uuid))
        ∷ indexed (distinct (column "jti" (ColumnType.string 128)))
        ∷ column "token_hash" (ColumnType.string 255)
        ∷ indexed (column "expires_at" ColumnType.date_time)
        ∷ optional (column "revoked_at" ColumnType.date_time)
        ∷ defaulting (column "created_at" ColumnType.date_time)
        ∷ optional (column "ip_address" (ColumnType.string 64))
        ∷ optional (column "user_agent" (ColumnType.string 512))
        ∷ [])
      ([])

-- `class EmailVerificationToken`
abbrev pub email_verification_tokens : Table
email_verification_tokens =
    table_of "email_verification_tokens"
      (primary (column "id" ColumnType.uuid)
        ∷ indexed (referring OnDelete.cascade (column "user_id" ColumnType.uuid))
        ∷ indexed (column "token_hash" (ColumnType.string 255))
        ∷ indexed (column "expires_at" ColumnType.date_time)
        ∷ optional (column "used_at" ColumnType.date_time)
        ∷ defaulting (column "created_at" ColumnType.date_time)
        ∷ [])
      (Constraint.unique "uq_email_verify_user_token" ("user_id" ∷ "token_hash" ∷ []) ∷ [])

-- `class PasswordResetToken`
abbrev pub password_reset_tokens : Table
password_reset_tokens =
    table_of "password_reset_tokens"
      (primary (column "id" ColumnType.uuid)
        ∷ indexed (referring OnDelete.cascade (column "user_id" ColumnType.uuid))
        ∷ indexed (column "token_hash" (ColumnType.string 255))
        ∷ indexed (column "expires_at" ColumnType.date_time)
        ∷ optional (column "used_at" ColumnType.date_time)
        ∷ defaulting (column "created_at" ColumnType.date_time)
        ∷ [])
      (Constraint.unique "uq_password_reset_user_token" ("user_id" ∷ "token_hash" ∷ []) ∷ [])

-- `class AuthAuditEvent`
abbrev pub auth_audit_events : Table
auth_audit_events =
    table_of "auth_audit_events"
      (primary (column "id" ColumnType.uuid)
        ∷ indexed (column "event_type" (ColumnType.enum "audit_event_type"))
        ∷ indexed (referring OnDelete.set_null (optional (column "user_id" ColumnType.uuid)))
        ∷ optional (column "ip_address" (ColumnType.string 64))
        ∷ optional (column "user_agent" (ColumnType.string 512))
        ∷ optional (column "detail" ColumnType.text)
        ∷ optional (column "event_metadata" ColumnType.json)
        ∷ indexed (defaulting (column "created_at" ColumnType.date_time))
        ∷ [])
      ([])

-- the enum's value, which is the member's name too
abbrev pub event_value : AuditEventType → String
event_value AuditEventType.register = "register"
event_value AuditEventType.login_success = "login_success"
event_value AuditEventType.login_failure = "login_failure"
event_value AuditEventType.token_refresh = "token_refresh"
event_value AuditEventType.logout = "logout"
event_value AuditEventType.verify_email_request = "verify_email_request"
event_value AuditEventType.verify_email_success = "verify_email_success"
event_value AuditEventType.password_reset_request = "password_reset_request"
event_value AuditEventType.password_reset_success = "password_reset_success"
event_value AuditEventType.profile_updated = "profile_updated"
event_value AuditEventType.password_changed = "password_changed"
event_value AuditEventType.account_deactivated = "account_deactivated"
event_value AuditEventType.session_revoked = "session_revoked"
event_value AuditEventType.admin_user_updated = "admin_user_updated"
event_value AuditEventType.admin_user_unlocked = "admin_user_unlocked"
event_value AuditEventType.admin_sessions_revoked = "admin_sessions_revoked"

-- the members in the order of the class
abbrev pub audit_events : List AuditEventType
audit_events =
    AuditEventType.register ∷ AuditEventType.login_success ∷ AuditEventType.login_failure
    ∷ AuditEventType.token_refresh ∷ AuditEventType.logout ∷ AuditEventType.verify_email_request
    ∷ AuditEventType.verify_email_success ∷ AuditEventType.password_reset_request
    ∷ AuditEventType.password_reset_success ∷ AuditEventType.profile_updated
    ∷ AuditEventType.password_changed ∷ AuditEventType.account_deactivated
    ∷ AuditEventType.session_revoked ∷ AuditEventType.admin_user_updated
    ∷ AuditEventType.admin_user_unlocked ∷ AuditEventType.admin_sessions_revoked ∷ []

abbrev pub user_roles : List UserRole
user_roles = UserRole.user ∷ UserRole.admin ∷ []

abbrev pub enums : List (String × List String)
enums =
    ("user_role", map role_value user_roles)
    ∷ ("audit_event_type", map event_value audit_events)
    ∷ []

abbrev pub tables : List (String × Table)
tables =
    ("users", users)
    ∷ ("refresh_tokens", refresh_tokens)
    ∷ ("email_verification_tokens", email_verification_tokens)
    ∷ ("password_reset_tokens", password_reset_tokens)
    ∷ ("auth_audit_events", auth_audit_events)
    ∷ []
