-- ===== src/Models.antt =====
-- backend/models/auth.py: the tables of the authentication service, and the JSON of an audit
-- event's metadata. A UUID is the number that it stands for, a time is in microseconds. The column
-- `updated_at`, which no code reads, and the length limits of the text columns are left out.
use aiops_aws.Prelude.{ℕ, String, Bool, true, false, Option}

pub data UserRole : Type 0 where
  user admin : UserRole

-- the enum's value
abbrev pub role_value : UserRole → String
role_value UserRole.user = "user"
role_value UserRole.admin = "admin"

abbrev pub role_eq : UserRole → UserRole → Bool
role_eq UserRole.user UserRole.user = true
role_eq UserRole.admin UserRole.admin = true
role_eq _ _ = false

abbrev pub is_admin : UserRole → Bool
is_admin r = role_eq r UserRole.admin

pub data AuditEventType : Type 0 where
  register login_success login_failure token_refresh logout : AuditEventType
  verify_email_request verify_email_success : AuditEventType
  password_reset_request password_reset_success : AuditEventType
  profile_updated password_changed account_deactivated session_revoked : AuditEventType
  admin_user_updated admin_user_unlocked admin_sessions_revoked : AuditEventType

pub record User : Type 0 where
  pub id : ℕ
  pub email : String
  pub password_hash : String
  pub role : UserRole
  pub is_active : Bool
  pub is_verified : Bool
  pub failed_attempts : ℕ
  pub locked_until : Option ℕ
  pub display_name : Option String
  pub last_login_at : Option ℕ
  pub password_changed_at : Option ℕ
  pub deactivated_at : Option ℕ
  pub created_at : ℕ

pub record RefreshToken : Type 0 where
  pub id : ℕ
  pub user_id : ℕ
  pub jti : String
  pub token_hash : String
  pub expires_at : ℕ
  pub revoked_at : Option ℕ
  pub created_at : ℕ
  pub ip_address : Option String
  pub user_agent : Option String

pub record EmailVerificationToken : Type 0 where
  pub id : ℕ
  pub user_id : ℕ
  pub token_hash : String
  pub expires_at : ℕ
  pub used_at : Option ℕ
  pub created_at : ℕ

pub record PasswordResetToken : Type 0 where
  pub id : ℕ
  pub user_id : ℕ
  pub token_hash : String
  pub expires_at : ℕ
  pub used_at : Option ℕ
  pub created_at : ℕ

mutual
  pub data Json : Type 0 where
    null : Json
    text : String → Json
    number : ℕ → Json
    flag : Bool → Json
    object : Fields → Json

  pub data Fields : Type 0 where
    end : Fields
    field : String → Json → Fields → Fields

pub record AuthAuditEvent : Type 0 where
  pub id : ℕ
  pub event_type : AuditEventType
  pub user_id : Option ℕ
  pub ip_address : Option String
  pub user_agent : Option String
  pub detail : Option String
  pub event_metadata : Option Fields
  pub created_at : ℕ
