-- ===== src/Migrations/AuthTables.antt =====
-- src/alembic/versions/20260424_0001_create_auth_tables.py.
use aiops_aws.Prelude.{String, true, false, none, List, [], ◌∷◌, ◌++◌}
use aiops_aws.Migrations.{ColumnType, Column, OnDelete, Constraint, Operation, Migration}

-- `sa.Column(name, t, nullable=False)`
abbrev column : String → ColumnType → Column
column name t = record { name = name; of_type = t; nullable = false; default_now = false }

-- `sa.Column(name, t, nullable=True)`
abbrev nullable_column : String → ColumnType → Column
nullable_column name t = record { name = name; of_type = t; nullable = true; default_now = false }

-- `sa.Column(name, sa.DateTime(timezone=True), server_default=sa.text("now()"), nullable=False)`
abbrev now_column : String → Column
now_column name = record {
  name = name;
  of_type = ColumnType.date_time;
  nullable = false;
  default_now = true;
}

abbrev pub user_role_values : List String
user_role_values = "user" ∷ "admin" ∷ []

abbrev pub first_audit_values : List String
first_audit_values =
    "register" ∷ "login_success" ∷ "login_failure" ∷ "token_refresh" ∷ "logout"
    ∷ "verify_email_request" ∷ "verify_email_success" ∷ "password_reset_request"
    ∷ "password_reset_success" ∷ []

abbrev enum_types : List Operation
enum_types =
    Operation.create_enum "user_role" user_role_values
    ∷ Operation.create_enum "audit_event_type" first_audit_values
    ∷ []

-- `op.create_table("users", …)` and its indexes
abbrev users_table : List Operation
users_table =
    Operation.create_table "users"
      (column "id" ColumnType.uuid
        ∷ column "email" (ColumnType.string 255)
        ∷ column "password_hash" (ColumnType.string 255)
        ∷ column "role" (ColumnType.enum "user_role")
        ∷ column "is_active" ColumnType.boolean
        ∷ column "is_verified" ColumnType.boolean
        ∷ column "failed_attempts" ColumnType.integer
        ∷ nullable_column "locked_until" ColumnType.date_time
        ∷ now_column "created_at"
        ∷ now_column "updated_at"
        ∷ [])
      (Constraint.primary_key "id" ∷ [])
    ∷ Operation.create_index "ix_users_email" "users" ("email" ∷ []) true
    ∷ []

-- `op.create_table("refresh_tokens", …)` and its indexes
abbrev refresh_tokens_table : List Operation
refresh_tokens_table =
    Operation.create_table "refresh_tokens"
      (column "id" ColumnType.uuid
        ∷ column "user_id" ColumnType.uuid
        ∷ column "jti" (ColumnType.string 128)
        ∷ column "token_hash" (ColumnType.string 255)
        ∷ column "expires_at" ColumnType.date_time
        ∷ nullable_column "revoked_at" ColumnType.date_time
        ∷ now_column "created_at"
        ∷ nullable_column "ip_address" (ColumnType.string 64)
        ∷ nullable_column "user_agent" (ColumnType.string 512)
        ∷ [])
      (Constraint.foreign_key "user_id" "users" OnDelete.cascade ∷ Constraint.primary_key "id" ∷ [])
    ∷ Operation.create_index "ix_refresh_tokens_expires_at" "refresh_tokens" ("expires_at" ∷ [])
        false
    ∷ Operation.create_index "ix_refresh_tokens_jti" "refresh_tokens" ("jti" ∷ []) true
    ∷ Operation.create_index "ix_refresh_tokens_user_id" "refresh_tokens" ("user_id" ∷ []) false
    ∷ []

-- `op.create_table("email_verification_tokens", …)` and its indexes
abbrev email_verification_tokens_table : List Operation
email_verification_tokens_table =
    Operation.create_table "email_verification_tokens"
      (column "id" ColumnType.uuid
        ∷ column "user_id" ColumnType.uuid
        ∷ column "token_hash" (ColumnType.string 255)
        ∷ column "expires_at" ColumnType.date_time
        ∷ nullable_column "used_at" ColumnType.date_time
        ∷ now_column "created_at"
        ∷ [])
      (Constraint.foreign_key "user_id" "users" OnDelete.cascade
        ∷ Constraint.primary_key "id"
        ∷ Constraint.unique "uq_email_verify_user_token" ("user_id" ∷ "token_hash" ∷ [])
        ∷ [])
    ∷ Operation.create_index "ix_email_verification_tokens_expires_at" "email_verification_tokens"
        ("expires_at" ∷ []) false
    ∷ Operation.create_index "ix_email_verification_tokens_token_hash" "email_verification_tokens"
        ("token_hash" ∷ []) false
    ∷ Operation.create_index "ix_email_verification_tokens_user_id" "email_verification_tokens"
        ("user_id" ∷ []) false
    ∷ []

-- `op.create_table("password_reset_tokens", …)` and its indexes
abbrev password_reset_tokens_table : List Operation
password_reset_tokens_table =
    Operation.create_table "password_reset_tokens"
      (column "id" ColumnType.uuid
        ∷ column "user_id" ColumnType.uuid
        ∷ column "token_hash" (ColumnType.string 255)
        ∷ column "expires_at" ColumnType.date_time
        ∷ nullable_column "used_at" ColumnType.date_time
        ∷ now_column "created_at"
        ∷ [])
      (Constraint.foreign_key "user_id" "users" OnDelete.cascade
        ∷ Constraint.primary_key "id"
        ∷ Constraint.unique "uq_password_reset_user_token" ("user_id" ∷ "token_hash" ∷ [])
        ∷ [])
    ∷ Operation.create_index "ix_password_reset_tokens_expires_at" "password_reset_tokens"
        ("expires_at" ∷ []) false
    ∷ Operation.create_index "ix_password_reset_tokens_token_hash" "password_reset_tokens"
        ("token_hash" ∷ []) false
    ∷ Operation.create_index "ix_password_reset_tokens_user_id" "password_reset_tokens"
        ("user_id" ∷ []) false
    ∷ []

-- `op.create_table("auth_audit_events", …)` and its indexes
abbrev auth_audit_events_table : List Operation
auth_audit_events_table =
    Operation.create_table "auth_audit_events"
      (column "id" ColumnType.uuid
        ∷ column "event_type" (ColumnType.enum "audit_event_type")
        ∷ nullable_column "user_id" ColumnType.uuid
        ∷ nullable_column "ip_address" (ColumnType.string 64)
        ∷ nullable_column "user_agent" (ColumnType.string 512)
        ∷ nullable_column "detail" ColumnType.text
        ∷ nullable_column "event_metadata" ColumnType.json
        ∷ now_column "created_at"
        ∷ [])
      (Constraint.foreign_key "user_id" "users" OnDelete.set_null
        ∷ Constraint.primary_key "id"
        ∷ [])
    ∷ Operation.create_index "ix_auth_audit_events_created_at" "auth_audit_events"
        ("created_at" ∷ []) false
    ∷ Operation.create_index "ix_auth_audit_events_event_type" "auth_audit_events"
        ("event_type" ∷ []) false
    ∷ Operation.create_index "ix_auth_audit_events_user_id" "auth_audit_events" ("user_id" ∷ [])
        false
    ∷ []

abbrev pub upgrade : List Operation
upgrade =
    enum_types ++ users_table ++ refresh_tokens_table ++ email_verification_tokens_table
    ++ password_reset_tokens_table ++ auth_audit_events_table

abbrev pub downgrade : List Operation
downgrade =
    Operation.drop_index "ix_auth_audit_events_user_id" "auth_audit_events"
    ∷ Operation.drop_index "ix_auth_audit_events_event_type" "auth_audit_events"
    ∷ Operation.drop_index "ix_auth_audit_events_created_at" "auth_audit_events"
    ∷ Operation.drop_table "auth_audit_events"
    ∷ Operation.drop_index "ix_password_reset_tokens_user_id" "password_reset_tokens"
    ∷ Operation.drop_index "ix_password_reset_tokens_token_hash" "password_reset_tokens"
    ∷ Operation.drop_index "ix_password_reset_tokens_expires_at" "password_reset_tokens"
    ∷ Operation.drop_table "password_reset_tokens"
    ∷ Operation.drop_index "ix_email_verification_tokens_user_id" "email_verification_tokens"
    ∷ Operation.drop_index "ix_email_verification_tokens_token_hash" "email_verification_tokens"
    ∷ Operation.drop_index "ix_email_verification_tokens_expires_at" "email_verification_tokens"
    ∷ Operation.drop_table "email_verification_tokens"
    ∷ Operation.drop_index "ix_refresh_tokens_user_id" "refresh_tokens"
    ∷ Operation.drop_index "ix_refresh_tokens_jti" "refresh_tokens"
    ∷ Operation.drop_index "ix_refresh_tokens_expires_at" "refresh_tokens"
    ∷ Operation.drop_table "refresh_tokens"
    ∷ Operation.drop_index "ix_users_email" "users"
    ∷ Operation.drop_table "users"
    ∷ Operation.drop_enum "audit_event_type"
    ∷ Operation.drop_enum "user_role"
    ∷ []

abbrev pub migration : Migration
migration = record {
  revision = "20260424_0001";
  down_revision = none;
  upgrade = upgrade;
  downgrade = downgrade;
}
