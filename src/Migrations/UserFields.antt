-- ===== src/Migrations/UserFields.antt =====
-- src/alembic/versions/20260530_0002_user_management_fields.py.
use aiops_aws.Prelude.{String, true, false, some, List, [], ◌∷◌, map, str_eq, if◌then◌else◌}
use aiops_aws.Migrations.{ColumnType, Operation, Migration}

abbrev pub new_audit_values : List String
new_audit_values =
    "profile_updated" ∷ "password_changed" ∷ "account_deactivated" ∷ "session_revoked"
    ∷ "admin_user_updated" ∷ "admin_user_unlocked" ∷ "admin_sessions_revoked" ∷ []

-- `op.add_column("users", sa.Column(name, t, nullable=True))`
abbrev add_field : String → ColumnType → Operation
add_field name t =
    Operation.add_column "users"
      (record { name = name; of_type = t; nullable = true; default_now = false })

-- The argument is `bind.dialect.name`.
abbrev pub upgrade : String → List Operation
upgrade dialect =
    add_field "display_name" (ColumnType.string 120)
    ∷ add_field "last_login_at" ColumnType.date_time
    ∷ add_field "password_changed_at" ColumnType.date_time
    ∷ add_field "deactivated_at" ColumnType.date_time
    ∷ (if str_eq dialect "postgresql"
        then map (Operation.add_value "audit_event_type") new_audit_values
        else [])

abbrev pub downgrade : List Operation
downgrade =
    Operation.drop_column "users" "deactivated_at"
    ∷ Operation.drop_column "users" "password_changed_at"
    ∷ Operation.drop_column "users" "last_login_at"
    ∷ Operation.drop_column "users" "display_name"
    ∷ []

abbrev pub migration : String → Migration
migration dialect = record {
  revision = "20260530_0002";
  down_revision = some "20260424_0001";
  upgrade = upgrade dialect;
  downgrade = downgrade;
}
