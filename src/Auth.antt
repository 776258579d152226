-- ===== src/Auth.antt =====
-- backend/services/auth_service.py: `_audit` here, and the operations in the child modules.
-- The address and the agent of a request always go together, as a `Client`.
pub mod Accounts
pub mod Sessions
pub mod Tokens
pub mod Lockout
pub mod Rotation
pub mod SingleUse
pub mod Growth
pub mod Benign
pub mod Verification
pub mod Logout
pub mod Reset
pub mod Registration
use aiops_aws.Prelude.{ℕ, ◌+◌, String, Option, none, some}
use aiops_aws.Models.{AuditEventType, AuthAuditEvent, Fields}
use aiops_aws.Database.Table.{insert}
use aiops_aws.Outcome.{Result, ok, err, modify, ◌>>=◌, ◌>>◌}
use aiops_aws.Database.Session.{add_audit_event, Session, Action}
use aiops_aws.Security.{Env, utcnow, uuid4}

pub record Client : Type 0 where
  pub ip_address : Option String
  pub user_agent : Option String

-- `_audit`; every call of the program gives a detail
unfoldable pub audit :
    Env → AuditEventType → Option ℕ → Client → String → Option Fields → Action (Unit {0})
audit env event_type user_id client detail event_metadata = do
  id ← uuid4 env
  now ← utcnow env
  add_audit_event (record {
    id = id;
    event_type = event_type;
    user_id = user_id;
    ip_address = client.ip_address;
    user_agent = client.user_agent;
    detail = some detail;
    event_metadata = event_metadata;
    created_at = now;
  })
