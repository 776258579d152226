-- ===== src/Tests/Data.antt =====
-- The rows that the tests begin with.
use aiops_aws.Prelude.{ℕ, String, none, some, List, [], ◌∷◌, map}
use aiops_aws.Models.{User, UserRole, RefreshToken, EmailVerificationToken, PasswordResetToken}
use aiops_aws.Database.Table.{Table}
use aiops_aws.Database.Session.{Session}
use aiops_aws.Security.{Payload}
use aiops_aws.Auth.{Client}
use aiops_aws.Auth.Accounts.{new_user}
use aiops_aws.RateLimiter.{no_requests}
use aiops_aws.Api.{Server}
use aiops_aws.Tests.Codec.{encode}
use aiops_aws.Tests.Concrete.{env, marks}

abbrev pub here : Client
here = record { ip_address = some "10.0.0.1"; user_agent = none }

abbrev pub saved : {A : Type 0} → List A → Table A
saved = map (λ a. record { stored = some a; object = a })

abbrev pub alice : User
alice = new_user 1 "a@x.org" "pw" 0

abbrev pub root : User
root = record (new_user 2 "r@x.org" "root" 0) { role = UserRole.admin }

abbrev pub payload_of : String → ℕ → String → ℕ → Payload
payload_of type id jti exp = record {
  sub = some (marks id);
  role = none;
  type = some type;
  jti = some jti;
  iss = some env.settings.jwt_issuer;
  aud = some env.settings.jwt_audience;
  exp = exp;
  iat = 0;
}

abbrev pub presented : String
presented = encode (payload_of "refresh" 1 "j" 80) env.settings.jwt_refresh_secret

abbrev pub opened : RefreshToken
opened = record {
  id = 7;
  user_id = 1;
  jti = "j";
  token_hash = presented;
  expires_at = 80;
  revoked_at = none;
  created_at = 0;
  ip_address = none;
  user_agent = none;
}

abbrev pub mailed : EmailVerificationToken
mailed = record {
  id = 8;
  user_id = 1;
  token_hash = "mail";
  expires_at = 80;
  used_at = none;
  created_at = 0;
}

abbrev pub reset : PasswordResetToken
reset = record {
  id = 9;
  user_id = 1;
  token_hash = "reset";
  expires_at = 80;
  used_at = none;
  created_at = 0;
}

abbrev pub begun : Session
begun = record {
  users = saved (alice ∷ root ∷ []);
  refresh_tokens = saved (opened ∷ record opened { id = 10; user_id = 2; jti = "k" } ∷ []);
  email_tokens = saved (mailed ∷ []);
  reset_tokens = saved (reset ∷ []);
  audit_events = [];
  step = 20;
}

abbrev pub server : Server
server = record { db = begun; requests = no_requests; outbox = [] }
