-- ===== src/Security.antt =====
-- backend/services/security.py, backend/config/settings.py, and what they rely on: the clock, the
-- random sources, passlib, hashlib, PyJWT, the uuid module, smtplib and the text functions of the
-- database are the parameter `Env`. The n-th
-- time that the program asks for a time or for random bits, it gets the n-th answer. `Laws` states
-- what the documentation of those modules promises.
use aiops_aws.Prelude.{ℕ, ◌+◌, ◌*◌, ◌≤◌, ◌<◌, String, ◌≡◌, Bool, true, Option, none, some, str_eq}
use aiops_aws.Outcome.{pure, ◌>>=◌}
use aiops_aws.Database.Session.{Action, tick}

-- The settings that the services read; durations are in microseconds.
pub record Settings : Type 0 where
  pub jwt_access_secret : String
  pub jwt_refresh_secret : String
  pub jwt_issuer : String
  pub jwt_audience : String
  pub access_token_expires : ℕ
  pub refresh_token_expires : ℕ
  pub email_token_expire_hours : ℕ
  pub password_reset_expire_minutes : ℕ
  pub lockout_threshold : ℕ
  pub lockout_minutes : ℕ
  pub smtp_host : String
  pub smtp_username : String
  pub smtp_password : String
  pub frontend_base_url : String

abbrev pub seconds : ℕ → ℕ
seconds n = n * 1000000

abbrev pub minutes : ℕ → ℕ
minutes n = n * 60000000

abbrev pub hours : ℕ → ℕ
hours n = n * 3600000000

-- with no variable set in the environment
abbrev pub default_settings : Settings
default_settings = record {
  jwt_access_secret = "change-me-access-secret-at-least-32-chars";
  jwt_refresh_secret = "change-me-refresh-secret-at-least-32-chars";
  jwt_issuer = "aiops-auth";
  jwt_audience = "aiops-clients";
  access_token_expires = minutes 15;
  refresh_token_expires = hours 168;
  email_token_expire_hours = 24;
  password_reset_expire_minutes = 30;
  lockout_threshold = 5;
  lockout_minutes = 15;
  smtp_host = "";
  smtp_username = "";
  smtp_password = "";
  frontend_base_url = "http://localhost:3000";
}

-- what `send_email` is called with
pub record Mail : Type 0 where
  pub to_email : String
  pub subject : String
  pub body : String

-- The payload of a token, with the claims that the program sets or reads; `exp` and `iat` are in
-- seconds.
pub record Payload : Type 0 where
  pub sub : Option String
  pub role : Option String
  pub type : Option String
  pub jti : Option String
  pub iss : Option String
  pub aud : Option String
  pub exp : ℕ
  pub iat : ℕ

pub record Env : Type 0 where
  pub settings : Settings
  pub clock : ℕ → ℕ
  pub uuid : ℕ → ℕ
  pub token_urlsafe : ℕ → String
  -- `str(UUID(int=n))` and `UUID(s)`, which raises where this is `none`
  pub uuid_text : ℕ → String
  pub uuid_of_text : String → Option ℕ
  -- `pwd_context.hash` with the n-th salt, and `pwd_context.verify`
  pub password_digest : ℕ → String → String
  pub password_matches : String → String → Bool
  pub sha256_hex : String → String
  -- what `jwt.encode` writes for a datetime in a claim
  pub jwt_time : ℕ → ℕ
  -- `jwt.encode(payload, secret)`, and `jwt.decode(token, secret, audience, issuer)` at a time,
  -- which raises where this is `none`
  pub jwt_encode : Payload → String → String
  pub jwt_decode : ℕ → String → String → String → String → Option Payload
  -- The name of what `smtplib` raises on the way from the connection to the delivery of a mail, at
  -- a count of steps. `none`: the mail is handed over.
  pub smtp : ℕ → Mail → Option String
  -- the database's `lower(a)` and `a LIKE b`
  pub sql_lower : String → String
  pub sql_like : String → String → Bool

abbrev pub utcnow : Env → Action ℕ
utcnow env = tick env.clock

abbrev pub uuid4 : Env → Action ℕ
uuid4 env = tick env.uuid

abbrev pub hash_password : Env → String → Action String
hash_password env password = tick (λ n. env.password_digest n password)

abbrev pub verify_password : Env → String → String → Bool
verify_password env plain_password password_hash = env.password_matches plain_password password_hash

abbrev pub hash_token : Env → String → String
hash_token env token = env.sha256_hex token

abbrev pub generate_opaque_token : Env → Action String
generate_opaque_token env = tick env.token_urlsafe

abbrev pub encode_token : Env → Payload → String → ℕ → Action String
encode_token env payload secret expires_at = do
  now ← utcnow env
  pure (
      env.jwt_encode
        (record payload {
          iss = some env.settings.jwt_issuer;
          aud = some env.settings.jwt_audience;
          exp = env.jwt_time expires_at;
          iat = env.jwt_time now;
        })
        secret)

abbrev claims : Option String → String → String → String → Payload
claims role user_id type jti = record {
  sub = some user_id;
  role = role;
  type = some type;
  jti = some jti;
  iss = none;
  aud = none;
  exp = 0;
  iat = 0;
}

abbrev pub create_access_token : Env → String → String → ℕ → Action String
create_access_token env user_id role expires_at = do
  jti ← uuid4 env
  encode_token env (claims (some role) user_id "access" (env.uuid_text jti))
      env.settings.jwt_access_secret expires_at

abbrev pub create_refresh_token : Env → String → String → ℕ → Action String
create_refresh_token env user_id jti expires_at =
    encode_token env (claims none user_id "refresh" jti) env.settings.jwt_refresh_secret expires_at

-- PyJWT reads the time too. `none`: it raised.
abbrev decode_token : Env → String → String → Action (Option Payload)
decode_token env secret token = tick (λ n.
    env.jwt_decode (env.clock n) token secret env.settings.jwt_audience env.settings.jwt_issuer)

abbrev pub decode_access_token : Env → String → Action (Option Payload)
decode_access_token env token = decode_token env env.settings.jwt_access_secret token

abbrev pub decode_refresh_token : Env → String → Action (Option Payload)
decode_refresh_token env token = decode_token env env.settings.jwt_refresh_secret token

-- a claim or a column compared with a text that may be missing
abbrev pub matches : Option String → String → Bool
matches none t = Bool.false
matches (some s) t = str_eq s t

-- `UUID(text)`, which raises on what is no UUID, and on `None`
abbrev pub parse_uuid : Env → Option String → Option ℕ
parse_uuid env none = none
parse_uuid env (some s) = env.uuid_of_text s

-- What the modules behind `Env` promise.
pub record Laws (env : Env) : Type 0 where
  pub uuid_round_trip : (n : ℕ) → env.uuid_of_text (env.uuid_text n) ≡ some n
  pub digest_matches :
      (n : ℕ) (p : String) → env.password_matches p (env.password_digest n p) ≡ true
  -- the seconds of a datetime, without their fraction
  pub jwt_time_whole : (t : ℕ) → (seconds (env.jwt_time t) ≤ t) × (t < seconds (env.jwt_time t + 1))
  -- a token is refused before the second of its `iat`, and from that of its `exp` on
  pub jwt_round_trip :
      (p : Payload) (secret aud iss : String) (now : ℕ)
      → p.aud ≡ some aud
      → p.iss ≡ some iss
      → seconds p.iat ≤ now
      → now < seconds p.exp
      → env.jwt_decode now (env.jwt_encode p secret) secret aud iss ≡ some p
  pub jwt_same :
      (n m : ℕ) (token secret aud iss : String) (p q : Payload)
      → env.jwt_decode n token secret aud iss ≡ some p
      → env.jwt_decode m token secret aud iss ≡ some q
      → p ≡ q
  pub clock_mono : (n m : ℕ) → n ≤ m → env.clock n ≤ env.clock m
  pub uuid_fresh : (n m : ℕ) → env.uuid n ≡ env.uuid m → n ≡ m
