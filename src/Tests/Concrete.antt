-- ===== src/Tests/Concrete.antt =====
-- A concrete environment, and that it keeps what the modules behind the program promise.
use aiops_aws.Prelude.{arith, ◌/◌, ℕ, zero, suc, String, ◌≡◌, refl, ap, some, str_eq, eq_refl}
use aiops_aws.Security.{default_settings, Env, Laws}
use aiops_aws.Tests.Codec.{encode, decode, decode-encode, decode_same}

-- the number in unary
abbrev pub marks : ℕ → String
marks zero = ""
marks (suc n) = String.◌∷◌ "i" (marks n)

abbrev count_marks : String → ℕ
count_marks String.[] = 0
count_marks (String.◌∷◌ c s) = suc (count_marks s)

count_marks-marks : (n : ℕ) → count_marks (marks n) ≡ n
count_marks-marks zero = refl
count_marks-marks (suc n) = ap suc (count_marks-marks n)

-- Time passes by a microsecond for each step, tokens live for forty and eighty seconds, two wrong
-- passwords lock an account, and no mail server is set.
abbrev pub env : Env
env = record {
  settings = record default_settings {
    access_token_expires = 40000000;
    refresh_token_expires = 80000000;
    lockout_threshold = 2;
  };
  clock = λ n. n;
  uuid = λ n. n;
  token_urlsafe = marks;
  uuid_text = marks;
  uuid_of_text = λ s. some (count_marks s);
  password_digest = λ n p. p;
  password_matches = str_eq;
  sha256_hex = λ s. s;
  jwt_time = λ t. t / 1000000;
  jwt_encode = encode;
  jwt_decode = decode;
  smtp = λ n mail. some "SMTPServerDisconnected";
  sql_lower = λ s. s;
  sql_like = str_eq;
}

pub env-Laws : Laws env
env-Laws = record {
  uuid_round_trip = λ n. ap (λ m. some m) (count_marks-marks n);
  digest_matches = λ n p. eq_refl p;
  jwt_time_whole = λ t. (omega arith, omega arith);
  jwt_round_trip = decode-encode;
  jwt_same = decode_same;
  clock_mono = λ n m h. h;
  uuid_fresh = λ n m h. h;
}
