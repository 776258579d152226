-- ===== src/Tests/Tokens.antt =====
-- The theorems on tokens that are used once, with requests in between.
use Prim.Native.String.compare
use text.Mathlib.Text.{is_eq}
use aiops_aws.Prelude.{String, ℕ, zero, suc, ◌≡◌, ◌≢◌, sym, ap, str_eq, eq_iff, false, refl, arith}
use aiops_aws.Api.{Server}
use aiops_aws.Api.Requests.{respond_all}
use aiops_aws.Accounts.UsedOnce.{password_reset_confirm_once, verify_email_confirm_once}
use aiops_aws.Outcome.{Result, err, http_exception}
use aiops_aws.Database.Session.{Calls}
use aiops_aws.Auth.Tokens.{confirm_email_verification, confirm_password_reset}
use aiops_aws.Api.{serve}
use aiops_aws.Api.Auth
use aiops_aws.Api.Endpoints.{Call, handler, answer}
use aiops_aws.Tests.Concrete.{env, env-Laws, marks}
use aiops_aws.Tests.Data.{here, payload_of}
use aiops_aws.Auth.Sessions.{refresh_tokens, logout}
use aiops_aws.Auth.Rotation.{IsUnauthorized}
use aiops_aws.Accounts.Closed.{refresh_once, logout_user_closes}
use aiops_aws.Tests.Accounts.{lax, requests, opened_server}
use aiops_aws.Tests.Data.{presented}

str_eq-marks : (n : ℕ) → str_eq "j" (marks n) ≡ false
str_eq-marks zero = refl
str_eq-marks (suc n) = ap is_eq (compare.cons-cons "j" "i" "" (marks n))

abbrev exchange : Server → Result (Unit {0}) × Server
exchange = answer env (Call.refresh presented here)

refresh_once_example :
    IsUnauthorized (exchange (respond_all lax env requests (exchange opened_server).1)).0
unfolding Auth.refresh refresh_tokens handler serve Calls
refresh_once_example =
    refresh_once lax env env-Laws presented here here requests opened_server (refl, (refl, tt))
      (λ p k e le. ground (arith, e, str_eq-marks k)) refl

logout_user_closes_example :
    IsUnauthorized
      (exchange (
        respond_all lax env requests
          (answer env (Call.logout_user presented here) opened_server).1)).0
unfolding Auth.logout_user logout handler serve Calls
logout_user_closes_example =
    logout_user_closes lax env env-Laws presented here here requests opened_server
      (payload_of "refresh" 1 "j" 80) (refl, (refl, tt)) refl (λ k le. str_eq-marks k) refl

marks-neq : (text : String) (n : ℕ) → str_eq text (marks n) ≡ false → marks n ≢ text
marks-neq text n other e = let same = (eq_iff text (marks n)).1 (sym e) in cc

str_eq-reset-marks : (n : ℕ) → str_eq "reset" (marks n) ≡ false
str_eq-reset-marks zero = refl
str_eq-reset-marks (suc n) = ap is_eq (compare.cons-cons "r" "i" "eset" (marks n))

str_eq-mail-marks : (n : ℕ) → str_eq "mail" (marks n) ≡ false
str_eq-mail-marks zero = refl
str_eq-mail-marks (suc n) = ap is_eq (compare.cons-cons "m" "i" "ail" (marks n))

abbrev confirm_reset : String → Server → Result (Unit {0}) × Server
confirm_reset password = answer env (Call.password_reset_confirm "reset" password here)

password_reset_confirm_once_example :
    (confirm_reset "second new one"
      (respond_all lax env requests (confirm_reset "the new one" opened_server).1)).0
    ≡ err (http_exception 400 "Invalid or expired token")
unfolding Auth.password_reset_confirm confirm_password_reset handler serve Calls
password_reset_confirm_once_example =
    password_reset_confirm_once lax env env-Laws "reset" here here requests opened_server
      (λ k le. marks-neq "reset" k (str_eq-reset-marks k)) "the new one" "second new one" (refl, tt)
      refl

abbrev confirm_mail : Server → Result (Unit {0}) × Server
confirm_mail = answer env (Call.verify_email_confirm "mail" here)

verify_email_confirm_once_example :
    (confirm_mail (respond_all lax env requests (confirm_mail opened_server).1)).0
    ≡ err (http_exception 400 "Invalid or expired token")
unfolding Auth.verify_email_confirm confirm_email_verification handler serve Calls
verify_email_confirm_once_example =
    verify_email_confirm_once lax env env-Laws "mail" here here requests opened_server
      (λ k le. marks-neq "mail" k (str_eq-mail-marks k)) (refl, tt) refl
