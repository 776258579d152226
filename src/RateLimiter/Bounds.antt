-- ===== src/RateLimiter/Bounds.antt =====
-- backend/services/rate_limiter.py: accepted requests of a key in a span of time.
use aiops_aws.Prelude.{
  ℕ, ◌+◌, ◌-◌, ◌≤◌, String, ◌≡◌, ◌&&◌, List, [], ◌∷◌, ◌++◌, length, filter, arith, leb, str_eq,
  eq_iff, if◌then◌else◌,
}
use aiops_aws.RateLimiter.{no_requests, window, max_requests_per_window}
use aiops_aws.RateLimiter.Window.{Request, recent, admits, admitted_from, run_from, IsChronological}
use aiops_aws.RateLimiter.Refinement.{run-eq-admitted}

-- the requests of a key in the sixty seconds that begin at a time, both ends included
abbrev pub in_span : String → ℕ → List Request → List Request
in_span key from = filter (λ r. str_eq r.0 key && (leb from r.1 && leb r.1 (from + window)))

-- A span that begins no earlier than a window lies inside it.
in_span-le-recent :
    (key : String) (c from : ℕ) (history : List Request)
    → c ≤ from
    → length (in_span key from history) ≤ length (recent key c history)
in_span-le-recent key c from [] h = omega arith
in_span-le-recent key c from (r ∷ rs) h = ground (arith, in_span-le-recent key c from rs)

length-in_span-append :
    (key : String) (from : ℕ) (history : List Request) (r : Request)
    → length (in_span key from (history ++ r ∷ []))
      ≡ length (in_span key from history) + length (in_span key from (r ∷ []))
length-in_span-append key from [] r = omega arith
length-in_span-append key from (x ∷ xs) r = ground (arith, length-in_span-append key from xs r)

abbrev IsSparse : List Request → Type 0
IsSparse history =
    (key : String) (from : ℕ) → length (in_span key from history) ≤ max_requests_per_window

admits-IsSparse :
    (history : List Request) (r : Request)
    → IsSparse history
    → IsSparse (if admits history r then history ++ r ∷ [] else history)
admits-IsSparse history r s key from = ground (
  arith,
  s key from,
  eq_iff r.0 key,
  length-in_span-append key from history r,
  in_span-le-recent r.0 (r.1 - window) from history,
)

admitted_from-IsSparse :
    (history : List Request) (rs : List Request)
    → IsSparse history
    → IsSparse (admitted_from history rs)
admitted_from-IsSparse history [] s = s
admitted_from-IsSparse history (r ∷ rs) s =
    admitted_from-IsSparse (if admits history r then history ++ r ∷ [] else history) rs
      (admits-IsSparse history r s)

-- Of the requests that the limiter lets through, with a clock that does not run backwards, any
-- sixty seconds, both ends included, hold ten at most for each key.
pub run-in_span-le :
    (now : ℕ) (rs : List Request)
    → IsChronological now rs
    → (key : String) (from : ℕ)
    → length (in_span key from (run_from no_requests [] rs)) ≤ max_requests_per_window
run-in_span-le now rs c key from =
    rw (run-eq-admitted now rs c) (admitted_from-IsSparse [] rs (λ key from. omega arith) key from)
