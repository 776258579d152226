-- ===== src/RateLimiter/Tests.antt =====
-- Runs of the limiter, and the theorems at them.
use aiops_aws.Prelude.{◌≤◌, ◌≡◌, refl, List, [], ◌∷◌, length, arith}
use aiops_aws.Outcome.{ok}
use aiops_aws.RateLimiter.{no_requests, store, max_requests_per_window, assert_not_rate_limited}
use aiops_aws.RateLimiter.Window.{Request, admitted_from, run_from, IsChronological}
use aiops_aws.RateLimiter.Refinement.{run-eq-admitted}
use aiops_aws.RateLimiter.Bounds.{in_span, run-in_span-le}
use aiops_aws.RateLimiter.Recovery.{after, after-recovers}

-- Ten requests at once, one more, another key's, one at the last microsecond of the window, and
-- one after it.
abbrev busy : List Request
busy =
    ("k", 5)
    ∷ ("k", 5)
    ∷ ("k", 5)
    ∷ ("k", 5)
    ∷ ("k", 5)
    ∷ ("k", 6)
    ∷ ("k", 6)
    ∷ ("k", 6)
    ∷ ("k", 6)
    ∷ ("k", 6)
    ∷ ("k", 7)
    ∷ ("j", 8)
    ∷ ("k", 60000005)
    ∷ ("k", 60000006)
    ∷ []

busy-IsChronological : IsChronological 0 busy
busy-IsChronological = omega arith

busy_passes : length (run_from no_requests [] busy) ≡ 12
unfolding run_from assert_not_rate_limited
busy_passes = refl

run-eq-admitted_example : run_from no_requests [] busy ≡ admitted_from [] busy
run-eq-admitted_example = run-eq-admitted 0 busy busy-IsChronological

run-in_span-le_example :
    length (in_span "k" 5 (run_from no_requests [] busy)) ≤ max_requests_per_window
run-in_span-le_example = run-in_span-le 0 busy busy-IsChronological "k" 5

-- fourteen requests, and one more than a window later
after-recovers_example :
    assert_not_rate_limited "k" 130000000 (after no_requests busy)
    ≡ (ok tt, store (after no_requests busy) "k" (130000000 ∷ []))
after-recovers_example = after-recovers busy 60000006 "k" 130000000 (omega arith) (omega arith)
