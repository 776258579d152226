-- ===== src/RateLimiter/Refinement.antt =====
-- backend/services/rate_limiter.py: the limiter against its specification.
use aiops_aws.Prelude.{
  ℕ, ◌-◌, String, ◌≡◌, refl, List, [], ◌∷◌, ◌++◌, length, arith, eq_iff, if◌then◌else◌, ap, sym,
  ◌∙◌,
}
use aiops_aws.RateLimiter.{Buckets, no_requests, window, evict, assert_not_rate_limited}
use aiops_aws.RateLimiter.Window.{
  Request, recent, admits, admitted_from, passed, run_from, IsChronological, Tracks, Tracks-later,
  evict-eq-times, evict-Tracks, append-Tracks, append-Tracks_ne, length-recent,
}

module _ (r : Request) (history : List Request) (requests : Buckets)
    (track : (key : String) → Tracks key r.1 history (requests key)) where
  length-evict :
      length (evict (r.1 - window) (requests r.0)) ≡ length (recent r.0 (r.1 - window) history)
  length-evict =
      ap length (evict-eq-times r.0 r.1 history (requests r.0) (track r.0))
      ∙ sym (length-recent r.0 (r.1 - window) history)

  passed-eq-admits : passed (assert_not_rate_limited r.0 r.1 requests).0 ≡ admits history r
  unfolding assert_not_rate_limited
  passed-eq-admits = ground (arith, length-evict)

  -- the history after the request
  abbrev history' : List Request
  history' = if admits history r then history ++ r ∷ [] else history

  store-Tracks :
      (key : String) → Tracks key r.1 history' ((assert_not_rate_limited r.0 r.1 requests).1 key)
  unfolding assert_not_rate_limited
  store-Tracks key = ground (
    arith,
    length-evict,
    eq_iff r.0 key,
    track key,
    evict-Tracks key r.1 history (requests key) (track key),
    append-Tracks key r.1 history (evict (r.1 - window) (requests key))
        (evict-Tracks key r.1 history (requests key) (track key)) r refl,
    append-Tracks_ne key r.1 history (requests key) (track key) r,
  )

run_from-eq-admitted_from :
    (now : ℕ) (rs : List Request) (history : List Request) (requests : Buckets)
    → IsChronological now rs
    → ((key : String) → Tracks key now history (requests key))
    → run_from requests history rs ≡ admitted_from history rs
unfolding run_from
run_from-eq-admitted_from now [] history requests c t = refl
run_from-eq-admitted_from now (r ∷ rs) history requests c t =
    let t' = λ (key : String). Tracks-later key history (requests key) c.0 (t key) in
    rw (passed-eq-admits r history requests t') (
      run_from-eq-admitted_from r.1 rs (history' r history requests t')
        (assert_not_rate_limited r.0 r.1 requests).1 c.1 (store-Tracks r history requests t'))

-- From an empty table, with a clock that does not run backwards, the limiter lets through
-- exactly the requests that the specification lets through, for all keys at once.
pub run-eq-admitted :
    (now : ℕ) (rs : List Request)
    → IsChronological now rs
    → run_from no_requests [] rs ≡ admitted_from [] rs
run-eq-admitted now rs c =
    run_from-eq-admitted_from now rs [] no_requests c
      (λ key. record { sorted = tt; past = tt; same = λ c h. refl })
