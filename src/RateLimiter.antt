-- ===== src/RateLimiter.antt =====
-- backend/services/rate_limiter.py: a sliding window of accepted requests for each key.
-- Times are microseconds. The `defaultdict(deque)` is a function from keys to buckets, empty where
-- a key was never used; a bucket's left end is the head of its list.
pub mod Window
pub mod Refinement
pub mod Bounds
pub mod Recovery
mod Tests
use aiops_aws.Prelude.{ℕ, ◌-◌, String, List, [], ◌∷◌, ◌++◌, length, ltb, leb, str_eq, if◌then◌else◌}
use aiops_aws.Outcome.{Result, ok, err, http_exception}

abbrev pub window : ℕ
window = 60000000

abbrev pub max_requests_per_window : ℕ
max_requests_per_window = 10

abbrev pub Buckets : Type 0
Buckets = String → List ℕ

abbrev pub no_requests : Buckets
no_requests key = []

-- `_REQUESTS[key] = bucket`
abbrev pub store : Buckets → String → List ℕ → Buckets
store requests key bucket k = if str_eq key k then bucket else requests k

-- `while bucket and bucket[0] < cutoff: bucket.popleft()`
pub evict : ℕ → List ℕ → List ℕ
evict cutoff [] = []
evict cutoff (t ∷ bucket) =
    let rest = evict cutoff bucket in if ltb t cutoff then rest else t ∷ bucket

-- The buckets come back beside a refusal too: what was evicted stays evicted.
unfoldable pub assert_not_rate_limited : String → ℕ → Buckets → Result (Unit {0}) × Buckets
unfolding evict
assert_not_rate_limited key now requests =
    let bucket = evict (now - window) (requests key) in
    if leb max_requests_per_window (length bucket)
    then (err (http_exception 429 "Too many requests. Try again later."), store requests key bucket)
    else (ok tt, store requests key (bucket ++ now ∷ []))
