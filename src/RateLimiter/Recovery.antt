-- ===== src/RateLimiter/Recovery.antt =====
-- backend/services/rate_limiter.py: the limiter a window after the last request.
use aiops_aws.Prelude.{
  ℕ, ◌+◌, ◌-◌, ◌≤◌, ◌<◌, String, ◌≡◌, refl, List, [], ◌∷◌, All, All-append, arith,
}
use aiops_aws.Outcome.{ok}
use aiops_aws.RateLimiter.{Buckets, no_requests, store, window, evict, assert_not_rate_limited}
use aiops_aws.RateLimiter.Window.{Request}

-- the table after requests
unfoldable pub after : Buckets → List Request → Buckets
after requests [] = requests
after requests (r ∷ rs) = after (assert_not_rate_limited r.0 r.1 requests).1 rs

evict-All :
    (P : ℕ → Type 0) (cutoff : ℕ) (bucket : List ℕ) → All P bucket → All P (evict cutoff bucket)
unfolding evict
evict-All P cutoff [] h = tt
evict-All P cutoff (t ∷ bucket) h = ground (arith, h, evict-All P cutoff bucket)

evict_old : (cutoff : ℕ) (bucket : List ℕ) → All (λ t. t < cutoff) bucket → evict cutoff bucket ≡ []
unfolding evict
evict_old cutoff [] h = refl
evict_old cutoff (t ∷ bucket) h = ground (arith, h.0, evict_old cutoff bucket h.1)

-- no bucket holds a time after a last one
abbrev UpTo : ℕ → Buckets → Type 0
UpTo limit requests = (key : String) → All (λ t. t ≤ limit) (requests key)

assert_not_rate_limited-UpTo :
    (limit : ℕ) (key : String) (now : ℕ) (requests : Buckets)
    → now ≤ limit
    → UpTo limit requests
    → UpTo limit (assert_not_rate_limited key now requests).1
unfolding assert_not_rate_limited
assert_not_rate_limited-UpTo limit key now requests le h k =
    let evicted = evict (now - window) (requests key) in
    let kept = evict-All (λ t. t ≤ limit) (now - window) (requests key) (h key) in
    ground (arith, h k, kept, All-append (λ t. t ≤ limit) evicted (now ∷ []) kept (le, tt))

after-UpTo :
    (limit : ℕ) (rs : List Request) (requests : Buckets)
    → All (λ r. r.1 ≤ limit) rs
    → UpTo limit requests
    → UpTo limit (after requests rs)
unfolding after
after-UpTo limit [] requests h k = k
after-UpTo limit (r ∷ rs) requests h k =
    after-UpTo limit rs (assert_not_rate_limited r.0 r.1 requests).1 h.1
      (assert_not_rate_limited-UpTo limit r.0 r.1 requests h.0 k)

All-lt :
    (limit cutoff : ℕ) (l : List ℕ)
    → limit < cutoff
    → All (λ t. t ≤ limit) l
    → All (λ t. t < cutoff) l
All-lt limit cutoff [] lt h = tt
All-lt limit cutoff (t ∷ l) lt h = (omega (arith, h.0, lt), All-lt limit cutoff l lt h.1)

-- After any requests up to a time, for any keys and in any order: a request that comes more than a
-- window later passes, whatever was refused before, and its time is then alone in its bucket.
pub after-recovers :
    (rs : List Request) (limit : ℕ) (key : String) (now : ℕ)
    → All (λ r. r.1 ≤ limit) rs
    → limit + window < now
    → assert_not_rate_limited key now (after no_requests rs)
      ≡ (ok tt, store (after no_requests rs) key (now ∷ []))
unfolding assert_not_rate_limited
after-recovers rs limit key now h later =
    let bounded = after-UpTo limit rs no_requests h (λ k. tt) in
    let old : evict (now - window) (after no_requests rs key) ≡ [] =
      evict_old (now - window) (after no_requests rs key) (
        All-lt limit (now - window) (after no_requests rs key) (omega (arith, later))
          (bounded key)) in
    rw old refl
