-- ===== src/RateLimiter/Window.antt =====
-- The limiter against its specification, which keeps every accepted request for ever and counts
-- those of the last window.
use aiops_aws.Prelude.{
  ℕ, ◌-◌, ◌≤◌, String, ◌≡◌, refl, Bool, true, false, ◌&&◌, List, [], ◌∷◌, ◌++◌, length, filter,
  filter-append, All, All-append, append-nil, ◌∙◌, arith, ltb, leb, str_eq, if◌then◌else◌,
}
use aiops_aws.Outcome.{Result, ok, err}
use aiops_aws.RateLimiter.{Buckets, window, max_requests_per_window, evict, assert_not_rate_limited}

abbrev pub Request : Type 0
Request = String × ℕ

-- the accepted requests of one key that are no older than a time
abbrev pub recent : String → ℕ → List Request → List Request
recent key from = filter (λ r. str_eq r.0 key && leb from r.1)

-- The specification: a request passes if fewer than ten passed in the window that ends with it.
abbrev pub admits : List Request → Request → Bool
admits history r = ltb (length (recent r.0 (r.1 - window) history)) max_requests_per_window

abbrev pub admitted_from : List Request → List Request → List Request
admitted_from history [] = history
admitted_from history (r ∷ rs) =
    admitted_from (if admits history r then history ++ r ∷ [] else history) rs

abbrev pub passed : Result (Unit {0}) → Bool
passed (ok u) = true
passed (err e) = false

-- the accepted requests of a run of the program's limiter
unfoldable pub run_from : Buckets → List Request → List Request → List Request
run_from requests history [] = history
run_from requests history (r ∷ rs) =
    let (result, requests') = assert_not_rate_limited r.0 r.1 requests in
    run_from requests' (if passed result then history ++ r ∷ [] else history) rs

-- A clock that does not run backwards: every time is at least `from` and at least those before it.
abbrev pub IsChronological : ℕ → List Request → Type 0
IsChronological from [] = Unit
IsChronological from (r ∷ rs) = (from ≤ r.1) × IsChronological r.1 rs

abbrev pub IsSorted : List ℕ → Type 0
IsSorted [] = Unit
IsSorted (t ∷ ts) = All (λ u. t ≤ u) ts × IsSorted ts

-- the times of a key's requests
abbrev pub times : String → List Request → List ℕ
times key [] = []
times key (r ∷ rs) = let rest = times key rs in if str_eq r.0 key then r.1 ∷ rest else rest

filter-All : (c t : ℕ) (b : List ℕ) → c ≤ t → All (λ u. t ≤ u) b → filter (leb c) b ≡ b
filter-All c t [] h a = refl
filter-All c t (u ∷ b) h a = ground (arith, filter-All c t b)

-- On a sorted bucket the loop at its left end removes all that is too old, and no more.
evict-eq-filter : (c : ℕ) (b : List ℕ) → IsSorted b → evict c b ≡ filter (leb c) b
unfolding evict
evict-eq-filter c [] s = refl
evict-eq-filter c (t ∷ b) s = ground (arith, evict-eq-filter c b, filter-All c t b)

filter-filter :
    (c d : ℕ) (b : List ℕ) → c ≤ d → filter (leb d) (filter (leb c) b) ≡ filter (leb d) b
filter-filter c d [] h = refl
filter-filter c d (t ∷ b) h = ground (arith, filter-filter c d b)

All-filter : (P : ℕ → Type 0) (c : ℕ) (b : List ℕ) → All P b → All P (filter (leb c) b)
All-filter P c [] a = tt
All-filter P c (t ∷ b) a = ground (arith, All-filter P c b)

filter-IsSorted : (c : ℕ) (b : List ℕ) → IsSorted b → IsSorted (filter (leb c) b)
filter-IsSorted c [] s = tt
filter-IsSorted c (t ∷ b) s = ground (arith, filter-IsSorted c b, All-filter (λ u. t ≤ u) c b)

All-le_trans : {m n : ℕ} (b : List ℕ) → m ≤ n → All (λ t. t ≤ m) b → All (λ t. t ≤ n) b
All-le_trans [] h a = tt
All-le_trans (t ∷ b) h a = (omega arith, All-le_trans b h a.1)

append-IsSorted : (n : ℕ) (b : List ℕ) → IsSorted b → All (λ t. t ≤ n) b → IsSorted (b ++ n ∷ [])
append-IsSorted n [] s a = (tt, tt)
append-IsSorted n (t ∷ b) s a =
    (All-append (λ u. t ≤ u) b (n ∷ []) s.0 (a.0, tt), append-IsSorted n b s.1 a.1)

pub length-recent :
    (key : String) (c : ℕ) (history : List Request)
    → length (recent key c history) ≡ length (filter (leb c) (times key history))
length-recent key c [] = refl
length-recent key c (r ∷ rs) = ground (arith, length-recent key c rs)

times-append :
    (key : String) (history : List Request) (r : Request)
    → times key (history ++ r ∷ []) ≡ times key history ++ (if str_eq r.0 key then r.1 ∷ [] else [])
times-append key [] r = ground arith
times-append key (x ∷ xs) r = ground (arith, times-append key xs r)

-- A bucket and the history of its key agree on what the limiter can still ask about at `now`.
pub record Tracks (key : String) (now : ℕ) (history : List Request) (bucket : List ℕ) : Type 0 where
  pub sorted : IsSorted bucket
  pub past : All (λ t. t ≤ now) bucket
  pub same : (c : ℕ) → now - window ≤ c → filter (leb c) bucket ≡ filter (leb c) (times key history)

pub Tracks-later :
    (key : String) {m n : ℕ} (history : List Request) (bucket : List ℕ)
    → m ≤ n
    → Tracks key m history bucket
    → Tracks key n history bucket
Tracks-later key history bucket h t = record {
  sorted = t.sorted;
  past = All-le_trans bucket h t.past;
  same = λ c hc. t.same c (omega arith);
}

module _ (key : String) (now : ℕ) (history : List Request) (bucket : List ℕ)
    (t : Tracks key now history bucket) where
  -- What is left after the eviction are the requests of the last window.
  pub evict-eq-times : evict (now - window) bucket ≡ filter (leb (now - window)) (times key history)
  evict-eq-times =
      evict-eq-filter (now - window) bucket t.sorted ∙ t.same (now - window) (omega arith)

  pub evict-Tracks : Tracks key now history (evict (now - window) bucket)
  evict-Tracks = rw (evict-eq-filter (now - window) bucket t.sorted) record {
    sorted = filter-IsSorted (now - window) bucket t.sorted;
    past = All-filter (λ u. u ≤ now) (now - window) bucket t.past;
    same = λ c h. filter-filter (now - window) c bucket h ∙ t.same c h;
  }

  pub append-Tracks :
      (r : Request)
      → r.1 ≡ now
      → str_eq r.0 key ≡ true
      → Tracks key now (history ++ r ∷ []) (bucket ++ now ∷ [])
  append-Tracks r e k = record {
    sorted = append-IsSorted now bucket t.sorted t.past;
    past = All-append (λ u. u ≤ now) bucket (now ∷ []) t.past (omega arith);
    same = λ c h. rw (times-append key history r, k, e, filter-append, filter-append, t.same c h);
  }

  pub append-Tracks_ne :
      (r : Request) → str_eq r.0 key ≡ false → Tracks key now (history ++ r ∷ []) bucket
  append-Tracks_ne r k = record {
    sorted = t.sorted;
    past = t.past;
    same = λ c h. rw (times-append key history r, k, append-nil) (t.same c h);
  }
