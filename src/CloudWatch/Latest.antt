-- ===== src/CloudWatch/Latest.antt =====
-- backend/aws/cloudwatch_collector.py: the value that `_parse_results` keeps for an id.
use aiops_aws.Prelude.{
  ℕ, zero, suc, ◌+◌, ◌≤◌, ◌<◌, ◌≡◌, refl, ◌⊎◌, inl, inr, Bool-cases, some, List, [], ◌∷◌, length,
  arith, ltb,
}
use aiops_aws.CloudWatch.Results.{latest_from, latest_idx, nth}

abbrev pub AllAtMost : List ℕ → ℕ → Type 0
AllAtMost ts t = (j s : ℕ) → nth ts j ≡ some s → s ≤ t

abbrev pub BelowBefore : List ℕ → ℕ → ℕ → Type 0
BelowBefore ts k t = (j s : ℕ) → j < k → nth ts j ≡ some s → s < t

-- t stands at k, no element is greater, and no earlier one is as great
abbrev pub IsLatest : List ℕ → ℕ → ℕ → Type 0
IsLatest ts k t = (nth ts k ≡ some t) × AllAtMost ts t × BelowBefore ts k t

AllAtMost-cons : (u t : ℕ) (ts : List ℕ) → u ≤ t → AllAtMost ts t → AllAtMost (u ∷ ts) t
AllAtMost-cons u t ts le all zero s e = ground (arith, e)
AllAtMost-cons u t ts le all (suc j) s e = all j s e

BelowBefore-cons :
    (u k t : ℕ) (ts : List ℕ) → u < t → BelowBefore ts k t → BelowBefore (u ∷ ts) (suc k) t
BelowBefore-cons u k t ts lt first zero s before e = ground (arith, e, lt)
BelowBefore-cons u k t ts lt first (suc j) s before e = first j s (omega (arith, before)) e

IsLatest-cons : (u k t : ℕ) (ts : List ℕ) → u < t → IsLatest ts k t → IsLatest (u ∷ ts) (suc k) t
IsLatest-cons u k t ts lt (at, all, first) =
    (at, AllAtMost-cons u t ts (omega (arith, lt)) all, BelowBefore-cons u k t ts lt first)

-- The best so far stays where nothing is greater, and else the latest of the rest is taken.
latest_from-IsLatest :
    (best best_time i : ℕ) (ts : List ℕ)
    → ((latest_from best best_time i ts ≡ best) × AllAtMost ts best_time)
      ⊎ ((k : ℕ) × (t : ℕ) × (latest_from best best_time i ts ≡ i + k)
          × (best_time < t)
          × IsLatest ts k t)
latest_from-IsLatest best best_time i [] = inl (refl, λ j s e. absurd (ground (arith, e)))
latest_from-IsLatest best best_time i (u ∷ ts) = elim (Bool-cases (ltb best_time u)) [
  | inl greater ↦
      let lt : best_time < u = ground (arith, greater) in
      rw greater (elim (latest_from-IsLatest i u (i + 1) ts) [
        | inl (same, all) ↦ inr (
          0,
          u,
          omega (arith, same),
          lt,
          (
            refl,
            AllAtMost-cons u u ts (omega arith) all,
            λ j s before e. absurd (omega (arith, before)),
          ),
        )
        | inr (k, t, there, later, latest) ↦ inr (
          suc k,
          t,
          omega (arith, there),
          omega (arith, lt, later),
          IsLatest-cons u k t ts later latest,
        )
      ])
  | inr not_greater ↦
      let le : u ≤ best_time = ground (arith, not_greater) in
      rw not_greater (elim (latest_from-IsLatest best best_time (i + 1) ts) [
        | inl (same, all) ↦ inl (same, AllAtMost-cons u best_time ts le all)
        | inr (k, t, there, later, latest) ↦ inr (
          suc k,
          t,
          omega (arith, there),
          later,
          IsLatest-cons u k t ts (omega (arith, le, later)) latest,
        )
      ])
]

pub latest_idx-IsLatest :
    (t : ℕ) (ts : List ℕ) → (m : ℕ) × IsLatest (t ∷ ts) (latest_idx (t ∷ ts)) m
unfolding latest_idx
latest_idx-IsLatest t ts = elim (latest_from-IsLatest 0 t 1 ts) [
  | inl (same, all) ↦ rw same (
    t,
    (refl, AllAtMost-cons t t ts (omega arith) all, λ j s before e. absurd (omega (arith, before))),
  )
  | inr (k, m, there, later, latest) ↦
      let there' : latest_from 0 t 1 ts ≡ suc k = omega (arith, there) in
      rw there' (m, IsLatest-cons t k m ts later latest)
]

pub nth_exists {ℓ} : {A : Type ℓ} (l : List A) (k : ℕ) → k < length l → (a : A) × (nth l k ≡ some a)
nth_exists [] k lt = absurd (ground (arith, lt))
nth_exists (a ∷ l) zero lt = (a, refl)
nth_exists (a ∷ l) (suc k) lt = nth_exists l k (ground (arith, lt))

pub nth_bound {ℓ} : {A : Type ℓ} (l : List A) (k : ℕ) (a : A) → nth l k ≡ some a → k < length l
nth_bound [] k a e = absurd (ground (arith, e))
nth_bound (b ∷ l) zero a e = ground arith
nth_bound (b ∷ l) (suc k) a e = ground (arith, nth_bound l k a e)
