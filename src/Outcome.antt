-- ===== src/Outcome.antt =====
-- What a Python call comes to: a value, an `HTTPException` with its status and detail, or an
-- exception that no handler of the program catches, which the server answers with status 500.
-- A call that works on a state and may raise is a function on the state: what was changed before a
-- raise stays changed, so the state comes back beside the error too.
pub mod Preserves
pub mod Yields
use aiops_aws.Prelude.{
  ◌≡◌, refl, ◌⊎◌, inl, inr, ℕ, String, Option, none, some, List, [], ◌∷◌, Bool, if◌then◌else◌,
}

pub data Error : Type 0 where
  http_exception : ℕ → String → Error
  unhandled : String → Error

pub data Result {ℓ} (A : Type ℓ) : Type ℓ where
  ok : A → Result A
  err : Error → Result A

pub Result-cases {ℓ} :
    {A : Type ℓ} (r : Result A) → ((a : A) × (r ≡ ok a)) ⊎ ((e : Error) × (r ≡ err e))
Result-cases (ok a) = inl (a, refl)
Result-cases (err e) = inr (e, refl)

-- the status that the client sees for an error
unfoldable pub status : Error → ℕ
status (http_exception code detail) = code
status (unhandled name) = 500

module _ {ℓ} {S : Type 0} {A : Type ℓ} where
  unfoldable pub pure : A → S → Result A × S
  pure a s = (ok a, s)

  unfoldable pub raise : ℕ → String → S → Result A × S
  raise code detail s = (err (http_exception code detail), s)

  unfoldable pub crash : String → S → Result A × S
  crash name s = (err (unhandled name), s)

  unfoldable pub gets : (S → A) → S → Result A × S
  gets f s = (ok (f s), s)

  unfoldable pub or_raise : Option A → ℕ → String → S → Result A × S
  or_raise none code detail = raise code detail
  or_raise (some a) code detail = pure a

-- `.scalar_one_or_none()`
unfoldable pub scalar_one_or_none {ℓ} :
    {S : Type 0} {A : Type ℓ} → List A → S → Result (Option A) × S
scalar_one_or_none [] s = (ok none, s)
scalar_one_or_none (a ∷ []) s = (ok (some a), s)
scalar_one_or_none (a ∷ b ∷ l) s = (err (unhandled "MultipleResultsFound"), s)

module _ {S : Type 0} where
  unfoldable pub modify : (S → S) → S → Result (Unit {0}) × S
  modify f s = (ok tt, f s)

  unfoldable pub raise_if : Bool → ℕ → String → S → Result (Unit {0}) × S
  raise_if c code detail s = (if c then err (http_exception code detail) else ok tt, s)

  -- `if c: …` with nothing after `else`
  unfoldable pub when : Bool → (S → Result (Unit {0}) × S) → S → Result (Unit {0}) × S
  when c m = if c then m else pure tt

abbrev pub continue {ℓ κ} :
    {S : Type 0} {A : Type ℓ} {B : Type κ} → Result A → (A → S → Result B × S) → S → Result B × S
continue (ok a) f s = f a s
continue (err e) f s = (err e, s)

infixl 5 ◌>>=◌ ◌>>◌
-- Opening this opens the calls above too.
unfoldable pub ◌>>=◌ {ℓ κ} :
    {S : Type 0} {A : Type ℓ} {B : Type κ}
    → (S → Result A × S)
    → (A → S → Result B × S)
    → S
    → Result B × S
unfolding pure raise crash gets or_raise modify raise_if when scalar_one_or_none
◌>>=◌ m f s = let (r, s') = m s in continue r f s'

abbrev pub ◌>>◌ {ℓ κ} :
    {S : Type 0} {A : Type ℓ} {B : Type κ}
    → (S → Result A × S)
    → (S → Result B × S)
    → S
    → Result B × S
m >> k = m >>= λ _. k
