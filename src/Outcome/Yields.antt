-- ===== src/Outcome/Yields.antt =====
-- Invariants of calls that need to know what the calls before have returned.
use aiops_aws.Prelude.{Bool, true, false, ℕ, String, Option, none, some, if◌then◌else◌}
use aiops_aws.Outcome.{Result, ok, err, pure, raise, or_raise, ◌>>=◌, continue}
use aiops_aws.Outcome.Preserves.{Preserves, preserves_rules}

-- What holds of the value of a call that returns.
abbrev pub OnOk {ℓ κ} : {A : Type ℓ} → (A → Type κ) → Result A → Type κ
OnOk Q (ok a) = Q a
OnOk Q (err e) = Unit

-- The call preserves `P`, and where it begins in a state with `P` and returns, the value has `Q`.
pub record Yields {ℓ} {S : Type 0} {A : Type ℓ} (P : S → Type 0) (Q : A → Type 0)
    (m : S → Result A × S) : Type ℓ where
  pub keeps : Preserves P m
  pub gives : (s : S) → P s → OnOk Q (m s).0

-- nothing to know of a value
abbrev pub Any {ℓ} : {A : Type ℓ} → A → Type 0
Any a = Unit

-- what holds of the value that there is
abbrev pub OnSome {ℓ} : {A : Type ℓ} → (A → Type 0) → Option A → Type 0
OnSome Q none = Unit
OnSome Q (some a) = Q a

OnOk-Any {ℓ} : {A : Type ℓ} (r : Result A) → OnOk Any r
OnOk-Any (ok a) = tt
OnOk-Any (err e) = tt

module _ {ℓ} {S : Type 0} {A : Type ℓ} {P : S → Type 0} where
  pub ignored-Yields : (m : S → Result A × S) → Preserves P m → Yields P Any m
  ignored-Yields m h = record { keeps = h; gives = λ s p. OnOk-Any (m s).0 }

  pub pure-Yields : {Q : A → Type 0} (a : A) → Q a → Yields P Q (pure {S = S} a)
  unfolding pure
  pure-Yields a q = record { keeps = record { after = λ s h. h }; gives = λ s p. q }

  pub raise-Yields :
      {Q : A → Type 0} (code : ℕ) (detail : String) → Yields P Q (raise {A = A} code detail)
  unfolding raise
  raise-Yields code detail = record { keeps = record { after = λ s h. h }; gives = λ s p. tt }

  pub or_raise-Yields :
      {Q : A → Type 0} (o : Option A) (code : ℕ) (detail : String)
      → OnSome Q o
      → Yields P Q (or_raise o code detail)
  unfolding or_raise
  or_raise-Yields none code detail q = raise-Yields code detail
  or_raise-Yields (some a) code detail q = pure-Yields a q

  pub if-Yields :
      {Q : A → Type 0} (b : Bool) (m n : S → Result A × S)
      → Yields P Q m
      → Yields P Q n
      → Yields P Q (if b then m else n)
  if-Yields true m n hm hn = hm
  if-Yields false m n hm hn = hn

module _ {ℓ κ} {S : Type 0} {A : Type ℓ} {B : Type κ} {P : S → Type 0} {Q : A → Type 0}
    {R : B → Type 0} where
  continue-keeps :
      (r : Result A) (f : A → S → Result B × S) (s : S)
      → ((a : A) → Q a → Yields P R (f a))
      → OnOk Q r
      → P s
      → P (continue r f s).1
  continue-keeps (ok a) f s hf q p = (hf a q).keeps.after s p
  continue-keeps (err e) f s hf q p = p

  continue-gives :
      (r : Result A) (f : A → S → Result B × S) (s : S)
      → ((a : A) → Q a → Yields P R (f a))
      → OnOk Q r
      → P s
      → OnOk R (continue r f s).0
  continue-gives (ok a) f s hf q p = (hf a q).gives s p
  continue-gives (err e) f s hf q p = tt

  pub bind-Yields :
      (m : S → Result A × S) (f : A → S → Result B × S)
      → Yields P Q m
      → ((a : A) → Q a → Yields P R (f a))
      → Yields P R (m >>= f)
  unfolding ◌>>=◌
  bind-Yields m f hm hf = record {
    keeps = record {
      after =
          λ s p. let (r, s') = m s in continue-keeps r f s' hf (hm.gives s p) (hm.keeps.after s p);
    };
    gives =
        λ s p. let (r, s') = m s in continue-gives r f s' hf (hm.gives s p) (hm.keeps.after s p);
  }

module _ {ℓ κ} {S : Type 0} {A : Type ℓ} {B : Type κ} {P : S → Type 0} {R : B → Type 0} where
  -- where nothing is needed of the first call's value
  pub then-Yields :
      (m : S → Result A × S) (f : A → S → Result B × S)
      → Preserves P m
      → ((a : A) → Yields P R (f a))
      → Yields P R (m >>= f)
  then-Yields m f hm hf = bind-Yields m f (ignored-Yields m hm) (λ a q. hf a)

pub ruleset yields_rules = (
  preserves_rules, then-Yields, pure-Yields, raise-Yields, or_raise-Yields, if-Yields,
  ignored-Yields,
)
