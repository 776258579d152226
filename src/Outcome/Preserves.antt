-- ===== src/Outcome/Preserves.antt =====
-- Invariants of calls, with a rule for each way to put a call together.
use aiops_aws.Prelude.{Bool, true, false, ℕ, String, Option, none, some, if◌then◌else◌}
use aiops_aws.Outcome.{
  Result, ok, err, pure, raise, crash, gets, or_raise, raise_if, when, ◌>>=◌, continue,
}

-- Whether the call returns or raises, what held of the state before holds of the state after.
pub record Preserves {ℓ} {S : Type 0} {A : Type ℓ} (P : S → Type 0) (m : S → Result A × S)
    : Type ℓ where
  pub after : (s : S) → P s → P (m s).1

module _ {ℓ} {S : Type 0} {A : Type ℓ} {P : S → Type 0} where
  pub pure-Preserves : (a : A) → Preserves P (pure {S = S} a)
  unfolding pure
  pure-Preserves a = record { after = λ s h. h }

  pub raise-Preserves : (code : ℕ) (detail : String) → Preserves P (raise {A = A} code detail)
  unfolding raise
  raise-Preserves code detail = record { after = λ s h. h }

  pub crash-Preserves : (name : String) → Preserves P (crash {A = A} name)
  unfolding crash
  crash-Preserves name = record { after = λ s h. h }

  pub gets-Preserves : (f : S → A) → Preserves P (gets f)
  unfolding gets
  gets-Preserves f = record { after = λ s h. h }

  pub or_raise-Preserves :
      (o : Option A) (code : ℕ) (detail : String) → Preserves P (or_raise o code detail)
  unfolding or_raise raise pure
  or_raise-Preserves none code detail = record { after = λ s h. h }
  or_raise-Preserves (some a) code detail = record { after = λ s h. h }

  pub if-Preserves :
      (b : Bool) (m n : S → Result A × S)
      → Preserves P m
      → Preserves P n
      → Preserves P (if b then m else n)
  if-Preserves true m n hm hn = hm
  if-Preserves false m n hm hn = hn

module _ {S : Type 0} {P : S → Type 0} where
  pub raise_if-Preserves :
      (b : Bool) (code : ℕ) (detail : String) → Preserves P (raise_if b code detail)
  unfolding raise_if
  raise_if-Preserves b code detail = record { after = λ s h. h }

  pub when-Preserves :
      (b : Bool) (m : S → Result (Unit {0}) × S) → Preserves P m → Preserves P (when b m)
  unfolding when pure
  when-Preserves true m h = h
  when-Preserves false m h = record { after = λ s k. k }

module _ {ℓ κ} {S : Type 0} {A : Type ℓ} {B : Type κ} {P : S → Type 0} where
  continue-Preserves :
      (r : Result A) (f : A → S → Result B × S) (s : S)
      → ((a : A) → Preserves P (f a))
      → P s
      → P (continue r f s).1
  continue-Preserves (ok a) f s hf h = (hf a).after s h
  continue-Preserves (err e) f s hf h = h

  pub bind-Preserves :
      (m : S → Result A × S) (f : A → S → Result B × S)
      → Preserves P m
      → ((a : A) → Preserves P (f a))
      → Preserves P (m >>= f)
  unfolding ◌>>=◌
  bind-Preserves m f hm hf = record {
    after = λ s h. let (r, s') = m s in continue-Preserves r f s' hf (hm.after s h);
  }

pub ruleset preserves_rules = (
  pure-Preserves, raise-Preserves, crash-Preserves, gets-Preserves, or_raise-Preserves,
  if-Preserves, raise_if-Preserves, when-Preserves, bind-Preserves,
)
