-- ===== src/Database/Counts.antt =====
-- How many rows of a table a query counts, before and after one row is written.
use aiops_aws.Prelude.{
  ℕ, ◌+◌, ◌≡◌, refl, sym, ap, ap₂, Bool, inl, inr, [], ◌∷◌, arith, length, ◌==◌, if◌then◌else◌,
  Bool-cases,
}
use aiops_aws.Database.Table.{Row, Table, select, written, write, flush}
use aiops_aws.Database.Rows.{IsClean}

module _ {ℓ} {A : Type ℓ} (key : A → ℕ) where
  pub write-write :
      (a b : A) (t : Table A) → key a ≡ key b → write key b (write key a t) ≡ write key b t
  write-write a b [] k = refl
  write-write a b (r ∷ t) k = ground (arith, write-write a b t k)

  pub length-select-write :
      (q : A → Bool) (a : A) (t : Table A) → length (select q (write key a t)) ≡ length (select q t)
  length-select-write q a [] = refl
  length-select-write q a (r ∷ t) = ground (arith, length-select-write q a t)

  abbrev pub ones : Bool → ℕ
  ones b = if b then 1 else 0

  unwritten :
      (a : A) (t : Table A)
      → IsClean t
      → select (λ x. key x == key a) t ≡ []
      → flush (write key a t) ≡ t
  unwritten a [] c e = refl
  unwritten a (r ∷ t) c e = ground (arith, unwritten a t c.1)

  pub count-write :
      (q : A → Bool) (a' : A) (t : Table A) {a : A}
      → IsClean t
      → key a' ≡ key a
      → select (λ x. key x == key a) t ≡ a ∷ []
      → length (select q (flush (write key a' t))) + ones (q a) ≡ length (select q t) + ones (q a')
  count-write q a' [] {a} c k e = cc
  count-write q a' (r ∷ t) {a} c k e =
      ground (arith, unwritten a' t c.1, count-write q a' t {a = a} c.1 k)

  written-same : (a : A) (r : Row A) → (key r.object ≡ key a → r.object ≡ a) → written key a r ≡ r
  written-same a r h = elim (Bool-cases (key r.object == key a)) [
    | inl e ↦ rw e (ap (λ o. record r { object = o }) (sym (h (ground (arith, e)))))
    | inr e ↦ rw e refl
  ]

  untouched :
      (a : A) (t : Table A) → IsClean t → select (λ x. key x == key a) t ≡ [] → write key a t ≡ t
  untouched a [] c e = refl
  untouched a (r ∷ t) c e =
      ap₂ (λ x l. x ∷ l) (written-same a r (λ k. absurd (ground (arith, k, e, c.0))))
        (untouched a t c.1 (ground (arith, e)))

  pub rewritten :
      (a : A) (t : Table A)
      → IsClean t
      → select (λ x. key x == key a) t ≡ a ∷ []
      → write key a t ≡ t
  rewritten a [] c e = refl
  rewritten a (r ∷ t) c e = elim (Bool-cases (key r.object == key a)) [
    | inl k ↦
        ap₂ (λ x l. x ∷ l) (written-same a r (λ _. ground (arith, k, e, c.0)))
          (untouched a t c.1 (ground (arith, k, e, c.0)))
    | inr k ↦
        ap₂ (λ x l. x ∷ l) (written-same a r (λ k'. absurd (ground (arith, k, k'))))
          (rewritten a t c.1 (ground (arith, k, e, c.0)))
  ]
