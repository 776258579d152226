-- ===== src/Database/Rows.antt =====
-- What queries find after the changes that the services make to a table.
use aiops_aws.Prelude.{
  ℕ, ◌≡◌, refl, Bool, true, false, some, [], ◌∷◌, ◌++◌, arith, filter, if◌then◌else◌,
}
use aiops_aws.Database.Table.{Table, select, insert, write, flush, objects}

module _ {ℓ} {A : Type ℓ} where
  -- Every object has been flushed, and not changed since, as in a session that begins.
  abbrev pub IsClean : Table A → Type ℓ
  IsClean [] = Unit
  IsClean (r ∷ t) = (r.stored ≡ some r.object) × IsClean t

  pub flush-IsClean : (t : Table A) → IsClean (flush t)
  flush-IsClean [] = tt
  flush-IsClean (r ∷ t) = (refl, flush-IsClean t)

  pub flush-clean : (t : Table A) → IsClean t → flush t ≡ t
  flush-clean [] c = refl
  flush-clean (r ∷ t) c = ground (arith, flush-clean t)

  -- In a clean table a query filters the objects.
  pub select-eq-filter :
      (p : A → Bool) (t : Table A) → IsClean t → select p t ≡ filter p (objects t)
  select-eq-filter p [] c = refl
  select-eq-filter p (r ∷ t) c = ground (arith, select-eq-filter p t)

module _ {ℓ} {A : Type ℓ} (p q : A → Bool) (key : A → ℕ) (a' : A) where
  -- no object that `q` accepts is one that `p` does not accept
  abbrev Implies : Type ℓ
  Implies = (x : A) → q x ≡ true → p x ≡ true

  select_none :
      (t : Table A)
      → IsClean t
      → Implies
      → q a' ≡ false
      → select p t ≡ []
      → select q (flush (write key a' t)) ≡ []
  select_none [] c i n e = refl
  select_none (r ∷ t) c i n e = ground (arith, i r.object, select_none t c.1 i n)

  -- A query with one answer, which is then overwritten by what the query no longer accepts,
  -- finds nothing after the flush.
  pub select_used :
      (t : Table A) {a : A}
      → IsClean t
      → Implies
      → q a' ≡ false
      → key a' ≡ key a
      → select p t ≡ a ∷ []
      → select q (flush (write key a' t)) ≡ []
  select_used [] c i n k e = cc
  select_used (r ∷ t) {a} c i n k e =
      ground (arith, i r.object, select_none t c.1 i n, select_used t {a = a} c.1 i n k)

module _ {ℓ} {A : Type ℓ} (q : A → Bool) where
  pub select-flush-insert :
      (a : A) (t : Table A)
      → select q (flush (insert a t)) ≡ select q (flush t) ++ (if q a then a ∷ [] else [])
  select-flush-insert a [] = ground arith
  select-flush-insert a (r ∷ t) = ground (arith, select-flush-insert a t)

  -- An object that the query does not accept is not found after it was added.
  pub select_inserted :
      (a : A) (t : Table A)
      → select q (flush t) ≡ []
      → q a ≡ false
      → select q (flush (insert a t)) ≡ []
  select_inserted a t e n = rw (select-flush-insert a t, e, n)

module _ {ℓ} {A : Type ℓ} (p : A → Bool) (key : A → ℕ) where
  select_none-write : (a : A) (t : Table A) → select p t ≡ [] → select p (write key a t) ≡ []
  select_none-write a [] e = refl
  select_none-write a (r ∷ t) e = ground (arith, select_none-write a t)

  -- Before the flush a query still finds the row that it found, with the object as it is now.
  pub select-write :
      (a' : A) (t : Table A) {a : A}
      → key a' ≡ key a
      → select p t ≡ a ∷ []
      → select p (write key a' t) ≡ a' ∷ []
  select-write a' [] k e = cc
  select-write a' (r ∷ t) {a} k e =
      ground (arith, select_none-write a' t, select-write a' t {a = a} k)
