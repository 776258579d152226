-- ===== src/Database/AllRows.antt =====
-- A predicate that all rows of a table have, as stored and as the session's objects are.
use aiops_aws.Prelude.{
  ℕ, Bool, true, false, Option, none, some, List, [], ◌∷◌, ◌≡◌, All, All-append, if◌then◌else◌,
  Bool-cases, Option-cases, inl, inr, refl, arith,
}
use aiops_aws.Outcome.Yields.{OnSome}
use aiops_aws.Database.Table.{Row, Table, holds, select, insert, write, flush}
use aiops_aws.Database.Rows.{IsClean}

module _ {A : Type 0} (F : A → Type 0) where
  OnSome-always : (o : Option A) → ((a : A) → F a) → OnSome F o
  OnSome-always none f = tt
  OnSome-always (some a) f = f a

  abbrev pub RowHas : Row A → Type 0
  RowHas r = OnSome F r.stored × F r.object

  pub All-always : (t : Table A) → ((a : A) → F a) → All RowHas t
  All-always [] f = tt
  All-always (r ∷ t) f = ((OnSome-always r.stored f, f r.object), All-always t f)

  pub flush-All : (t : Table A) → All RowHas t → All RowHas (flush t)
  flush-All [] h = tt
  flush-All (r ∷ t) h = ((h.0.1, h.0.1), flush-All t h.1)

  RowHas-if : (b : Bool) (r q : Row A) → RowHas r → RowHas q → RowHas (if b then r else q)
  RowHas-if true r q h k = h
  RowHas-if false r q h k = k

  pub write-All :
      (key : A → ℕ) (a : A) (t : Table A) → F a → All RowHas t → All RowHas (write key a t)
  write-All key a [] f h = tt
  write-All key a (r ∷ t) f h = (RowHas-if _ _ r (h.0.0, f) h.0, write-All key a t f h.1)

  pub insert-All : (a : A) (t : Table A) → F a → All RowHas t → All RowHas (insert a t)
  insert-All a t f h = All-append RowHas t _ h ((tt, f), tt)

  if-All : (b : Bool) (k l : List A) → All F k → All F l → All F (if b then k else l)
  if-All true k l h i = h
  if-All false k l h i = i

  pub select-All : (p : A → Bool) (t : Table A) → All RowHas t → All F (select p t)
  select-All p [] h = tt
  select-All p (r ∷ t) h =
      if-All (holds p r) (r.object ∷ select p t) (select p t) (h.0.1, select-All p t h.1)
        (select-All p t h.1)

module _ {A : Type 0} (p : A → Bool) where
  -- what a query does not find does not pass its test
  abbrev pub Fails : A → Type 0
  Fails a = p a ≡ false

  pub select-none-Fails : (t : Table A) → IsClean t → select p t ≡ [] → All (RowHas Fails) t
  select-none-Fails [] c e = tt
  select-none-Fails (r ∷ t) c e = elim (Bool-cases (p r.object)) [
    | inl found ↦ absurd (ground arith)
    | inr fails ↦ ((rw c.0 fails, fails), select-none-Fails t c.1 (rw (c.0, fails) at e))
  ]

  -- nor is it found by a query that accepts less
  pub Fails-select :
      (q : A → Bool) (t : Table A)
      → ((a : A) → Fails a → q a ≡ false)
      → All (RowHas Fails) t
      → select q t ≡ []
  Fails-select q [] le h = refl
  Fails-select q (r ∷ t) le h = elim (Option-cases r.stored) [
    | inl new ↦ rw new (Fails-select q t le h.1)
    | inr (a, old) ↦ rw (old, le a (rw old at h.0.0)) (Fails-select q t le h.1)
  ]
