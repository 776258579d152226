-- ===== src/Database/Table.antt =====
-- One table of a session.
use aiops_aws.Prelude.{
  ℕ, Bool, Option, none, some, List, [], ◌∷◌, ◌++◌, map, ltb, ◌==◌, if◌then◌else◌,
}

pub record Row {ℓ} (A : Type ℓ) : Type ℓ where
  pub stored : Option A
  pub object : A

abbrev pub Table {ℓ} : Type ℓ → Type ℓ
Table A = List (Row A)

module _ {ℓ} {A : Type ℓ} where
  abbrev pub holds : (A → Bool) → Row A → Bool
  holds p r = elim r.stored [ none ↦ Bool.false | some a ↦ p a ]

  -- `select(A).where(p)`: tested on the stored rows, returning the session's objects
  abbrev pub select : (A → Bool) → Table A → List A
  select p [] = []
  select p (r ∷ t) = let rest = select p t in if holds p r then r.object ∷ rest else rest

  -- `db.add(a)`
  abbrev pub insert : A → Table A → Table A
  insert a t = t ++ record { stored = none; object = a } ∷ []

  abbrev pub written : (A → ℕ) → A → Row A → Row A
  written key a r = if key r.object == key a then record r { object = a } else r

  -- the attributes of the session's object with the key of `a` become those of `a`
  abbrev pub write : (A → ℕ) → A → Table A → Table A
  write key a = map (written key a)

  abbrev pub flushed : Row A → Row A
  flushed r = record r { stored = some r.object }

  -- `db.flush()`
  abbrev pub flush : Table A → Table A
  flush = map flushed

  -- The session's objects, flushed or not.
  abbrev pub objects : Table A → List A
  objects = map (λ r. r.object)

  -- `order_by(created_at.desc())`: a stable insertion sort, the newest first
  abbrev pub place : (A → ℕ) → A → List A → List A
  place time a [] = a ∷ []
  place time a (b ∷ l) =
      let rest = place time a l in if ltb (time a) (time b) then b ∷ rest else a ∷ b ∷ l

  abbrev pub newest_first : (A → ℕ) → List A → List A
  newest_first time [] = []
  newest_first time (a ∷ l) = place time a (newest_first time l)
