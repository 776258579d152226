-- ===== src/Prelude/Sorting.antt =====
-- Sorting by a key that is a text, as Python's `sorted`, which is stable.
use Prim.Native.Nat.{suc}
use Prim.Native.String.{String}
use mathlib.Core.Path.{◌≡◌, refl, ap}
use mathlib.Core.Bool.{Bool, true}
use mathlib.Core.List.{List, [], ◌∷◌, map}
use native.Mathlib.Omega.{arith}
use aiops_aws.Prelude.Tests.{if◌then◌else◌}
use aiops_aws.Prelude.Lists.{length, filter, any}
use aiops_aws.Prelude.Order.{str_le, str_le_total}

module _ {ℓ} {A : Type ℓ} (key : A → String) where
  abbrev pub insert_sorted : A → List A → List A
  insert_sorted a [] = a ∷ []
  insert_sorted a (b ∷ l) =
      let rest = insert_sorted a l in if str_le (key a) (key b) then a ∷ b ∷ l else b ∷ rest

  -- `sorted(l, key=key)`
  abbrev pub sorted : List A → List A
  sorted [] = []
  sorted (a ∷ l) = insert_sorted a (sorted l)

  -- Each element's key is at most the next one's.
  abbrev pub IsAscending : List A → Type 0
  IsAscending [] = Unit
  IsAscending (a ∷ []) = Unit
  IsAscending (a ∷ b ∷ l) = (str_le (key a) (key b) ≡ true) × IsAscending (b ∷ l)

  insert_sorted-IsAscending : (a : A) (l : List A) → IsAscending l → IsAscending (insert_sorted a l)
  insert_sorted-IsAscending a [] h = tt
  insert_sorted-IsAscending a (b ∷ []) h = ground (arith, str_le_total (key a) (key b))
  insert_sorted-IsAscending a (b ∷ c ∷ l) h =
      ground (arith, str_le_total (key a) (key b), insert_sorted-IsAscending a (c ∷ l) h.1)

  pub sorted-IsAscending : (l : List A) → IsAscending (sorted l)
  sorted-IsAscending [] = tt
  sorted-IsAscending (a ∷ l) = insert_sorted-IsAscending a (sorted l) (sorted-IsAscending l)

  length-filter-insert_sorted :
      (p : A → Bool) (a : A) (l : List A)
      → length (filter p (insert_sorted a l)) ≡ length (filter p (a ∷ l))
  length-filter-insert_sorted p a [] = refl
  length-filter-insert_sorted p a (b ∷ l) = ground (arith, length-filter-insert_sorted p a l)

  -- Sorting keeps how many elements pass any test.
  pub length-filter-sorted :
      (p : A → Bool) (l : List A) → length (filter p (sorted l)) ≡ length (filter p l)
  length-filter-sorted p [] = refl
  length-filter-sorted p (a ∷ l) =
      ground (arith, length-filter-insert_sorted p a (sorted l), length-filter-sorted p l)

  any-insert_sorted :
      (p : A → Bool) (a : A) (l : List A) → any p (insert_sorted a l) ≡ any p (a ∷ l)
  any-insert_sorted p a [] = refl
  any-insert_sorted p a (b ∷ l) = ground (arith, any-insert_sorted p a l)

  pub any-sorted : (p : A → Bool) (l : List A) → any p (sorted l) ≡ any p l
  any-sorted p [] = refl
  any-sorted p (a ∷ l) = ground (arith, any-insert_sorted p a (sorted l), any-sorted p l)

  length-insert_sorted : (a : A) (l : List A) → length (insert_sorted a l) ≡ suc (length l)
  length-insert_sorted a [] = refl
  length-insert_sorted a (b ∷ l) = ground (arith, length-insert_sorted a l)

  pub length-sorted : (l : List A) → length (sorted l) ≡ length l
  length-sorted [] = refl
  length-sorted (a ∷ l) = ground (arith, length-insert_sorted a (sorted l), length-sorted l)

pub length-map {ℓ κ} :
    {A : Type ℓ} {B : Type κ} (f : A → B) (l : List A) → length (map f l) ≡ length l
length-map f [] = refl
length-map f (a ∷ l) = ap suc (length-map f l)
