-- ===== src/Prelude/TextSets.antt =====
-- Lists of texts as sets: membership, and adding what is not there yet.
use Prim.Native.Nat.{ℕ, ◌≤◌}
use Prim.Native.String.{String}
use mathlib.Core.Path.{◌≡◌, refl}
use mathlib.Core.Bool.{Bool, false, ◌||◌}
use mathlib.Core.List.{List, [], ◌∷◌, ◌++◌}
use native.Mathlib.Omega.{arith}
use text.Mathlib.Text.{◌==◌ as str_eq}
use text.Mathlib.TextEquality.{eq_iff}
use aiops_aws.Prelude.Tests.{if◌then◌else◌}
use aiops_aws.Prelude.Lists.{length, filter, any, any-append, filter-append, length-append}

-- `x in l`
abbrev pub contains : String → List String → Bool
contains x = any (λ y. str_eq y x)

abbrev pub occurrences : String → List String → ℕ
occurrences x l = length (filter (λ y. str_eq y x) l)

abbrev pub add_once : String → List String → List String
add_once y l = if contains y l then l else l ++ y ∷ []

pub occurrences-absent : (x : String) (l : List String) → contains x l ≡ false → occurrences x l ≡ 0
occurrences-absent x [] h = refl
occurrences-absent x (y ∷ l) h = ground (arith, occurrences-absent x l)

pub contains-add_once :
    (x y : String) (l : List String) → contains x (add_once y l) ≡ (contains x l || str_eq y x)
contains-add_once x y l = ground (arith, any-append (λ z. str_eq z x) l (y ∷ []), eq_iff y x)

pub occurrences-add_once :
    (x y : String) (l : List String) → occurrences x l ≤ 1 → occurrences x (add_once y l) ≤ 1
occurrences-add_once x y l h = ground (
  arith,
  h,
  filter-append (λ z. str_eq z x) l (y ∷ []),
  length-append (filter (λ z. str_eq z x) l) (filter (λ z. str_eq z x) (y ∷ [])),
  eq_iff y x,
  occurrences-absent x l,
)
