-- ===== src/Prelude/Dicts.antt =====
-- Dictionaries with texts as keys, in the order of insertion, as Python keeps them.
use Prim.Native.String.{String}
use mathlib.Core.Path.{◌≡◌, refl}
use mathlib.Core.List.{List, [], ◌∷◌}
use mathlib.Core.Option.{Option, none, some}
use native.Mathlib.Omega.{arith}
use text.Mathlib.Text.{◌==◌ as str_eq}
use text.Mathlib.TextEquality.{eq_iff}
use aiops_aws.Prelude.Tests.{if◌then◌else◌}

abbrev pub Dict {ℓ} : Type ℓ → Type ℓ
Dict V = List (String × V)

module _ {ℓ} {V : Type ℓ} where
  -- `d.get(k)`
  abbrev pub lookup : String → Dict V → Option V
  lookup k [] = none
  lookup k ((j, v) ∷ d) = let rest = lookup k d in if str_eq j k then some v else rest

  -- `d[k] = v`
  abbrev pub assign : String → V → Dict V → Dict V
  assign k v [] = (k, v) ∷ []
  assign k v ((j, w) ∷ d) =
      let rest = assign k v d in if str_eq j k then (j, v) ∷ d else (j, w) ∷ rest

  pub lookup-assign :
      (k j : String) (v : V) (d : Dict V)
      → lookup j (assign k v d) ≡ (if str_eq k j then some v else lookup j d)
  lookup-assign k j v [] = refl
  lookup-assign k j v ((i, w) ∷ d) =
      ground (arith, eq_iff i k, eq_iff k j, eq_iff i j, lookup-assign k j v d)
