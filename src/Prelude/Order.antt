-- ===== src/Prelude/Order.antt =====
-- The order of texts by code points, as Python compares them.
use Prim.Native.Nat.{ℕ, Ordering, compare as compare_ℕ}
use Prim.Native.Char.{Char, code}
use Prim.Native.String.compare
use Prim.Native.String.{String, [], ◌∷◌, compare, then}
use mathlib.Core.Path.{◌≡◌, refl, ap}
use mathlib.Core.Bool.{Bool, true, ◌||◌}
use native.Mathlib.Omega.{arith}
use text.Mathlib.Text.{is_le}

abbrev pub str_le : String → String → Bool
str_le s t = is_le (compare s t)

str_le-cons :
    (c d : Char) (s t : String)
    → str_le (c ∷ s) (d ∷ t) ≡ is_le (then (compare_ℕ (code c) (code d)) (compare s t))
str_le-cons c d s t = ap is_le (compare.cons-cons c d s t)

then_total :
    (m n : ℕ) (o o' : Ordering)
    → (is_le o || is_le o') ≡ true
    → (is_le (then (compare_ℕ m n) o) || is_le (then (compare_ℕ n m) o')) ≡ true
then_total m n o o' h = ground (arith, h)

pub str_le_total : (s t : String) → (str_le s t || str_le t s) ≡ true
str_le_total [] [] = refl
str_le_total [] (d ∷ t) = rw (compare.nil-cons d t) refl
str_le_total (c ∷ s) [] = rw (compare.cons-nil c s, compare.nil-cons c s) refl
str_le_total (c ∷ s) (d ∷ t) =
    rw (str_le-cons c d s t, str_le-cons d c t s)
      (then_total (code c) (code d) (compare s t) (compare t s) (str_le_total s t))
