-- ===== src/Prelude/Greatest.antt =====
-- The last of sorted texts.
use Prim.Native.String.{String}
use mathlib.Core.Path.{◌≡◌, refl, sym, ap, subst, ◌∙◌}
use mathlib.Core.Bool.{Bool, true, false, not, ◌&&◌}
use mathlib.Core.Logic.{inl, inr}
use mathlib.Core.List.{List, [], ◌∷◌}
use mathlib.Core.Option.{some}
use native.Mathlib.Omega.{arith}
use text.Mathlib.Text.{◌==◌ as str_eq}
use text.Mathlib.TextEquality.{eq_iff}
use aiops_aws.Prelude.Tests.{Bool-cases}
use aiops_aws.Prelude.Lists.{any, last}
use aiops_aws.Prelude.Order.{str_le, str_le_total}
use aiops_aws.Prelude.Sorting.{insert_sorted, sorted, IsAscending, sorted-IsAscending, any-sorted}
use aiops_aws.Prelude.TextSets.{contains}

-- whether a text is another one, and not before a first one
abbrev pub is_after : String → String → Bool
is_after x y = not (str_eq y x) && str_le x y

last-cons : (b x : String) (l : List String) → last l ≡ some x → last (b ∷ l) ≡ some x
last-cons b x [] e = absurd (ground (arith, e))
last-cons b x (c ∷ l) e = e

is_after-eq : (x y : String) → is_after x y ≡ false → str_le x y ≡ true → y ≡ x
is_after-eq x y h le = ground (arith, eq_iff y x, h, le)

-- above a greatest text stand its copies only
last-IsAscending :
    (x h : String) (l : List String)
    → h ≡ x
    → IsAscending (λ k. k) (h ∷ l)
    → any (is_after x) l ≡ false
    → last (h ∷ l) ≡ some x
last-IsAscending x h [] e up no_later = ground (arith, e)
last-IsAscending x h (c ∷ l) e up no_later =
    let le : str_le x c ≡ true = ground (arith, e, up.0) in
    last-IsAscending x c l (is_after-eq x c (ground (arith, no_later)) le) up.1
      (ground (arith, no_later))

IsAscending-tail :
    (b : String) (l : List String) → IsAscending (λ k. k) (b ∷ l) → IsAscending (λ k. k) l
IsAscending-tail b [] up = tt
IsAscending-tail b (c ∷ l) up = up.1

last-insert_sorted :
    (x : String) (l : List String)
    → IsAscending (λ k. k) l
    → any (is_after x) l ≡ false
    → last (insert_sorted (λ k. k) x l) ≡ some x
last-insert_sorted x [] up no_later = refl
last-insert_sorted x (b ∷ l) up no_later = elim (Bool-cases (str_le x b)) [
  | inl le ↦ rw le (
      last-IsAscending x b l (is_after-eq x b (ground (arith, no_later)) le) up
        (ground (arith, no_later)))
  | inr later ↦ rw later (
      last-cons b x (insert_sorted (λ k. k) x l)
        (last-insert_sorted x l (IsAscending-tail b l up) (ground (arith, no_later))))
]

last-insert_sorted_other :
    (x y : String) (l : List String)
    → last l ≡ some x
    → is_after x y ≡ false
    → last (insert_sorted (λ k. k) y l) ≡ some x
last-insert_sorted_other x y [] e h = absurd (ground (arith, e))
last-insert_sorted_other x y (b ∷ []) e h = elim (Bool-cases (str_le y b)) [
  | inl le ↦ rw le e
  | inr later ↦
      let same : b ≡ x = ground (arith, e) in
      let le : str_le b y ≡ true = ground (arith, later, str_le_total y b) in
      rw later (ap some (is_after-eq x y h (ap (λ z. str_le z y) (sym same) ∙ le)))
]
last-insert_sorted_other x y (b ∷ c ∷ l) e h = elim (Bool-cases (str_le y b)) [
  | inl le ↦ rw le e
  | inr later ↦
      rw later (
        last-cons b x (insert_sorted (λ k. k) y (c ∷ l)) (last-insert_sorted_other x y (c ∷ l) e h))
]

pub last-sorted :
    (x : String) (l : List String)
    → contains x l ≡ true
    → any (is_after x) l ≡ false
    → last (sorted (λ k. k) l) ≡ some x
last-sorted x [] found no_later = absurd (ground (arith, found))
last-sorted x (y ∷ l) found no_later = elim (Bool-cases (contains x l)) [
  | inl later ↦
      last-insert_sorted_other x y (sorted (λ k. k) l)
        (last-sorted x l later (ground (arith, no_later))) (ground (arith, no_later))
  | inr here ↦
      let same : x ≡ y = sym (ground (arith, found, here, eq_iff y x)) in
      subst (λ z. last (insert_sorted (λ k. k) z (sorted (λ k. k) l)) ≡ some x) same
        (last-insert_sorted x (sorted (λ k. k) l) (sorted-IsAscending (λ k. k) l)
          (any-sorted (λ k. k) (is_after x) l ∙ ground (arith, no_later)))
]
