-- ===== src/Prelude/Prefixes.antt =====
-- `startswith` and `endswith` of texts that are put together.
use Prim.Native.String
use Prim.Native.String.{String}
use Prim.Native.Char.{code}
use mathlib.Core.Path.{◌≡◌, refl, sym, ap, ◌∙◌}
use mathlib.Core.Logic.{inl, inr}
use mathlib.Core.Bool.{Bool, true, false, not, ◌||◌}
use native.Mathlib.Omega.{arith}
use text.Mathlib.TextLemmas.{nil-append, cons-append, append_cancel_left}
use text.Mathlib.Text.{◌==◌ as str_eq}
use text.Mathlib.TextEquality.{eq_iff}
use aiops_aws.Prelude.Tests.{◌==◌, Bool-cases}
use aiops_aws.Prelude.Text.{is_prefix, is_suffix}

-- whether two texts have another character at some place that both have
abbrev pub differs : String → String → Bool
differs String.[] q = false
differs (String.◌∷◌ c p) String.[] = false
differs (String.◌∷◌ c p) (String.◌∷◌ d q) = not (code c == code d) || differs p q

pub is_prefix-append : (p s : String) → is_prefix p (String.◌++◌ p s) ≡ true
is_prefix-append String.[] s = refl
is_prefix-append (String.◌∷◌ c p) s = rw (cons-append c p s) (ground (arith, is_prefix-append p s))

pub is_prefix-differs :
    (p q s : String) → differs p q ≡ true → is_prefix p (String.◌++◌ q s) ≡ false
is_prefix-differs String.[] q s h = absurd (ground (arith, h))
is_prefix-differs (String.◌∷◌ c p) String.[] s h = absurd (ground (arith, h))
is_prefix-differs (String.◌∷◌ c p) (String.◌∷◌ d q) s h =
    rw (cons-append d q s) (ground (arith, h, is_prefix-differs p q s))

pub is_suffix-append :
    (p s t : String) → is_suffix p t ≡ true → is_suffix p (String.◌++◌ s t) ≡ true
is_suffix-append p String.[] t h = rw (nil-append t) h
is_suffix-append p (String.◌∷◌ c s) t h =
    rw (cons-append c s t) (ground (arith, is_suffix-append p s t h))

-- Texts that start with texts that differ are different.
pub append-differs :
    (p q s t : String) → differs p q ≡ true → str_eq (String.◌++◌ p s) (String.◌++◌ q t) ≡ false
append-differs p q s t h = elim (Bool-cases (str_eq (String.◌++◌ p s) (String.◌++◌ q t))) [
  | inl same ↦
      let eq : String.◌++◌ p s ≡ String.◌++◌ q t =
        (eq_iff (String.◌++◌ p s) (String.◌++◌ q t)).0 same in
      let starts : is_prefix p (String.◌++◌ q t) ≡ true =
        ap (is_prefix p) (sym eq) ∙ is_prefix-append p s in
      absurd (ground (arith, starts, is_prefix-differs p q t h))
  | inr other ↦ other
]

-- A text in front makes no difference.
pub append-same : (p s t : String) → str_eq (String.◌++◌ p s) (String.◌++◌ p t) ≡ str_eq s t
append-same p s t =
    let ps = String.◌++◌ p s in
    let pt = String.◌++◌ p t in
    let cancelled : ps ≡ pt → s ≡ t = append_cancel_left p s t in
    let added : s ≡ t → ps ≡ pt = ap (String.◌++◌ p) in
    elim (Bool-cases (str_eq s t)) [
      | inl same ↦ (eq_iff ps pt).1 (added ((eq_iff s t).0 same)) ∙ sym same
      | inr other ↦ elim (Bool-cases (str_eq ps pt)) [
        | inl same ↦
            absurd (ground (arith, (eq_iff s t).1 (cancelled ((eq_iff ps pt).0 same)), other))
        | inr apart ↦ apart ∙ sym other
      ]
    ]
