-- ===== src/Prelude/Text.antt =====
-- Python's `str.lower` on the ASCII letters, `str.strip`, `startswith`, and `replace` of a character.
use Prim.Native.Char.{Char, char, code, IsScalar}
use Prim.Native.Nat.{ℕ, ◌+◌, ◌≤◌}
use Prim.Native.String
use Prim.Native.String.count
use Prim.Native.String.{String, count}
use mathlib.Core.Path.{◌≡◌, refl}
use mathlib.Core.Bool.{Bool, true, false, ◌&&◌, ◌||◌}
use mathlib.Core.Logic.{dite}
use mathlib.Core.List.{List, [], ◌∷◌}
use native.Mathlib.Omega.{arith}
use text.Mathlib.Text.{◌==◌ as str_eq}
use native.Mathlib.Decide.{dec_le}
use aiops_aws.Prelude.Tests.{leb, ◌==◌, if◌then◌else◌}

pub IsScalar-shift : (n : ℕ) → n ≤ 90 → IsScalar (n + 32)
IsScalar-shift n h = ground arith

-- `str.lower` of one character: A to Z go to a to z, and all else stays.
lower_char : Char → Char
lower_char c =
    dite (dec_le 65 (code c))
      (λ _.
        dite (dec_le (code c) 90) (λ h. char (code c + 32) (IsScalar-shift (code c) h)) (λ _. c))
      (λ _. c)

-- `s.lower()`, for texts whose cased letters are ASCII
unfoldable pub lower : String → String
unfolding lower_char dec_le
lower String.[] = String.[]
lower (String.◌∷◌ c s) = String.◌∷◌ (lower_char c) (lower s)

-- `str.isspace` of one character
is_space : ℕ → Bool
is_space n =
    leb 9 n && leb n 13
    || leb 28 n && leb n 32
    || n == 133
    || n == 160
    || n == 5760
    || leb 8192 n && leb n 8202
    || n == 8232
    || n == 8233
    || n == 8239
    || n == 8287
    || n == 12288

lstrip : String → String
lstrip String.[] = String.[]
lstrip (String.◌∷◌ c s) = let rest = lstrip s in if is_space (code c) then rest else String.◌∷◌ c s

-- a space is kept in front of a text that is left
rstrip_cons : Char → String → String
rstrip_cons c String.[] = if is_space (code c) then String.[] else String.◌∷◌ c String.[]
rstrip_cons c (String.◌∷◌ d s) = String.◌∷◌ c (String.◌∷◌ d s)

rstrip : String → String
rstrip String.[] = String.[]
rstrip (String.◌∷◌ c s) = rstrip_cons c (rstrip s)

-- `s.strip()`
unfoldable pub strip : String → String
unfolding lstrip rstrip rstrip_cons is_space
strip s = rstrip (lstrip s)

-- `s.startswith(p)`
abbrev pub is_prefix : String → String → Bool
is_prefix String.[] s = true
is_prefix (String.◌∷◌ c p) String.[] = false
is_prefix (String.◌∷◌ c p) (String.◌∷◌ d s) = code c == code d && is_prefix p s

-- `s.replace(…, …)` of each character with a code by another character
abbrev pub replace_char : ℕ → Char → String → String
replace_char n d String.[] = String.[]
replace_char n d (String.◌∷◌ c s) = String.◌∷◌ (if code c == n then d else c) (replace_char n d s)

lower_char_twice : (c : Char) → lower_char (lower_char c) ≡ lower_char c
unfolding lower_char dec_le
lower_char_twice c = ground arith

-- A text in lower case stays as it is.
pub lower_twice : (s : String) → lower (lower s) ≡ lower s
unfolding lower
lower_twice String.[] = refl
lower_twice (String.◌∷◌ c s) = rw (lower_char_twice c, lower_twice s) refl

lower_mixed : lower "Ab@Example.COM" ≡ "ab@example.com"
unfolding lower
lower_mixed = refl

strip_both : strip "  a b\n" ≡ "a b"
unfolding strip
strip_both = refl

-- `s.endswith(p)`, for a suffix with a first character
abbrev pub is_suffix : String → String → Bool
is_suffix p String.[] = is_prefix p String.[]
is_suffix p (String.◌∷◌ c s) = str_eq p (String.◌∷◌ c s) || is_suffix p s

abbrev pub join_from : String → List String → String
join_from separator [] = ""
join_from separator (s ∷ l) = String.◌++◌ separator (String.◌++◌ s (join_from separator l))

-- `separator.join(l)`
abbrev pub join : String → List String → String
join separator [] = ""
join separator (s ∷ l) = String.◌++◌ s (join_from separator l)

count-nil : count String.[] ≡ 0
count-nil = count.nil

count-cons : (c : Char) (s : String) → count (String.◌∷◌ c s) ≡ count s + 1
count-cons c s = omega (arith, count.cons c s)

count-lstrip-le : (s : String) → count (lstrip s) ≤ count s
unfolding lstrip
count-lstrip-le String.[] = omega arith
count-lstrip-le (String.◌∷◌ c s) = ground (arith, count-lstrip-le s, count-cons c s)

count-kept :
    (c : Char) (b : Bool)
    → count (if b then String.[] else String.◌∷◌ c String.[]) ≤ count String.[] + 1
count-kept c true = omega arith
count-kept c false = omega (arith, count-cons c String.[])

count-rstrip_cons-le : (c : Char) (s : String) → count (rstrip_cons c s) ≤ count s + 1
unfolding rstrip_cons
count-rstrip_cons-le c String.[] = count-kept c (is_space (code c))
count-rstrip_cons-le c (String.◌∷◌ d s) = omega (arith, count-cons c (String.◌∷◌ d s))

count-rstrip-le : (s : String) → count (rstrip s) ≤ count s
unfolding rstrip
count-rstrip-le String.[] = omega arith
count-rstrip-le (String.◌∷◌ c s) =
    omega (arith, count-rstrip_cons-le c (rstrip s), count-rstrip-le s, count-cons c s)

-- Stripping makes no text longer.
pub count-strip-le : (s : String) → count (strip s) ≤ count s
unfolding strip
count-strip-le s = omega (arith, count-rstrip-le (lstrip s), count-lstrip-le s)
