-- ===== src/Tests/Codec.antt =====
-- A token format for the tests: the fields of a payload one after the other, numbers in unary and
-- texts with a mark before each character.
use Prim.Native.Char.{Char, code}
use Prim.Native.String.{String, [], ◌∷◌}
use aiops_aws.Prelude.{
  ℕ, zero, suc, ◌≤◌, ◌<◌, ◌≡◌, refl, ap, ◌∙◌, Bool, ◌&&◌, Option, none, some, arith, ltb, leb, ◌==◌,
  str_eq, eq_refl, if◌then◌else◌,
}
use aiops_aws.Security.{seconds, Payload, matches}

abbrev pub Parsed : Type 0 → Type 0
Parsed A = Option (A × String)

abbrev pub mapped : {A B : Type 0} → (A → B) → Parsed A → Parsed B
mapped f none = none
mapped f (some (a, s)) = some (f a, s)

abbrev pub after : {A B : Type 0} → Parsed A → (A → String → Parsed B) → Parsed B
after none f = none
after (some (a, s)) f = f a s

abbrev pub is_end : Char → Bool
is_end c = code c == b'z'

abbrev pub put_nat : ℕ → String → String
put_nat zero s = "z" ∷ s
put_nat (suc n) s = "s" ∷ put_nat n s

abbrev pub get_nat : String → Parsed ℕ
get_nat [] = none
get_nat (c ∷ s) = let rest = get_nat s in if is_end c then some (0, s) else mapped suc rest

pub get_nat-put_nat : (n : ℕ) (s : String) → get_nat (put_nat n s) ≡ some (n, s)
get_nat-put_nat zero s = refl
get_nat-put_nat (suc n) s = ap (mapped suc) (get_nat-put_nat n s)

abbrev pub put_text : String → String → String
put_text [] s = "z" ∷ s
put_text (c ∷ t) s = "s" ∷ c ∷ put_text t s

abbrev pub get_text : String → Parsed String
get_text [] = none
get_text (k ∷ []) = if is_end k then some ([], []) else none
get_text (k ∷ c ∷ s) =
    let rest = get_text s in if is_end k then some ([], c ∷ s) else mapped (λ t. c ∷ t) rest

get_text_end : (s : String) → get_text ("z" ∷ s) ≡ some ([], s)
get_text_end [] = refl
get_text_end (c ∷ s) = refl

pub get_text-put_text : (t s : String) → get_text (put_text t s) ≡ some (t, s)
get_text-put_text [] s = get_text_end s
get_text-put_text (c ∷ t) s = ap (mapped (λ t. c ∷ t)) (get_text-put_text t s)

abbrev put_option : Option String → String → String
put_option none s = "z" ∷ s
put_option (some t) s = "s" ∷ put_text t s

abbrev get_option : String → Parsed (Option String)
get_option [] = none
get_option (c ∷ s) = if is_end c then some (none, s) else mapped (λ t. some t) (get_text s)

get_option-put_option : (t : Option String) (s : String) → get_option (put_option t s) ≡ some (t, s)
get_option-put_option none s = refl
get_option-put_option (some t) s = ap (mapped (λ t. some t)) (get_text-put_text t s)

abbrev pub encode : Payload → String → String
encode p secret = put_text secret (
    put_option p.sub (
      put_option p.role (
        put_option p.type (
          put_option p.jti
            (put_option p.iss (put_option p.aud (put_nat p.exp (put_nat p.iat []))))))))

abbrev parse : String → Parsed (String × Payload)
parse s = after (get_text s) λ secret s. after (get_option s) λ sub s.
    after (get_option s) λ role s. after (get_option s) λ type s. after (get_option s) λ jti s.
      after (get_option s) λ iss s. after (get_option s) λ aud s. after (get_nat s) λ exp s.
        after (get_nat s) λ iat s. some (
          (
            secret,
            record {
              sub = sub;
              role = role;
              type = type;
              jti = jti;
              iss = iss;
              aud = aud;
              exp = exp;
              iat = iat;
            },
          ),
          s,
        )

parse-encode : (p : Payload) (secret : String) → parse (encode p secret) ≡ some ((secret, p), [])
parse-encode p secret =
    rw
      (
        get_text-put_text secret,
        get_option-put_option p.sub,
        get_option-put_option p.role,
        get_option-put_option p.type,
        get_option-put_option p.jti,
        get_option-put_option p.iss,
        get_option-put_option p.aud,
        get_nat-put_nat p.exp,
        get_nat-put_nat p.iat,
      )
      refl

abbrev accepted : ℕ → String → String → String → Parsed (String × Payload) → Option Payload
accepted now secret aud iss none = none
accepted now secret aud iss (some ((secret', p), rest)) =
    if str_eq secret' secret
      && (matches p.aud aud
          && (matches p.iss iss && (leb (seconds p.iat) now && ltb now (seconds p.exp))))
    then some p
    else none

abbrev pub decode : ℕ → String → String → String → String → Option Payload
decode now token secret aud iss = accepted now secret aud iss (parse token)

pub decode-encode :
    (p : Payload) (secret aud iss : String) (now : ℕ)
    → p.aud ≡ some aud
    → p.iss ≡ some iss
    → seconds p.iat ≤ now
    → now < seconds p.exp
    → decode now (encode p secret) secret aud iss ≡ some p
decode-encode p secret aud iss now a i b e =
    ap (accepted now secret aud iss) (parse-encode p secret)
    ∙ rw (a, i, eq_refl secret, eq_refl aud, eq_refl iss) (ground (arith, b, e))

-- A token stands for one payload, whenever it is read.
pub decode_same :
    (n m : ℕ) (token secret aud iss : String) (p q : Payload)
    → decode n token secret aud iss ≡ some p
    → decode m token secret aud iss ≡ some q
    → p ≡ q
decode_same n m token secret aud iss p q h k = ground arith
