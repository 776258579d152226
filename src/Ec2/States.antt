-- ===== src/Ec2/States.antt =====
-- backend/aws/ec2_service.py: the filter on states.
use Prim.Native.String
use aiops_aws.Prelude.{
  contains, String, Bool, not, ◌&&◌, ◌||◌, Option, none, some, List, [], ◌∷◌, ◌++◌, lower, strip,
  str_eq, sorted, if◌then◌else◌,
}
use aiops_aws.Outcome.{Result, ok, err, Error, http_exception}

abbrev pub valid_states : List String
valid_states = "pending" ∷ "running" ∷ "shutting-down" ∷ "terminated" ∷ "stopping" ∷ "stopped" ∷ []

-- `separator.join(l)`
abbrev pub join : String → List String → String
join separator [] = ""
join separator (s ∷ []) = s
join separator (s ∷ t ∷ l) = String.◌++◌ s (String.◌++◌ separator (join separator (t ∷ l)))

abbrev pub invalid_state : String → Error
invalid_state state = http_exception 400 (
    String.◌++◌ "Invalid state '"
      (String.◌++◌ state (String.◌++◌ "'. Allowed: " (join ", " (sorted (λ s. s) valid_states)))))

-- `state.strip().lower()`
unfoldable pub cleaned : String → String
unfolding lower strip
cleaned state = lower (strip state)

-- `normalized` after a state
abbrev pub add_state : String → List String → List String
add_state state normalized =
    if str_eq (cleaned state) "" || contains (cleaned state) normalized
    then normalized
    else normalized ++ cleaned state ∷ []

-- whether the loop raises at a state
abbrev pub is_refused : String → Bool
is_refused state = not (str_eq (cleaned state) "") && not (contains (cleaned state) valid_states)

-- the loop of `_normalize_states`
abbrev pub normalize_each : List String → List String → Result (List String)
normalize_each [] normalized = ok normalized
normalize_each (state ∷ states) normalized =
    let rest = normalize_each states (add_state state normalized) in
    if is_refused state then err (invalid_state state) else rest

-- `l or None`
abbrev pub or_none : Result (List String) → Result (Option (List String))
or_none (ok []) = ok none
or_none (ok (s ∷ l)) = ok (some (s ∷ l))
or_none (err e) = err e

-- `_normalize_states`
abbrev pub normalize_states : Option (List String) → Result (Option (List String))
normalize_states none = ok none
normalize_states (some states) = or_none (normalize_each states [])
