-- ===== src/Ec2/StateFilter.antt =====
-- backend/aws/ec2_service.py: the filter on states against an independent description of it.
use aiops_aws.Prelude.{
  contains, occurrences, occurrences-absent, ◌≤◌, String, ◌≡◌, refl, ◌⊎◌, inl, inr, ap, ◌∙◌, Bool,
  true, false, not, ◌&&◌, ◌||◌, Bool-cases, Option, none, some, List, [], ◌∷◌, filter, any, arith,
  str_eq, eq_iff, eq_refl, any-append, filter-append, length-append,
}
use aiops_aws.Outcome.{Result, ok, err}
use aiops_aws.Ec2.States.{
  cleaned, add_state, is_refused, normalize_each, normalize_states, invalid_state, or_none,
}

-- whether a state of the request asks for `x`
abbrev pub asks_for : String → String → Bool
asks_for x state = str_eq (cleaned state) x && not (str_eq (cleaned state) "")

contains-add_state :
    (x state : String) (l : List String)
    → contains x (add_state state l) ≡ (contains x l || asks_for x state)
contains-add_state x state l =
    ground (arith, any-append (λ y. str_eq y x) l (cleaned state ∷ []), eq_iff (cleaned state) x)

occurrences-add_state :
    (x state : String) (l : List String)
    → occurrences x l ≤ 1
    → occurrences x (add_state state l) ≤ 1
occurrences-add_state x state l h = ground (
  arith,
  h,
  filter-append (λ y. str_eq y x) l (cleaned state ∷ []),
  length-append (filter (λ y. str_eq y x) l) (filter (λ y. str_eq y x) (cleaned state ∷ [])),
  eq_iff (cleaned state) x,
  occurrences-absent x l,
)

normalize_each-contains :
    (states l l' : List String) (x : String)
    → normalize_each states l ≡ ok l'
    → contains x l' ≡ (contains x l || any (asks_for x) states)
normalize_each-contains [] l l' x e = ground (arith, e)
normalize_each-contains (state ∷ states) l l' x e = ground (
  arith,
  e,
  contains-add_state x state l,
  normalize_each-contains states (add_state state l) l' x,
)

normalize_each-occurrences :
    (states l l' : List String) (x : String)
    → normalize_each states l ≡ ok l'
    → occurrences x l ≤ 1
    → occurrences x l' ≤ 1
normalize_each-occurrences [] l l' x e h = ground (arith, e, h)
normalize_each-occurrences (state ∷ states) l l' x e h = ground (
  arith,
  e,
  occurrences-add_state x state l h,
  normalize_each-occurrences states (add_state state l) l' x,
)

-- the states of a filter, where `None` filters nothing
abbrev pub wanted : Option (List String) → List String
wanted none = []
wanted (some l) = l

or_none-wanted :
    (r : Result (List String)) (l : Option (List String)) → or_none r ≡ ok l → r ≡ ok (wanted l)
or_none-wanted (ok []) l e = ground (arith, e)
or_none-wanted (ok (x ∷ r)) l e = ground (arith, e)
or_none-wanted (err e') l e = ground (arith, e)

accepted_filter :
    (states : List String) (l : Option (List String)) (x : String)
    → normalize_states (some states) ≡ ok l
    → (contains x (wanted l) ≡ any (asks_for x) states) × (occurrences x (wanted l) ≤ 1)
accepted_filter states l x e =
    let e' = or_none-wanted (normalize_each states []) l e in
    (
      normalize_each-contains states [] (wanted l) x e',
      normalize_each-occurrences states [] (wanted l) x e' (omega arith),
    )

-- what a loop over states that has refused one answers
abbrev IsRefusal : List String → Result (List String) → Type 0
IsRefusal states r =
    (state : String) × (contains state states ≡ true)
    × (is_refused state ≡ true)
    × (r ≡ err (invalid_state state))

normalize_each-refused :
    (states l : List String)
    → any is_refused states ≡ true
    → IsRefusal states (normalize_each states l)
normalize_each-refused [] l h = absurd (ground (arith, h))
normalize_each-refused (state ∷ states) l h = elim (Bool-cases (is_refused state)) [
  | inl refused ↦ (state, ground (arith, eq_refl state), refused, rw refused refl)
  | inr fine ↦
      let (s, m, r, e) =
        normalize_each-refused states (add_state state l) (ground (arith, h, fine)) in
      (s, ground (arith, m), r, rw fine e)
]

normalize_each-accepted :
    (states l : List String)
    → any is_refused states ≡ false
    → (l' : List String) × (normalize_each states l ≡ ok l')
normalize_each-accepted [] l h = (l, refl)
normalize_each-accepted (state ∷ states) l h =
    let fine : is_refused state ≡ false = ground (arith, h) in
    let (l', e) = normalize_each-accepted states (add_state state l) (ground (arith, h)) in
    (l', rw fine e)

or_none_ok : (l : List String) → (o : Option (List String)) × (or_none (ok l) ≡ ok o)
or_none_ok [] = (none, refl)
or_none_ok (x ∷ l) = (some (x ∷ l), refl)

-- For any list of states: where one is neither blank nor a state of an instance, the request is
-- refused with status 400 for such a state; where there is none it is accepted, and the filter holds
-- exactly the names that the request asks for, in lower case and without the space around them, each
-- once; blank entries ask for nothing.
pub normalize_states-filter :
    (states : List String)
    → ((any is_refused states ≡ true)
        × (state : String) × (contains state states ≡ true)
        × (is_refused state ≡ true)
        × (normalize_states (some states) ≡ err (invalid_state state)))
      ⊎ ((any is_refused states ≡ false)
          × (l : Option (List String)) × (normalize_states (some states) ≡ ok l)
          × ((x : String)
              → (contains x (wanted l) ≡ any (asks_for x) states) × (occurrences x (wanted l) ≤ 1)))
normalize_states-filter states = elim (Bool-cases (any is_refused states)) [
  | inl refused ↦
      let (s, m, r, e) = normalize_each-refused states [] refused in
      inl (refused, s, m, r, ap or_none e)
  | inr fine ↦
      let (l, e) = normalize_each-accepted states [] fine in
      let (o, k) = or_none_ok l in
      let e' = ap or_none e ∙ k in inr (fine, o, e', λ x. accepted_filter states o x e')
]
