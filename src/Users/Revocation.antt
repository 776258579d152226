-- ===== src/Users/Revocation.antt =====
-- backend/services/user_service.py: `_revoke_refresh_tokens` on the whole table.
use aiops_aws.Prelude.{
  ℕ, ◌+◌, String, ◌≡◌, refl, subst, ◌⊎◌, inl, inr, ap, ap₂, ◌∙◌, sym, Bool, true, not, ◌&&◌, Option,
  List, [], ◌∷◌, map, All, arith, ◌==◌, if◌then◌else◌, Bool-cases,
}
use aiops_aws.Outcome.{ok}
use aiops_aws.Models.{RefreshToken, AuditEventType}
use aiops_aws.Database.Table.{Row, Table, select, newest_first, place}
use aiops_aws.Database.Rows.{IsClean}
use aiops_aws.Database.Session.{Session, Calls}
use aiops_aws.Security.{Env}
use aiops_aws.Auth.{Client}
use aiops_aws.Users.{is_live_of, is_kept, revoke_refresh_tokens}
use aiops_aws.Users.RevokedRows.{
  revoked, revoked_row, revoked_table, count_revoked, revoke_each-eq, revoked_table-nil,
  revoked_table-cons, Agrees, names, revoked_row-eq,
}

abbrev created : RefreshToken → ℕ
created t = t.created_at

abbrev IsIn : Row RefreshToken → Table RefreshToken → Type 0
IsIn r [] = ⊥
IsIn r (x ∷ t) = (x ≡ r) ⊎ IsIn r t

-- Rows of the same id hold the same object, as a primary key makes sure.
abbrev pub IsKeyed : Table RefreshToken → Type 0
IsKeyed t = All (λ r. All (λ x. x.object.id ≡ r.object.id → x.object ≡ r.object) t) t

All-in :
    (P : Row RefreshToken → Type 0) (t : Table RefreshToken) (r : Row RefreshToken)
    → All P t
    → IsIn r t
    → P r
All-in P [] r a i = absurd i
All-in P (x ∷ t) r a (inl e) = subst P e a.0
All-in P (x ∷ t) r a (inr i) = All-in P t r a.1 i

map_in :
    (f g : Row RefreshToken → Row RefreshToken) (t : Table RefreshToken)
    → ((r : Row RefreshToken) → IsIn r t → f r ≡ g r)
    → map f t ≡ map g t
map_in f g [] h = refl
map_in f g (x ∷ t) h = ap₂ (λ a b. a ∷ b) (h x (inl refl)) (map_in f g t (λ r i. h r (inr i)))

module _ (o : RefreshToken) where
  Agrees-place :
      (a : RefreshToken) (l : List RefreshToken) → Agrees o (a ∷ l) → Agrees o (place created a l)
  Agrees-place a [] h = h
  Agrees-place a (b ∷ l) h = ground (arith, Agrees-place a l (h.0, h.1.1))

  Agrees-newest_first : (l : List RefreshToken) → Agrees o l → Agrees o (newest_first created l)
  Agrees-newest_first [] h = tt
  Agrees-newest_first (a ∷ l) h =
      Agrees-place a (newest_first created l) (h.0, Agrees-newest_first l h.1)

  Agrees-select :
      (p : RefreshToken → Bool) (t : Table RefreshToken)
      → All (λ x. x.object.id ≡ o.id → x.object ≡ o) t
      → Agrees o (select p t)
  Agrees-select p [] h = tt
  Agrees-select p (r ∷ t) h = ground (arith, Agrees-select p t h.1)

  module _ (ex : Option String) where
    names-place :
        (a : RefreshToken) (l : List RefreshToken)
        → names ex o (place created a l) ≡ names ex o (a ∷ l)
    names-place a [] = refl
    names-place a (b ∷ l) = ground (arith, names-place a l)

    names-newest_first :
        (l : List RefreshToken) → names ex o (newest_first created l) ≡ names ex o l
    names-newest_first [] = refl
    names-newest_first (a ∷ l) =
        ground (arith, names-place a (newest_first created l), names-newest_first l)

    names_only :
        (p : RefreshToken → Bool) (t : Table RefreshToken)
        → IsClean t
        → All (λ x. x.object.id ≡ o.id → x.object ≡ o) t
        → names ex o (select p t) ≡ true
        → (p o && not (is_kept ex o)) ≡ true
    names_only p [] c k h = cc
    names_only p (r ∷ t) c k h = ground (arith, k.0, names_only p t c.1 k.1)

names_in :
    (p : RefreshToken → Bool) (ex : Option String) (t : Table RefreshToken) (r : Row RefreshToken)
    → IsClean t
    → IsIn r t
    → (p r.object && not (is_kept ex r.object)) ≡ true
    → names ex r.object (select p t) ≡ true
names_in p ex [] r c i h = absurd i
names_in p ex (x ∷ t) r c (inl e) h = ground (arith, ap (λ (r : Row RefreshToken). r.object) e)
names_in p ex (x ∷ t) r c (inr i) h = ground (arith, names_in p ex t r c.1 i h)

-- A row after a live token of the user was revoked in it, except for the one that is kept.
abbrev pub expire : ℕ → ℕ → ℕ → Option String → Row RefreshToken → Row RefreshToken
expire user_id live_at now ex r =
    if is_live_of user_id live_at r.object && not (is_kept ex r.object)
    then record r { object = revoked now r.object }
    else r

module _ (user_id live_at now : ℕ) (ex : Option String) where
  abbrev found : Table RefreshToken → List RefreshToken
  found t = newest_first created (select (is_live_of user_id live_at) t)

  names-found :
      (t : Table RefreshToken) (r : Row RefreshToken)
      → IsClean t
      → IsKeyed t
      → IsIn r t
      → names ex r.object (found t)
        ≡ (is_live_of user_id live_at r.object && not (is_kept ex r.object))
  names-found t r c k i =
      elim (Bool-cases (names ex r.object (select (is_live_of user_id live_at) t))) [
        | inl e ↦
            names-newest_first r.object ex (select (is_live_of user_id live_at) t)
            ∙ e
            ∙ sym (names_only r.object ex (is_live_of user_id live_at) t c (All-in _ t r k i) e)
        | inr e ↦
            elim (Bool-cases (is_live_of user_id live_at r.object && not (is_kept ex r.object))) [
              | inl l ↦
                  names-newest_first r.object ex (select (is_live_of user_id live_at) t)
                  ∙ names_in (is_live_of user_id live_at) ex t r c i l
                  ∙ sym l
              | inr l ↦
                  names-newest_first r.object ex (select (is_live_of user_id live_at) t) ∙ e ∙ sym l
            ]
      ]

  revoked_row-expire :
      (t : Table RefreshToken) (r : Row RefreshToken)
      → IsClean t
      → IsKeyed t
      → IsIn r t
      → revoked_row now ex (found t) r ≡ expire user_id live_at now ex r
  revoked_row-expire t r c k i =
      revoked_row-eq now ex (found t) r (
        Agrees-newest_first r.object (select (is_live_of user_id live_at) t)
          (Agrees-select r.object (is_live_of user_id live_at) t (All-in _ t r k i)))
      ∙ ap (λ b. if b then record r { object = revoked now r.object } else r)
          (names-found t r c k i)

revoked_table-map :
    (now : ℕ) (ex : Option String) (ts : List RefreshToken) (t : Table RefreshToken)
    → revoked_table now ex ts t ≡ map (revoked_row now ex ts) t
revoked_table-map now ex ts [] = revoked_table-nil now ex ts
revoked_table-map now ex ts (r ∷ t) =
    revoked_table-cons now ex ts r t
    ∙ ap (λ l. revoked_row now ex ts r ∷ l) (revoked_table-map now ex ts t)

-- The tokens that are revoked, as the list of them.
abbrev pub doomed : ℕ → ℕ → Option String → Session → List RefreshToken
doomed user_id live_at ex s =
    newest_first created (select (is_live_of user_id live_at) s.refresh_tokens)

-- Revoking the refresh tokens of a user, in a session that begins and whose ids are a key, answers
-- with the number of live tokens of the user other than the one that is kept, marks those as
-- revoked now, and changes no other refresh token and no account.
pub revoke_refresh_tokens-expire :
    (env : Env) (user_id : ℕ) (ex : Option String) (actor : Option ℕ) (client : Client)
    (audit_type : AuditEventType) (detail : String) (s : Session)
    → IsClean s.refresh_tokens
    → IsKeyed s.refresh_tokens
    → let (r, s') = revoke_refresh_tokens env user_id ex actor client audit_type detail s in
      (r ≡ ok (count_revoked ex (doomed user_id (env.clock (s.step + 1)) ex s)))
      × (s'.refresh_tokens
          ≡ map (expire user_id (env.clock (s.step + 1)) (env.clock s.step) ex) s.refresh_tokens)
      × (s'.users ≡ s.users)
unfolding revoke_refresh_tokens Calls
revoke_refresh_tokens-expire env user_id ex actor client audit_type detail s c k =
    let live = doomed user_id (env.clock (s.step + 1)) ex s in
    let es = revoke_each-eq (env.clock s.step) ex live (record s { step = s.step + 1 + 1 }) in
    let et =
      revoked_table-map (env.clock s.step) ex live s.refresh_tokens
      ∙ map_in _ _ s.refresh_tokens (λ r i.
        revoked_row-expire user_id (env.clock (s.step + 1)) (env.clock s.step) ex s.refresh_tokens r
          c k i) in
    elim (Bool-cases (count_revoked ex live == 0)) [
      | inl e ↦ rw (es, e) (refl, et, refl)
      | inr e ↦ rw (es, e) (refl, et, refl)
    ]
