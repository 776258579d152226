-- ===== src/Accounts/Distinct.antt =====
-- backend/api/: no two accounts have the same address, whatever is asked of the server.
use aiops_aws.Prelude.{
  ℕ, ◌≤◌, ◌==◌, ◌≡◌, ◌≢◌, refl, ap, sym, ◌∙◌, String, inl, inr, if◌then◌else◌, Option, none, some,
  List, [], ◌∷◌, ◌++◌, All, All-append, filter, filter-append, length, length-append, lower,
  lower_twice, str_eq, subst, Bool, Bool-cases, eq_iff, arith,
}
use aiops_aws.Outcome.Yields.{OnSome}
use aiops_aws.Models.{User}
use aiops_aws.Database.Table.{Table, select, flush, insert}
use aiops_aws.Database.Rows.{IsClean, flush-IsClean}
use aiops_aws.Database.Session.{Session}
use aiops_aws.Database.AllRows.{RowHas, flush-All}
use aiops_aws.Database.Accounts.{AllUsers}
use aiops_aws.Security.{Env, Laws}
use aiops_aws.Schemas.{Pydantic}
use aiops_aws.Auth.{Client}
use aiops_aws.Auth.Accounts.{has_email}
use aiops_aws.Api.{Server}
use aiops_aws.Api.Endpoints.{Call, answer}
use aiops_aws.Api.Growth.{answer-Grows}
use aiops_aws.Api.Stored.{respond_to-IsClean}
use aiops_aws.Api.Requests.{Request, parse, respond, respond_to, respond_all}
use aiops_aws.Accounts.Accepted.{IsAccepted, parse-OnSome}
use aiops_aws.Accounts.Served.{Admits}
use aiops_aws.Accounts.Answered.{respond_to-invariant}
use aiops_aws.Accounts.Addresses.{
  emails, IsOwn, HasEmails, IsOwn-Kept, HasEmails-Carries, HasEmails-TakesStep,
  issue_tokens-HasEmails, verification-HasEmails, reset-HasEmails,
}
use aiops_aws.Accounts.Newcomers.{Adds, registers}

-- the same address, in any case of letters
abbrev pub is_same : String → String → Bool
is_same a b = str_eq (lower a) (lower b)

-- how many accounts have an address, in any case of letters
abbrev pub holders : String → List String → ℕ
holders e l = length (filter (λ x. is_same x e) l)

-- Nothing waits to be flushed, each id has one address, no id is one that is still to be made, the
-- addresses are in lower case, and no address, in any case of letters, is that of two accounts.
pub record Distinct (env : Env) (s : Session) : Type 0 where
  pub clean : IsClean s.users
  pub owner : ℕ → String
  pub made : AllUsers (IsOwn env owner s.step) s
  pub lowered : All (λ e. lower e ≡ e) (emails s.users)
  pub unique : (e : String) → holders e (emails s.users) ≤ 1

module _ {F G : User → Type 0} (f : (u : User) → F u → G u) where
  OnSome-map : (o : Option User) → OnSome F o → OnSome G o
  OnSome-map none h = tt
  OnSome-map (some u) h = f u h

  AllUsers-map : (t : Table User) → All (RowHas F) t → All (RowHas G) t
  AllUsers-map [] h = tt
  AllUsers-map (r ∷ t) h = ((OnSome-map r.stored h.0.0, f r.object h.0.1), AllUsers-map t h.1)

module _ (env : Env) where
  IsOwn-later :
      (owner : ℕ → String) (n m : ℕ)
      → n ≤ m
      → (u : User) → IsOwn env owner n u
      → IsOwn env owner m u
  IsOwn-later owner n m le u (e, fresh) = (e, λ k h. fresh k (omega (arith, le, h)))

  same-Distinct :
      (s s' : Session)
      → Distinct env s
      → IsClean s'.users
      → (owner : ℕ → String) → HasEmails env owner s.step (emails s.users) s'
      → Distinct env s'
  same-Distinct s s' d c owner h = record {
    clean = c;
    owner = owner;
    made = AllUsers-map (IsOwn-later owner s.step s'.step h.later) s'.users h.own;
    lowered = rw h.listed d.lowered;
    unique = λ e. rw h.listed (d.unique e);
  }

holders-emails :
    (email : String) (t : Table User)
    → IsClean t
    → All (λ e. lower e ≡ e) (emails t)
    → length (select (has_email email) t) ≡ holders email (emails t)
holders-emails email [] c l = refl
holders-emails email (r ∷ t) c l =
    let low : lower r.object.email ≡ r.object.email = l.0 in
    ground (arith, low, holders-emails email t c.1 l.1)

emails-flush-insert :
    (u : User) (t : Table User) → emails (flush (insert u t)) ≡ emails t ++ u.email ∷ []
emails-flush-insert u [] = refl
emails-flush-insert u (r ∷ t) = ap (λ l. r.object.email ∷ l) (emails-flush-insert u t)

module _ (env : Env) (laws : Laws env) (email : String) (s s' : Session) (d : Distinct env s)
    (a : Adds env email s s') where
  owner_after : ℕ → String
  owner_after i = if i == env.uuid a.made_at then lower email else d.owner i

  IsOwn-owner_after : (u : User) → IsOwn env d.owner s.step u → IsOwn env owner_after s'.step u
  unfolding owner_after
  IsOwn-owner_after u (e, fresh) =
      let other : u.id ≢ env.uuid a.made_at = fresh a.made_at a.from in
      (ground (arith, e, other), λ k h. fresh k (omega (arith, h, a.from, a.before)))

  user-IsOwn : IsOwn env owner_after s'.step a.user
  unfolding owner_after
  user-IsOwn = (
    ground (arith, a.id, a.address),
    λ k h e.
        let same = laws.uuid_fresh a.made_at k (sym a.id ∙ e) in
        absurd (omega (arith, same, h, a.before)),
  )

  listed : emails s'.users ≡ emails s.users ++ lower email ∷ []
  listed =
      ap emails a.users
      ∙ emails-flush-insert a.user s.users
      ∙ ap (λ x. emails s.users ++ x ∷ []) a.address

  lowered_after : All (λ e. lower e ≡ e) (emails s'.users)
  lowered_after =
      rw listed (All-append (λ e. lower e ≡ e) (emails s.users) _ d.lowered (lower_twice email, tt))

  unique_after : (e : String) → holders e (emails s'.users) ≤ 1
  unique_after e =
      let none_yet : holders email (emails s.users) ≡ 0 =
        sym (holders-emails email s.users d.clean d.lowered) ∙ ap length a.unknown in
      rw
        (
          listed,
          filter-append (λ x. is_same x e) (emails s.users) (lower email ∷ []),
          length-append (filter (λ x. is_same x e) (emails s.users))
              (filter (λ x. is_same x e) (lower email ∷ [])),
          lower_twice email,
        )
        (elim (Bool-cases (str_eq (lower email) (lower e))) [
          | inl same ↦
              let e_none : holders e (emails s.users) ≡ 0 =
                subst (λ x. length (filter (λ y. str_eq (lower y) x) (emails s.users)) ≡ 0)
                  ((eq_iff (lower email) (lower e)).0 same) none_yet in
              rw (same, e_none) (omega arith)
          | inr other ↦ rw other (let u = d.unique e in omega (arith, u))
        ])

  adds-Distinct : Distinct env s'
  adds-Distinct = record {
    clean = rw a.users (flush-IsClean (insert a.user s.users));
    owner = owner_after;
    made = rw a.users (
        flush-All (IsOwn env owner_after s'.step) (insert a.user s.users) (
          All-append _ s.users _ (AllUsers-map IsOwn-owner_after s.users d.made)
            ((tt, user-IsOwn), tt)));
    lowered = lowered_after;
    unique = unique_after;
  }

module _ (pydantic : Pydantic) (env : Env) (laws : Laws env) where
  registers-Distinct :
      (email password : String) (client : Client) (server : Server)
      → Distinct env server.db
      → IsClean (answer env (Call.register email password client) server).1.db.users
      → Distinct env (answer env (Call.register email password client) server).1.db
  registers-Distinct email password client server d c =
      elim (registers env email password client server d.clean) [
        | inl same ↦
            let later = (answer-Grows env (Call.register email password client) server).step in
            same-Distinct env server.db _ d c d.owner
              (record { own = rw same d.made; listed = rw same refl; later = later })
        | inr added ↦ adds-Distinct env laws email server.db _ d added
      ]

  keeps-Distinct :
      (r : Request) (o : Option Call) (server : Server)
      → OnSome (IsAccepted pydantic) o
      → (d : Distinct env server.db) → IsClean (respond_to env r o server).1.db.users
      → OnSome (Admits (HasEmails env d.owner server.db.step (emails server.db.users)) env) o
      → Distinct env (respond_to env r o server).1.db
  keeps-Distinct r o server h d c a = same-Distinct env server.db _ d c d.owner (
      respond_to-invariant (HasEmails-Carries env d.owner server.db.step (emails server.db.users))
        env (IsOwn-Kept env d.owner server.db.step (emails server.db.users))
        (HasEmails-TakesStep env d.owner server.db.step (emails server.db.users)) pydantic r o
        server h a (record { own = d.made; listed = refl; later = omega arith }))

  respond_to-Distinct :
      (r : Request) (o : Option Call) (server : Server)
      → OnSome (IsAccepted pydantic) o
      → Distinct env server.db
      → IsClean (respond_to env r o server).1.db.users
      → Distinct env (respond_to env r o server).1.db
  respond_to-Distinct r (some (Call.register email password client)) server h d c =
      registers-Distinct email password client server d c
  respond_to-Distinct r (some (Call.login_user email password client)) server h d c =
      keeps-Distinct r (some (Call.login_user email password client)) server h d c
        (issue_tokens-HasEmails env d.owner server.db.step (emails server.db.users))
  respond_to-Distinct r (some (Call.refresh token client)) server h d c =
      keeps-Distinct r (some (Call.refresh token client)) server h d c
        (issue_tokens-HasEmails env d.owner server.db.step (emails server.db.users))
  respond_to-Distinct r (some (Call.verify_email_request email client)) server h d c =
      keeps-Distinct r (some (Call.verify_email_request email client)) server h d c
        (verification-HasEmails env d.owner server.db.step (emails server.db.users) email client)
  respond_to-Distinct r (some (Call.password_reset_request email client)) server h d c =
      keeps-Distinct r (some (Call.password_reset_request email client)) server h d c
        (reset-HasEmails env d.owner server.db.step (emails server.db.users) email client)
  respond_to-Distinct r (some call) server h d c = keeps-Distinct r (some call) server h d c tt
  respond_to-Distinct r none server h d c = keeps-Distinct r none server h d c tt

  -- Whatever requests come, in whatever order: no two accounts of the database ever have the same
  -- address, addresses that differ in the case of letters only being the same; all addresses are in
  -- lower case, each id has one address, and no account has an id that is still to be made. The
  -- database begins like this, and `uuid4` gives no id twice.
  pub respond_all-Distinct :
      (requests : List Request) (server : Server)
      → Distinct env server.db
      → Distinct env (respond_all pydantic env requests server).db
  unfolding respond respond_all
  respond_all-Distinct [] server d = d
  respond_all-Distinct (r ∷ requests) server d =
      let o = parse pydantic r in
      respond_all-Distinct requests (respond_to env r o server).1 (
        respond_to-Distinct r o server (parse-OnSome pydantic r) d
          (respond_to-IsClean env r o server d.clean))
