-- ===== src/Auth/Registration.antt =====
-- backend/services/auth_service.py: registration, and the first login after it.
use aiops_aws.Prelude.{
  ◌+◌, ◌≤◌, String, ◌≡◌, refl, sym, ap, ◌∙◌, inl, inr, Bool-cases, some, [], ◌∷◌, arith, str_eq,
  Answer, answer, length, lower, eq_refl, eq_iff, append-nil,
}
use aiops_aws.Outcome.{ok}
use aiops_aws.Models.{User}
use aiops_aws.Database.Table.{Table, select, flush, insert}
use aiops_aws.Database.Rows.{IsClean, select-flush-insert, flush-clean, flush-IsClean}
use aiops_aws.Database.Session.{Calls, Session}
use aiops_aws.Security.{Env, Laws}
use aiops_aws.Auth.{Client}
use aiops_aws.Auth.Accounts.{has_email, new_user, register_user, authenticate_user}

-- No two accounts of the database have the same address, in any spelling.
abbrev HasUniqueEmails : Table User → Type 0
HasUniqueEmails t = (email : String) → length (select (has_email email) t) ≤ 1

select-has_email :
    (e email : String) (t : Table User)
    → lower email ≡ lower e
    → select (has_email e) t ≡ select (has_email email) t
select-has_email e email t h = ap (λ l. select (λ u. str_eq u.email l) t) (sym h)

insert-HasUniqueEmails :
    (email : String) (u : User) (t : Table User)
    → IsClean t
    → HasUniqueEmails t
    → select (has_email email) t ≡ []
    → u.email ≡ lower email
    → HasUniqueEmails (flush (insert u t))
insert-HasUniqueEmails email u t c h n k e =
    rw (select-flush-insert (has_email e) u t, flush-clean t c)
      (elim (Bool-cases (has_email e u)) [
        | inl same ↦
            rw (same, select-has_email e email t (sym k ∙ (eq_iff u.email (lower e)).0 same) ∙ n)
              (omega arith)
        | inr other ↦ rw (other, append-nil (select (has_email e) t)) (h e)
      ])

-- Registration in a session that begins, whether it succeeds or not, keeps the addresses of the
-- accounts different from each other, also when they differ only in the case of letters.
register_user-HasUniqueEmails :
    (env : Env) (email password : String) (client : Client) (s : Session)
    → IsClean s.users
    → HasUniqueEmails s.users
    → HasUniqueEmails (flush (register_user env email password client s).1.users)
unfolding register_user Calls
register_user-HasUniqueEmails env email password client s c h =
    elim (answer (select (has_email email) s.users)) [
      | Answer.absent a ↦ rw a (
          rw
            (flush-clean _ (
              flush-IsClean (
                insert
                  (new_user (env.uuid (s.step + 1)) (lower email)
                    (env.password_digest s.step password) (env.clock (s.step + 1 + 1)))
                  s.users)))
            (insert-HasUniqueEmails email _ s.users c h a refl))
      | Answer.single t one ↦ rw (one, flush-clean s.users c) h
      | Answer.several a b r m ↦ rw (m, flush-clean s.users c) h
    ]

-- the account that registration adds
abbrev pub registered : Env → String → String → Session → User
registered env email password s =
    new_user (env.uuid (s.step + 1)) (lower email) (env.password_digest s.step password)
      (env.clock (s.step + 1 + 1))

select-registered :
    (email email' : String) (u : User) (t : Table User)
    → IsClean t
    → select (has_email email) t ≡ []
    → lower email' ≡ lower email
    → u.email ≡ lower email
    → select (has_email email') (flush (insert u t)) ≡ u ∷ []
select-registered email email' u t c a l e =
    rw
      (
        select-flush-insert (has_email email') u t,
        flush-clean t c,
        select-has_email email' email t (sym l) ∙ a,
        e ∙ sym l,
        eq_refl (lower email'),
      )
      refl

-- Registration with an address that no account has, in a session with nothing to flush, succeeds,
-- and after it the login check with the same password and the address in any case of letters
-- succeeds for the new account: unverified, of the role `user`, its address in lower case.
pub register_user-authenticate_user :
    (env : Env) (laws : Laws env) (email email' password : String) (client client' : Client)
    (s : Session)
    → IsClean s.users
    → select (has_email email) s.users ≡ []
    → lower email' ≡ lower email
    → ((register_user env email password client s).0 ≡ ok (registered env email password s))
      × ((authenticate_user env email' password client'
            (register_user env email password client s).1).0
          ≡ ok (record (registered env email password s) {
            last_login_at =
                some (env.clock ((register_user env email password client s).1.step + 1));
          }))
unfolding register_user authenticate_user Calls
register_user-authenticate_user env laws email email' password client client' s c a l =
    rw
      (
        a,
        select-registered email email' (registered env email password s) s.users c a l refl,
        laws.digest_matches s.step password,
      )
      (refl, refl)
