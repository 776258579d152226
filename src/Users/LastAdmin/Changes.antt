-- ===== src/Users/LastAdmin/Changes.antt =====
-- backend/services/user_service.py: `admin_update_user` on the table of accounts, step by step.
use aiops_aws.Prelude.{
  ℕ, ◌+◌, ◌≤◌, String, ◌≡◌, refl, inl, inr, ◌∙◌, sym, subst, Bool, true, false, not, ◌&&◌, Option,
  none, some, length, arith, ◌==◌, leb, if◌then◌else◌, Bool-cases,
}
use aiops_aws.Outcome.{Result, ok, err, continue}
use aiops_aws.Models.{User, UserRole, AuditEventType, role_eq, is_admin}
use aiops_aws.Database.Table.{Table, select, write}
use aiops_aws.Database.Counts.{write-write, length-select-write}
use aiops_aws.Database.Session.{Session, Action, Calls}
use aiops_aws.Security.{Env}
use aiops_aws.Auth.{Client, audit}
use aiops_aws.Users.{revoke_refresh_tokens}
use aiops_aws.Users.RevokedRows.{revoke_each-eq, count_revoked}
use aiops_aws.Users.Revocation.{doomed}
use aiops_aws.Users.Profile.{rename}
use aiops_aws.Users.Admin.{
  verify, is_false, value, AdminUserUpdateRequest, is_active_admin, change_role, activate,
  deactivate, change_active, admin_update_user,
}

abbrev pub admins : Table User → ℕ
admins t = length (select is_active_admin t)

-- A change of `target` in the table `t` to `u` in the table `t'`.
abbrev pub Alters : User → Table User → User → Table User → Type 0
Alters target t u t' =
    (u.id ≡ target.id)
    × ((v : User) → v.id ≡ target.id → write (λ u. u.id) v t' ≡ write (λ u. u.id) v t)
    × (admins t' ≡ admins t)
    × (is_active_admin target ≡ true → is_active_admin u ≡ false → 2 ≤ admins t)
    × (write (λ u. u.id) target t ≡ t → write (λ u. u.id) u t' ≡ t')

abbrev pub Changed : User → Session → Result User × Session → Type 0
Changed target s (err e, s') = Unit
Changed target s (ok u, s') = Alters target s.users u s'.users

pub revoke_refresh_tokens-users :
    (env : Env) (user_id : ℕ) (ex : Option String) (actor : Option ℕ) (client : Client)
    (ty : AuditEventType) (detail : String) (s : Session)
    → let (r, s') = revoke_refresh_tokens env user_id ex actor client ty detail s in
      (r ≡ ok (count_revoked ex (doomed user_id (env.clock (s.step + 1)) ex s)))
      × (s'.users ≡ s.users)
unfolding revoke_refresh_tokens Calls
revoke_refresh_tokens-users env user_id ex actor client ty detail s =
    let live = doomed user_id (env.clock (s.step + 1)) ex s in
    let es = revoke_each-eq (env.clock s.step) ex live (record s { step = s.step + 1 + 1 }) in
    elim (Bool-cases (count_revoked ex live == 0)) [
      | inl e ↦ rw (es, e) (refl, refl)
      | inr e ↦ rw (es, e) (refl, refl)
    ]

Alters-refl : (target : User) (t : Table User) → Alters target t target t
Alters-refl target t = (refl, (λ v k. refl), refl, (λ e f. absurd (ground (arith, e, f))), (λ e. e))

write-Alters :
    (target u : User) (t : Table User)
    → u.id ≡ target.id
    → (is_active_admin target ≡ true → is_active_admin u ≡ false → 2 ≤ admins t)
    → Alters target t u (write (λ u. u.id) u t)
write-Alters target u t k h = (
  k,
  (λ v e. write-write (λ u. u.id) u v t (k ∙ sym e)),
  length-select-write (λ u. u.id) is_active_admin u t,
  h,
  (λ e. write-write (λ u. u.id) u u t refl),
)

Alters-trans :
    (a b c : User) (t t' t'' : Table User) → Alters a t b t' → Alters b t' c t'' → Alters a t c t''
Alters-trans a b c t t' t'' (k, w, n, g, i) (k', w', n', g', i') = (
  k' ∙ k,
  (λ v e. w' v (e ∙ sym k) ∙ w v e),
  n' ∙ n,
  (λ e f. elim (Bool-cases (is_active_admin b)) [
    | inl on ↦ subst (λ m. 2 ≤ m) n (g' on f)
    | inr off ↦ g e off
  ]),
  (λ e. i' (i e)),
)

change_role-Changed :
    (target : User) (role : Option UserRole) (s : Session)
    → Changed target s (change_role target role s)
unfolding change_role Calls
change_role-Changed target none s = Alters-refl target s.users
change_role-Changed target (some role) s = elim (Bool-cases (role_eq role target.role)) [
  | inl same ↦ rw same (Alters-refl target s.users)
  | inr other ↦
      rw other
        (elim (Bool-cases (is_admin target.role && not (is_admin role) && leb (admins s.users) 1)) [
          | inl last ↦ rw last tt
          | inr fine ↦ rw fine (
              write-Alters target (record target { role = role }) s.users refl
                (λ e f. ground arith))
        ])
]

pub branch :
    {A : Type 0} (P : A → Type 0) (c : Bool) {x y : A}
    → (c ≡ true → P x)
    → (c ≡ false → P y)
    → P (if c then x else y)
branch P true h k = h refl
branch P false h k = k refl

deactivate-Changed :
    (env : Env) (actor target : User) (client : Client) (s : Session)
    → Changed target s (deactivate env actor target client s)
unfolding deactivate Calls
deactivate-Changed env actor target client s =
    let target' = record target { is_active = false; deactivated_at = some (env.clock s.step) } in
    let e =
      revoke_refresh_tokens-users env target.id none (some actor.id) client
        AuditEventType.admin_sessions_revoked "Sessions revoked due to deactivation"
        (record s { users = write (λ u. u.id) target' s.users; step = s.step + 1 }) in
    elim (Bool-cases (is_admin target.role && leb (admins s.users) 1)) [
      | inl last ↦ rw last tt
      | inr fine ↦
          rw (fine, e.0)
            (subst (Alters target s.users target') (sym e.1)
              (write-Alters target target' s.users refl (λ e f. ground arith)))
    ]

change_active-Changed :
    (env : Env) (actor target : User) (is_active : Option Bool) (client : Client) (s : Session)
    → Changed target s (change_active env actor target is_active client s)
unfolding change_active activate Calls
change_active-Changed env actor target none client s = Alters-refl target s.users
change_active-Changed env actor target (some true) client s =
    branch (λ (m : Session → Result User × Session). Changed target s (m s)) target.is_active
      (λ on. Alters-refl target s.users)
      (λ off. write-Alters target _ s.users refl (λ e f. absurd (ground (arith, e, off))))
change_active-Changed env actor target (some false) client s =
    branch (λ (m : Session → Result User × Session). Changed target s (m s)) target.is_active
      (λ on. deactivate-Changed env actor target client s) (λ off. Alters-refl target s.users)

continue-Changed :
    (target : User) (s : Session) (x : Result User × Session) (f : User → Action User)
    → Changed target s x
    → ((u : User) (s' : Session) → Alters target s.users u s'.users → Changed target s (f u s'))
    → Changed target s (let (r, s') = x in continue r f s')
continue-Changed target s (ok u, s') f h k = k u s' h
continue-Changed target s (err e, s') f h k = tt

Changed-after :
    (target u : User) (s s' : Session) (x : Result User × Session)
    → Alters target s.users u s'.users
    → Changed u s' x
    → Changed target s x
Changed-after target u s s' (ok v, s'') h k = Alters-trans target u v s.users s'.users s''.users h k
Changed-after target u s s' (err e, s'') h k = tt

rename-is_active_admin :
    (name : Option String) (u : User)
    → ((rename name u).id ≡ u.id) × (is_active_admin (rename name u) ≡ is_active_admin u)
unfolding rename
rename-is_active_admin none u = (refl, refl)
rename-is_active_admin (some name) u = (refl, refl)

verify-is_active_admin :
    (b : Option Bool) (u : User)
    → ((verify b u).id ≡ u.id) × (is_active_admin (verify b u) ≡ is_active_admin u)
verify-is_active_admin none u = (refl, refl)
verify-is_active_admin (some b) u = (refl, refl)

edited : AdminUserUpdateRequest → User → User
edited payload u = rename (value payload.display_name) (verify (value payload.is_verified) u)

write-edited :
    (payload : AdminUserUpdateRequest) (target : User) (t : Table User)
    → Alters target t (edited payload target) (write (λ u. u.id) (edited payload target) t)
unfolding edited
write-edited payload target t =
    let v = verify (value payload.is_verified) target in
    let e = verify-is_active_admin (value payload.is_verified) target in
    let e' = rename-is_active_admin (value payload.display_name) v in
    write-Alters target (edited payload target) t (e'.0 ∙ e.0)
      (λ on off. absurd (ground (arith, on, off, e.1, e'.1)))

pub admin_update_user-Changed :
    (env : Env) (actor target : User) (payload : AdminUserUpdateRequest) (client : Client)
    (s : Session)
    → Changed target s (admin_update_user env actor target payload client s)
unfolding admin_update_user edited audit Calls
admin_update_user-Changed env actor target payload client s =
    elim (Bool-cases (actor.id == target.id && is_false (value payload.is_active))) [
      | inl own ↦ rw own tt
      | inr other ↦ rw other (
          continue-Changed target s (change_role target (value payload.role) s) _
            (change_role-Changed target (value payload.role) s)
            (λ u s' h.
              continue-Changed target s
                (change_active env actor u (value payload.is_active) client s') _
                (Changed-after target u s s' _ h
                  (change_active-Changed env actor u (value payload.is_active) client s'))
                (λ u' s'' h'.
                  Alters-trans target u' (edited payload u') s.users s''.users _ h'
                    (write-edited payload u' s''.users))))
    ]
