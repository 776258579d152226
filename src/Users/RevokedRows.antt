-- ===== src/Users/RevokedRows.antt =====
-- backend/services/user_service.py: the loop of `_revoke_refresh_tokens`, row by row.
use aiops_aws.Prelude.{
  ℕ, String, ◌≡◌, refl, inl, inr, Bool, not, ◌&&◌, Option, some, List, [], ◌∷◌, length, filter, any,
  All, arith, ◌==◌, if◌then◌else◌, Bool-cases,
}
use aiops_aws.Outcome.{ok}
use aiops_aws.Models.{RefreshToken}
use aiops_aws.Database.Table.{Row, Table, written, write}
use aiops_aws.Database.Session.{Session, Calls}
use aiops_aws.Users.{is_kept, revoke_each}

abbrev pub revoked : ℕ → RefreshToken → RefreshToken
revoked now t = record t { revoked_at = some now }

-- One row under the writes of the loop.
abbrev pub revoked_row : ℕ → Option String → List RefreshToken → Row RefreshToken → Row RefreshToken
revoked_row now ex [] r = r
revoked_row now ex (t ∷ ts) r =
    revoked_row now ex ts (if is_kept ex t then r else written (λ t. t.id) (revoked now t) r)

abbrev pub count_revoked : Option String → List RefreshToken → ℕ
count_revoked ex ts = length (filter (λ t. not (is_kept ex t)) ts)

-- The table under the writes of the loop.
abbrev pub revoked_table :
    ℕ → Option String → List RefreshToken → Table RefreshToken → Table RefreshToken
revoked_table now ex [] tbl = tbl
revoked_table now ex (t ∷ ts) tbl =
    revoked_table now ex ts (if is_kept ex t then tbl else write (λ t. t.id) (revoked now t) tbl)

pub revoke_each-eq :
    (now : ℕ) (ex : Option String) (ts : List RefreshToken) (s : Session)
    → revoke_each now ex ts s ≡ (
      ok (count_revoked ex ts),
      record s { refresh_tokens = revoked_table now ex ts s.refresh_tokens },
    )
unfolding revoke_each Calls
revoke_each-eq now ex [] s = refl
revoke_each-eq now ex (t ∷ ts) s = elim (Bool-cases (is_kept ex t)) [
  | inl kept ↦ rw (kept, revoke_each-eq now ex ts s)
  | inr lost ↦
      rw
        (
          lost,
          revoke_each-eq now ex ts
              (record s { refresh_tokens = write (λ t. t.id) (revoked now t) s.refresh_tokens }),
        )
        (ground arith)
]

pub revoked_table-nil :
    (now : ℕ) (ex : Option String) (ts : List RefreshToken) → revoked_table now ex ts [] ≡ []
revoked_table-nil now ex [] = refl
revoked_table-nil now ex (t ∷ ts) = ground (arith, revoked_table-nil now ex ts)

pub revoked_table-cons :
    (now : ℕ) (ex : Option String) (ts : List RefreshToken) (r : Row RefreshToken)
    (tbl : Table RefreshToken)
    → revoked_table now ex ts (r ∷ tbl) ≡ revoked_row now ex ts r ∷ revoked_table now ex ts tbl
revoked_table-cons now ex [] r tbl = refl
revoked_table-cons now ex (t ∷ ts) r tbl = elim (Bool-cases (is_kept ex t)) [
  | inl kept ↦ rw kept (revoked_table-cons now ex ts r tbl)
  | inr lost ↦ rw lost (
      revoked_table-cons now ex ts (written (λ t. t.id) (revoked now t) r)
        (write (λ t. t.id) (revoked now t) tbl))
]

-- Rows with the same id hold the same object.
abbrev pub Agrees : RefreshToken → List RefreshToken → Type 0
Agrees o = All (λ t. t.id ≡ o.id → t ≡ o)

abbrev pub names : Option String → RefreshToken → List RefreshToken → Bool
names ex o = any (λ t. t.id == o.id && not (is_kept ex t))

revoked_row_idem :
    (now : ℕ) (ex : Option String) (ts : List RefreshToken) (r : Row RefreshToken)
    (o : RefreshToken)
    → Agrees o ts
    → r.object ≡ revoked now o
    → revoked_row now ex ts r ≡ r
revoked_row_idem now ex [] r o a e = refl
revoked_row_idem now ex (t ∷ ts) r o a e = ground (arith, a.0, revoked_row_idem now ex ts r o a.1 e)

pub revoked_row-eq :
    (now : ℕ) (ex : Option String) (ts : List RefreshToken) (r : Row RefreshToken)
    → Agrees r.object ts
    → revoked_row now ex ts r
      ≡ (if names ex r.object ts then record r { object = revoked now r.object } else r)
revoked_row-eq now ex [] r a = refl
revoked_row-eq now ex (t ∷ ts) r a = ground (
  arith,
  a.0,
  revoked_row-eq now ex ts r a.1,
  revoked_row_idem now ex ts (record r { object = revoked now t }) r.object a.1,
  revoked_row_idem now ex ts (record r { object = revoked now r.object }) r.object a.1,
)
