-- ===== src/Users/Pages.antt =====
-- backend/services/user_service.py: the pages of `list_users`.
use aiops_aws.Prelude.{
  ℕ, zero, suc, ◌+◌, ◌-◌, ◌*◌, ◌≤◌, ◌≡◌, refl, ap, sym, ◌∙◌, List, [], ◌∷◌, ◌++◌, length, take,
  drop, min, arith,
}
use aiops_aws.Models.{User}
use aiops_aws.Database.Table.{select, newest_first, place}
use aiops_aws.Database.Session.{Session}
use aiops_aws.Security.{Env}
use aiops_aws.Users.Listing.{UserQuery, first_page, clamp, listed, list_users}

-- A query for one page.
abbrev pub at_page : UserQuery → ℕ → UserQuery
at_page q page = record q { page = page }

-- The first pages of a query, one after the other.
abbrev pub pages : Env → UserQuery → ℕ → Session → List User
pages env q zero s = []
pages env q (suc n) s = pages env q n s ++ (list_users env (at_page q (suc n)) s).0

module _ {ℓ} {A : Type ℓ} where
  take-nil : (n : ℕ) → take {A = A} n [] ≡ []
  take-nil zero = refl
  take-nil (suc n) = refl

  take-append-drop : (m n : ℕ) (l : List A) → take m l ++ take n (drop m l) ≡ take (m + n) l
  take-append-drop zero n l = ap (λ k. take k l) (omega arith)
  take-append-drop (suc m) zero [] = sym (take-nil (suc m + zero))
  take-append-drop (suc m) (suc n) [] = sym (take-nil (suc m + suc n))
  take-append-drop (suc m) n (x ∷ l) =
      let e : suc (m + n) ≡ suc m + n = omega arith in
      ap (λ k. x ∷ k) (take-append-drop m n l) ∙ ap (λ k. take k (x ∷ l)) e

  length-take : (n : ℕ) (l : List A) → length (take n l) ≡ min n (length l)
  length-take zero l = omega arith
  length-take (suc n) [] = omega arith
  length-take (suc n) (x ∷ l) = omega (arith, length-take n l)

  length-drop : (n : ℕ) (l : List A) → length (drop n l) ≡ length l - n
  length-drop zero l = omega arith
  length-drop (suc n) [] = omega arith
  length-drop (suc n) (x ∷ l) = omega (arith, length-drop n l)

  length-place : (time : A → ℕ) (a : A) (l : List A) → length (place time a l) ≡ suc (length l)
  length-place time a [] = refl
  length-place time a (b ∷ l) = ground (arith, length-place time a l)

  length-newest_first : (time : A → ℕ) (l : List A) → length (newest_first time l) ≡ length l
  length-newest_first time [] = refl
  length-newest_first time (a ∷ l) =
      ground (arith, length-place time a (newest_first time l), length-newest_first time l)

nil_times : (c : ℕ) → 0 ≡ 0 * c
nil_times c = ground arith

suc_times : (n c : ℕ) → n * c + c ≡ suc n * c
suc_times n c = ground arith

-- the accounts that a query asks for, in the order of the list
abbrev pub matching : Env → UserQuery → Session → List User
matching env q s = newest_first (λ u. u.created_at) (select (listed env q) s.users)

pages-eq-take :
    (env : Env) (q : UserQuery) (n : ℕ) (s : Session)
    → pages env q n s ≡ take (n * clamp q.page_size) (matching env q s)
unfolding list_users
pages-eq-take env q zero s =
    let none_yet : 0 ≡ 0 * clamp q.page_size = nil_times (clamp q.page_size) in
    ap (λ k. take k (matching env q s)) none_yet
pages-eq-take env q (suc n) s =
    let c = clamp q.page_size in
    let before : first_page (suc n) - 1 ≡ n = omega arith in
    let more : n * c + c ≡ suc n * c = suc_times n c in
    ap (λ l. l ++ take c (drop ((first_page (suc n) - 1) * c) (matching env q s)))
      (pages-eq-take env q n s)
    ∙ ap (λ k. take (n * c) (matching env q s) ++ take c (drop (k * c) (matching env q s)))
        (omega arith)
    ∙ take-append-drop (n * c) c (matching env q s)
    ∙ ap (λ k. take k (matching env q s)) more

-- The total is the number of the matching accounts; the first n pages, put together, are the first
-- n times the page size of them, the newest first; a page holds what is left of the total after the
-- pages before it, up to the page size; and the page size is at least 1 and at most 100, whatever is
-- asked for.
pub list_users-pages :
    (env : Env) (q : UserQuery) (n : ℕ) (s : Session)
    → ((list_users env q s).1 ≡ length (matching env q s))
      × (pages env q n s ≡ take (n * clamp q.page_size) (matching env q s))
      × (length (list_users env q s).0
          ≡ min
              (clamp q.page_size)
              ((list_users env q s).1 - (first_page q.page - 1) * clamp q.page_size))
      × (1 ≤ clamp q.page_size)
      × (clamp q.page_size ≤ 100)
unfolding list_users
list_users-pages env q n s =
    let total = length-newest_first (λ u. u.created_at) (select (listed env q) s.users) in
    let before = (first_page q.page - 1) * clamp q.page_size in
    (
      sym total,
      pages-eq-take env q n s,
      length-take (clamp q.page_size) (drop before (matching env q s))
          ∙ ap (min (clamp q.page_size))
              (length-drop before (matching env q s) ∙ ap (λ n. n - before) total),
      omega arith,
      omega arith,
    )
