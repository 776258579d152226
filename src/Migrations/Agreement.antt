-- ===== src/Migrations/Agreement.antt =====
-- src/alembic/versions/ against backend/models/auth.py: the migrated tables are the declared ones.
use mathlib.Core.List.{Perm, perm_append_comm}
use mathlib.Core.List.Perm
use aiops_aws.Prelude.{String, true, some, List, [], ◌∷◌, ◌++◌, ◌≡◌, refl, All, lookup}
use aiops_aws.Migrations.{Table, Catalogue}
use aiops_aws.Migrations.Database.{apply, apply_all, Engine, run_all, run_all-apply_all}
use aiops_aws.Migrations.AuthTables
use aiops_aws.Migrations.Revisions.{to_head}
use aiops_aws.Migrations.RoundTrip.{are_free, enums_free, head_applies}
use aiops_aws.Migrations.Declared

-- The same columns, constraints and indexes, in any order.
pub record Agrees (a b : Table) : Type 0 where
  pub columns : Perm a.columns b.columns
  pub constraints : Perm a.constraints b.constraints
  pub indexes : Perm a.indexes b.indexes

-- The table of this name is there, and is the declared one.
abbrev pub HasTable : Catalogue → String × Table → Type 0
HasTable v (name, declared) =
    (made : Table) × (lookup name v.tables ≡ some made) × Agrees declared made

-- The enumeration of this name is there, with the values in order.
abbrev pub HasEnum : Catalogue → String × List String → Type 0
HasEnum v (name, values) = lookup name v.enums ≡ some values

reversed {ℓ} : {A : Type ℓ} (a b c : A) → Perm (a ∷ b ∷ c ∷ []) (c ∷ b ∷ a ∷ [])
reversed a b c = Perm.trans (perm_append_comm (a ∷ []) (b ∷ c ∷ [])) (Perm.swap c b (a ∷ []))

-- The fields that the second migration adds stand at the end.
added_last {ℓ} :
    {A : Type ℓ} (l times added : List A) → Perm (l ++ added ++ times) (l ++ times ++ added)
added_last [] times added = perm_append_comm added times
added_last (a ∷ l) times added = Perm.cons a (added_last l times added)

head_tables : (v : Catalogue) → All (HasTable (apply_all (to_head "postgresql") v)) Declared.tables
unfolding apply
head_tables v = (
  (
    _,
    refl,
    record {
      columns = added_last (_ ∷ _ ∷ _ ∷ _ ∷ _ ∷ _ ∷ _ ∷ _ ∷ []) (_ ∷ _ ∷ []) (_ ∷ _ ∷ _ ∷ _ ∷ []);
      constraints = Perm.refl _;
      indexes = Perm.refl _;
    },
  ),
  (
    (
      _,
      refl,
      record { columns = Perm.refl _; constraints = Perm.swap _ _ _; indexes = reversed _ _ _ },
    ),
    (
      (
        _,
        refl,
        record { columns = Perm.refl _; constraints = Perm.swap _ _ _; indexes = reversed _ _ _ },
      ),
      (
        (
          _,
          refl,
          record { columns = Perm.refl _; constraints = Perm.swap _ _ _; indexes = reversed _ _ _ },
        ),
        (
          (
            _,
            refl,
            record {
              columns = Perm.refl _;
              constraints = Perm.swap _ _ _;
              indexes = perm_append_comm (_ ∷ _ ∷ []) (_ ∷ []);
            },
          ),
          tt,
        ),
      ),
    ),
  ),
)

head_enums :
    (v : Catalogue)
    → are_free AuthTables.upgrade v ≡ true
    → All (HasEnum (apply_all (to_head "postgresql") v)) Declared.enums
unfolding apply
head_enums v h = let (role, audit) = enums_free v h in rw (role, audit) (refl, (refl, tt))

-- On a PostgreSQL database where no table, index, constraint or enumeration has a name that the
-- migrations give, and nothing refers to one, the upgrade to the last revision succeeds; each class
-- of models/auth.py then has its table, with the columns, the constraints and the indexes that it
-- declares, in some order, and each enumeration has the members in the order of its class.
pub to_head-Declared :
    {S : Type 0} (engine : Engine S) (s : S)
    → are_free AuthTables.upgrade (engine.view s) ≡ true
    → (s' : S) × (run_all engine (to_head "postgresql") s ≡ some s')
      × All (HasTable (engine.view s')) Declared.tables
      × All (HasEnum (engine.view s')) Declared.enums
to_head-Declared engine s h =
    let v = engine.view s in
    let (s', ran, seen) = run_all-apply_all engine (to_head "postgresql") s (head_applies v h) in
    (s', ran, rw seen (head_tables v), rw seen (head_enums v h))
