-- ===== src/Migrations/Revisions.antt =====
-- The migrations of src/alembic/versions/ in the order in which alembic runs them: each comes after
-- its `down_revision`.
use aiops_aws.Prelude.{String, true, Option, none, some, List, [], ◌∷◌, ◌++◌, ◌≡◌, refl, arith}
use aiops_aws.Migrations.{Operation, Catalogue, Migration}
use aiops_aws.Migrations.Database.{apply, applies_all, apply_all}
use aiops_aws.Migrations.AuthTables
use aiops_aws.Migrations.UserFields

abbrev pub versions : String → List Migration
versions dialect = AuthTables.migration ∷ UserFields.migration dialect ∷ []

abbrev upgrades : List Migration → List Operation
upgrades [] = []
upgrades (m ∷ l) = m.upgrade ++ upgrades l

abbrev downgrades : List Migration → List Operation
downgrades [] = []
downgrades (m ∷ l) = downgrades l ++ m.downgrade

-- Each migration follows the one before it in the list, and the first follows none.
abbrev IsChain : Option String → List Migration → Type 0
IsChain r [] = Unit
IsChain r (m ∷ l) = (m.down_revision ≡ r) × IsChain (some m.revision) l

versions-IsChain : (dialect : String) → IsChain none (versions dialect)
versions-IsChain dialect = (refl, (refl, tt))

-- `alembic upgrade head`, from a database with no revision
abbrev pub to_head : String → List Operation
to_head dialect = upgrades (versions dialect)

-- `alembic downgrade base`, from the last revision
abbrev pub to_base : List Operation
to_base = downgrades (versions "")

pub apply_all-append :
    (a b : List Operation) (v : Catalogue) → apply_all (a ++ b) v ≡ apply_all b (apply_all a v)
apply_all-append [] b v = refl
apply_all-append (o ∷ a) b v = apply_all-append a b (apply o v)

pub applies_all-append :
    (a b : List Operation) (v : Catalogue)
    → applies_all a v ≡ true
    → applies_all b (apply_all a v) ≡ true
    → applies_all (a ++ b) v ≡ true
applies_all-append [] b v h k = k
applies_all-append (o ∷ a) b v h k = ground (arith, applies_all-append a b (apply o v))
