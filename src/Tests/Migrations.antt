-- ===== src/Tests/Migrations.antt =====
-- The theorems about migrations, on a database that has one table of its own.
use aiops_aws.Prelude.{
  true, false, Option, none, some, [], ◌∷◌, ◌++◌, ◌≡◌, refl, All, if◌then◌else◌,
}
use aiops_aws.Migrations.{ColumnType, Constraint, Operation, Catalogue}
use aiops_aws.Migrations.Database.{applies, apply, apply_all, Engine, run_all}
use aiops_aws.Migrations.Revisions.{to_head, to_base}
use aiops_aws.Migrations.RoundTrip.{to_head-to_base}
use aiops_aws.Migrations.Agreement.{HasTable, HasEnum, to_head-Declared}
use aiops_aws.Migrations.Declared

-- a database that is its catalogue
abbrev run : Operation → Catalogue → Option Catalogue
run o v = if applies o v then some (apply o v) else none

abbrev catalogue_engine : Engine Catalogue
catalogue_engine = record {
  run = run;
  view = λ v. v;
  documented = λ o v h. (apply o v, rw h refl, refl);
}

abbrev notes : Catalogue
unfolding apply
notes =
    apply_all
      (Operation.create_table "notes"
          (record { name = "id"; of_type = ColumnType.uuid; nullable = false; default_now = false }
            ∷ [])
          (Constraint.primary_key "id" ∷ [])
        ∷ Operation.create_index "ix_notes_id" "notes" ("id" ∷ []) true
        ∷ [])
      (record { enums = ("colour", "red" ∷ []) ∷ []; tables = [] })

to_head-to_base_example :
    (v : Catalogue) × (run_all catalogue_engine (to_head "postgresql" ++ to_base) notes ≡ some v)
    × (v ≡ notes)
unfolding notes
to_head-to_base_example = to_head-to_base catalogue_engine notes refl

to_head-Declared_example :
    (v : Catalogue) × (run_all catalogue_engine (to_head "postgresql") notes ≡ some v)
    × All (HasTable v) Declared.tables
    × All (HasEnum v) Declared.enums
unfolding notes
to_head-Declared_example = to_head-Declared catalogue_engine notes refl
