-- ===== src/Migrations/Database.antt =====
-- What the documentation of alembic and of PostgreSQL says of the operations that the migrations in
-- src/alembic/versions/ call, on a catalogue; an engine, which runs them; and the run of a list of
-- them, as one transaction.
use mathlib.Core.Option
use mathlib.Core.Bool.{and-eq-true_iff}
use aiops_aws.Prelude.{
  String, Bool, true, false, not, ◌&&◌, ◌||◌, if◌then◌else◌, Option, none, some, List, [], ◌∷◌,
  ◌++◌, str_eq, any, all, filter, Dict, lookup, ◌≡◌, refl, ap, ◌∙◌,
}
use aiops_aws.Migrations.{ColumnType, Constraint, Table, Operation, Catalogue}

-- Lists with names, of which the newest comes first.
module _ {ℓ} {V : Type ℓ} where
  abbrev pub has : String → Dict V → Bool
  has k [] = false
  has k ((j, v) ∷ d) = let rest = has k d in if str_eq j k then true else rest

  abbrev pub change : String → (V → V) → Dict V → Dict V
  change k f [] = []
  change k f ((j, v) ∷ d) =
      let rest = change k f d in if str_eq j k then (j, f v) ∷ d else (j, v) ∷ rest

  abbrev pub remove : String → Dict V → Dict V
  remove k [] = []
  remove k ((j, v) ∷ d) = let rest = remove k d in if str_eq j k then d else (j, v) ∷ rest

abbrev targets : String → Constraint → Bool
targets name (Constraint.foreign_key column target on_delete) = str_eq target name
targets name _ = false

abbrev pub refers_to : String → String × Table → Bool
refers_to name (_, t) = any (targets name) t.constraints

abbrev is_enum : String → ColumnType → Bool
is_enum name (ColumnType.enum n) = str_eq n name
is_enum name _ = false

abbrev pub uses_enum : String → String × Table → Bool
uses_enum name (_, t) = any (λ c. is_enum name c.of_type) t.columns

abbrev keeps_index : String → Constraint → Bool
keeps_index name (Constraint.unique n columns) = str_eq n name
keeps_index name _ = false

-- Tables, indexes and unique constraints share their names.
abbrev pub takes_name : String → String × Table → Bool
takes_name name (n, t) =
    str_eq n name || any (λ i. str_eq i.name name) t.indexes || any (keeps_index name) t.constraints

abbrev is_known : Catalogue → ColumnType → Bool
is_known v (ColumnType.enum name) = has name v.enums
is_known v _ = true

abbrev is_sound : Catalogue → String → Constraint → Bool
is_sound v name (Constraint.primary_key column) = true
is_sound v name (Constraint.foreign_key column target on_delete) =
    str_eq target name || has target v.tables
is_sound v name (Constraint.unique n columns) = not (any (takes_name n) v.tables)

abbrev has_column : Table → String → Bool
has_column t name = any (λ c. str_eq c.name name) t.columns

abbrev mentions : String → Constraint → Bool
mentions column (Constraint.primary_key c) = str_eq c column
mentions column (Constraint.foreign_key c target on_delete) = str_eq c column
mentions column (Constraint.unique name columns) = any (str_eq column) columns

abbrev is_loose : String → Table → Bool
is_loose column t =
    not (any (mentions column) t.constraints)
    && not (any (λ i. any (str_eq column) i.columns) t.indexes)

abbrev on_table : (Table → Bool) → Option Table → Bool
on_table p none = false
on_table p (some t) = p t

-- The operation succeeds. An enumeration is created and dropped with `checkfirst`, a table goes
-- when no other refers to it, and a column when no index and no constraint uses it.
unfoldable pub applies : Operation → Catalogue → Bool
applies (Operation.create_enum name values) v = true
applies (Operation.drop_enum name) v = not (any (uses_enum name) v.tables)
applies (Operation.add_value name value) v = has name v.enums
applies (Operation.create_table name columns constraints) v =
    not (any (takes_name name) v.tables)
    && all (λ c. is_known v c.of_type) columns
    && all (is_sound v name) constraints
applies (Operation.drop_table name) v =
    has name v.tables && not (any (refers_to name) (remove name v.tables))
applies (Operation.create_index name table columns is_unique) v =
    not (any (takes_name name) v.tables)
    && on_table (λ t. all (has_column t) columns) (lookup table v.tables)
applies (Operation.drop_index name table) v =
    on_table (λ t. any (λ i. str_eq i.name name) t.indexes) (lookup table v.tables)
applies (Operation.add_column table c) v =
    on_table (λ t. not (has_column t c.name)) (lookup table v.tables) && is_known v c.of_type
applies (Operation.drop_column table column) v =
    on_table (λ t. has_column t column && is_loose column t) (lookup table v.tables)

abbrev add_once : String → List String → List String
add_once value values = if any (str_eq value) values then values else values ++ value ∷ []

-- what an operation that succeeds does
unfoldable pub apply : Operation → Catalogue → Catalogue
apply (Operation.create_enum name values) v = record v {
  enums = if has name v.enums then v.enums else (name, values) ∷ v.enums;
}
apply (Operation.drop_enum name) v = record v { enums = remove name v.enums }
apply (Operation.add_value name value) v = record v { enums = change name (add_once value) v.enums }
apply (Operation.create_table name columns constraints) v = record v {
  tables = (name, record { columns = columns; constraints = constraints; indexes = [] }) ∷ v.tables;
}
apply (Operation.drop_table name) v = record v { tables = remove name v.tables }
apply (Operation.create_index name table columns is_unique) v = record v {
  tables =
      change table
        (λ t. record t {
          indexes = t.indexes ++ record { name = name; columns = columns; unique = is_unique } ∷ [];
        })
        v.tables;
}
apply (Operation.drop_index name table) v = record v {
  tables =
      change table (λ t. record t { indexes = filter (λ i. not (str_eq i.name name)) t.indexes })
        v.tables;
}
apply (Operation.add_column table c) v = record v {
  tables = change table (λ t. record t { columns = t.columns ++ c ∷ [] }) v.tables;
}
apply (Operation.drop_column table column) v = record v {
  tables =
      change table (λ t. record t { columns = filter (λ c. not (str_eq c.name column)) t.columns })
        v.tables;
}

-- The operations all succeed, one after the other.
abbrev pub applies_all : List Operation → Catalogue → Bool
applies_all [] v = true
applies_all (o ∷ l) v = applies o v && applies_all l (apply o v)

abbrev pub apply_all : List Operation → Catalogue → Catalogue
apply_all [] v = v
apply_all (o ∷ l) v = apply_all l (apply o v)

-- alembic on a database: `run` gives the database after an operation, or nothing where it fails,
-- and what the documentation says holds of the catalogue.
pub record Engine (S : Type 0) : Type 0 where
  pub run : Operation → S → Option S
  pub view : S → Catalogue
  pub documented :
      (o : Operation) (s : S)
      → applies o (view s) ≡ true
      → (s' : S) × (run o s ≡ some s') × (view s' ≡ apply o (view s))

module _ {S : Type 0} (engine : Engine S) where
  -- the calls of one function
  unfoldable pub run_all : List Operation → S → Option S
  unfolding Option.bind
  run_all [] s = some s
  run_all (o ∷ l) s = Option.bind (engine.run o s) (run_all l)

  pub run_all-apply_all :
      (l : List Operation) (s : S)
      → applies_all l (engine.view s) ≡ true
      → (s' : S) × (run_all l s ≡ some s') × (engine.view s' ≡ apply_all l (engine.view s))
  unfolding Option.bind run_all
  run_all-apply_all [] s h = (s, refl, refl)
  run_all-apply_all (o ∷ l) s h =
      let (here, later) = (and-eq-true_iff _ _).0 h in
      let (s₁, ran, seen) = engine.documented o s here in
      let (s₂, ran', seen') = run_all-apply_all l s₁ (rw seen later) in
      (s₂, rw ran ran', seen' ∙ ap (apply_all l) seen)
