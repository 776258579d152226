-- ===== src/Migrations/RoundTrip.antt =====
-- src/alembic/versions/: what a downgrade leaves of an upgrade.
use aiops_aws.Prelude.{
  Bool, true, false, not, ◌&&◌, some, List, map, [], ◌∷◌, ◌++◌, any, all, ◌≡◌, refl, arith, ◌∙◌,
}
use aiops_aws.Migrations.{Constraint, Operation, Catalogue}
use aiops_aws.Migrations.Database.{
  has, takes_name, refers_to, uses_enum, applies, apply, applies_all, apply_all, Engine, run_all,
  run_all-apply_all,
}
use aiops_aws.Migrations.AuthTables
use aiops_aws.Migrations.UserFields
use aiops_aws.Migrations.Revisions.{to_head, to_base, applies_all-append}

abbrev is_free_constraint : Catalogue → Constraint → Bool
is_free_constraint v (Constraint.unique name columns) = not (any (takes_name name) v.tables)
is_free_constraint v _ = true

-- Nothing has a name that the operation gives, or refers to it.
abbrev is_free : Catalogue → Operation → Bool
is_free v (Operation.create_enum name values) =
    not (has name v.enums) && not (any (uses_enum name) v.tables)
is_free v (Operation.create_table name columns constraints) =
    not (any (takes_name name) v.tables)
    && not (any (refers_to name) v.tables)
    && all (is_free_constraint v) constraints
is_free v (Operation.create_index name table columns is_unique) =
    not (any (takes_name name) v.tables)
is_free v _ = true

abbrev pub are_free : List Operation → Catalogue → Bool
are_free l v = all (is_free v) l

pub enums_free :
    (v : Catalogue)
    → are_free AuthTables.upgrade v ≡ true
    → (has "user_role" v.enums ≡ false) × (has "audit_event_type" v.enums ≡ false)
enums_free v h = (ground arith, ground arith)

round_trip_back :
    (v : Catalogue)
    → are_free AuthTables.upgrade v ≡ true
    → apply_all (to_head "postgresql" ++ to_base) v ≡ v
unfolding apply
round_trip_back v h = let (role, audit) = enums_free v h in rw (role, audit) refl

upgrade_applies :
    (v : Catalogue) → are_free AuthTables.upgrade v ≡ true → applies_all AuthTables.upgrade v ≡ true
unfolding apply applies
upgrade_applies v h = ground arith

pub head_applies :
    (v : Catalogue)
    → are_free AuthTables.upgrade v ≡ true
    → applies_all (to_head "postgresql") v ≡ true
unfolding apply applies
head_applies v h =
    let (role, audit) = enums_free v h in
    applies_all-append AuthTables.upgrade (UserFields.upgrade "postgresql" ++ []) v
      (upgrade_applies v h) (rw (role, audit) refl)

-- nothing else uses what the downgrade drops
abbrev is_unused : Catalogue → Bool
is_unused v =
    all (λ b. b)
      (map (λ name. not (any (refers_to name) v.tables))
          ("auth_audit_events" ∷ "password_reset_tokens" ∷ "email_verification_tokens"
            ∷ "refresh_tokens" ∷ "users" ∷ [])
        ++ map (λ name. not (any (uses_enum name) v.tables))
            ("audit_event_type" ∷ "user_role" ∷ []))

free_unused : (v : Catalogue) → are_free AuthTables.upgrade v ≡ true → is_unused v ≡ true
free_unused v h = ground arith

base_applies :
    (v : Catalogue)
    → are_free AuthTables.upgrade v ≡ true
    → applies_all to_base (apply_all (to_head "postgresql") v) ≡ true
unfolding apply applies
base_applies v h = free_unused v h

-- On a PostgreSQL database where no table, index, constraint or enumeration has a name that the migrations
-- give, and nothing refers to one: all calls of the upgrade to the last revision and of the
-- downgrade back succeed, and the catalogue is then what it was.
pub to_head-to_base :
    {S : Type 0} (engine : Engine S) (s : S)
    → are_free AuthTables.upgrade (engine.view s) ≡ true
    → (s' : S) × (run_all engine (to_head "postgresql" ++ to_base) s ≡ some s')
      × (engine.view s' ≡ engine.view s)
to_head-to_base engine s h =
    let v = engine.view s in
    let succeeds =
      applies_all-append (to_head "postgresql") to_base v (head_applies v h) (base_applies v h) in
    let (s', ran, seen) = run_all-apply_all engine (to_head "postgresql" ++ to_base) s succeeds in
    (s', ran, seen ∙ round_trip_back v h)
