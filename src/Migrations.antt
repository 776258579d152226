-- ===== src/Migrations.antt =====
-- src/alembic/: the migrations as lists of the operations that their functions call, in the order
-- of the calls. Alembic, SQLAlchemy and the database behind them are the parameter `Engine`; what
-- their documentation says that an operation needs and does is stated on a catalogue of tables and
-- enumerations, of which the newest comes first. The statements of one migration run in one
-- transaction, so one that fails leaves nothing behind.
pub mod Database
pub mod AuthTables
pub mod UserFields
pub mod Revisions
pub mod RoundTrip
pub mod Declared
pub mod Agreement
use aiops_aws.Prelude.{ℕ, String, Bool, Option, List, Dict}

pub data ColumnType : Type 0 where
  uuid text boolean integer date_time json : ColumnType
  string : ℕ → ColumnType
  enum : String → ColumnType

-- `sa.Column(name, type, nullable=…)`, with or without `server_default=sa.text("now()")`
pub record Column : Type 0 where
  pub name : String
  pub of_type : ColumnType
  pub nullable : Bool
  pub default_now : Bool

pub data OnDelete : Type 0 where
  cascade set_null : OnDelete

pub data Constraint : Type 0 where
  primary_key : String → Constraint
  foreign_key : String → String → OnDelete → Constraint
  unique : String → List String → Constraint

pub record Index : Type 0 where
  pub name : String
  pub columns : List String
  pub unique : Bool

pub record Table : Type 0 where
  pub columns : List Column
  pub constraints : List Constraint
  pub indexes : List Index

-- the operations of alembic that the migrations call
pub data Operation : Type 0 where
  create_enum : String → List String → Operation
  drop_enum : String → Operation
  add_value : String → String → Operation
  create_table : String → List Column → List Constraint → Operation
  drop_table : String → Operation
  create_index : String → String → List String → Bool → Operation
  drop_index : String → String → Operation
  add_column : String → Column → Operation
  drop_column : String → String → Operation

pub record Catalogue : Type 0 where
  pub enums : Dict (List String)
  pub tables : Dict Table

pub record Migration : Type 0 where
  pub revision : String
  pub down_revision : Option String
  pub upgrade : List Operation
  pub downgrade : List Operation
