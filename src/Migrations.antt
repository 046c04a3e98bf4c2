-- ===== src/Migrations.antt =====
-- alembic/versions: the migrations, as programs over the operations of Alembic, which are a
-- parameter. The tables that app/models.py declares are Migrations/Declared.
pub mod Initial
pub mod Later
pub mod Documented
pub mod Declared
pub mod HeadTables
pub mod Head
pub mod Base
use distributed_file_service.Prelude.{Bool, List, Option, none, true, ℕ}
use distributed_file_service.Text.{Text, codes}
use distributed_file_service.Exec.{Exec}

pub data ColumnType : Type 0 where
  string_of : ℕ → ColumnType
  long_text integer date_time : ColumnType

pub record Column : Type 0 where
  pub name : Text
  pub type : ColumnType
  pub nullable : Bool
  pub server_default : Option Text

-- `ForeignKeyConstraint([column], [references], ondelete="CASCADE")`.
pub record ForeignKey : Type 0 where
  pub constrained : Text
  pub references : Text
  pub cascades : Bool

pub record Table : Type 0 where
  pub name : Text
  pub columns : List Column
  pub primary_key : List Text
  pub foreign_keys : List ForeignKey
  pub unique_keys : List (List Text)
  pub indexes : List (Text × List Text)

-- `alembic.op` and the inspector, on a database in a state of `S`.
pub record Operations (S : Type 0) : Type 0 where
  pub create_table : Table → Exec S Unit
  pub drop_table : Text → Exec S Unit
  pub create_index : Text → Text → List Text → Exec S Unit
  pub drop_index : Text → Text → Exec S Unit
  pub add_column : Text → Column → Exec S Unit
  pub drop_column : Text → Text → Exec S Unit
  pub get_columns : Text → Exec S (List Text)

abbrev pub column : Text → ColumnType → Bool → Column
column name type nullable = record {
  name = name;
  type = type;
  nullable = nullable;
  server_default = none;
}

abbrev pub on_uploads : ForeignKey
on_uploads = record {
  constrained = codes "upload_id";
  references = codes "uploads.id";
  cascades = true;
}
