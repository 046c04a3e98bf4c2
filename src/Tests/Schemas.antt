-- ===== src/Tests/Schemas.antt =====
-- Migrations at a concrete input: operations that work on the description itself.
use distributed_file_service.Prelude.{
  if◌then◌else◌, List, Option, [], false, none, refl, some, ◌++◌, ◌∷◌, ◌≡◌,
}
use distributed_file_service.Text.{codes, text_eq}
use distributed_file_service.Exec.{Outcome, ok, raised, unhandled, ◌>>◌}
use distributed_file_service.Migrations.{Operations, Table, column, integer}
use distributed_file_service.Migrations.Documented.{
  Does, IsDocumented, Schema, add_index, add_to, alter, create, drop_from, drop_index_of,
  drop_named, has_table, names_of,
}
use distributed_file_service.Migrations.Declared.{AllAgree, declared_with_default}
use distributed_file_service.Migrations.Head.{
  IsFresh, downgrade_base, upgrade_head, upgrade_head-Agrees,
}
use distributed_file_service.Migrations.Base.{downgrade_base-upgrade_head}

abbrev applied : Option Schema → Schema → Outcome (Unit {0}) × Schema
applied none a = (raised (unhandled "OperationalError"), a)
applied (some b) a = (ok tt, b)

abbrev by_description : Operations Schema
by_description = record {
  create_table = λ t a. applied (create t a) a;
  drop_table = λ name a. applied (drop_named name a) a;
  create_index = λ name table columns a. applied (alter table (add_index name columns) a) a;
  drop_index = λ name table a. applied (alter table (drop_index_of name) a) a;
  add_column = λ table c a. applied (alter table (add_to c) a) a;
  drop_column = λ table name a. applied (alter table (drop_from name) a) a;
  get_columns = λ table a. (
    if has_table table a then ok (names_of table a) else raised (unhandled "NoSuchTableError"),
    a,
  );
}

abbrev as_is : Schema → Schema
as_is a = a

applied-Does : (f : Schema → Option Schema) → Does as_is (λ a. applied (f a) a) f
applied-Does f = record { run = λ s b h. (b, rw h refl, refl) }

by_description-IsDocumented : IsDocumented by_description as_is
by_description-IsDocumented = record {
  create_table = λ t. applied-Does (create t);
  drop_table = λ name. applied-Does (drop_named name);
  create_index = λ name table columns. applied-Does (alter table (add_index name columns));
  drop_index = λ name table. applied-Does (alter table (drop_index_of name));
  add_column = λ table c. applied-Does (alter table (add_to c));
  drop_column = λ table name. applied-Does (alter table (drop_from name));
  get_columns = λ table s h. rw h refl;
}

-- A database with a table of another service.
abbrev other_tables : Schema
other_tables =
    record {
      name = codes "users";
      columns = column (codes "id") integer false ∷ [];
      primary_key = codes "id" ∷ [];
      foreign_keys = [];
      unique_keys = [];
      indexes = [];
    }
    ∷ []

other_tables-IsFresh : IsFresh other_tables
unfolding has_table text_eq
other_tables-IsFresh = record {
  no_uploads = refl;
  no_chunks = refl;
  no_init = refl;
  no_chunk_requests = refl;
  no_complete = refl;
}

upgrade_head-Agrees_example :
    (s' : Schema) × (ts : List Table) × (upgrade_head by_description other_tables ≡ (ok tt, s'))
    × (s' ≡ ts ++ other_tables)
    × AllAgree ts declared_with_default
upgrade_head-Agrees_example =
    upgrade_head-Agrees by_description as_is by_description-IsDocumented other_tables
      other_tables-IsFresh

downgrade_base-upgrade_head_example :
    (s' : Schema) × ((upgrade_head by_description >> downgrade_base by_description) other_tables
      ≡ (ok tt, s'))
    × (s' ≡ other_tables)
downgrade_base-upgrade_head_example =
    downgrade_base-upgrade_head by_description as_is by_description-IsDocumented other_tables
      other_tables-IsFresh
