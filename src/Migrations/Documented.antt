-- ===== src/Migrations/Documented.antt =====
-- What Alembic documents of its operations, on a description of the tables of a database: a list of
-- tables, the newest first. An operation that does not apply raises.
use distributed_file_service.Prelude.{
  Bool, Bool-cases, List, Option, [], any, arith, false, if◌then◌else◌, inl, inr, map, none, refl,
  some, true, ◌++◌, ◌||◌, ◌∷◌, ◌≡◌,
}
use distributed_file_service.Text.{Text, text_eq}
use distributed_file_service.Exec.{Exec, ok, pure, ◌>>=◌, ◌>>◌}
use distributed_file_service.Migrations.{Column, Operations, Table}

abbrev pub Schema : Type 0
Schema = List Table

unfoldable pub has_table : Text → Schema → Bool
has_table name [] = false
has_table name (t ∷ ts) = text_eq t.name name || has_table name ts

unfoldable pub create : Table → Schema → Option Schema
unfolding has_table
create t ts = if has_table t.name ts then none else some (t ∷ ts)

unfoldable pub drop_named : Text → Schema → Option Schema
drop_named name [] = none
drop_named name (t ∷ ts) =
    let rest = drop_named name ts in
    if text_eq t.name name then some ts else elim rest [ none ↦ none | some us ↦ some (t ∷ us) ]

-- A change of one table.
unfoldable pub alter : Text → (Table → Option Table) → Schema → Option Schema
alter name f [] = none
alter name f (t ∷ ts) =
    let rest = alter name f ts in
    if text_eq t.name name
    then elim (f t) [ none ↦ none | some u ↦ some (u ∷ ts) ]
    else elim rest [ none ↦ none | some us ↦ some (t ∷ us) ]

abbrev pub column_names : List Column → List Text
column_names = map (λ c. c.name)

unfoldable pub add_to : Column → Table → Option Table
unfolding any
add_to c t =
    if any (text_eq c.name) (column_names t.columns)
    then none
    else some (record t { columns = t.columns ++ c ∷ [] })

unfoldable pub without : Text → List Column → List Column
without name [] = []
without name (c ∷ cs) = let rest = without name cs in if text_eq c.name name then rest else c ∷ rest

unfoldable pub drop_from : Text → Table → Option Table
unfolding any without
drop_from name t =
    if any (text_eq name) (column_names t.columns)
    then some (record t { columns = without name t.columns })
    else none

unfoldable pub has_index : Text → List (Text × List Text) → Bool
has_index name [] = false
has_index name ((i, columns) ∷ is) = text_eq i name || has_index name is

-- An index of this name must not be there.
unfoldable pub add_index : Text → List Text → Table → Option Table
unfolding has_index
add_index name columns t =
    if has_index name t.indexes
    then none
    else some (record t { indexes = (name, columns) ∷ t.indexes })

unfoldable pub without_index : Text → List (Text × List Text) → List (Text × List Text)
without_index name [] = []
without_index name ((i, columns) ∷ is) =
    let rest = without_index name is in if text_eq i name then rest else (i, columns) ∷ rest

-- An index of this name must be there.
unfoldable pub drop_index_of : Text → Table → Option Table
unfolding has_index without_index
drop_index_of name t =
    if has_index name t.indexes
    then some (record t { indexes = without_index name t.indexes })
    else none

-- The columns that the inspector sees of a table that is there; of another it raises.
unfoldable pub names_of : Text → Schema → List Text
names_of name [] = []
names_of name (t ∷ ts) =
    let rest = names_of name ts in if text_eq t.name name then column_names t.columns else rest

-- `m` changes the tables as `f` says, where `f` applies.
pub record Does {S : Type 0} (describe : S → Schema) (m : Exec S Unit) (f : Schema → Option Schema)
    : Type 0 where
  pub run :
      (s : S) (b : Schema)
      → f (describe s) ≡ some b
      → (s' : S) × (m s ≡ (ok tt, s')) × (describe s' ≡ b)

pub record IsDocumented {S : Type 0} (op : Operations S) (describe : S → Schema) : Type 0 where
  pub create_table : (t : Table) → Does describe (op.create_table t) (create t)
  pub drop_table : (name : Text) → Does describe (op.drop_table name) (drop_named name)
  pub create_index :
      (name table : Text) (columns : List Text)
      → Does describe (op.create_index name table columns) (alter table (add_index name columns))
  pub drop_index :
      (name table : Text)
      → Does describe (op.drop_index name table) (alter table (drop_index_of name))
  pub add_column :
      (table : Text) (c : Column) → Does describe (op.add_column table c) (alter table (add_to c))
  pub drop_column :
      (table name : Text) → Does describe (op.drop_column table name) (alter table (drop_from name))
  pub get_columns :
      (table : Text) (s : S)
      → has_table table (describe s) ≡ true
      → op.get_columns table s ≡ (ok (names_of table (describe s)), s)

abbrev pub and_then : Option Schema → (Schema → Option Schema) → Option Schema
and_then none g = none
and_then (some a) g = g a

-- A change that reads the columns of a table first, which must be there.
abbrev pub reading : Text → (List Text → Schema → Option Schema) → Schema → Option Schema
reading table f a = if has_table table a then f (names_of table a) a else none

module _ {S : Type 0} (describe : S → Schema) where
  pub Does-then :
      (m n : Exec S Unit) (f g : Schema → Option Schema)
      → Does describe m f
      → Does describe n g
      → Does describe (m >> n) (λ a. and_then (f a) g)
  Does-then m n f g a b = record { run = λ s c h. go s c (f (describe s)) refl h }
    where
      go :
          (s : S) (c : Schema) (o : Option Schema)
          → f (describe s) ≡ o
          → and_then o g ≡ some c
          → (s' : S) × ((m >> n) s ≡ (ok tt, s')) × (describe s' ≡ c)
      go s c none e h = absurd (ground (arith, h))
      go s c (some x) e h =
          let (t, p, q) = a.run s x e in let (u, i, j) = b.run t c (rw q h) in (u, rw p i, j)

  pub Does-pure : Does describe (pure tt) (λ a. some a)
  Does-pure = record { run = λ s b h. (s, refl, ground (arith, h)) }

  pub Does-if :
      (b : Bool) (m n : Exec S Unit) (f g : Schema → Option Schema)
      → Does describe m f
      → Does describe n g
      → Does describe (if b then m else n) (λ a. if b then f a else g a)
  Does-if true m n f g a c = record { run = a.run }
  Does-if false m n f g a c = record { run = c.run }

  -- The columns are read first.
  pub Does-read :
      (get : Exec S (List Text)) (table : Text) (m : List Text → Exec S Unit)
      (f : List Text → Schema → Option Schema)
      → ((s : S)
          → has_table table (describe s) ≡ true
          → get s ≡ (ok (names_of table (describe s)), s))
      → ((names : List Text) → Does describe (m names) (f names))
      → Does describe (get >>= m) (reading table f)
  Does-read get table m f reads k = record {
    run = λ s b h. elim (Bool-cases (has_table table (describe s))) [
      | inl e ↦
          let (t, p, q) = (k (names_of table (describe s))).run s b (rw e at h) in
          (t, rw (reads s e) p, q)
      | inr e ↦ absurd (ground (arith, rw e at h))
    ];
  }
