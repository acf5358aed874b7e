-- ===== src/Schema.antt =====
-- schema.go as a script: the statements that prepare a database, and what they do to its catalog of
-- tables, indexes and views. The script runs as one batch, in which an error undoes all of it.
-- A view cannot have the name of a table. That a table of the script cannot have the name of a view
-- or of an index that is there already is not modelled.
pub mod Entities
pub mod Settings
pub mod Holdings
pub mod Prices
pub mod Curves
pub mod Views
pub mod Script
pub mod Versions
pub mod Places
pub mod Demands
pub mod Sound
pub mod Success
pub mod Renewal
pub mod Upgrade
pub mod Columns
pub mod Demanded
pub mod Again
pub mod Statements
use clear_evmi_plugin.Prelude.{
  String, Bool, true, false, ◌&&◌, ◌||◌, not, List, [], ◌∷◌, ◌++◌, Option, none, some, is_none,
  ◌==◌, if◌then◌else◌, Equality, string_equality,
}
use clear_evmi_plugin.Table.{Table, find, insert_new, modify}

pub data ColumnType : Type 0 where
  text_column big_int small_int int numeric jsonb boolean date : ColumnType

pub record Column : Type 0 where
  pub column_type : ColumnType
  pub not_null : Bool
  pub default : Option String

abbrev pub nullable : ColumnType → Column
nullable t = record { column_type = t; not_null = false; default = none }

-- NOT NULL
abbrev pub required : ColumnType → Column
required t = record { column_type = t; not_null = true; default = none }

-- NOT NULL DEFAULT v
abbrev pub defaulted : ColumnType → String → Column
defaulted t v = record { column_type = t; not_null = true; default = some v }

-- A relation that a view reads, and the columns of it that the view names.
abbrev pub Read : Type 0
Read = String × List String

pub data Ddl : Type 0 where
  -- CREATE TABLE IF NOT EXISTS, with the columns and the primary key
  create_table : String → Table String Column → List String → Ddl
  -- CREATE INDEX IF NOT EXISTS, on the columns of a table
  create_index : String → String → List String → Ddl
  -- ALTER TABLE … ADD COLUMN IF NOT EXISTS
  add_column : String → String → Column → Ddl
  -- ALTER TABLE … DROP COLUMN IF EXISTS
  drop_column : String → String → Ddl
  -- DROP VIEW IF EXISTS … CASCADE
  drop_view : String → Ddl
  -- CREATE VIEW, with its columns and what it reads
  create_view : String → List String → List Read → Ddl

pub record TableDef : Type 0 where
  pub columns : Table String Column
  pub primary_key : List String

pub record ViewDef : Type 0 where
  pub outputs : List String
  pub reads : List Read

-- Views in the order in which they were created: a view reads only earlier ones.
pub record Catalog : Type 0 where
  pub tables : Table String TableDef
  pub indexes : Table String (String × List String)
  pub views : Table String ViewDef

unfoldable pub member : {A : Type 0} ⦃e : Equality A⦄ → A → List A → Bool
member x [] = false
member x (y ∷ ys) = x == y || member x ys

unfoldable pub has_all : {V : Type 0} → List String → Table String V → Bool
has_all [] t = true
has_all (x ∷ xs) t = not (is_none (find x t)) && has_all xs t

abbrev pub has_in : List String → Option TableDef → Bool
has_in xs none = false
has_in xs (some d) = has_all xs d.columns

unfoldable pub has_columns : String → List String → Catalog → Bool
has_columns t xs c = has_in xs (find t c.tables)

unfoldable pub members : List String → List String → Bool
unfolding member
members [] ys = true
members (x ∷ xs) ys = member x ys && members xs ys

abbrev pub shown_by : List String → Option ViewDef → Bool
shown_by xs none = false
shown_by xs (some v) = members xs v.outputs

abbrev pub readable_in : List String → Option ViewDef → Option TableDef → Bool
readable_in xs v none = shown_by xs v
readable_in xs v (some d) = has_all xs d.columns

unfoldable pub readable : Catalog → List Read → Bool
unfolding members has_all
readable c [] = true
readable c ((r, xs) ∷ reads) = readable_in xs (find r c.views) (find r c.tables) && readable c reads

-- Whether one of `reads` names a column of a relation, or a relation at all.
unfoldable pub reads_column : String → String → List Read → Bool
unfolding member
reads_column r x [] = false
reads_column r x ((s, xs) ∷ reads) = (r == s && member x xs) || reads_column r x reads

unfoldable pub reads_any : List String → List Read → Bool
unfolding member
reads_any names [] = false
reads_any names ((s, xs) ∷ reads) = member s names || reads_any names reads

unfoldable pub viewed : String → String → Table String ViewDef → Bool
viewed r x [] = false
viewed r x ((v, d) ∷ views) = reads_column r x d.reads || viewed r x views

unfoldable pub without : {V : Type 0} → String → Table String V → Table String V
without x [] = []
without x ((y, v) ∷ t) = if x == y then without x t else (y, v) ∷ without x t

-- An index goes with a column that it is over.
unfoldable pub without_indexes :
    String → String → Table String (String × List String) → Table String (String × List String)
unfolding member
without_indexes t x [] = []
without_indexes t x ((i, (s, xs)) ∷ indexes) =
    if t == s && member x xs
    then without_indexes t x indexes
    else (i, (s, xs)) ∷ without_indexes t x indexes

-- A view is dropped with the views that read it.
unfoldable pub cascade : List String → Table String ViewDef → Table String ViewDef
unfolding member reads_any
cascade dropped [] = []
cascade dropped ((v, d) ∷ views) =
    if member v dropped || reads_any dropped d.reads
    then cascade (v ∷ dropped) views
    else (v, d) ∷ cascade dropped views

-- So does the primary key.
abbrev pub without_column : String → TableDef → TableDef
without_column x d = record d {
  columns = without x d.columns;
  primary_key = if member x d.primary_key then [] else d.primary_key;
}

-- A statement on a catalog; `none` is an error.
unfoldable pub apply : Ddl → Catalog → Option Catalog
apply (create_table t columns key) c =
    some (record c {
      tables = insert_new t (record { columns = columns; primary_key = key }) c.tables;
    })
apply (create_index i t xs) c =
    if has_columns t xs c
    then some (record c { indexes = insert_new i (t, xs) c.indexes })
    else none
apply (add_column t x column) c =
    if has_columns t [] c
    then some (record c {
      tables = modify t (λ d. record d { columns = insert_new x column d.columns }) c.tables;
    })
    else none
apply (drop_column t x) c =
    if has_columns t [] c && not (viewed t x c.views)
    then some (record c {
      tables = modify t (without_column x) c.tables;
      indexes = without_indexes t x c.indexes;
    })
    else none
apply (drop_view v) c =
    if is_none (find v c.tables) then some (record c { views = cascade (v ∷ []) c.views }) else none
apply (create_view v outputs reads) c =
    if is_none (find v c.views) && is_none (find v c.tables) && readable c reads
    then some
        (record c { views = c.views ++ (v, record { outputs = outputs; reads = reads }) ∷ [] })
    else none

abbrev pub then_run : (Catalog → Option Catalog) → Option Catalog → Option Catalog
then_run f none = none
then_run f (some c) = f c

unfoldable pub run : List Ddl → Catalog → Option Catalog
unfolding apply
run [] c = some c
run (d ∷ ds) c = then_run (run ds) (apply d c)
