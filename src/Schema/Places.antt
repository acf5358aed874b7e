-- ===== src/Schema/Places.antt =====
-- The script of schema.go followed for one column of one table: the table is missing, or it is there
-- without the column, or with it.
use clear_evmi_plugin.Prelude.{
  ◌≡◌, refl, ap, String, Bool, true, false, ◌&&◌, not, List, [], ◌∷◌, Option, none, some, ◌==◌,
  arith, if◌then◌else◌, string_equality, ◌∙◌, sym,
}
use clear_evmi_plugin.Table.{Table, find, insert_new, modify}
use clear_evmi_plugin.Table.Laws.{find-insert_new, find-modify, upserted}
use clear_evmi_plugin.Schema.{
  Ddl, create_table, create_index, add_column, drop_column, drop_view, create_view, Catalog,
  TableDef, Column, apply, run, then_run, without, viewed, without_column, has_columns,
}
use mathlib.Core.Option

pub data Place : Type 0 where
  no_table no_column there : Place

abbrev pub in_columns : Option Column → Place
in_columns none = no_column
in_columns (some column) = there

abbrev pub in_table : String → Option TableDef → Place
in_table x none = no_table
in_table x (some d) = in_columns (find x d.columns)

unfoldable pub place : String → String → Catalog → Place
place t x c = in_table x (find t c.tables)

abbrev pub created : Place → Place → Place
created new no_table = new
created new p = p

abbrev pub moved_to : Place → Place → Place
moved_to new no_table = no_table
moved_to new p = new

-- What a statement does to the column `x` of the table `t`.
unfoldable pub place_after : Ddl → String → String → Place → Place
place_after (create_table s columns key) t x p =
    if s == t then created (in_columns (find x columns)) p else p
place_after (create_index i s xs) t x p = p
place_after (add_column s y column) t x p = if s == t && y == x then moved_to there p else p
place_after (drop_column s y) t x p = if s == t && y == x then moved_to no_column p else p
place_after (drop_view v) t x p = p
place_after (create_view v outputs reads) t x p = p

unfoldable pub places : List Ddl → String → String → Place → Place
unfolding place_after
places [] t x p = p
places (d ∷ ds) t x p = places ds t x (place_after d t x p)

find-without :
    {V : Type 0} (x y : String) (t : Table String V)
    → find y (without x t) ≡ (if x == y then none else find y t)
unfolding find without
find-without x y [] = ground arith
find-without x y ((z, v) ∷ t) = ground (
  arith,
  string_equality.same_iff x y,
  string_equality.same_iff z y,
  string_equality.same_iff x z,
  find-without x y t,
)

-- A change of the columns of the table `s`, seen at `t` and `x`.
module _ (s t x : String) (f : TableDef → TableDef) (g : Place → Place) where
  in_table-modify :
      g no_table ≡ no_table
      → ((d : TableDef) → in_columns (find x (f d).columns) ≡ g (in_columns (find x d.columns)))
      → (c : Catalog)
      → in_table x (find t (modify s f c.tables))
        ≡ (if s == t then g (place t x c) else place t x c)
  unfolding place
  in_table-modify keeps does c =
      ap (in_table x) (find-modify s t f c.tables) ∙ by_test (s == t) (find t c.tables)
    where
      by_test :
          (b : Bool) (o : Option TableDef)
          → in_table x (if b then Option.map f o else o)
            ≡ (if b then g (in_table x o) else in_table x o)
      by_test false o = refl
      by_test true none = sym keeps
      by_test true (some d) = does d

in_columns-insert :
    (y x : String) (column : Column) (t : Table String Column)
    → in_columns (find x (insert_new y column t))
      ≡ (if y == x then there else in_columns (find x t))
in_columns-insert y x column t =
    ap in_columns (find-insert_new y x column t) ∙ by_test (y == x) (find y t)
  where
    by_test :
        (b : Bool) (o : Option Column)
        → in_columns (if b then some (upserted column (λ w. w) o) else find x t)
          ≡ (if b then there else in_columns (find x t))
    by_test true o = refl
    by_test false o = refl

in_table-insert :
    (s t x : String) (new : TableDef) (c : Catalog)
    → in_table x (find t (insert_new s new c.tables))
      ≡ (if s == t then created (in_columns (find x new.columns)) (place t x c) else place t x c)
unfolding place
in_table-insert s t x new c =
    ground (arith, find-insert_new s t new c.tables, string_equality.same_iff s t)

-- A change of the column `y` seen at `x`: nothing, unless these are the same.
abbrev moved_if : Bool → Place → Place → Place
moved_if b new p = if b then moved_to new p else p

in_columns-move :
    (new : Place) (b : Bool) (o : Option Column)
    → (if b then new else in_columns o) ≡ moved_if b new (in_columns o)
in_columns-move new true none = refl
in_columns-move new true (some column) = refl
in_columns-move new false o = refl

in_columns-without :
    (y x : String) (t : Table String Column)
    → in_columns (find x (without y t)) ≡ (if y == x then no_column else in_columns (find x t))
in_columns-without y x t = ap in_columns (find-without y x t) ∙ by_test (y == x)
  where
    by_test :
        (b : Bool)
        → in_columns (if b then none else find x t)
          ≡ (if b then no_column else in_columns (find x t))
    by_test true = refl
    by_test false = refl

moved_if-and :
    (a b : Bool) (new p : Place)
    → (if a then moved_if b new p else p) ≡ (if a && b then moved_to new p else p)
moved_if-and true b new p = refl
moved_if-and false b new p = refl

moved_if-no_table : (b : Bool) (new : Place) → moved_if b new no_table ≡ no_table
moved_if-no_table true new = refl
moved_if-no_table false new = refl

module _ (s y t x : String) (c : Catalog) where
  add-place :
      (column : Column)
      → in_table x
          (find t (modify s (λ d. record d { columns = insert_new y column d.columns }) c.tables))
        ≡ (if s == t && y == x then moved_to there (place t x c) else place t x c)
  add-place column =
      in_table-modify s t x _ (moved_if (y == x) there) (moved_if-no_table (y == x) there)
        (λ d.
          in_columns-insert y x column d.columns
          ∙ in_columns-move there (y == x) (find x d.columns))
        c
      ∙ moved_if-and (s == t) (y == x) there (place t x c)

  drop-place :
      in_table x (find t (modify s (without_column y) c.tables))
      ≡ (if s == t && y == x then moved_to no_column (place t x c) else place t x c)
  drop-place =
      in_table-modify s t x _ (moved_if (y == x) no_column) (moved_if-no_table (y == x) no_column)
        (λ d.
          in_columns-without y x d.columns ∙ in_columns-move no_column (y == x) (find x d.columns))
        c
      ∙ moved_if-and (s == t) (y == x) no_column (place t x c)

  guarded-place :
      (p : Place) (next : Catalog) (b : Bool) (c' : Catalog)
      → (if b then some next else none) ≡ some c'
      → place t x next ≡ p
      → place t x c' ≡ p
  guarded-place p next b c' h e = ground arith

pub place-apply :
    (d : Ddl) (t x : String) (c c' : Catalog)
    → apply d c ≡ some c'
    → place t x c' ≡ place_after d t x (place t x c)
unfolding apply place place_after
place-apply (create_table s columns key) t x c c' done =
    ground (arith, in_table-insert s t x (record { columns = columns; primary_key = key }) c)
place-apply (create_index i s xs) t x c c' done = ground arith
place-apply (add_column s y column) t x c c' done =
    guarded-place s y t x c _ _ (has_columns s [] c) c' done (add-place s y t x c column)
place-apply (drop_column s y) t x c c' done =
    guarded-place s y t x c _ _ (has_columns s [] c && not (viewed s y c.views)) c' done
      (drop-place s y t x c)
place-apply (drop_view v) t x c c' done = ground arith
place-apply (create_view v outputs reads) t x c c' done = ground arith

pub run-next :
    (ds : List Ddl) (o : Option Catalog) {c' : Catalog}
    → then_run (run ds) o ≡ some c'
    → (c : Catalog) × (o ≡ some c) × (run ds c ≡ some c')
run-next ds none done = cc
run-next ds (some c) done = (c, refl, done)

pub place-run :
    (ds : List Ddl) (t x : String) (c c' : Catalog)
    → run ds c ≡ some c'
    → place t x c' ≡ places ds t x (place t x c)
unfolding run places
place-run [] t x c c' done = ground arith
place-run (d ∷ ds) t x c c' done =
    let (c'', next, rest) = run-next ds (apply d c) done in
    place-run ds t x c'' c' rest ∙ ap (places ds t x) (place-apply d t x c c'' next)
