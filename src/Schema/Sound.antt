-- ===== src/Schema/Sound.antt =====
-- A test of a script of statements on tables by which it runs on every catalog that has, of the tables
-- that it knows, the columns in question.
use clear_evmi_plugin.Prelude.{
  ◌≡◌, refl, ap, String, Bool, true, false, ◌&&◌, ◌||◌, not, List, [], ◌∷◌, Option, none, some,
  is_none, arith, if◌then◌else◌, string_equality, pair_equality, ◌∙◌, sym, subst,
}
use clear_evmi_plugin.Table.{Table, find}
use clear_evmi_plugin.Schema.{
  Ddl, create_table, create_index, add_column, drop_column, drop_view, create_view, Catalog,
  TableDef, Column, ViewDef, apply, run, has_columns, has_all, has_in, viewed, member,
}
use clear_evmi_plugin.Schema.Places.{
  Place, no_table, no_column, there, place, place_after, place-apply, in_table, in_columns,
}
use clear_evmi_plugin.Schema.Demands.{lacks}

abbrev pub is_there : Place → Bool
is_there no_table = false
is_there no_column = false
is_there there = true

abbrev pub has_table : Place → Bool
has_table no_table = false
has_table no_column = true
has_table there = true

-- Where a column is now, by where it was.
abbrev pub Moves : Type 0
Moves = String → String → Place → Place

abbrev pub moves_after : Ddl → Moves → Moves
moves_after d m t x p = place_after d t x (m t x p)

-- The columns that the statements drop.
unfoldable pub dropped : List Ddl → List (String × String)
dropped [] = []
dropped (drop_column t x ∷ ds) = (t, x) ∷ dropped ds
dropped (d ∷ ds) = dropped ds

module _ (core : String → String → Bool) where
  -- Whether the column is there, wherever it was, except missing from a table though it is `core`.
  unfoldable pub surely_there : Moves → String → String → Bool
  surely_there m t x =
      is_there (m t x no_table)
      && is_there (m t x there)
      && (core t x || is_there (m t x no_column))

  unfoldable pub all_there : Moves → String → List String → Bool
  unfolding surely_there
  all_there m t [] = true
  all_there m t (x ∷ xs) = surely_there m t x && all_there m t xs

  unfoldable pub surely_table : Moves → String → String → Bool
  surely_table m t x =
      has_table (m t x no_table) && has_table (m t x there) && has_table (m t x no_column)

  unfoldable pub step_is_safe : Moves → Ddl → Bool
  unfolding all_there surely_table
  step_is_safe m (create_table t columns key) = true
  step_is_safe m (create_index i t []) = false
  step_is_safe m (create_index i t (x ∷ xs)) = all_there m t (x ∷ xs)
  step_is_safe m (add_column t x column) = surely_table m t x
  step_is_safe m (drop_column t x) = surely_table m t x
  step_is_safe m (drop_view v) = false
  step_is_safe m (create_view v outputs reads) = false

  unfoldable pub is_safe : Moves → List Ddl → Bool
  unfolding step_is_safe
  is_safe m [] = true
  is_safe m (d ∷ ds) = step_is_safe m d && is_safe (moves_after d m) ds

  -- The catalog has the core columns of its tables.
  abbrev pub HasCore : Catalog → Type 0
  HasCore c = (t x : String) → core t x ≡ true → lacks (place t x c) ≡ false

-- No view reads a column that the statements drop.
abbrev pub Unread : List Ddl → Table String ViewDef → Type 0
Unread ds views = (t x : String) → member (t, x) (dropped ds) ≡ true → viewed t x views ≡ false

unfoldable pub placed : List String → Option TableDef → Bool
placed [] o = true
placed (x ∷ xs) o = is_there (in_table x o) && placed xs o

has_all-placed :
    (xs : List String) (d : TableDef) → placed xs (some d) ≡ true → has_all xs d.columns ≡ true
unfolding placed has_all
has_all-placed [] d h = refl
has_all-placed (x ∷ xs) d h = by_column (find x d.columns) (has_all-placed xs d) h
  where
    by_column :
        (o : Option Column)
        → (placed xs (some d) ≡ true → has_all xs d.columns ≡ true)
        → (is_there (in_columns o) && placed xs (some d)) ≡ true
        → (not (is_none o) && has_all xs d.columns) ≡ true
    by_column none rest g = cc
    by_column (some column) rest g = rest g

pub has_in-placed :
    (x : String) (xs : List String) (o : Option TableDef)
    → placed (x ∷ xs) o ≡ true
    → has_in (x ∷ xs) o ≡ true
unfolding placed
has_in-placed x xs none h = cc
has_in-placed x xs (some d) h = unfold placed in has_all-placed (x ∷ xs) d h

has_in-table :
    (x : String) (o : Option TableDef) → has_table (in_table x o) ≡ true → has_in [] o ≡ true
unfolding has_all
has_in-table x none h = cc
has_in-table x (some d) h = refl

passed :
    (b : Bool) (c next : Catalog)
    → b ≡ true
    → next.views ≡ c.views
    → (c' : Catalog) × ((if b then some next else none) ≡ some c') × (c'.views ≡ c.views)
passed b c next h same = (next, ground arith, same)

-- `c` came of `c0` by the moves `m`.
module _ (core : String → String → Bool) (c0 : Catalog) (complete : HasCore core c0) where
  surely-place :
      (m : Moves) (t x : String) (p : Place)
      → surely_there core m t x ≡ true
      → (core t x ≡ true → lacks p ≡ false)
      → is_there (m t x p) ≡ true
  unfolding surely_there
  surely-place m t x no_table h f = ground arith
  surely-place m t x no_column h f = ground (arith, f)
  surely-place m t x there h f = ground arith

  surely-table :
      (m : Moves) (t x : String) (p : Place)
      → surely_table core m t x ≡ true
      → has_table (m t x p) ≡ true
  unfolding surely_table
  surely-table m t x no_table h = ground arith
  surely-table m t x no_column h = ground arith
  surely-table m t x there h = ground arith

  module _ (m : Moves) (c : Catalog)
      (came : (t x : String) → place t x c ≡ m t x (place t x c0)) where
    pub all_there-placed :
        (t : String) (xs : List String)
        → all_there core m t xs ≡ true
        → placed xs (find t c.tables) ≡ true
    unfolding all_there placed place
    all_there-placed t [] h = refl
    all_there-placed t (x ∷ xs) h =
        ground
          (arith, came t x, surely-place m t x (place t x c0), complete t x, all_there-placed t xs)

    table_found : (t x : String) → surely_table core m t x ≡ true → has_columns t [] c ≡ true
    unfolding has_columns place
    table_found t x h =
        has_in-table x (find t c.tables)
          (subst (λ p. has_table p ≡ true) (sym (came t x)) (surely-table m t x (place t x c0) h))

    step-runs :
        (d : Ddl)
        → step_is_safe core m d ≡ true
        → Unread (d ∷ []) c.views
        → (c' : Catalog) × (apply d c ≡ some c') × (c'.views ≡ c.views)
    unfolding step_is_safe apply dropped member has_columns
    step-runs (create_table t columns key) h u = (_, refl, refl)
    step-runs (create_index i t []) h u = cc
    step-runs (create_index i t (x ∷ xs)) h u =
        passed _ c _ (has_in-placed x xs (find t c.tables) (all_there-placed t (x ∷ xs) h)) refl
    step-runs (add_column t x column) h u = passed _ c _ (table_found t x h) refl
    step-runs (drop_column t x) h u =
        passed _ c _
          (ground (
            arith,
            table_found t x h,
            u t x,
            string_equality.same_iff t t,
            string_equality.same_iff x x,
          ))
          refl
    step-runs (drop_view v) h u = cc
    step-runs (create_view v outputs reads) h u = cc

dropped-head :
    (d : Ddl) (ds : List Ddl) (t x : String)
    → member (t, x) (dropped (d ∷ [])) ≡ true
    → member (t, x) (dropped (d ∷ ds)) ≡ true
unfolding dropped member
dropped-head (drop_column s y) ds t x h = ground arith
dropped-head (create_table s columns key) ds t x h = cc
dropped-head (create_index i s xs) ds t x h = cc
dropped-head (add_column s y column) ds t x h = cc
dropped-head (drop_view v) ds t x h = cc
dropped-head (create_view v outputs reads) ds t x h = cc

dropped-tail :
    (d : Ddl) (ds : List Ddl) (t x : String)
    → member (t, x) (dropped ds) ≡ true
    → member (t, x) (dropped (d ∷ ds)) ≡ true
unfolding dropped member
dropped-tail (drop_column s y) ds t x h = ground arith
dropped-tail (create_table s columns key) ds t x h = h
dropped-tail (create_index i s xs) ds t x h = h
dropped-tail (add_column s y column) ds t x h = h
dropped-tail (drop_view v) ds t x h = h
dropped-tail (create_view v outputs reads) ds t x h = h

-- A safe script runs, and leaves the views.
pub is_safe-runs :
    (core : String → String → Bool) (c0 : Catalog)
    → HasCore core c0
    → (ds : List Ddl) (m : Moves) (c : Catalog)
    → ((t x : String) → place t x c ≡ m t x (place t x c0))
    → Unread ds c.views
    → is_safe core m ds ≡ true
    → (c' : Catalog) × (run ds c ≡ some c') × (c'.views ≡ c.views)
unfolding is_safe run
is_safe-runs core c0 complete [] m c came u h = (c, refl, refl)
is_safe-runs core c0 complete (d ∷ ds) m c came u h =
    let (c', next, same) =
      step-runs core c0 complete m c came d (ground arith)
        (λ t x gone. u t x (dropped-head d ds t x gone)) in
    let (c'', rest, same') =
      is_safe-runs core c0 complete ds (moves_after d m) c'
        (λ t x. place-apply d t x c c' next ∙ ap (place_after d t x) (came t x))
        (λ t x gone. ap (viewed t x) same ∙ u t x (dropped-tail d ds t x gone)) (ground arith) in
    (c'', rw next rest, same' ∙ same)
