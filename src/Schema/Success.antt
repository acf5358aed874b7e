-- ===== src/Schema/Success.antt =====
-- What a run without an error tells of the catalog that it began with.
use clear_evmi_plugin.Prelude.{
  ◌≡◌, refl, ap, String, Bool, true, false, ◌&&◌, List, [], ◌∷◌, Option, none, some, is_none, ◌∙◌,
  sym, subst, arith, string_equality, pair_equality, if◌then◌else◌,
}
use clear_evmi_plugin.Table.{Table, find}
use clear_evmi_plugin.Schema.{
  Ddl, create_table, create_index, add_column, drop_column, drop_view, create_view, Catalog,
  TableDef, ViewDef, Column, apply, run, cascade, viewed, member,
}
use clear_evmi_plugin.Schema.Views.{par_view, value_view, create_views}
use clear_evmi_plugin.Schema.Places.{
  Place, no_table, no_column, there, place, place_after, places, place-run, in_table, in_columns,
  run-next,
}
use clear_evmi_plugin.Schema.Sound.{Unread, dropped}

abbrev is_of_tables : Ddl → Bool
is_of_tables (drop_view v) = false
is_of_tables (create_view v outputs reads) = false
is_of_tables d = true

-- The script has no statement on views.
unfoldable pub all_of_tables : List Ddl → Bool
all_of_tables [] = true
all_of_tables (d ∷ ds) = is_of_tables d && all_of_tables ds

guarded-views :
    (b : Bool) (c c' next : Catalog)
    → (if b then some next else none) ≡ some c'
    → next.views ≡ c.views
    → c'.views ≡ c.views
guarded-views true c c' next h e = ground arith
guarded-views false c c' next h e = cc

apply-views :
    (d : Ddl) (c c' : Catalog) → is_of_tables d ≡ true → apply d c ≡ some c' → c'.views ≡ c.views
unfolding apply
apply-views (create_table t columns key) c c' h done = guarded-views true c c' _ done refl
apply-views (create_index i t xs) c c' h done = guarded-views _ c c' _ done refl
apply-views (add_column t x column) c c' h done = guarded-views _ c c' _ done refl
apply-views (drop_column t x) c c' h done = guarded-views _ c c' _ done refl
apply-views (drop_view v) c c' h done = cc
apply-views (create_view v outputs reads) c c' h done = cc

apply-unread :
    (t x : String) (c c' : Catalog)
    → apply (drop_column t x) c ≡ some c'
    → viewed t x c.views ≡ false
unfolding apply
apply-unread t x c c' done = ground arith

module _ (views : Table String ViewDef) (ds : List Ddl) where
  more-Unread :
      (d : Ddl)
      → ((t x : String) → d ≡ drop_column t x → viewed t x views ≡ false)
      → Unread ds views
      → Unread (d ∷ ds) views
  unfolding dropped member
  more-Unread (drop_column s y) h u t x gone =
      ground (arith, string_equality.same_iff t s, string_equality.same_iff x y, h s y refl, u t x)
  more-Unread (create_table s columns key) h u t x gone = u t x gone
  more-Unread (create_index i s xs) h u t x gone = u t x gone
  more-Unread (add_column s y column) h u t x gone = u t x gone
  more-Unread (drop_view v) h u t x gone = u t x gone
  more-Unread (create_view v outputs reads) h u t x gone = u t x gone

-- No view reads what a run drops, and it leaves the views.
pub run-Unread :
    (ds : List Ddl) (c c' : Catalog)
    → all_of_tables ds ≡ true
    → run ds c ≡ some c'
    → Unread ds c.views × (c'.views ≡ c.views)
unfolding run all_of_tables dropped member
run-Unread [] c c' h done = (nothing, ground arith)
  where
    nothing : Unread [] c.views
    nothing t x gone = cc
run-Unread (d ∷ ds) c c' h done =
    let (c'', next, rest) = run-next ds (apply d c) done in
    let (u, same) = run-Unread ds c'' c' (ground arith) rest in
    let kept : c''.views ≡ c.views = apply-views d c c'' (ground arith) next in
    (
      more-Unread c.views ds d
          (λ t x e. apply-unread t x c c'' (subst (λ z. apply z c ≡ some c'') e next))
          (subst (Unread ds) kept u),
      same ∙ kept,
    )

-- A table that is there stays there.
created_from : (d : Ddl) (t x : String) (p : Place) → place_after d t x p ≡ no_table → p ≡ no_table
unfolding place_after
created_from d t x no_table h = refl
created_from (create_table s columns key) t x no_column h = ground arith
created_from (create_table s columns key) t x there h = ground arith
created_from (create_index i s xs) t x no_column h = h
created_from (create_index i s xs) t x there h = h
created_from (add_column s y column) t x no_column h = ground arith
created_from (add_column s y column) t x there h = ground arith
created_from (drop_column s y) t x no_column h = ground arith
created_from (drop_column s y) t x there h = ground arith
created_from (drop_view v) t x no_column h = h
created_from (drop_view v) t x there h = h
created_from (create_view v outputs reads) t x no_column h = h
created_from (create_view v outputs reads) t x there h = h

places_from : (ds : List Ddl) (t x : String) (p : Place) → places ds t x p ≡ no_table → p ≡ no_table
unfolding places
places_from [] t x p h = h
places_from (d ∷ ds) t x p h = created_from d t x p (places_from ds t x (place_after d t x p) h)

pub absent : (x : String) (o : Option TableDef) → in_table x o ≡ no_table → o ≡ none
absent x none h = refl
absent x (some d) h = by_column (find x d.columns) h
  where
    by_column : (o : Option Column) → in_columns o ≡ no_table → some d ≡ none
    by_column none h = cc
    by_column (some column) h = cc

pub run-absent :
    (ds : List Ddl) (t : String) (c c' : Catalog)
    → run ds c ≡ some c'
    → find t c'.tables ≡ none
    → find t c.tables ≡ none
unfolding place
run-absent ds t c c' done h =
    absent "" (find t c.tables)
      (places_from ds t "" (place t "" c) (sym (place-run ds t "" c c' done) ∙ ap (in_table "") h))

drop_view-absent :
    (v : String) (c c' : Catalog)
    → apply (drop_view v) c ≡ some c'
    → (find v c.tables ≡ none) × (c'.tables ≡ c.tables)
unfolding apply
drop_view-absent v c c' done =
    by_table (find v c.tables) (record c { views = cascade (v ∷ []) c.views }) refl done
  where
    by_table :
        (o : Option TableDef) (next : Catalog)
        → next.tables ≡ c.tables
        → (if is_none o then some next else none) ≡ some c'
        → (o ≡ none) × (c'.tables ≡ c.tables)
    by_table none next e h = (refl, ground arith)
    by_table (some d) next e h = cc

-- Where the last four statements run, no table has the name of a view.
pub views-apart :
    (c c' : Catalog)
    → run (drop_view value_view ∷ drop_view par_view ∷ create_views) c ≡ some c'
    → (find value_view c.tables ≡ none) × (find par_view c.tables ≡ none)
unfolding run
views-apart c c' done =
    let (c1, first, rest) =
      run-next (drop_view par_view ∷ create_views) (apply (drop_view value_view) c) done in
    let (c2, second, last) = run-next create_views (apply (drop_view par_view) c1) rest in
    let (value, same) = drop_view-absent value_view c c1 first in
    let (par, same') = drop_view-absent par_view c1 c2 second in
    (value, ap (find par_view) (sym same) ∙ par)
