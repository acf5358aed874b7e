-- ===== src/Schema/Demands.antt =====
-- The columns that the script of schema.go cannot do without: of an index, or read by a view, and not
-- added before.
use clear_evmi_plugin.Prelude.{
  ◌≡◌, refl, String, Bool, true, false, ◌&&◌, ◌||◌, List, [], ◌∷◌, Option, none, some, ◌==◌, arith,
  string_equality, Option-cases, inl, inr,
}
use clear_evmi_plugin.Table.{Table, find}
use clear_evmi_plugin.Schema.{
  Ddl, Read, create_table, create_index, add_column, drop_column, drop_view, create_view, Catalog,
  Column, apply, run, has_columns, has_all, member, readable, has_in, readable_in, TableDef,
  ViewDef,
}
use clear_evmi_plugin.Schema.Places.{
  Place, no_table, no_column, there, place, place_after, place-apply, in_table, in_columns,
}

abbrev pub lacks : Place → Bool
lacks no_table = false
lacks no_column = true
lacks there = false

-- Whether a view reads the column `x` of `t`.
unfoldable pub reads_of : String → String → List Read → Bool
unfolding member
reads_of t x [] = false
reads_of t x ((r, xs) ∷ reads) = (r == t && member x xs) || reads_of t x reads

-- Whether a statement fails where the table `t` is there and its column `x` is not.
unfoldable pub demands : Ddl → String → String → Bool
unfolding member reads_of
demands (create_index i s xs) t x = s == t && member x xs
demands (create_view v outputs reads) t x = reads_of t x reads
demands _ t x = false

unfoldable pub refused : List Ddl → String → String → Place → Bool
unfolding demands
refused [] t x p = false
refused (d ∷ ds) t x p = (demands d t x && lacks p) || refused ds t x (place_after d t x p)

has_all-lacks :
    (x : String) (xs : List String) (t : Table String Column)
    → member x xs ≡ true
    → lacks (in_columns (find x t)) ≡ true
    → has_all xs t ≡ false
unfolding has_all member
has_all-lacks x [] t h l = cc
has_all-lacks x (y ∷ xs) t h l = ground (arith, string_equality.same_iff x y, has_all-lacks x xs t)

module _ (t x : String) (xs : List String) where
  has_in-lacks :
      (o : Option TableDef) → member x xs ≡ true → lacks (in_table x o) ≡ true → has_in xs o ≡ false
  has_in-lacks none h l = refl
  has_in-lacks (some d) h l = has_all-lacks x xs d.columns h l

  readable_in-lacks :
      (v : Option ViewDef) (o : Option TableDef)
      → member x xs ≡ true
      → lacks (in_table x o) ≡ true
      → readable_in xs v o ≡ false
  readable_in-lacks v none h l = cc
  readable_in-lacks v (some d) h l = has_all-lacks x xs d.columns h l

readable-lacks :
    (t x : String) (c : Catalog) (reads : List Read)
    → reads_of t x reads ≡ true
    → lacks (place t x c) ≡ true
    → readable c reads ≡ false
unfolding readable reads_of place
readable-lacks t x c [] h l = cc
readable-lacks t x c ((r, xs) ∷ reads) h l = ground (
  arith,
  string_equality.same_iff r t,
  readable-lacks t x c reads,
  readable_in-lacks t x xs (find t c.views) (find t c.tables),
)

demands-apply :
    (d : Ddl) (t x : String) (c : Catalog)
    → demands d t x ≡ true
    → lacks (place t x c) ≡ true
    → apply d c ≡ none
unfolding demands apply has_columns place
demands-apply (create_table s columns key) t x c h l = cc
demands-apply (create_index i s xs) t x c h l =
    ground (arith, string_equality.same_iff s t, has_in-lacks t x xs (find t c.tables))
demands-apply (add_column s y column) t x c h l = cc
demands-apply (drop_column s y) t x c h l = cc
demands-apply (drop_view v) t x c h l = cc
demands-apply (create_view v outputs reads) t x c h l = ground (arith, readable-lacks t x c reads)

pub refused-run :
    (ds : List Ddl) (t x : String) (c : Catalog)
    → refused ds t x (place t x c) ≡ true
    → run ds c ≡ none
unfolding refused run
refused-run [] t x c h = cc
refused-run (d ∷ ds) t x c h = elim (Option-cases (apply d c)) [
  | inl fails ↦ rw fails
  | inr (c', next) ↦
      rw next
        (refused-run ds t x c' (ground (arith, place-apply d t x c c' next, demands-apply d t x c)))
]
