-- ===== src/Schema/Demanded.antt =====
-- The columns that the statements of a script demand, as a list.
use clear_evmi_plugin.Prelude.{
  ◌≡◌, refl, String, true, ◌&&◌, ◌||◌, List, [], ◌∷◌, ◌++◌, ◌==◌, arith, string_equality,
  pair_equality,
}
use clear_evmi_plugin.Schema.{
  Ddl, Read, create_table, create_index, add_column, drop_column, drop_view, create_view, member,
}
use clear_evmi_plugin.Schema.Places.{Place, place_after}
use clear_evmi_plugin.Schema.Demands.{demands, reads_of, refused}
use clear_evmi_plugin.Schema.Columns.{pairs_with, pairs_read}

-- The columns that statements demand.
unfoldable pub demanded : List Ddl → List (String × String)
unfolding pairs_read
demanded [] = []
demanded (create_index i t xs ∷ ds) = pairs_with t xs ++ demanded ds
demanded (create_view v outputs reads ∷ ds) = pairs_read reads ++ demanded ds
demanded (d ∷ ds) = demanded ds

member-append :
    (a : String × String) (xs ys : List (String × String))
    → member a (xs ++ ys) ≡ (member a xs || member a ys)
unfolding member
member-append a [] ys = refl
member-append a (x ∷ xs) ys = ground (arith, member-append a xs ys)

member-pairs_with :
    (s t x : String) (xs : List String)
    → (s == t && member x xs) ≡ true
    → member (t, x) (pairs_with s xs) ≡ true
unfolding member pairs_with
member-pairs_with s t x [] h = ground arith
member-pairs_with s t x (y ∷ xs) h = ground (
  arith,
  string_equality.same_iff s t,
  string_equality.same_iff t s,
  string_equality.same_iff x y,
  member-pairs_with s t x xs,
)

member-pairs_read :
    (t x : String) (reads : List Read)
    → reads_of t x reads ≡ true
    → member (t, x) (pairs_read reads) ≡ true
unfolding reads_of pairs_read
member-pairs_read t x [] h = cc
member-pairs_read t x ((s, xs) ∷ reads) h = ground (
  arith,
  member-append (t, x) (pairs_with s xs) (pairs_read reads),
  member-pairs_with s t x xs,
  member-pairs_read t x reads,
)

pub member-demanded :
    (ds : List Ddl) (t x : String) (p : Place)
    → refused ds t x p ≡ true
    → member (t, x) (demanded ds) ≡ true
unfolding refused demands demanded
member-demanded [] t x p h = cc
member-demanded (create_table s columns key ∷ ds) t x p h = member-demanded ds t x _ h
member-demanded (create_index i s xs ∷ ds) t x p h = ground (
  arith,
  member-append (t, x) (pairs_with s xs) (demanded ds),
  member-pairs_with s t x xs,
  member-demanded ds t x (place_after (create_index i s xs) t x p),
)
member-demanded (add_column s y column ∷ ds) t x p h = member-demanded ds t x _ h
member-demanded (drop_column s y ∷ ds) t x p h = member-demanded ds t x _ h
member-demanded (drop_view v ∷ ds) t x p h = member-demanded ds t x _ h
member-demanded (create_view v outputs reads ∷ ds) t x p h = ground (
  arith,
  member-append (t, x) (pairs_read reads) (demanded ds),
  member-pairs_read t x reads,
  member-demanded ds t x (place_after (create_view v outputs reads) t x p),
)
