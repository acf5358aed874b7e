-- ===== src/Schema/Columns.antt =====
-- What the script of schema.go leaves of each column of each table.
use clear_evmi_plugin.Prelude.{
  ◌≡◌, ◌≢◌, refl, ap, String, Bool, true, false, ◌&&◌, List, [], ◌∷◌, ◌++◌, some, ◌==◌, arith,
  if◌then◌else◌, string_equality, pair_equality, ◌∙◌,
}
use clear_evmi_plugin.Table.{find}
use clear_evmi_plugin.Schema.{
  Ddl, Read, create_table, create_index, add_column, drop_column, drop_view, create_view, Catalog,
  run, member,
}
use clear_evmi_plugin.Schema.Versions.{introduced, retired}
use clear_evmi_plugin.Schema.Script.{schema}
use clear_evmi_plugin.Schema.Places.{
  Place, no_table, no_column, there, place, place_after, places, place-run, in_columns, created,
}
use clear_evmi_plugin.Schema.Demands.{lacks}
use clear_evmi_plugin.Schema.Sound.{is_there, dropped}

-- The columns that the statements add to tables.
unfoldable pub added : List Ddl → List (String × String)
added [] = []
added (add_column t x column ∷ ds) = (t, x) ∷ added ds
added (d ∷ ds) = added ds

-- The columns of one table, and those of several.
unfoldable pub pairs_with : String → List String → List (String × String)
pairs_with t [] = []
pairs_with t (x ∷ xs) = (t, x) ∷ pairs_with t xs

unfoldable pub pairs_read : List Read → List (String × String)
unfolding pairs_with
pairs_read [] = []
pairs_read ((t, xs) ∷ reads) = pairs_with t xs ++ pairs_read reads

unfoldable pub every : (String → String → Bool) → List (String × String) → Bool
every p [] = true
every p ((t, x) ∷ pairs) = p t x && every p pairs

pub every-member :
    (p : String → String → Bool) (pairs : List (String × String)) (t x : String)
    → every p pairs ≡ true
    → member (t, x) pairs ≡ true
    → p t x ≡ true
unfolding every member
every-member p [] t x h m = cc
every-member p ((s, y) ∷ pairs) t x h m =
    ground
      (arith, string_equality.same_iff t s, string_equality.same_iff x y, every-member p pairs t x)

-- The test at every place where the column may have been.
abbrev pub always : (Place → Bool) → List Ddl → String → String → Bool
always test ds t x =
    test (places ds t x no_table) && test (places ds t x no_column) && test (places ds t x there)

pub at_place :
    (test : Place → Bool) (ds : List Ddl) (t x : String) (p : Place)
    → always test ds t x ≡ true
    → test (places ds t x p) ≡ true
at_place test ds t x no_table h = ground arith
at_place test ds t x no_column h = ground arith
at_place test ds t x there h = ground arith

pub is_there-eq : (p : Place) → is_there p ≡ true → p ≡ there
is_there-eq no_table h = cc
is_there-eq no_column h = cc
is_there-eq there h = refl

pub lacks-eq : (p : Place) → lacks p ≡ true → p ≡ no_column
lacks-eq no_table h = cc
lacks-eq no_column h = refl
lacks-eq there h = cc

pub added-there : every (always is_there schema) (added schema) ≡ true
unfolding every added schema places place_after find
added-there = refl

pub dropped-lacks : every (always lacks schema) (dropped schema) ≡ true
unfolding every dropped schema places place_after find
dropped-lacks = refl

abbrev pub stays : String → String → Bool
stays t x = is_there (places schema t x no_table) && is_there (places schema t x there)

created-place : (b : Bool) (new p : Place) → p ≢ no_table → (if b then created new p else p) ≡ p
created-place false new p n = refl
created-place true new no_table n = absurd (n refl)
created-place true new no_column n = refl
created-place true new there n = refl

-- A column that no statement adds or drops, of a table that is there.
pub places-untouched :
    (ds : List Ddl) (t x : String) (p : Place)
    → member (t, x) (added ds) ≡ false
    → member (t, x) (dropped ds) ≡ false
    → p ≢ no_table
    → places ds t x p ≡ p
unfolding places place_after added dropped member
places-untouched [] t x p a b n = refl
places-untouched (create_table s columns key ∷ ds) t x p a b n =
    ap (places ds t x) (created-place (s == t) (in_columns (find x columns)) p n)
    ∙ places-untouched ds t x p a b n
places-untouched (create_index i s xs ∷ ds) t x p a b n = places-untouched ds t x p a b n
places-untouched (add_column s y column ∷ ds) t x p a b n = ground (
  arith,
  string_equality.same_iff s t,
  string_equality.same_iff y x,
  string_equality.same_iff t s,
  string_equality.same_iff x y,
  places-untouched ds t x p,
)
places-untouched (drop_column s y ∷ ds) t x p a b n = ground (
  arith,
  string_equality.same_iff s t,
  string_equality.same_iff y x,
  string_equality.same_iff t s,
  string_equality.same_iff x y,
  places-untouched ds t x p,
)
places-untouched (drop_view v ∷ ds) t x p a b n = places-untouched ds t x p a b n
places-untouched (create_view v outputs reads ∷ ds) t x p a b n = places-untouched ds t x p a b n

pub stays-place :
    (t x : String) (p : Place) → stays t x ≡ true → p ≢ no_column → places schema t x p ≡ there
stays-place t x no_table h n = is_there-eq _ (ground arith)
stays-place t x no_column h n = absurd (n refl)
stays-place t x there h n = is_there-eq _ (ground arith)

introduced-there : every (always is_there schema) (pairs_read introduced) ≡ true
unfolding every pairs_read introduced schema places place_after find
introduced-there = refl

retired-lacks : every (always lacks schema) (pairs_read retired) ≡ true
unfolding every pairs_read retired schema places place_after find
retired-lacks = refl

added-introduced : added schema ≡ pairs_read introduced
unfolding added schema pairs_read introduced
added-introduced = refl

dropped-retired : dropped schema ≡ pairs_read retired
unfolding dropped schema pairs_read retired
dropped-retired = refl

-- What became of the columns.
pub record IsUpgraded (c c' : Catalog) : Type 0 where
  -- those that came later are there, in every table
  pub gained : (t x : String) → member (t, x) (pairs_read introduced) ≡ true → place t x c' ≡ there
  -- those that are retired are not
  pub lost : (t x : String) → member (t, x) (pairs_read retired) ≡ true → place t x c' ≡ no_column
  -- and all other columns of the tables that were there are as they were
  pub untouched :
      (t x : String)
      → member (t, x) (pairs_read introduced) ≡ false
      → member (t, x) (pairs_read retired) ≡ false
      → place t x c ≢ no_table
      → place t x c' ≡ place t x c

-- Wherever the script of schema.go runs on a database, the listed columns of later versions are there
-- afterwards, the two that were retired are not, and every other column of a table that was there is
-- as it was.
pub schema-IsUpgraded : (c c' : Catalog) → run schema c ≡ some c' → IsUpgraded c c'
schema-IsUpgraded c c' done = record {
  gained = λ t x m.
      place-run schema t x c c' done
      ∙ is_there-eq _ (
          at_place is_there schema t x (place t x c)
            (every-member (always is_there schema) (pairs_read introduced) t x introduced-there m));
  lost = λ t x m.
      place-run schema t x c c' done
      ∙ lacks-eq _ (
          at_place lacks schema t x (place t x c)
            (every-member (always lacks schema) (pairs_read retired) t x retired-lacks m));
  untouched = λ t x a b n.
      place-run schema t x c c' done
      ∙ places-untouched schema t x (place t x c) (ap (member (t, x)) added-introduced ∙ a)
          (ap (member (t, x)) dropped-retired ∙ b) n;
}
