-- ===== src/Schema/Upgrade.antt =====
-- When the script of schema.go runs on a database, and what it leaves of its columns.
use clear_evmi_plugin.Prelude.{
  ◌≡◌, ◌≢◌, refl, sym, ◌||◌, ◌==◌, not, arith, Bool-cases, inl, inr, ap, String, Bool, true, false,
  List, [], ◌∷◌, ◌++◌, Option, none, some, string_equality, pair_equality, ◌∙◌,
}
use clear_evmi_plugin.Table.{find}
use clear_evmi_plugin.Schema.{Ddl, Catalog, apply, run, then_run, member, viewed}
use clear_evmi_plugin.Schema.Views.{
  par_view, value_view, par_reads, holding_reads, drop_views, create_views,
}
use clear_evmi_plugin.Schema.Script.{table_script, schema}
use clear_evmi_plugin.Schema.Places.{
  Place, no_table, no_column, there, place, place_after, places, place-run, run-next, in_table,
}
use clear_evmi_plugin.Schema.Demands.{lacks, demands, refused, refused-run}
use clear_evmi_plugin.Schema.Sound.{Moves, Unread, is_safe, is_safe-runs, dropped}
use clear_evmi_plugin.Schema.Versions.{needed, retired}
use clear_evmi_plugin.Schema.Columns.{every, every-member, pairs_read}
use clear_evmi_plugin.Schema.Demanded.{demanded, member-demanded}
use clear_evmi_plugin.Schema.Success.{all_of_tables, absent, run-Unread, run-absent, views-apart}
use clear_evmi_plugin.Schema.Renewal.{all_read, renewed, views-run}

-- An index or a view needs the column, and no statement before adds it to a table without it.
unfoldable pub is_demanded : String → String → Bool
unfolding refused schema
is_demanded t x = refused schema t x no_column

abbrev unmoved : Moves
unmoved t x p = p

table_script-safe : is_safe is_demanded unmoved table_script ≡ true
unfolding is_safe is_demanded table_script find member place_after
table_script-safe = refl

par_reads-found : all_read is_demanded (places table_script) par_reads ≡ true
unfolding all_read is_demanded places table_script find member place_after
par_reads-found = refl

holding_reads-found : all_read is_demanded (places table_script) holding_reads ≡ true
unfolding all_read is_demanded places table_script find member place_after
holding_reads-found = refl

run-append : (ds es : List Ddl) (c : Catalog) → run (ds ++ es) c ≡ then_run (run es) (run ds c)
unfolding run
run-append [] es c = refl
run-append (d ∷ ds) es c = by_step (apply d c) (run-append ds es)
  where
    by_step :
        (o : Option Catalog)
        → ((c' : Catalog) → run (ds ++ es) c' ≡ then_run (run es) (run ds c'))
        → then_run (run (ds ++ es)) o ≡ then_run (run es) (then_run (run ds) o)
    by_step none ih = refl
    by_step (some c') ih = ih c'

-- No table that is there lacks a column which an index or a view needs.
abbrev pub IsUpgradable : Catalog → Type 0
IsUpgradable c = (t x : String) → is_demanded t x ≡ true → lacks (place t x c) ≡ false

dropped-schema : dropped schema ≡ dropped table_script
unfolding dropped schema table_script
dropped-schema = refl

-- The tables of the script have other names than its views.
no_par_view : places table_script par_view "" no_table ≡ no_table
unfolding places place_after table_script
no_par_view = refl

no_value_view : places table_script value_view "" no_table ≡ no_table
unfolding places place_after table_script
no_value_view = refl

run-stays :
    (v : String)
    → places table_script v "" no_table ≡ no_table
    → (c c' : Catalog) → run table_script c ≡ some c'
    → find v c.tables ≡ none
    → find v c'.tables ≡ none
unfolding place
run-stays v unmoved c c' done apart = absent "" (find v c'.tables) (
    place-run table_script v "" c c' done
    ∙ ap (λ o. places table_script v "" (in_table "" o)) apart
    ∙ unmoved)

pub refuses : (c c' : Catalog) → run schema c ≡ some c' → IsUpgradable c
unfolding is_demanded
refuses c c' done t x h = by_place (place t x c) (refused-run schema t x c)
  where
    by_place : (p : Place) → (refused schema t x p ≡ true → run schema c ≡ none) → lacks p ≡ false
    by_place no_table f = refl
    by_place there f = refl
    by_place no_column f = cc (f h)

table_script-views : all_of_tables table_script ≡ true
unfolding all_of_tables table_script
table_script-views = refl

-- What a database must be for the script: of the tables that are there, no one lacks a column that is
-- `needed`; no table has the name of a view; and no view reads a column that is retired.
pub record IsReady (c : Catalog) : Type 0 where
  pub has_needed :
      (t x : String) → member (t, x) (pairs_read needed) ≡ true → place t x c ≢ no_column
  pub par_apart : find par_view c.tables ≡ none
  pub value_apart : find value_view c.tables ≡ none
  pub unread :
      (t x : String) → member (t, x) (pairs_read retired) ≡ true → viewed t x c.views ≡ false

retired-dropped : dropped schema ≡ pairs_read retired
unfolding dropped schema retired pairs_read
retired-dropped = refl

pub needed-demanded : every is_demanded (pairs_read needed) ≡ true
unfolding every is_demanded refused demands schema needed pairs_read member place_after
needed-demanded = refl

abbrev is_needed : String → String → Bool
is_needed t x = not (is_demanded t x) || (member (t, x) (pairs_read needed) || t == par_view)

demanded-needed : every is_needed (demanded schema) ≡ true
unfolding every demanded is_demanded refused demands schema needed pairs_read member place_after
demanded-needed = refl

pub has_column : (p : Place) → lacks p ≡ false → p ≢ no_column
has_column no_table h = λ e. cc
has_column no_column h = cc
has_column there h = λ e. cc

not_lacking : (p : Place) → p ≢ no_column → lacks p ≡ false
not_lacking no_table h = refl
not_lacking no_column h = absurd (h refl)
not_lacking there h = refl

module _ (c : Catalog) (ready : IsReady c) where
  IsReady-Unread : Unread schema c.views
  IsReady-Unread t x gone = ready.unread t x (sym (ap (member (t, x)) retired-dropped) ∙ gone)

  no_table-lacks : (t x : String) → (t == par_view) ≡ true → lacks (place t x c) ≡ false
  unfolding place
  no_table-lacks t x e = ground (arith, string_equality.same_iff t par_view, ready.par_apart)

  IsReady-IsUpgradable : IsUpgradable c
  IsReady-IsUpgradable t x h = elim (Bool-cases (member (t, x) (pairs_read needed))) [
    | inl m ↦ not_lacking (place t x c) (ready.has_needed t x m)
    | inr other ↦
        let sure =
          every-member is_needed (demanded schema) t x demanded-needed
            (member-demanded schema t x no_column (unfold is_demanded in h)) in
        no_table-lacks t x
          (by_test (is_demanded t x) (member (t, x) (pairs_read needed)) _ h other sure)
  ]
    where
      by_test : (d m e : Bool) → d ≡ true → m ≡ false → (not d || (m || e)) ≡ true → e ≡ true
      by_test true false e h k sure = sure
      by_test true true e h k sure = cc
      by_test false m e h k sure = cc

  pub upgrade-runs : (c' : Catalog) × (run schema c ≡ some c') × (c'.views ≡ renewed c.views)
  unfolding schema
  upgrade-runs =
      let complete : IsUpgradable c = IsReady-IsUpgradable in
      let (c', done, same) =
        is_safe-runs is_demanded c complete table_script unmoved c (λ t x. refl)
          (λ t x gone. IsReady-Unread t x (ap (member (t, x)) dropped-schema ∙ gone))
          table_script-safe in
      (
        _,
        run-append table_script (drop_views ++ create_views) c
            ∙ ap (then_run (run (drop_views ++ create_views))) done
            ∙ views-run is_demanded c complete (places table_script) c'
                (λ t x. place-run table_script t x c c' done) par_reads-found holding_reads-found
                (run-stays par_view no_par_view c c' done ready.par_apart)
                (run-stays value_view no_value_view c c' done ready.value_apart),
        ap renewed same,
      )

pub runs-IsReady : (c c' : Catalog) → run schema c ≡ some c' → IsReady c
unfolding schema drop_views
runs-IsReady c c' done =
    let (c'', first, rest) =
      run-next (drop_views ++ create_views) (run table_script c)
        (sym (run-append table_script (drop_views ++ create_views) c) ∙ done) in
    let (value, par) = views-apart c'' c' rest in
    let (unread, same) = run-Unread table_script c c'' table_script-views first in
    record {
      has_needed = λ t x m. has_column (place t x c) (
          refuses c c' done t x
            (every-member is_demanded (pairs_read needed) t x needed-demanded m));
      par_apart = run-absent table_script par_view c c'' first par;
      value_apart = run-absent table_script value_view c c'' first value;
      unread = λ t x m.
          unread t x
            (sym (ap (member (t, x)) dropped-schema) ∙ ap (member (t, x)) retired-dropped ∙ m);
    }
