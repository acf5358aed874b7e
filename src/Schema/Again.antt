-- ===== src/Schema/Again.antt =====
-- A database on which the script of schema.go has run takes it again.
use clear_evmi_plugin.Prelude.{
  ◌≡◌, ◌≢◌, refl, ap, String, Bool, true, false, ◌&&◌, not, [], none, some, arith, string_equality,
  pair_equality, ◌∙◌, sym, Bool-cases, inl, inr,
}
use clear_evmi_plugin.Table.{Table, find}
use clear_evmi_plugin.Schema.{Catalog, run, member, viewed, reads_column, cascade, ViewDef}
use clear_evmi_plugin.Schema.Views.{par_view, value_view}
use clear_evmi_plugin.Schema.Script.{schema}
use clear_evmi_plugin.Schema.Places.{
  Place, no_table, no_column, there, place, place_after, places, place-run, in_table,
}
use clear_evmi_plugin.Schema.Demands.{lacks}
use clear_evmi_plugin.Schema.Sound.{dropped, is_there}
use clear_evmi_plugin.Schema.Renewal.{renewed, viewed-renewed}
use clear_evmi_plugin.Schema.Upgrade.{
  is_demanded, IsUpgradable, IsReady, upgrade-runs, refuses, runs-IsReady, has_column,
  needed-demanded,
}
use clear_evmi_plugin.Schema.Versions.{needed, retired}
use clear_evmi_plugin.Schema.Demanded.{demanded, member-demanded}
use clear_evmi_plugin.Schema.Success.{absent}
use clear_evmi_plugin.Schema.Columns.{
  pairs_read, every, every-member, added, always, at_place, added-there, dropped-lacks, is_there-eq,
  lacks-eq, places-untouched,
}

abbrev never_lacks : String → String → Bool
never_lacks t x = not (lacks (places schema t x no_table)) && not (lacks (places schema t x there))

demanded-never_lacks : every never_lacks (demanded schema) ≡ true
unfolding every demanded schema places place_after find
demanded-never_lacks = refl

kept-place :
    (t x : String) (p : Place)
    → never_lacks t x ≡ true
    → lacks p ≡ false
    → lacks (places schema t x p) ≡ false
kept-place t x no_table h l = ground arith
kept-place t x no_column h l = cc
kept-place t x there h l = ground arith

run-IsUpgradable : (c c' : Catalog) → run schema c ≡ some c' → IsUpgradable c'
unfolding is_demanded
run-IsUpgradable c c' done t x h =
    ap lacks (place-run schema t x c c' done)
    ∙ kept-place t x (place t x c)
        (every-member never_lacks (demanded schema) t x demanded-never_lacks
          (member-demanded schema t x no_column h))
        (refuses c c' done t x h)

abbrev unread_anew : String → String → Bool
unread_anew t x = not (viewed t x (renewed []))

retired-unread_anew : every unread_anew (pairs_read retired) ≡ true
unfolding every pairs_read retired viewed renewed reads_column member cascade
retired-unread_anew = refl

unread-false : (t x : String) → unread_anew t x ≡ true → viewed t x (renewed []) ≡ false
unread-false t x h = ground arith

renewed-unread :
    (views : Table String ViewDef) (t x : String)
    → member (t, x) (pairs_read retired) ≡ true
    → viewed t x views ≡ false
    → viewed t x (renewed views) ≡ false
renewed-unread views t x gone unread =
    viewed-renewed t x views unread
    ∙ unread-false t x (every-member unread_anew (pairs_read retired) t x retired-unread_anew gone)

-- A move of places that leaves all but a missing table alone is the same twice.
fixes_idem :
    (g : Place → Place) → ((p : Place) → p ≢ no_table → g p ≡ p) → (p : Place) → g (g p) ≡ g p
fixes_idem g fixes no_table = by_place (g no_table) refl
  where
    by_place : (p : Place) → g no_table ≡ p → g p ≡ p
    by_place no_table e = e
    by_place no_column e = fixes no_column (λ p. cc)
    by_place there e = fixes there (λ p. cc)
fixes_idem g fixes no_column = ap g (fixes no_column (λ p. cc))
fixes_idem g fixes there = ap g (fixes there (λ p. cc))

module _ (t x : String) (p : Place) where
  added_idem :
      member (t, x) (added schema) ≡ true
      → places schema t x (places schema t x p) ≡ places schema t x p
  added_idem m =
      let sure = every-member (always is_there schema) (added schema) t x added-there m in
      is_there-eq _ (at_place is_there schema t x (places schema t x p) sure)
      ∙ sym (is_there-eq _ (at_place is_there schema t x p sure))

  dropped_idem :
      member (t, x) (dropped schema) ≡ true
      → places schema t x (places schema t x p) ≡ places schema t x p
  dropped_idem m =
      let sure = every-member (always lacks schema) (dropped schema) t x dropped-lacks m in
      lacks-eq _ (at_place lacks schema t x (places schema t x p) sure)
      ∙ sym (lacks-eq _ (at_place lacks schema t x p sure))

  places_idem : places schema t x (places schema t x p) ≡ places schema t x p
  places_idem = elim (Bool-cases (member (t, x) (added schema))) [
    | inl m ↦ added_idem m
    | inr a ↦ elim (Bool-cases (member (t, x) (dropped schema))) [
      | inl m ↦ dropped_idem m
      | inr d ↦ fixes_idem (places schema t x) (λ q n. places-untouched schema t x q a d n) p
    ]
  ]

no_par_view : places schema par_view "" no_table ≡ no_table
unfolding places place_after schema
no_par_view = refl

no_value_view : places schema value_view "" no_table ≡ no_table
unfolding places place_after schema
no_value_view = refl

run-stays :
    (v : String)
    → places schema v "" no_table ≡ no_table
    → (c c' : Catalog) → run schema c ≡ some c'
    → find v c.tables ≡ none
    → find v c'.tables ≡ none
unfolding place
run-stays v unmoved c c' done apart =
    absent "" (find v c'.tables) (
      place-run schema v "" c c' done
      ∙ ap (λ o. places schema v "" (in_table "" o)) apart
      ∙ unmoved)

some-injective : (a b : Catalog) → some a ≡ some b → a ≡ b
some-injective a b e = cc

has_needed-again :
    (c c' : Catalog)
    → run schema c ≡ some c'
    → (t x : String) → member (t, x) (pairs_read needed) ≡ true
    → place t x c' ≢ no_column
has_needed-again c c' done t x m = has_column (place t x c') (
    run-IsUpgradable c c' done t x
      (every-member is_demanded (pairs_read needed) t x needed-demanded m))

run-IsReady : (c c' : Catalog) → run schema c ≡ some c' → IsReady c'
run-IsReady c c' done =
    let ready : IsReady c = runs-IsReady c c' done in
    let (w, first, renews) = upgrade-runs c ready in
    let same : c' ≡ w = some-injective _ _ (sym done ∙ first) in
    record {
      has_needed = has_needed-again c c' done;
      par_apart = run-stays par_view no_par_view c c' done ready.par_apart;
      value_apart = run-stays value_view no_value_view c c' done ready.value_apart;
      unread = λ t x gone.
          ap (λ (z : Catalog). viewed t x z.views) same
          ∙ ap (viewed t x) renews
          ∙ renewed-unread c.views t x gone (ready.unread t x gone);
    }

-- A database on which the script of schema.go has run takes the script again, without an error, and
-- has every column of every table where it was.
pub schema-again :
    (c c' : Catalog)
    → run schema c ≡ some c'
    → (c'' : Catalog) × (run schema c' ≡ some c'') × ((t x : String) → place t x c'' ≡ place t x c')
schema-again c c' done =
    let (c'', again, renews) = upgrade-runs c' (run-IsReady c c' done) in
    (
      c'',
      again,
      λ t x.
          place-run schema t x c' c'' again
          ∙ ap (places schema t x) (place-run schema t x c c' done)
          ∙ places_idem t x (place t x c)
          ∙ sym (place-run schema t x c c' done),
    )
