-- ===== src/Schema/Renewal.antt =====
-- The end of the script of schema.go, which drops the two views and creates them anew.
use clear_evmi_plugin.Prelude.{
  ◌≡◌, refl, ap, String, Bool, true, false, ◌&&◌, ◌||◌, List, [], ◌∷◌, ◌++◌, Option, none, some,
  or_else, arith, string_equality, ◌∙◌, sym,
}
use clear_evmi_plugin.Table.{Table, find}
use clear_evmi_plugin.Schema.{
  create_view, drop_view, then_run, Read, Catalog, ViewDef, apply, run, member, members, cascade,
  readable, readable_in, viewed, TableDef,
}
use clear_evmi_plugin.Schema.Views.{
  par_view, value_view, par_outputs, value_outputs, par_reads, value_reads, holding_reads,
  drop_views, create_views,
}
use clear_evmi_plugin.Schema.Places.{place}
use clear_evmi_plugin.Schema.Sound.{
  placed, Moves, HasCore, all_there, all_there-placed, has_in-placed,
}

find-cascade :
    (v : String) (gone : List String) (views : Table String ViewDef)
    → member v gone ≡ true
    → find v (cascade gone views) ≡ none
unfolding find cascade member
find-cascade v gone [] h = refl
find-cascade v gone ((w, d) ∷ views) h = ground (
  arith,
  string_equality.same_iff w v,
  find-cascade v gone views,
  find-cascade v (w ∷ gone) views,
)

find-cascade-none :
    (v : String) (gone : List String) (views : Table String ViewDef)
    → find v views ≡ none
    → find v (cascade gone views) ≡ none
unfolding find cascade
find-cascade-none v gone [] h = refl
find-cascade-none v gone ((w, d) ∷ views) h =
    ground (arith, find-cascade-none v gone views, find-cascade-none v (w ∷ gone) views)

pub viewed-cascade :
    (t x : String) (gone : List String) (views : Table String ViewDef)
    → viewed t x views ≡ false
    → viewed t x (cascade gone views) ≡ false
unfolding viewed cascade
viewed-cascade t x gone [] h = refl
viewed-cascade t x gone ((w, d) ∷ views) h =
    ground (arith, viewed-cascade t x gone views, viewed-cascade t x (w ∷ gone) views)

pub viewed-append :
    (t x : String) (vs ws : Table String ViewDef)
    → viewed t x (vs ++ ws) ≡ (viewed t x vs || viewed t x ws)
unfolding viewed
viewed-append t x [] ws = refl
viewed-append t x ((v, d) ∷ vs) ws = ground (arith, viewed-append t x vs ws)

find-append :
    (v : String) (vs ws : Table String ViewDef)
    → find v (vs ++ ws) ≡ or_else (find v vs) (find v ws)
unfolding find
find-append v [] ws = refl
find-append v ((w, d) ∷ vs) ws = ground (arith, find-append v vs ws)

par_def : ViewDef
par_def = record { outputs = par_outputs; reads = par_reads }

value_def : ViewDef
value_def = record { outputs = value_outputs; reads = value_reads }

dropped_views : Table String ViewDef → Table String ViewDef
dropped_views views = cascade (par_view ∷ []) (cascade (value_view ∷ []) views)

unfoldable pub renewed : Table String ViewDef → Table String ViewDef
unfolding par_def value_def dropped_views
renewed views = (dropped_views views ++ (par_view, par_def) ∷ []) ++ (value_view, value_def) ∷ []

-- A list of views that read no such column gains no reader of it but the two.
pub viewed-renewed :
    (t x : String) (views : Table String ViewDef)
    → viewed t x views ≡ false
    → viewed t x (renewed views) ≡ viewed t x (renewed [])
unfolding renewed dropped_views viewed cascade
viewed-renewed t x views unread =
    viewed-append t x (dropped_views views ++ (par_view, par_def) ∷ [])
      ((value_view, value_def) ∷ [])
    ∙ ap (λ b. b || viewed t x ((value_view, value_def) ∷ []))
        (viewed-append t x (dropped_views views) ((par_view, par_def) ∷ [])
          ∙ ap (λ b. b || viewed t x ((par_view, par_def) ∷ []))
              (viewed-cascade t x (par_view ∷ []) _
                (viewed-cascade t x (value_view ∷ []) views unread)))
    ∙ sym (viewed-append t x ((par_view, par_def) ∷ []) ((value_view, value_def) ∷ []))

unfoldable pub all_read : (String → String → Bool) → Moves → List Read → Bool
unfolding all_there
all_read core m [] = true
all_read core m ((t, []) ∷ reads) = false
all_read core m ((t, x ∷ xs) ∷ reads) = all_there core m t (x ∷ xs) && all_read core m reads

found-readable :
    (x : String) (xs : List String) (v : Option ViewDef) (o : Option TableDef)
    → placed (x ∷ xs) o ≡ true
    → readable_in (x ∷ xs) v o ≡ true
unfolding placed
found-readable x xs v none h = cc
found-readable x xs v (some d) h = has_in-placed x xs (some d) h

module _ (core : String → String → Bool) (c0 : Catalog) (complete : HasCore core c0) (m : Moves)
    (c : Catalog) (came : (t x : String) → place t x c ≡ m t x (place t x c0)) where
  all_read-readable : (reads : List Read) → all_read core m reads ≡ true → readable c reads ≡ true
  unfolding readable all_read
  all_read-readable [] h = refl
  all_read-readable ((t, []) ∷ reads) h = cc
  all_read-readable ((t, x ∷ xs) ∷ reads) h = ground (
    arith,
    found-readable x xs (find t c.views) (find t c.tables),
    all_there-placed core c0 complete m c came t (x ∷ xs),
    all_read-readable reads,
  )

create-runs :
    (c : Catalog) (v : String) (outputs : List String) (reads : List Read)
    → find v c.views ≡ none
    → find v c.tables ≡ none
    → readable c reads ≡ true
    → apply (create_view v outputs reads) c
      ≡ some (record c { views = c.views ++ (v, record { outputs = outputs; reads = reads }) ∷ [] })
unfolding apply
create-runs c v outputs reads new apart r = rw (new, apart, r)

value_reads-readable :
    (c : Catalog)
    → find par_view c.tables ≡ none
    → find par_view c.views ≡ some par_def
    → readable c holding_reads ≡ true
    → readable c value_reads ≡ true
unfolding readable par_def member members
value_reads-readable c apart shown r = rw (apart, shown) r

par_view-dropped : (views : Table String ViewDef) → find par_view (dropped_views views) ≡ none
unfolding dropped_views member
par_view-dropped views = find-cascade par_view _ _ refl

with_par_view : Table String ViewDef → Table String ViewDef
with_par_view views = views ++ (par_view, par_def) ∷ []

value_view-absent :
    (views : Table String ViewDef) → find value_view (with_par_view (dropped_views views)) ≡ none
unfolding dropped_views with_par_view member find
value_view-absent views =
    find-append value_view (dropped_views views) ((par_view, par_def) ∷ [])
    ∙ ap (λ o. or_else o none)
        (find-cascade-none value_view (par_view ∷ []) (cascade (value_view ∷ []) views)
          (find-cascade value_view (value_view ∷ []) views refl))

par_view-shown :
    (views : Table String ViewDef)
    → find par_view (with_par_view (dropped_views views)) ≡ some par_def
unfolding with_par_view find
par_view-shown views =
    find-append par_view (dropped_views views) ((par_view, par_def) ∷ [])
    ∙ ap (λ o. or_else o (some par_def)) (par_view-dropped views)

drop-runs :
    (c : Catalog) (v : String)
    → find v c.tables ≡ none
    → apply (drop_view v) c ≡ some (record c { views = cascade (v ∷ []) c.views })
unfolding apply
drop-runs c v apart = rw apart

-- The four statements run where what they read is there, and no table has the name of a view.
pub views-run :
    (core : String → String → Bool) (c0 : Catalog)
    → HasCore core c0
    → (m : Moves) (c : Catalog) → ((t x : String) → place t x c ≡ m t x (place t x c0))
    → all_read core m par_reads ≡ true
    → all_read core m holding_reads ≡ true
    → find par_view c.tables ≡ none
    → find value_view c.tables ≡ none
    → run (drop_views ++ create_views) c ≡ some (record c { views = renewed c.views })
unfolding run drop_views create_views renewed dropped_views with_par_view place par_def value_def
views-run core c0 complete m c came read held apart apart' =
    let views = dropped_views c.views in
    let later = with_par_view views in
    let last = create_view value_view value_outputs value_reads ∷ [] in
    ap (then_run (run (drop_view par_view ∷ create_views))) (drop-runs c value_view apart')
    ∙ ap (then_run (run create_views))
        (drop-runs (record c { views = cascade (value_view ∷ []) c.views }) par_view apart)
    ∙ ap (then_run (run last)) (
        create-runs (record c { views = views }) par_view par_outputs par_reads
          (par_view-dropped c.views) apart
          (all_read-readable core c0 complete m (record c { views = views }) came par_reads read))
    ∙ ap (then_run (run [])) (
        create-runs (record c { views = later }) value_view value_outputs value_reads
          (value_view-absent c.views) apart'
          (value_reads-readable (record c { views = later }) apart (par_view-shown c.views)
            (all_read-readable core c0 complete m (record c { views = later }) came holding_reads
              held)))
