-- ===== src/Examples/Schemas.antt =====
-- The theorems on the script of schema.go at a database of an earlier version.
use clear_evmi_plugin.Prelude.{
  Bool, true, false, not, ◌||◌, ◌≢◌, pair_equality, ◌≡◌, refl, String, [], ◌∷◌, some, coalesce,
  string_equality,
}
use clear_evmi_plugin.Schema.Places.{Place, no_table, no_column, there, place}
use clear_evmi_plugin.Schema.Demands.{lacks}
use clear_evmi_plugin.Schema.Statements.{written, schema-serves_writes}
use clear_evmi_plugin.Schema.Versions.{introduced}
use clear_evmi_plugin.Table.{find, insert_new, upsert, modify}
use clear_evmi_plugin.Schema.{
  Catalog, required, nullable, defaulted, text_column, big_int, numeric, run, cascade, has_columns,
  has_all, member, viewed, without, without_indexes, readable,
}
use clear_evmi_plugin.Schema.Script.{schema}
use clear_evmi_plugin.Schema.Columns.{
  IsUpgraded, schema-IsUpgraded, pairs_with, pairs_read, every, every-member,
}
use clear_evmi_plugin.Schema.Again.{schema-again}

-- Settings with a column that is retired, and reserves before NewClearReserve was indexed.
abbrev earlier : Catalog
earlier = record {
  tables =
      (
        "clear_reserve_settings",
        record {
          columns =
              ("chain_id", required big_int)
              ∷ ("reserve", required text_column)
              ∷ ("kind", required text_column)
              ∷ ("config_address", nullable text_column)
              ∷ [];
          primary_key = "chain_id" ∷ "reserve" ∷ [];
        },
      )
      ∷ (
        "clear_reserves",
        record {
          columns =
              ("chain_id", required big_int)
              ∷ ("address", required text_column)
              ∷ ("kind", required text_column)
              ∷ ("lp_supply", defaulted numeric "0")
              ∷ [];
          primary_key = "chain_id" ∷ "address" ∷ [];
        },
      )
      ∷ [];
  indexes = [];
  views = [];
}

upgraded : Catalog
upgraded = coalesce (run schema earlier) earlier

earlier-run : run schema earlier ≡ some upgraded
unfolding upgraded run schema find insert_new upsert modify has_columns has_all member viewed
    without without_indexes cascade readable
earlier-run = refl

schema-IsUpgraded_example : IsUpgraded earlier upgraded
schema-IsUpgraded_example = schema-IsUpgraded earlier upgraded earlier-run

schema-again_example :
    (c'' : Catalog) × (run schema upgraded ≡ some c'')
    × ((t x : String) → place t x c'' ≡ place t x upgraded)
schema-again_example = schema-again earlier upgraded earlier-run

-- IOUs before their treasury fees were summed.
abbrev before_fees : Catalog
before_fees = record {
  tables =
      (
        "clear_iou_tokens",
        record {
          columns =
              ("chain_id", required big_int)
              ∷ ("address", required text_column)
              ∷ ("total_supply", defaulted numeric "0")
              ∷ ("last_block", nullable big_int)
              ∷ [];
          primary_key = "chain_id" ∷ "address" ∷ [];
        },
      )
      ∷ [];
  indexes = [];
  views = [];
}

with_fees : Catalog
with_fees = coalesce (run schema before_fees) before_fees

before_fees-run : run schema before_fees ≡ some with_fees
unfolding with_fees run schema find insert_new upsert modify has_columns has_all member viewed
    without without_indexes cascade readable
before_fees-run = refl

abbrev is_early : String → String → Bool
is_early t x = member (t, x) (pairs_read introduced) || not (lacks (place t x before_fees))

written-early : every is_early (pairs_read written) ≡ true
unfolding every written introduced pairs_read pairs_with member place find
written-early = refl

early-place : (old : Bool) (p : Place) → (old || not (lacks p)) ≡ true → old ≡ false → p ≢ no_column
early-place old no_table h o = λ e. cc
early-place old no_column h o = λ e. cc
early-place old there h o = λ e. cc

fees-written : member ("clear_iou_tokens", "treasury_fees") (pairs_read written) ≡ true
unfolding written pairs_read pairs_with member
fees-written = refl

schema-serves_writes_example : place "clear_iou_tokens" "treasury_fees" with_fees ≡ there
schema-serves_writes_example =
    schema-serves_writes before_fees with_fees before_fees-run
      (λ t x m.
        early-place (member (t, x) (pairs_read introduced)) (place t x before_fees)
          (every-member is_early (pairs_read written) t x written-early m))
      "clear_iou_tokens" "treasury_fees" fees-written
