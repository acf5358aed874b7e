-- ===== src/Schema/Prices.antt =====
-- The tables of schema.go for IOUs, prices and daily values.
use clear_evmi_plugin.Prelude.{List, [], ◌∷◌}
use clear_evmi_plugin.Schema.{
  Ddl, create_table, create_index, add_column, nullable, required, defaulted, text_column, big_int,
  int, numeric, boolean, date,
}

unfoldable pub iou_tables : List Ddl
iou_tables =
    create_table "clear_iou_tokens"
      (("chain_id", required big_int)
        ∷ ("address", required text_column)
        ∷ ("total_supply", defaulted numeric "0")
        ∷ ("treasury_fees", defaulted numeric "0")
        ∷ ("last_block", nullable big_int)
        ∷ [])
      ("chain_id" ∷ "address" ∷ [])
    ∷ add_column "clear_iou_tokens" "treasury_fees" (defaulted numeric "0")
    ∷ create_table "clear_iou_balances"
        (("chain_id", required big_int)
          ∷ ("token", required text_column)
          ∷ ("holder", required text_column)
          ∷ ("balance", defaulted numeric "0")
          ∷ ("last_block", nullable big_int)
          ∷ [])
        ("chain_id" ∷ "token" ∷ "holder" ∷ [])
    ∷ create_index "clear_iou_balances_holder" "clear_iou_balances" ("chain_id" ∷ "holder" ∷ [])
    ∷ []

unfoldable pub price_tables : List Ddl
price_tables =
    create_table "clear_oracle_prices"
      (("chain_id", required big_int)
        ∷ ("asset", required text_column)
        ∷ ("oracle", nullable text_column)
        ∷ ("enabled", nullable boolean)
        ∷ ("asset_decimals", nullable int)
        ∷ ("oracle_decimals", nullable int)
        ∷ ("price_ttl", nullable numeric)
        ∷ ("price", nullable numeric)
        ∷ ("redemption_price", nullable numeric)
        ∷ ("publish_time", nullable big_int)
        ∷ ("last_refresh", nullable big_int)
        ∷ ("last_block", nullable big_int)
        ∷ [])
      ("chain_id" ∷ "asset" ∷ [])
    ∷ add_column "clear_oracle_prices" "publish_time" (nullable big_int)
    ∷ add_column "clear_oracle_prices" "max_confidence_bps" (nullable numeric)
    ∷ create_table "clear_oracle_price_history"
        (("id", required text_column)
          ∷ ("chain_id", required big_int)
          ∷ ("asset", required text_column)
          ∷ ("block_number", required big_int)
          ∷ ("block_timestamp", nullable big_int)
          ∷ ("price", nullable numeric)
          ∷ [])
        ("id" ∷ [])
    ∷ create_index "clear_oracle_price_history_asset" "clear_oracle_price_history"
        ("chain_id" ∷ "asset" ∷ "block_number" ∷ [])
    ∷ create_index "clear_oracle_price_history_block" "clear_oracle_price_history"
        ("chain_id" ∷ "block_number" ∷ [])
    ∷ []

unfoldable pub value_tables : List Ddl
value_tables =
    create_table "clear_reserve_value_history"
      (("chain_id", required big_int)
        ∷ ("reserve", required text_column)
        ∷ ("day", required date)
        ∷ ("block_number", nullable big_int)
        ∷ ("block_timestamp", nullable big_int)
        ∷ ("total_assets", nullable numeric)
        ∷ ("total_supply", nullable numeric)
        ∷ [])
      ("chain_id" ∷ "reserve" ∷ "day" ∷ [])
    ∷ add_column "clear_reserve_value_history" "iou_debt" (nullable numeric)
    ∷ add_column "clear_reserve_value_history" "nav" (nullable numeric)
    ∷ create_table "clear_reserve_asset_history"
        (("chain_id", required big_int)
          ∷ ("reserve", required text_column)
          ∷ ("asset", required text_column)
          ∷ ("day", required date)
          ∷ ("block_number", nullable big_int)
          ∷ ("block_timestamp", nullable big_int)
          ∷ ("decimals", nullable int)
          ∷ ("balance", nullable numeric)
          ∷ ("iou_supply", nullable numeric)
          ∷ ("value", nullable numeric)
          ∷ ("iou_value", nullable numeric)
          ∷ [])
        ("chain_id" ∷ "reserve" ∷ "asset" ∷ "day" ∷ [])
    ∷ create_index "clear_reserve_asset_history_asset_day" "clear_reserve_asset_history"
        ("chain_id" ∷ "asset" ∷ "day" ∷ [])
    ∷ []
