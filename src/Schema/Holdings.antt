-- ===== src/Schema/Holdings.antt =====
-- The tables of schema.go for what reserves hold, and for what happened on them.
use clear_evmi_plugin.Prelude.{List, [], ◌∷◌}
use clear_evmi_plugin.Schema.{
  Ddl, create_table, create_index, add_column, nullable, required, defaulted, text_column, big_int,
  int, numeric,
}

unfoldable pub holding_tables : List Ddl
holding_tables =
    create_table "clear_reserve_lp_balances"
      (("chain_id", required big_int)
        ∷ ("reserve", required text_column)
        ∷ ("holder", required text_column)
        ∷ ("balance", defaulted numeric "0")
        ∷ ("last_block", nullable big_int)
        ∷ [])
      ("chain_id" ∷ "reserve" ∷ "holder" ∷ [])
    ∷ create_index "clear_reserve_lp_balances_holder" "clear_reserve_lp_balances"
        ("chain_id" ∷ "holder" ∷ [])
    ∷ create_table "clear_reserve_assets"
        (("chain_id", required big_int)
          ∷ ("reserve", required text_column)
          ∷ ("asset", required text_column)
          ∷ ("decimals", nullable int)
          ∷ ("iou", nullable text_column)
          ∷ ("position", nullable int)
          ∷ ("iou_supply", defaulted numeric "0")
          ∷ ("weight", nullable numeric)
          ∷ [])
        ("chain_id" ∷ "reserve" ∷ "asset" ∷ [])
    ∷ add_column "clear_reserve_assets" "position" (nullable int)
    ∷ add_column "clear_reserve_assets" "iou_supply" (defaulted numeric "0")
    ∷ add_column "clear_reserve_assets" "weight" (nullable numeric)
    ∷ create_table "clear_reserve_token_balances"
        (("chain_id", required big_int)
          ∷ ("reserve", required text_column)
          ∷ ("asset", required text_column)
          ∷ ("balance", defaulted numeric "0")
          ∷ ("last_block", nullable big_int)
          ∷ [])
        ("chain_id" ∷ "reserve" ∷ "asset" ∷ [])
    ∷ create_index "clear_reserve_token_balances_asset" "clear_reserve_token_balances"
        ("chain_id" ∷ "asset" ∷ [])
    ∷ []

unfoldable pub activity_tables : List Ddl
activity_tables =
    create_table "clear_reserve_swaps"
      (("id", required text_column)
        ∷ ("chain_id", required big_int)
        ∷ ("reserve", required text_column)
        ∷ ("block_number", required big_int)
        ∷ ("log_index", required big_int)
        ∷ ("tx_hash", nullable text_column)
        ∷ ("trader", nullable text_column)
        ∷ ("token_in", nullable text_column)
        ∷ ("token_out", nullable text_column)
        ∷ ("recipient", nullable text_column)
        ∷ ("amount_in", nullable numeric)
        ∷ ("amount_out", nullable numeric)
        ∷ ("iou_total", nullable numeric)
        ∷ ("trader_iou", nullable numeric)
        ∷ ("treasury_iou", nullable numeric)
        ∷ ("lp_iou", nullable numeric)
        ∷ [])
      ("id" ∷ [])
    ∷ create_index "clear_reserve_swaps_reserve_block" "clear_reserve_swaps"
        ("chain_id" ∷ "reserve" ∷ "block_number" ∷ [])
    ∷ create_table "clear_reserve_activity"
        (("id", required text_column)
          ∷ ("chain_id", required big_int)
          ∷ ("reserve", required text_column)
          ∷ ("block_number", required big_int)
          ∷ ("log_index", required big_int)
          ∷ ("tx_hash", nullable text_column)
          ∷ ("action", required text_column)
          ∷ ("caller", nullable text_column)
          ∷ ("receiver", nullable text_column)
          ∷ ("asset", nullable text_column)
          ∷ ("amount", nullable numeric)
          ∷ ("amount2", nullable numeric)
          ∷ ("fee", nullable numeric)
          ∷ ("lp", nullable numeric)
          ∷ [])
        ("id" ∷ [])
    ∷ create_index "clear_reserve_activity_reserve_block" "clear_reserve_activity"
        ("chain_id" ∷ "reserve" ∷ "block_number" ∷ [])
    ∷ create_index "clear_reserve_activity_action" "clear_reserve_activity"
        ("chain_id" ∷ "action" ∷ [])
    ∷ []
