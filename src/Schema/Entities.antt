-- ===== src/Schema/Entities.antt =====
-- The tables of schema.go for what is tracked: processed events, contracts, tokens, reserves.
use clear_evmi_plugin.Prelude.{List, [], ◌∷◌}
use clear_evmi_plugin.Schema.{
  Ddl, create_table, create_index, add_column, nullable, required, defaulted, text_column, big_int,
  small_int, numeric, jsonb,
}

unfoldable pub tracked_tables : List Ddl
tracked_tables =
    create_table "clear_processed_events"
      (("id", required text_column) ∷ ("chain_id", required big_int) ∷ []) ("id" ∷ [])
    ∷ create_table "clear_contracts"
        (("chain_id", required big_int)
          ∷ ("address", required text_column)
          ∷ ("kind", required text_column)
          ∷ ("source", defaulted text_column "config")
          ∷ ("first_block", nullable big_int)
          ∷ [])
        ("chain_id" ∷ "address" ∷ [])
    ∷ create_index "clear_contracts_kind" "clear_contracts" ("chain_id" ∷ "kind" ∷ [])
    ∷ create_table "clear_tokens"
        (("chain_id", required big_int)
          ∷ ("address", required text_column)
          ∷ ("name", nullable text_column)
          ∷ ("symbol", nullable text_column)
          ∷ ("decimals", nullable small_int)
          ∷ ("first_block", nullable big_int)
          ∷ [])
        ("chain_id" ∷ "address" ∷ [])
    ∷ create_index "clear_tokens_symbol" "clear_tokens" ("chain_id" ∷ "symbol" ∷ [])
    ∷ []

-- With the columns that reserves indexed before NewClearReserve lack.
unfoldable pub reserve_tables : List Ddl
reserve_tables =
    create_table "clear_reserves"
      (("chain_id", required big_int)
        ∷ ("address", required text_column)
        ∷ ("kind", required text_column)
        ∷ ("lp_supply", defaulted numeric "0")
        ∷ ("total_deposits", defaulted numeric "0")
        ∷ ("total_withdrawals", defaulted numeric "0")
        ∷ ("iou_minted", defaulted numeric "0")
        ∷ ("iou_redeemed", defaulted numeric "0")
        ∷ ("swap_count", defaulted big_int "0")
        ∷ ("name", nullable text_column)
        ∷ ("symbol", nullable text_column)
        ∷ ("implementation", nullable text_column)
        ∷ ("reserve_index", nullable big_int)
        ∷ ("tokens", nullable jsonb)
        ∷ ("factory", nullable text_column)
        ∷ ("first_block", nullable big_int)
        ∷ ("last_block", nullable big_int)
        ∷ [])
      ("chain_id" ∷ "address" ∷ [])
    ∷ add_column "clear_reserves" "name" (nullable text_column)
    ∷ add_column "clear_reserves" "symbol" (nullable text_column)
    ∷ add_column "clear_reserves" "implementation" (nullable text_column)
    ∷ add_column "clear_reserves" "reserve_index" (nullable big_int)
    ∷ add_column "clear_reserves" "tokens" (nullable jsonb)
    ∷ add_column "clear_reserves" "factory" (nullable text_column)
    ∷ []
