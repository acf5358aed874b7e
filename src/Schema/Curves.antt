-- ===== src/Schema/Curves.antt =====
-- The tables of schema.go for Curve pools.
use clear_evmi_plugin.Prelude.{List, [], ◌∷◌}
use clear_evmi_plugin.Schema.{
  Ddl, create_table, create_index, add_column, nullable, required, defaulted, text_column, big_int,
  small_int, int, numeric, jsonb, boolean,
}

unfoldable pub pool_tables : List Ddl
pool_tables =
    create_table "clear_curve_pools"
      (("chain_id", required big_int)
        ∷ ("address", required text_column)
        ∷ ("lp_supply", defaulted numeric "0")
        ∷ ("swap_count", defaulted big_int "0")
        ∷ ("reserve", nullable text_column)
        ∷ ("base_pool", nullable text_column)
        ∷ ("coin", nullable text_column)
        ∷ ("is_base_pool", nullable boolean)
        ∷ ("deployer", nullable text_column)
        ∷ ("first_block", nullable big_int)
        ∷ ("last_block", nullable big_int)
        ∷ [])
      ("chain_id" ∷ "address" ∷ [])
    ∷ add_column "clear_curve_pools" "reserve" (nullable text_column)
    ∷ add_column "clear_curve_pools" "base_pool" (nullable text_column)
    ∷ add_column "clear_curve_pools" "coin" (nullable text_column)
    ∷ add_column "clear_curve_pools" "is_base_pool" (nullable boolean)
    ∷ add_column "clear_curve_pools" "deployer" (nullable text_column)
    ∷ add_column "clear_curve_pools" "curve_factory" (nullable text_column)
    ∷ add_column "clear_curve_pools" "name" (nullable text_column)
    ∷ add_column "clear_curve_pools" "symbol" (nullable text_column)
    ∷ add_column "clear_curve_pools" "decimals" (nullable small_int)
    ∷ add_column "clear_curve_pools" "amplification" (nullable numeric)
    ∷ add_column "clear_curve_pools" "fee" (nullable numeric)
    ∷ add_column "clear_curve_pools" "implementation" (nullable text_column)
    ∷ add_column "clear_curve_pools" "is_meta" (nullable boolean)
    ∷ add_column "clear_curve_pools" "coins" (nullable jsonb)
    ∷ add_column "clear_curve_pools" "n_coins" (nullable small_int)
    ∷ create_index "clear_curve_pools_reserve" "clear_curve_pools" ("chain_id" ∷ "reserve" ∷ [])
    ∷ create_table "clear_curve_pool_coins"
        (("chain_id", required big_int)
          ∷ ("pool", required text_column)
          ∷ ("position", required int)
          ∷ ("coin", required text_column)
          ∷ ("decimals", nullable small_int)
          ∷ [])
        ("chain_id" ∷ "pool" ∷ "position" ∷ [])
    ∷ create_index "clear_curve_pool_coins_coin" "clear_curve_pool_coins" ("chain_id" ∷ "coin" ∷ [])
    ∷ create_table "clear_curve_lp_balances"
        (("chain_id", required big_int)
          ∷ ("pool", required text_column)
          ∷ ("holder", required text_column)
          ∷ ("balance", defaulted numeric "0")
          ∷ ("last_block", nullable big_int)
          ∷ [])
        ("chain_id" ∷ "pool" ∷ "holder" ∷ [])
    ∷ create_index "clear_curve_lp_balances_holder" "clear_curve_lp_balances"
        ("chain_id" ∷ "holder" ∷ [])
    ∷ []

unfoldable pub trade_tables : List Ddl
trade_tables =
    create_table "clear_curve_swaps"
      (("id", required text_column)
        ∷ ("chain_id", required big_int)
        ∷ ("pool", required text_column)
        ∷ ("block_number", required big_int)
        ∷ ("log_index", required big_int)
        ∷ ("tx_hash", nullable text_column)
        ∷ ("buyer", nullable text_column)
        ∷ ("sold_id", nullable big_int)
        ∷ ("tokens_sold", nullable numeric)
        ∷ ("bought_id", nullable big_int)
        ∷ ("tokens_bought", nullable numeric)
        ∷ ("underlying", defaulted boolean "FALSE")
        ∷ [])
      ("id" ∷ [])
    ∷ create_index "clear_curve_swaps_pool_block" "clear_curve_swaps"
        ("chain_id" ∷ "pool" ∷ "block_number" ∷ [])
    ∷ create_table "clear_curve_liquidity"
        (("id", required text_column)
          ∷ ("chain_id", required big_int)
          ∷ ("pool", required text_column)
          ∷ ("block_number", required big_int)
          ∷ ("log_index", required big_int)
          ∷ ("tx_hash", nullable text_column)
          ∷ ("provider", nullable text_column)
          ∷ ("kind", required text_column)
          ∷ ("token_amounts", nullable jsonb)
          ∷ ("fees", nullable jsonb)
          ∷ ("token_id", nullable big_int)
          ∷ ("token_amount", nullable numeric)
          ∷ ("coin_amount", nullable numeric)
          ∷ ("invariant", nullable numeric)
          ∷ ("token_supply", nullable numeric)
          ∷ [])
        ("id" ∷ [])
    ∷ create_index "clear_curve_liquidity_pool_block" "clear_curve_liquidity"
        ("chain_id" ∷ "pool" ∷ "block_number" ∷ [])
    ∷ []
