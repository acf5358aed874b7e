-- ===== src/Schema/Statements.antt =====
-- The columns that the statements of main.go, registry.go, db.go and handlers.go write, against the
-- script of schema.go.
use clear_evmi_plugin.Prelude.{
  some, ◌≡◌, ◌≢◌, String, Bool, true, false, List, [], ◌∷◌, ◌∙◌, refl, arith, string_equality,
  pair_equality, Bool-cases, inl, inr, if◌then◌else◌,
}
use clear_evmi_plugin.Table.{find}
use clear_evmi_plugin.Schema.{Read, Catalog, run, member}
use clear_evmi_plugin.Schema.Versions.{introduced}
use clear_evmi_plugin.Schema.Script.{schema}
use clear_evmi_plugin.Schema.Places.{Place, no_column, there, place, place_after, places, place-run}
use clear_evmi_plugin.Schema.Sound.{is_there}
use clear_evmi_plugin.Schema.Columns.{
  pairs_with, pairs_read, every, every-member, always, stays, stays-place, at_place, is_there-eq,
}

-- By table, the columns of the INSERT and UPDATE statements.
unfoldable pub written : List Read
written =
    ("clear_processed_events", "id" ∷ "chain_id" ∷ [])
    ∷ ("clear_contracts", "chain_id" ∷ "address" ∷ "kind" ∷ "source" ∷ "first_block" ∷ [])
    ∷ (
      "clear_reserves",
      "chain_id" ∷ "address" ∷ "kind" ∷ "first_block" ∷ "last_block" ∷ "swap_count" ∷ "name"
          ∷ "symbol" ∷ "implementation" ∷ "reserve_index" ∷ "tokens" ∷ "factory" ∷ "lp_supply"
          ∷ "total_deposits" ∷ "total_withdrawals" ∷ "iou_minted" ∷ "iou_redeemed" ∷ [],
    )
    ∷ (
      "clear_curve_pools",
      "chain_id" ∷ "address" ∷ "first_block" ∷ "last_block" ∷ "swap_count" ∷ "reserve" ∷ "base_pool"
          ∷ "coin" ∷ "is_base_pool" ∷ "deployer" ∷ "curve_factory" ∷ "is_meta" ∷ "amplification"
          ∷ "fee" ∷ "name" ∷ "symbol" ∷ "decimals" ∷ "implementation" ∷ "coins" ∷ "n_coins"
          ∷ "lp_supply" ∷ [],
    )
    ∷ (
      "clear_iou_tokens",
      "chain_id" ∷ "address" ∷ "last_block" ∷ "treasury_fees" ∷ "total_supply" ∷ [],
    )
    ∷ ("clear_tokens", "chain_id" ∷ "address" ∷ "first_block" ∷ "name" ∷ "symbol" ∷ "decimals" ∷ [])
    ∷ (
      "clear_reserve_value_history",
      "chain_id" ∷ "reserve" ∷ "day" ∷ "block_number" ∷ "block_timestamp" ∷ "total_assets"
          ∷ "iou_debt" ∷ "nav" ∷ "total_supply" ∷ [],
    )
    ∷ (
      "clear_reserve_asset_history",
      "chain_id" ∷ "reserve" ∷ "asset" ∷ "day" ∷ "block_number" ∷ "block_timestamp" ∷ "decimals"
          ∷ "balance" ∷ "iou_supply" ∷ "value" ∷ "iou_value" ∷ [],
    )
    ∷ (
      "clear_reserve_activity",
      "id" ∷ "chain_id" ∷ "reserve" ∷ "block_number" ∷ "log_index" ∷ "tx_hash" ∷ "action" ∷ "caller"
          ∷ "receiver" ∷ "asset" ∷ "amount" ∷ "amount2" ∷ "fee" ∷ "lp" ∷ [],
    )
    ∷ (
      "clear_reserve_swaps",
      "id" ∷ "chain_id" ∷ "reserve" ∷ "block_number" ∷ "log_index" ∷ "tx_hash" ∷ "trader"
          ∷ "token_in" ∷ "token_out" ∷ "recipient" ∷ "amount_in" ∷ "amount_out" ∷ "iou_total"
          ∷ "trader_iou" ∷ "treasury_iou" ∷ "lp_iou" ∷ [],
    )
    ∷ (
      "clear_reserve_assets",
      "chain_id" ∷ "reserve" ∷ "asset" ∷ "decimals" ∷ "iou" ∷ "position" ∷ "weight" ∷ "iou_supply"
          ∷ [],
    )
    ∷ (
      "clear_curve_swaps",
      "id" ∷ "chain_id" ∷ "pool" ∷ "block_number" ∷ "log_index" ∷ "tx_hash" ∷ "buyer" ∷ "sold_id"
          ∷ "tokens_sold" ∷ "bought_id" ∷ "tokens_bought" ∷ "underlying" ∷ [],
    )
    ∷ (
      "clear_curve_liquidity",
      "id" ∷ "chain_id" ∷ "pool" ∷ "block_number" ∷ "log_index" ∷ "tx_hash" ∷ "provider" ∷ "kind"
          ∷ "token_amounts" ∷ "fees" ∷ "token_id" ∷ "token_amount" ∷ "coin_amount" ∷ "invariant"
          ∷ "token_supply" ∷ [],
    )
    ∷ (
      "clear_oracle_prices",
      "chain_id" ∷ "asset" ∷ "oracle" ∷ "enabled" ∷ "asset_decimals" ∷ "oracle_decimals"
          ∷ "price_ttl" ∷ "redemption_price" ∷ "last_refresh" ∷ "last_block" ∷ "price"
          ∷ "max_confidence_bps" ∷ "publish_time" ∷ [],
    )
    ∷ (
      "clear_oracle_price_history",
      "id" ∷ "chain_id" ∷ "asset" ∷ "block_number" ∷ "block_timestamp" ∷ "price" ∷ [],
    )
    ∷ (
      "clear_protocol_config",
      "chain_id" ∷ "factory" ∷ "treasury" ∷ "base_reserve_implementation" ∷ "base_reserve_version"
          ∷ "meta_reserve_implementation" ∷ "meta_reserve_version" ∷ "iou_implementation"
          ∷ "iou_version" ∷ "curve_pool_deployer" ∷ "last_block" ∷ [],
    )
    ∷ ("clear_curve_pool_coins", "chain_id" ∷ "pool" ∷ "position" ∷ "coin" ∷ "decimals" ∷ [])
    ∷ (
      "clear_reserve_token_balances",
      "chain_id" ∷ "reserve" ∷ "asset" ∷ "balance" ∷ "last_block" ∷ [],
    )
    ∷ (
      "clear_reserve_lp_balances",
      "chain_id" ∷ "reserve" ∷ "holder" ∷ "balance" ∷ "last_block" ∷ [],
    )
    ∷ ("clear_iou_balances", "chain_id" ∷ "token" ∷ "holder" ∷ "balance" ∷ "last_block" ∷ [])
    ∷ ("clear_curve_lp_balances", "chain_id" ∷ "pool" ∷ "holder" ∷ "balance" ∷ "last_block" ∷ [])
    ∷ (
      "clear_reserve_settings",
      "chain_id" ∷ "reserve" ∷ "kind" ∷ "flash_fee_bps" ∷ "base_quote_fee_bps"
          ∷ "single_asset_fee_bps" ∷ "redemption_proximity_bps" ∷ "rebalance_trigger_bps"
          ∷ "rebalance_deviation_bps" ∷ "iou_trader_bps" ∷ "iou_treasury_bps"
          ∷ "base_quote_trader_bps" ∷ "base_quote_treasury_bps" ∷ "swap_spread_min_bps"
          ∷ "swap_spread_max_bps" ∷ "last_block" ∷ [],
    )
    ∷ (
      "clear_curve_deployer_config",
      "chain_id" ∷ "deployer" ∷ "curve_factory" ∷ "amplification" ∷ "fee" ∷ "offpeg_fee_multiplier"
          ∷ "ma_exp_time" ∷ "implementation_idx" ∷ "last_block" ∷ [],
    )
    ∷ []

-- A column that may be missing is there after the script wherever it was, and every other one unless
-- the table is there without it.
abbrev is_served : String → String → Bool
is_served t x =
    if member (t, x) (pairs_read introduced) then always is_there schema t x else stays t x

written-served : every is_served (pairs_read written) ≡ true
unfolding every written introduced pairs_read pairs_with schema places place_after find member
written-served = refl

served-place :
    (t x : String) (p : Place)
    → is_served t x ≡ true
    → (member (t, x) (pairs_read introduced) ≡ false → p ≢ no_column)
    → places schema t x p ≡ there
served-place t x p h n = elim (Bool-cases (member (t, x) (pairs_read introduced))) [
  | inl new ↦ is_there-eq _ (at_place is_there schema t x p (ground (arith, new)))
  | inr old ↦ stays-place t x p (ground (arith, old)) (n old)
]

-- Where the tables that are there lack of the columns which the exporter writes only such as an earlier
-- version did not have, and the script of schema.go runs, all the columns that the exporter writes are
-- there afterwards, in every table.
pub schema-serves_writes :
    (c c' : Catalog)
    → run schema c ≡ some c'
    → ((t x : String)
        → member (t, x) (pairs_read written) ≡ true
        → member (t, x) (pairs_read introduced) ≡ false
        → place t x c ≢ no_column)
    → (t x : String) → member (t, x) (pairs_read written) ≡ true
    → place t x c' ≡ there
schema-serves_writes c c' done early t x m =
    place-run schema t x c c' done
    ∙ served-place t x (place t x c)
        (every-member is_served (pairs_read written) t x written-served m) (early t x m)
