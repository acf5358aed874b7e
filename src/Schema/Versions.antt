-- ===== src/Schema/Versions.antt =====
-- What schema.go tells of the databases of earlier versions, apart from its statements: the columns that
-- came later, those that were retired, and those that have always been there and that its indexes and
-- views are over.
use clear_evmi_plugin.Prelude.{List, [], ◌∷◌}
use clear_evmi_plugin.Schema.{Read}

-- The columns that a database of an earlier version may lack.
unfoldable pub introduced : List Read
introduced =
    (
      "clear_reserves",
      "name" ∷ "symbol" ∷ "implementation" ∷ "reserve_index" ∷ "tokens" ∷ "factory" ∷ [],
    )
    ∷ ("clear_reserve_settings", "rebalance_deviation_bps" ∷ [])
    ∷ ("clear_protocol_config", "curve_pool_deployer" ∷ [])
    ∷ ("clear_reserve_assets", "position" ∷ "iou_supply" ∷ "weight" ∷ [])
    ∷ ("clear_iou_tokens", "treasury_fees" ∷ [])
    ∷ ("clear_oracle_prices", "publish_time" ∷ "max_confidence_bps" ∷ [])
    ∷ ("clear_reserve_value_history", "iou_debt" ∷ "nav" ∷ [])
    ∷ (
      "clear_curve_pools",
      "reserve" ∷ "base_pool" ∷ "coin" ∷ "is_base_pool" ∷ "deployer" ∷ "curve_factory" ∷ "name"
          ∷ "symbol" ∷ "decimals" ∷ "amplification" ∷ "fee" ∷ "implementation" ∷ "is_meta" ∷ "coins"
          ∷ "n_coins" ∷ [],
    )
    ∷ []

-- The columns of the settings of reserves that the audited contracts have no more.
unfoldable pub retired : List Read
retired = ("clear_reserve_settings", "config_address" ∷ "deposit_weight_tolerance_bps" ∷ []) ∷ []

-- The columns of the first version that an index or a view is over.
unfoldable pub needed : List Read
needed =
    ("clear_contracts", "chain_id" ∷ "kind" ∷ [])
    ∷ ("clear_tokens", "chain_id" ∷ "symbol" ∷ [])
    ∷ ("clear_reserves", "chain_id" ∷ "address" ∷ "kind" ∷ "lp_supply" ∷ [])
    ∷ ("clear_reserve_assets", "chain_id" ∷ "reserve" ∷ "asset" ∷ "decimals" ∷ [])
    ∷ ("clear_reserve_token_balances", "chain_id" ∷ "reserve" ∷ "asset" ∷ "balance" ∷ [])
    ∷ ("clear_reserve_lp_balances", "chain_id" ∷ "holder" ∷ [])
    ∷ ("clear_reserve_swaps", "chain_id" ∷ "reserve" ∷ "block_number" ∷ [])
    ∷ ("clear_reserve_activity", "chain_id" ∷ "reserve" ∷ "block_number" ∷ "action" ∷ [])
    ∷ ("clear_reserve_asset_history", "chain_id" ∷ "asset" ∷ "day" ∷ [])
    ∷ ("clear_iou_balances", "chain_id" ∷ "holder" ∷ [])
    ∷ ("clear_oracle_prices", "chain_id" ∷ "asset" ∷ "redemption_price" ∷ [])
    ∷ ("clear_oracle_price_history", "chain_id" ∷ "asset" ∷ "block_number" ∷ [])
    ∷ ("clear_curve_pools", "chain_id" ∷ [])
    ∷ ("clear_curve_pool_coins", "chain_id" ∷ "coin" ∷ [])
    ∷ ("clear_curve_lp_balances", "chain_id" ∷ "holder" ∷ [])
    ∷ ("clear_curve_swaps", "chain_id" ∷ "pool" ∷ "block_number" ∷ [])
    ∷ ("clear_curve_liquidity", "chain_id" ∷ "pool" ∷ "block_number" ∷ [])
    ∷ []
