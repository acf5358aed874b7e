-- ===== src/Schema/Settings.antt =====
-- The tables of schema.go that fold governance events, one row for each emitting contract.
use clear_evmi_plugin.Prelude.{List, [], ◌∷◌}
use clear_evmi_plugin.Schema.{
  Ddl, create_table, add_column, drop_column, nullable, required, text_column, big_int, numeric,
}

-- Two columns are retired.
unfoldable pub reserve_settings_tables : List Ddl
reserve_settings_tables =
    create_table "clear_reserve_settings"
      (("chain_id", required big_int)
        ∷ ("reserve", required text_column)
        ∷ ("kind", required text_column)
        ∷ ("flash_fee_bps", nullable numeric)
        ∷ ("base_quote_fee_bps", nullable numeric)
        ∷ ("single_asset_fee_bps", nullable numeric)
        ∷ ("redemption_proximity_bps", nullable numeric)
        ∷ ("rebalance_trigger_bps", nullable numeric)
        ∷ ("rebalance_deviation_bps", nullable numeric)
        ∷ ("iou_trader_bps", nullable numeric)
        ∷ ("iou_treasury_bps", nullable numeric)
        ∷ ("base_quote_trader_bps", nullable numeric)
        ∷ ("base_quote_treasury_bps", nullable numeric)
        ∷ ("swap_spread_min_bps", nullable numeric)
        ∷ ("swap_spread_max_bps", nullable numeric)
        ∷ ("last_block", nullable big_int)
        ∷ [])
      ("chain_id" ∷ "reserve" ∷ [])
    ∷ add_column "clear_reserve_settings" "rebalance_deviation_bps" (nullable numeric)
    ∷ drop_column "clear_reserve_settings" "config_address"
    ∷ drop_column "clear_reserve_settings" "deposit_weight_tolerance_bps"
    ∷ []

unfoldable pub config_tables : List Ddl
config_tables =
    create_table "clear_protocol_config"
      (("chain_id", required big_int)
        ∷ ("factory", required text_column)
        ∷ ("treasury", nullable text_column)
        ∷ ("base_reserve_implementation", nullable text_column)
        ∷ ("base_reserve_version", nullable numeric)
        ∷ ("meta_reserve_implementation", nullable text_column)
        ∷ ("meta_reserve_version", nullable numeric)
        ∷ ("iou_implementation", nullable text_column)
        ∷ ("iou_version", nullable numeric)
        ∷ ("curve_pool_deployer", nullable text_column)
        ∷ ("last_block", nullable big_int)
        ∷ [])
      ("chain_id" ∷ "factory" ∷ [])
    ∷ add_column "clear_protocol_config" "curve_pool_deployer" (nullable text_column)
    ∷ create_table "clear_curve_deployer_config"
        (("chain_id", required big_int)
          ∷ ("deployer", required text_column)
          ∷ ("curve_factory", nullable text_column)
          ∷ ("amplification", nullable numeric)
          ∷ ("fee", nullable numeric)
          ∷ ("offpeg_fee_multiplier", nullable numeric)
          ∷ ("ma_exp_time", nullable numeric)
          ∷ ("implementation_idx", nullable numeric)
          ∷ ("last_block", nullable big_int)
          ∷ [])
        ("chain_id" ∷ "deployer" ∷ [])
    ∷ []
