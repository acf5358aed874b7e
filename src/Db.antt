-- ===== src/Db.antt =====
-- The tables of schema.go, as the handlers read and write them. A column that may be NULL is an
-- `Option`; an amount is an integer; a row stands behind its primary key.
mod Rows
pub use Rows.*
use clear_evmi_plugin.Prelude.{ℕ, String, []}
use clear_evmi_plugin.Text.{Text}
use clear_evmi_plugin.Table.{Table}

pub record Db : Type 0 where
  pub processed_events : Table String ℕ
  pub contracts : Table (ℕ × Text) ContractRow
  pub tokens : Table (ℕ × Text) TokenRow
  pub reserves : Table (ℕ × Text) ReserveRow
  pub reserve_assets : Table (ℕ × Text × Text) AssetRow
  pub reserve_token_balances : Table (ℕ × Text × Text) BalanceRow
  pub reserve_lp_balances : Table (ℕ × Text × Text) BalanceRow
  pub reserve_swaps : Table String SwapRow
  pub reserve_activity : Table String ActivityRow
  pub reserve_value_history : Table (ℕ × Text × ℕ) ValueRow
  pub reserve_asset_history : Table (ℕ × Text × (Text × ℕ)) AssetValueRow
  pub iou_tokens : Table (ℕ × Text) IouRow
  pub iou_balances : Table (ℕ × Text × Text) BalanceRow
  pub oracle_prices : Table (ℕ × Text) OracleRow
  pub oracle_price_history : Table String PriceRow
  pub curve_pools : Table (ℕ × Text) PoolRow
  pub curve_lp_balances : Table (ℕ × Text × Text) BalanceRow
  pub curve_swaps : Table String CurveSwapRow
  pub curve_liquidity : Table String LiquidityRow
  pub curve_pool_coins : Table (ℕ × Text × ℕ) CoinRow
  pub reserve_settings : Table (ℕ × Text) PatchRow
  pub protocol_config : Table (ℕ × Text) PatchRow
  pub curve_deployer_config : Table (ℕ × Text) PatchRow

-- A database on which the schema has just been applied.
abbrev pub empty_db : Db
empty_db = record {
  processed_events = [];
  contracts = [];
  tokens = [];
  reserves = [];
  reserve_assets = [];
  reserve_token_balances = [];
  reserve_lp_balances = [];
  reserve_swaps = [];
  reserve_activity = [];
  reserve_value_history = [];
  reserve_asset_history = [];
  iou_tokens = [];
  iou_balances = [];
  oracle_prices = [];
  oracle_price_history = [];
  curve_pools = [];
  curve_lp_balances = [];
  curve_swaps = [];
  curve_liquidity = [];
  curve_pool_coins = [];
  reserve_settings = [];
  protocol_config = [];
  curve_deployer_config = [];
}
