-- ===== src/Db/Rows.antt =====
-- The rows of the tables of schema.go, without their primary keys.
use clear_evmi_plugin.Prelude.{ℕ, Bool, List, Option}
use clear_evmi_plugin.Prelude.Int.{ℤ}
use clear_evmi_plugin.Text.{Text}
use clear_evmi_plugin.Table.{Table}
use clear_evmi_plugin.Postgres.{Decimal}

-- `clear_contracts.source`
pub data Source : Type 0 where
  config dynamic : Source

pub record ContractRow : Type 0 where
  pub kind : Text
  pub source : Source
  pub first_block : Option ℕ

pub record TokenRow : Type 0 where
  pub name : Option Text
  pub symbol : Option Text
  pub decimals : Option ℤ
  pub first_block : Option ℕ

pub record ReserveRow : Type 0 where
  pub kind : Text
  pub lp_supply : ℤ
  pub total_deposits : ℤ
  pub total_withdrawals : ℤ
  pub iou_minted : ℤ
  pub iou_redeemed : ℤ
  pub swap_count : ℕ
  pub name : Option Text
  pub symbol : Option Text
  pub implementation : Option Text
  pub reserve_index : Option ℤ
  pub tokens : Option (List Text)
  pub factory : Option Text
  pub first_block : ℕ
  pub last_block : ℕ

pub record AssetRow : Type 0 where
  pub decimals : Option ℤ
  pub iou : Option Text
  pub position : Option ℕ
  pub iou_supply : ℤ
  pub weight : Option ℤ

-- Every table of balances: per reserve and asset, or per token and holder.
pub record BalanceRow : Type 0 where
  pub balance : ℤ
  pub last_block : ℕ

pub record SwapRow : Type 0 where
  pub chain_id : ℕ
  pub reserve : Text
  pub block_number : ℕ
  pub log_index : ℕ
  pub tx_hash : Text
  pub trader : Text
  pub token_in : Text
  pub token_out : Text
  pub recipient : Text
  pub amount_in : ℤ
  pub amount_out : ℤ
  pub iou_total : ℤ
  pub trader_iou : ℤ
  pub treasury_iou : ℤ
  pub lp_iou : ℤ

pub record ActivityRow : Type 0 where
  pub chain_id : ℕ
  pub reserve : Text
  pub block_number : ℕ
  pub log_index : ℕ
  pub tx_hash : Text
  pub action : Text
  pub caller : Option Text
  pub receiver : Option Text
  pub asset : Option Text
  pub amount : ℤ
  pub amount2 : ℤ
  pub fee : ℤ
  pub lp : ℤ

pub record ValueRow : Type 0 where
  pub block_number : ℕ
  pub block_timestamp : ℕ
  pub total_assets : Decimal
  pub iou_debt : Decimal
  pub nav : Decimal
  pub total_supply : ℤ

pub record AssetValueRow : Type 0 where
  pub block_number : ℕ
  pub block_timestamp : ℕ
  pub decimals : Option ℤ
  pub balance : ℤ
  pub iou_supply : ℤ
  pub value : Decimal
  pub iou_value : Decimal

pub record IouRow : Type 0 where
  pub total_supply : ℤ
  pub treasury_fees : ℤ
  pub last_block : ℕ

pub record OracleRow : Type 0 where
  pub oracle : Option Text
  pub enabled : Option Bool
  pub asset_decimals : Option ℤ
  pub oracle_decimals : Option ℤ
  pub price_ttl : Option ℤ
  pub price : Option ℤ
  pub redemption_price : Option ℤ
  pub publish_time : Option ℤ
  pub last_refresh : Option ℕ
  pub last_block : ℕ
  pub max_confidence_bps : Option ℤ

pub record PriceRow : Type 0 where
  pub chain_id : ℕ
  pub asset : Text
  pub block_number : ℕ
  pub block_timestamp : ℕ
  pub price : ℤ

pub record PoolRow : Type 0 where
  pub lp_supply : ℤ
  pub swap_count : ℕ
  pub reserve : Option Text
  pub base_pool : Option Text
  pub coin : Option Text
  pub is_base_pool : Option Bool
  pub deployer : Option Text
  pub curve_factory : Option Text
  pub name : Option Text
  pub symbol : Option Text
  pub decimals : Option ℤ
  pub amplification : Option ℤ
  pub fee : Option ℤ
  pub implementation : Option Text
  pub is_meta : Option Bool
  pub coins : Option (List Text)
  pub n_coins : Option ℕ
  pub first_block : ℕ
  pub last_block : ℕ

pub record CoinRow : Type 0 where
  pub coin : Text
  pub decimals : Option ℤ

pub record CurveSwapRow : Type 0 where
  pub chain_id : ℕ
  pub pool : Text
  pub block_number : ℕ
  pub log_index : ℕ
  pub tx_hash : Text
  pub buyer : Text
  pub sold_id : ℤ
  pub tokens_sold : ℤ
  pub bought_id : ℤ
  pub tokens_bought : ℤ
  pub underlying : Bool

pub record LiquidityRow : Type 0 where
  pub chain_id : ℕ
  pub pool : Text
  pub block_number : ℕ
  pub log_index : ℕ
  pub tx_hash : Text
  pub provider : Text
  pub kind : Text
  pub token_amounts : Option (List Text)
  pub fees : Option (List Text)
  pub token_id : Option ℤ
  pub token_amount : Option ℤ
  pub coin_amount : Option ℤ
  pub invariant : Option ℤ
  pub token_supply : Option ℤ

-- A column of a table that folds setters.
pub data Cell : Type 0 where
  null : Cell
  words : Text → Cell
  number : ℤ → Cell

-- A row of `clear_reserve_settings`, `clear_protocol_config` or `clear_curve_deployer_config`: the
-- columns that some event has set, by name. Only the first of these tables has a kind.
pub record PatchRow : Type 0 where
  pub kind : Text
  pub cells : Table Text Cell
  pub last_block : ℕ
