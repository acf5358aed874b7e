-- ===== src/Dispatch.antt =====
-- dispatch.go: a log goes to the handler of its event, by the kind of its contract. An event that no
-- handler names is ignored.
pub mod Prices
pub mod Keeps
pub mod Kept
pub mod Progress
pub mod Redelivery
pub mod Effects
pub mod Run
use clear_evmi_plugin.Prelude.{
  String, Bool, List, [], ◌∷◌, Option, ◌==◌, string_equality, if◌then◌else◌,
}
use clear_evmi_plugin.Text.{Text, text}
use clear_evmi_plugin.Address.{norm_addr}
use clear_evmi_plugin.Kind.{
  ContractKind, base_reserve_kind, meta_reserve_kind, iou_kind, curve_kind, oracle_kind,
  factory_kind, curve_deployer_kind, curve_factory_kind,
}
use clear_evmi_plugin.Args.{arg, num}
use clear_evmi_plugin.Postgres.{Postgres}
use clear_evmi_plugin.Event.{LogEvent}
use clear_evmi_plugin.Rpc.{Rpc}
use clear_evmi_plugin.Transfer.{handle_transfer}
use clear_evmi_plugin.Reserve.Events.{
  handle_reserve_deposit, handle_reserve_withdraw, handle_single_asset_deposit,
  handle_single_asset_withdraw, handle_rebalanced, handle_reserve_swap, handle_iou_minted,
  handle_iou_redeemed, handle_flash_loan, handle_donation_recognized,
}
use clear_evmi_plugin.Reserve.Assets.{dispatch_asset_added}
use clear_evmi_plugin.Patch.{
  handle_reserve_settings, handle_factory_config, handle_factory_implementation,
  handle_curve_deployer_config,
}
use clear_evmi_plugin.Iou.{handle_iou_treasury_fee}
use clear_evmi_plugin.Curve.{handle_curve_swap, handle_curve_liquidity, handle_pool_deployed}
use clear_evmi_plugin.Curve.Host.{PoolIndexing}
use clear_evmi_plugin.Curve.Deployed.{handle_curve_pool_deployed}
use clear_evmi_plugin.Oracle.{
  handle_oracle_configured, handle_oracle_rate, handle_oracle_redemption, handle_oracle_invalidated,
  handle_oracle_publish, handle_oracle_max_confidence,
}
use clear_evmi_plugin.Factory.{handle_new_clear_reserve}
use clear_evmi_plugin.Exec.{Exec, pure}

-- The handlers of a dispatcher's `switch`, by the names of their events.
abbrev pub Cases : Type 0
Cases = List (String × Exec (Unit {0}))

unfoldable pub select_case : String → Cases → Exec (Unit {0})
select_case name [] = pure tt
select_case name ((event, handler) ∷ cases) =
    let rest = select_case name cases in if name == event then handler else rest

-- What the exporter is set up with.
pub record Setup : Type 0 where
  pub pg : Postgres
  pub rpc : Option Rpc
  pub indexing : PoolIndexing

module _ (setup : Setup) (log : LogEvent) where
  -- The setters of a reserve, with the columns that they fold into its settings.
  unfoldable pub settings_cases : ContractKind → Cases
  settings_cases k =
      let set = handle_reserve_settings setup.pg log k in
      ("FlashFeeUpdated", set (text "flash_fee_bps" ∷ num log.args "flashFeeBps" ∷ []))
      ∷ (
        "BaseQuoteFeeBpsUpdated",
        set (text "base_quote_fee_bps" ∷ num log.args "baseQuoteFeeBps" ∷ []),
      )
      ∷ (
        "SingleAssetFeeBpsUpdated",
        set (text "single_asset_fee_bps" ∷ num log.args "singleAssetFeeBps" ∷ []),
      )
      ∷ (
        "RedemptionProximityBpsUpdated",
        set (text "redemption_proximity_bps" ∷ num log.args "redemptionProximityBps" ∷ []),
      )
      ∷ (
        "RebalanceTriggerBpsUpdated",
        set (text "rebalance_trigger_bps" ∷ num log.args "triggerBps" ∷ []),
      )
      ∷ (
        "RebalanceDeviationBpsUpdated",
        set (text "rebalance_deviation_bps" ∷ num log.args "deviationBps" ∷ []),
      )
      ∷ (
        "IouDistributionUpdated",
        set (
            text "iou_trader_bps"
            ∷ num log.args "traderBps"
            ∷ text "iou_treasury_bps"
            ∷ num log.args "treasuryBps"
            ∷ []),
      )
      ∷ (
        "BaseQuoteDistributionUpdated",
        set (
            text "base_quote_trader_bps"
            ∷ num log.args "traderBps"
            ∷ text "base_quote_treasury_bps"
            ∷ num log.args "treasuryBps"
            ∷ []),
      )
      ∷ (
        "SwapSpreadBpsUpdated",
        set (
            text "swap_spread_min_bps"
            ∷ num log.args "minBps"
            ∷ text "swap_spread_max_bps"
            ∷ num log.args "maxBps"
            ∷ []),
      )
      ∷ []

  unfoldable pub reserve_cases : ContractKind → Cases
  unfolding settings_cases
  reserve_cases k =
      ("Transfer", handle_transfer setup.pg log k)
      ∷ ("Deposit", handle_reserve_deposit setup.pg log k)
      ∷ ("Withdraw", handle_reserve_withdraw setup.pg log k)
      ∷ ("SingleAssetDeposit", handle_single_asset_deposit setup.pg log k)
      ∷ ("SingleAssetWithdraw", handle_single_asset_withdraw setup.pg log k)
      ∷ ("Rebalanced", handle_rebalanced setup.pg log k)
      ∷ ("Swap", handle_reserve_swap setup.pg log k)
      ∷ ("IOUMinted", handle_iou_minted setup.pg log k)
      ∷ ("IOURedeemed", handle_iou_redeemed setup.pg log k)
      ∷ ("AssetAdded", dispatch_asset_added setup.pg setup.rpc log k)
      ∷ ("FlashLoan", handle_flash_loan setup.pg log k)
      ∷ ("DonationRecognized", handle_donation_recognized setup.pg log k)
      ∷ settings_cases k

  unfoldable pub iou_cases : Cases
  iou_cases =
      ("Transfer", handle_transfer setup.pg log iou_kind)
      ∷ ("ClearIOUMinted", handle_iou_treasury_fee setup.pg log)
      ∷ []

  unfoldable pub curve_cases : Cases
  curve_cases =
      ("Transfer", handle_transfer setup.pg log curve_kind)
      ∷ ("TokenExchange", handle_curve_swap setup.pg log Bool.false)
      ∷ ("TokenExchangeUnderlying", handle_curve_swap setup.pg log Bool.true)
      ∷ ("AddLiquidity", handle_curve_liquidity setup.pg log (text "add"))
      ∷ ("RemoveLiquidity", handle_curve_liquidity setup.pg log (text "remove"))
      ∷ ("RemoveLiquidityOne", handle_curve_liquidity setup.pg log (text "remove_one"))
      ∷ ("RemoveLiquidityImbalance", handle_curve_liquidity setup.pg log (text "remove_imbalance"))
      ∷ []

  unfoldable pub oracle_cases : Cases
  oracle_cases =
      ("OracleConfigured", handle_oracle_configured setup.pg log)
      ∷ ("ClearOracleRateChanged", handle_oracle_rate setup.pg log)
      ∷ ("ClearOracleRedemptionPriceChanged", handle_oracle_redemption setup.pg log)
      ∷ ("ClearOraclePriceInvalidated", handle_oracle_invalidated setup.pg log)
      ∷ ("PriceUpdated", handle_oracle_publish setup.pg log)
      ∷ ("AssetMaxConfidenceBpsUpdated", handle_oracle_max_confidence setup.pg log)
      ∷ []

  unfoldable pub factory_cases : Cases
  factory_cases =
      ("NewClearReserve", handle_new_clear_reserve setup.pg setup.rpc log)
      ∷ (
        "NewTreasury",
        handle_factory_config setup.pg log (text "treasury")
            (norm_addr (arg log.args "newTreasury")),
      )
      ∷ (
        "NewBaseReserveImplementation",
        handle_factory_implementation setup.pg log (text "base_reserve_implementation")
            (text "base_reserve_version"),
      )
      ∷ (
        "NewMetaReserveImplementation",
        handle_factory_implementation setup.pg log (text "meta_reserve_implementation")
            (text "meta_reserve_version"),
      )
      ∷ (
        "NewIOUImplementation",
        handle_factory_implementation setup.pg log (text "iou_implementation") (text "iou_version"),
      )
      ∷ (
        "CurvePoolDeployerUpdated",
        handle_factory_config setup.pg log (text "curve_pool_deployer")
            (norm_addr (arg log.args "deployer")),
      )
      ∷ []

  unfoldable pub curve_deployer_cases : Cases
  curve_deployer_cases =
      ("PoolDeployed", handle_pool_deployed setup.rpc log)
      ∷ (
        "FactoryUpdated",
        handle_curve_deployer_config setup.pg log
            (text "curve_factory" ∷ norm_addr (arg log.args "factory") ∷ []),
      )
      ∷ (
        "PoolParamsUpdated",
        handle_curve_deployer_config setup.pg log (
            text "amplification"
            ∷ num log.args "amplification"
            ∷ text "fee"
            ∷ num log.args "fee"
            ∷ text "offpeg_fee_multiplier"
            ∷ num log.args "offpegFeeMultiplier"
            ∷ text "ma_exp_time"
            ∷ num log.args "maExpTime"
            ∷ text "implementation_idx"
            ∷ num log.args "implementationIdx"
            ∷ []),
      )
      ∷ []

  unfoldable pub curve_factory_cases : Cases
  curve_factory_cases =
      (
        "PlainPoolDeployed",
        handle_curve_pool_deployed setup.pg setup.indexing log Bool.false setup.rpc,
      )
      ∷ (
        "MetaPoolDeployed",
        handle_curve_pool_deployed setup.pg setup.indexing log Bool.true setup.rpc,
      )
      ∷ []

  unfoldable pub cases_of : ContractKind → Cases
  cases_of base_reserve_kind = reserve_cases base_reserve_kind
  cases_of meta_reserve_kind = reserve_cases meta_reserve_kind
  cases_of iou_kind = iou_cases
  cases_of curve_kind = curve_cases
  cases_of oracle_kind = oracle_cases
  cases_of factory_kind = factory_cases
  cases_of curve_deployer_kind = curve_deployer_cases
  cases_of curve_factory_kind = curve_factory_cases
  cases_of k = []

unfoldable pub dispatch : Setup → LogEvent → ContractKind → Exec (Unit {0})
unfolding select_case cases_of
dispatch setup log k = select_case log.event_name (cases_of setup log k)
