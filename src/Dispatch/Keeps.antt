-- ===== src/Dispatch/Keeps.antt =====
-- What the dispatcher keeps: every handler but Transfer is quiet, and Transfer keeps tokens backed and
-- the ledger of processed events as it is.
use mathlib.Core.Bool.{true≢false}
use clear_evmi_plugin.Prelude.{
  ℕ, String, ◌≡◌, sym, ◌∙◌, true, false, [], ◌∷◌, ◌==◌, string_equality,
}
use clear_evmi_plugin.Kind.{
  ContractKind, unknown_kind, base_reserve_kind, meta_reserve_kind, iou_kind, curve_kind,
  oracle_kind, factory_kind, curve_deployer_kind, curve_factory_kind,
}
use clear_evmi_plugin.Db.{Db}
use clear_evmi_plugin.Event.{LogEvent}
use clear_evmi_plugin.Transfer.{handle_transfer}
use clear_evmi_plugin.Transfer.Backed.{IsBacked}
use clear_evmi_plugin.Transfer.Supply.{handle_transfer-IsBacked}
use clear_evmi_plugin.Exec.{Exec}
use clear_evmi_plugin.Exec.Ensures.{Keeps, Ensures-pure, Ensures-if}
use clear_evmi_plugin.Quiet.{Quietly, SameAmounts, SameAmounts-trans, SameAmounts-IsBacked, IsQuiet}
use clear_evmi_plugin.Quiet.Reserves.{
  handle_reserve_deposit-IsQuiet, handle_reserve_withdraw-IsQuiet,
  handle_single_asset_deposit-IsQuiet, handle_single_asset_withdraw-IsQuiet,
  handle_rebalanced-IsQuiet, handle_flash_loan-IsQuiet, handle_donation_recognized-IsQuiet,
  handle_iou_minted-IsQuiet, handle_iou_redeemed-IsQuiet, handle_reserve_swap-IsQuiet,
}
use clear_evmi_plugin.Quiet.Folds.{
  handle_reserve_settings-IsQuiet, handle_curve_deployer_config-IsQuiet,
  handle_factory_config-IsQuiet, handle_factory_implementation-IsQuiet,
  handle_oracle_configured-IsQuiet, handle_oracle_rate-IsQuiet, handle_oracle_redemption-IsQuiet,
  handle_oracle_invalidated-IsQuiet, handle_oracle_publish-IsQuiet,
  handle_oracle_max_confidence-IsQuiet, handle_iou_treasury_fee-IsQuiet,
}
use clear_evmi_plugin.Quiet.Discovery.{
  dispatch_asset_added-IsQuiet, handle_new_clear_reserve-IsQuiet, handle_curve_swap-IsQuiet,
  handle_curve_liquidity-IsQuiet, handle_pool_deployed-IsQuiet,
}
use clear_evmi_plugin.Table.{Table}
use clear_evmi_plugin.Quiet.Rules.{IsQuiet-Keeps}
use clear_evmi_plugin.Quiet.Transfers.{
  IsProcessed, Quietly-IsProcessed, handle_transfer-IsProcessed,
}
use clear_evmi_plugin.Quiet.Pools.{handle_curve_pool_deployed-IsQuiet}
use clear_evmi_plugin.Dispatch.{
  Cases, select_case, Setup, settings_cases, reserve_cases, iou_cases, curve_cases, oracle_cases,
  factory_cases, curve_deployer_cases, curve_factory_cases, cases_of, dispatch,
}

module _ (P : Db → Type 0) (respects : (d d' : Db) → Quietly d d' → P d → P d') where
  module _ (setup : Setup) (log : LogEvent)
      (transfers : (log.event_name == "Transfer") ≡ true
        → (k : ContractKind) → Keeps P (handle_transfer setup.pg log k)) where
    -- Every handler of a list keeps the condition.
    data Kept : Cases → Type 0 where
      end : Kept []
      quiet :
          (name : String) (m : Exec (Unit {0})) (rest : Cases)
          → IsQuiet m
          → Kept rest
          → Kept ((name, m) ∷ rest)
      transfer :
          (k : ContractKind) (rest : Cases)
          → Kept rest
          → Kept (("Transfer", handle_transfer setup.pg log k) ∷ rest)

    select_case-Keeps : (cases : Cases) → Kept cases → Keeps P (select_case log.event_name cases)
    unfolding select_case
    select_case-Keeps [] end = Ensures-pure tt (λ _. P) (λ d p. p)
    select_case-Keeps _ (quiet event m rest q kept) =
        Ensures-if (log.event_name == event) m (select_case log.event_name rest)
          (λ _. IsQuiet-Keeps P respects m q) (λ _. select_case-Keeps rest kept)
    select_case-Keeps _ (transfer k rest kept) =
        Ensures-if (log.event_name == "Transfer") _ (select_case log.event_name rest)
          (λ e. transfers e k) (λ _. select_case-Keeps rest kept)

    settings_cases-Kept : (k : ContractKind) → Kept (settings_cases setup log k)
    unfolding settings_cases
    settings_cases-Kept k = search (end, quiet, handle_reserve_settings-IsQuiet) depth 14

    reserve_cases-Kept : (k : ContractKind) → Kept (reserve_cases setup log k)
    unfolding reserve_cases
    reserve_cases-Kept k =
        search
          (
            quiet, transfer, settings_cases-Kept, handle_reserve_deposit-IsQuiet,
            handle_reserve_withdraw-IsQuiet, handle_single_asset_deposit-IsQuiet,
            handle_single_asset_withdraw-IsQuiet, handle_rebalanced-IsQuiet,
            handle_reserve_swap-IsQuiet, handle_iou_minted-IsQuiet, handle_iou_redeemed-IsQuiet,
            dispatch_asset_added-IsQuiet, handle_flash_loan-IsQuiet,
            handle_donation_recognized-IsQuiet,
          )
          depth 18

    oracle_cases-Kept : Kept (oracle_cases setup log)
    unfolding oracle_cases
    oracle_cases-Kept =
        search
          (
            end, quiet, handle_oracle_configured-IsQuiet, handle_oracle_rate-IsQuiet,
            handle_oracle_redemption-IsQuiet, handle_oracle_invalidated-IsQuiet,
            handle_oracle_publish-IsQuiet, handle_oracle_max_confidence-IsQuiet,
          )
          depth 12

    cases_of-Kept : (k : ContractKind) → Kept (cases_of setup log k)
    unfolding cases_of iou_cases curve_cases factory_cases curve_deployer_cases curve_factory_cases
    cases_of-Kept base_reserve_kind = reserve_cases-Kept base_reserve_kind
    cases_of-Kept meta_reserve_kind = reserve_cases-Kept meta_reserve_kind
    cases_of-Kept iou_kind = search (end, quiet, transfer, handle_iou_treasury_fee-IsQuiet) depth 8
    cases_of-Kept curve_kind =
        search (end, quiet, transfer, handle_curve_swap-IsQuiet, handle_curve_liquidity-IsQuiet)
          depth 12
    cases_of-Kept oracle_kind = oracle_cases-Kept
    cases_of-Kept factory_kind =
        search
          (
            end, quiet, handle_new_clear_reserve-IsQuiet, handle_factory_config-IsQuiet,
            handle_factory_implementation-IsQuiet,
          )
          depth 12
    cases_of-Kept curve_deployer_kind =
        search (end, quiet, handle_pool_deployed-IsQuiet, handle_curve_deployer_config-IsQuiet)
          depth 8
    cases_of-Kept curve_factory_kind =
        search (end, quiet, handle_curve_pool_deployed-IsQuiet) depth 8
    cases_of-Kept unknown_kind = end

    -- What every Transfer keeps, every event of every contract keeps.
    pub dispatch-Keeps : (k : ContractKind) → Keeps P (dispatch setup log k)
    unfolding dispatch
    dispatch-Keeps k = select_case-Keeps (cases_of setup log k) (cases_of-Kept k)

pub dispatch-IsBacked :
    (setup : Setup) (log : LogEvent) (k : ContractKind) → Keeps IsBacked (dispatch setup log k)
dispatch-IsBacked setup log k =
    dispatch-Keeps IsBacked (λ d d' s p. SameAmounts-IsBacked s.amounts p) setup log
      (λ _. handle_transfer-IsBacked setup.pg log) k

-- No handler touches the ledger of processed events.
pub dispatch-IsProcessed :
    (t : Table String ℕ) (setup : Setup) (log : LogEvent) (k : ContractKind)
    → Keeps (IsProcessed t) (dispatch setup log k)
dispatch-IsProcessed t setup log k =
    dispatch-Keeps (IsProcessed t) (Quietly-IsProcessed t) setup log
      (λ _. handle_transfer-IsProcessed t setup.pg log) k

-- An event that is not called Transfer, of any kind of contract, leaves every balance and every supply
-- of every ERC20 ledger, and the ledger of processed events, as they were, unless it returns an error.
pub dispatch-SameAmounts :
    (setup : Setup) (log : LogEvent) (k : ContractKind)
    → (log.event_name == "Transfer") ≡ false
    → (d : Db) → Keeps (SameAmounts d) (dispatch setup log k)
dispatch-SameAmounts setup log k other d =
    dispatch-Keeps (SameAmounts d) (λ d' d'' s p. SameAmounts-trans p s.amounts) setup log
      (λ e k. absurd (true≢false (sym e ∙ other))) k
