-- ===== src/Quiet/Reserves.antt =====
-- The handlers of reserve events but Transfer are quiet.
use clear_evmi_plugin.Prelude.{ℕ, ◌+◌, ◌≡◌, refl, Bool, List, [], ◌∷◌}
use clear_evmi_plugin.Prelude.Int.{ℤ}
use clear_evmi_plugin.Text.{Text}
use clear_evmi_plugin.Args.{Args}
use clear_evmi_plugin.ArrayArg.{ArrayArg, not_array, absent, elements, split_array_arg}
use clear_evmi_plugin.Kind.{ContractKind}
use clear_evmi_plugin.Postgres.{Postgres}
use clear_evmi_plugin.Event.{LogEvent}
use clear_evmi_plugin.Db.{AssetRow, ReserveRow}
use clear_evmi_plugin.Reserve.{
  Activity, insert_activity, Counter, total_deposits, total_withdrawals, iou_minted, iou_redeemed,
  bump, bump_reserve, apply_meta_amounts, apply_amounts, apply_parsed, apply_reserve_amounts,
}
use clear_evmi_plugin.Reserve.Events.{
  ensure_own, apply_balanced, flow, handle_reserve_deposit, handle_reserve_withdraw,
  handle_single_asset_deposit, handle_single_asset_withdraw, handle_rebalanced, handle_flash_loan,
  handle_donation_recognized, handle_iou_minted, handle_iou_redeemed, insert_swap, count_swap,
  handle_reserve_swap,
}
use clear_evmi_plugin.Exec.{write, numeric_arg}
use clear_evmi_plugin.Quiet.{IsQuiet}
use clear_evmi_plugin.Quiet.Rules.{
  pure-IsQuiet, raise-IsQuiet, if-IsQuiet, bind-IsQuiet, then-IsQuiet, write-IsQuiet,
  write_other-IsQuiet, numeric_arg-IsQuiet, modify_reserve-Quietly, quiet_rules,
}
use clear_evmi_plugin.Quiet.Additions.{add_activity-IsQuiet, add_swap-IsQuiet}
use clear_evmi_plugin.Quiet.Shared.{
  ensure_reserve-IsQuiet, adjust_token_balance-IsQuiet, snapshot_reserve_value-IsQuiet,
}

bump-lp_supply :
    (col : Counter) (n : ℤ) (block : ℕ) (w : ReserveRow)
    → (bump col n block w).lp_supply ≡ w.lp_supply
unfolding bump
bump-lp_supply total_deposits n block w = refl
bump-lp_supply total_withdrawals n block w = refl
bump-lp_supply iou_minted n block w = refl
bump-lp_supply iou_redeemed n block w = refl

module _ (pg : Postgres) where
  pub bump_reserve-IsQuiet :
      (c : ℕ) (reserve kind : Text) (col : Counter) (delta : Text) (block : ℕ)
      → IsQuiet (bump_reserve pg c reserve kind col delta block)
  unfolding bump_reserve
  bump_reserve-IsQuiet c reserve kind col delta block =
      then-IsQuiet _ _ (ensure_reserve-IsQuiet c reserve block kind) (
        bind-IsQuiet (numeric_arg pg delta) _ (numeric_arg-IsQuiet pg delta) λ n.
          write-IsQuiet _ λ d.
            modify_reserve-Quietly (c, reserve) d (bump col n block) (bump-lp_supply col n block))

  pub insert_activity-IsQuiet :
      (log : LogEvent) (reserve : Text) (a : Activity) → IsQuiet (insert_activity pg log reserve a)
  unfolding insert_activity
  insert_activity-IsQuiet log reserve a = search (quiet_rules, add_activity-IsQuiet) depth 12

  module _ (c : ℕ) (reserve : Text) (negate : Bool) (block : ℕ) where
    apply_meta_amounts-IsQuiet :
        (args : Args) → IsQuiet (apply_meta_amounts pg c reserve negate block args)
    unfolding apply_meta_amounts
    apply_meta_amounts-IsQuiet args = search (quiet_rules, adjust_token_balance-IsQuiet) depth 9

    apply_amounts-IsQuiet :
        (rows : List (Text × AssetRow)) (i : ℕ) (amounts : List Text)
        → IsQuiet (apply_amounts pg c reserve negate block rows i amounts)
    unfolding apply_amounts
    apply_amounts-IsQuiet rows i [] = pure-IsQuiet tt
    apply_amounts-IsQuiet rows i (amt ∷ amounts) =
        let rest = apply_amounts-IsQuiet rows (i + 1) amounts in
        if-IsQuiet _ _ _ rest
          (then-IsQuiet _ _ (adjust_token_balance-IsQuiet pg c reserve _ _ block) rest)

    apply_parsed-IsQuiet : (a : ArrayArg) → IsQuiet (apply_parsed pg c reserve negate block a)
    unfolding apply_parsed
    apply_parsed-IsQuiet not_array = raise-IsQuiet _
    apply_parsed-IsQuiet absent = pure-IsQuiet tt
    apply_parsed-IsQuiet (elements []) = pure-IsQuiet tt
    apply_parsed-IsQuiet (elements (amt ∷ amounts)) =
        search (quiet_rules, apply_amounts-IsQuiet) depth 9

    apply_reserve_amounts-IsQuiet :
        (v : Text) → IsQuiet (apply_reserve_amounts pg c reserve negate block v)
    unfolding apply_reserve_amounts
    apply_reserve_amounts-IsQuiet v = apply_parsed-IsQuiet (split_array_arg v)

  ruleset reserve_rules = (
    quiet_rules, ensure_reserve-IsQuiet, adjust_token_balance-IsQuiet,
    snapshot_reserve_value-IsQuiet, insert_activity-IsQuiet, bump_reserve-IsQuiet,
    apply_meta_amounts-IsQuiet, apply_reserve_amounts-IsQuiet, write_other-IsQuiet,
  )

  module _ (log : LogEvent) (k : ContractKind) where
    pub handle_reserve_deposit-IsQuiet : IsQuiet (handle_reserve_deposit pg log k)
    unfolding handle_reserve_deposit apply_balanced
    handle_reserve_deposit-IsQuiet = search reserve_rules depth 12

    pub handle_reserve_withdraw-IsQuiet : IsQuiet (handle_reserve_withdraw pg log k)
    unfolding handle_reserve_withdraw apply_balanced
    handle_reserve_withdraw-IsQuiet = search reserve_rules depth 12

    pub handle_single_asset_deposit-IsQuiet : IsQuiet (handle_single_asset_deposit pg log k)
    unfolding handle_single_asset_deposit flow
    handle_single_asset_deposit-IsQuiet = search reserve_rules depth 12

    pub handle_single_asset_withdraw-IsQuiet : IsQuiet (handle_single_asset_withdraw pg log k)
    unfolding handle_single_asset_withdraw flow
    handle_single_asset_withdraw-IsQuiet = search reserve_rules depth 12

    pub handle_rebalanced-IsQuiet : IsQuiet (handle_rebalanced pg log k)
    unfolding handle_rebalanced flow ensure_own
    handle_rebalanced-IsQuiet = search reserve_rules depth 12

    pub handle_flash_loan-IsQuiet : IsQuiet (handle_flash_loan pg log k)
    unfolding handle_flash_loan flow ensure_own
    handle_flash_loan-IsQuiet = search reserve_rules depth 12

    pub handle_donation_recognized-IsQuiet : IsQuiet (handle_donation_recognized pg log k)
    unfolding handle_donation_recognized flow ensure_own
    handle_donation_recognized-IsQuiet = search reserve_rules depth 12

    pub handle_iou_minted-IsQuiet : IsQuiet (handle_iou_minted pg log k)
    unfolding handle_iou_minted flow
    handle_iou_minted-IsQuiet = search reserve_rules depth 12

    pub handle_iou_redeemed-IsQuiet : IsQuiet (handle_iou_redeemed pg log k)
    unfolding handle_iou_redeemed flow
    handle_iou_redeemed-IsQuiet = search reserve_rules depth 12

    count_swap-IsQuiet : IsQuiet (write (count_swap pg log k))
    unfolding count_swap
    count_swap-IsQuiet = write-IsQuiet _ (λ d. modify_reserve-Quietly _ d _ (λ w. refl))

    insert_swap-IsQuiet : IsQuiet (insert_swap pg log k)
    unfolding insert_swap
    insert_swap-IsQuiet = search (quiet_rules, add_swap-IsQuiet) depth 14

    pub handle_reserve_swap-IsQuiet : IsQuiet (handle_reserve_swap pg log k)
    unfolding handle_reserve_swap flow ensure_own
    handle_reserve_swap-IsQuiet =
        search (reserve_rules, insert_swap-IsQuiet, count_swap-IsQuiet) depth 12
