-- ===== src/Transfer/Spends.antt =====
-- A Transfer adds no answer of the server.
use clear_evmi_plugin.Prelude.{[], ◌∷◌, Option, none, some, list_equality, nat_equality}
use clear_evmi_plugin.Prelude.Int.{ℤ}
use clear_evmi_plugin.Text.{Text}
use clear_evmi_plugin.Args.{first_arg, is_empty}
use clear_evmi_plugin.Kind.{ContractKind}
use clear_evmi_plugin.Postgres.{Postgres}
use clear_evmi_plugin.Event.{LogEvent}
use clear_evmi_plugin.Balances.{
  Ledger, reserve_ledger, iou_ledger, curve_ledger, adjust_balance, ensure_reserve, ensure_iou,
  ensure_curve,
}
use clear_evmi_plugin.Snapshot.{snapshot_reserve_value, snapshot_reserve_assets}
use clear_evmi_plugin.Transfer.{
  ensure_token_row, mirror, add_supply, resnapshot, move, transfer_on, ledger_of, handle_transfer,
}
use clear_evmi_plugin.Exec.Spends.{Spends, pure-Spends, if-Spends, write-Spends, spending_rules}

module _ (pg : Postgres) (log : LogEvent) where
  mirror-Spends : (b : Ledger) (owner : Text) (n : ℤ) → Spends (mirror b log.chain_id owner n)
  unfolding mirror
  mirror-Spends reserve_ledger owner n = pure-Spends tt
  mirror-Spends iou_ledger owner n = write-Spends _
  mirror-Spends curve_ledger owner n = pure-Spends tt

  resnapshot-Spends : (b : Ledger) (owner : Text) → Spends (resnapshot pg log b owner)
  unfolding resnapshot snapshot_reserve_value snapshot_reserve_assets
  resnapshot-Spends reserve_ledger owner = pure-Spends tt
  resnapshot-Spends iou_ledger owner = search spending_rules depth 10
  resnapshot-Spends curve_ledger owner = pure-Spends tt

  ensure_token_row-Spends :
      (b : Ledger) (owner : Text) (k : ContractKind)
      → Spends (ensure_token_row b log.chain_id owner k log.block_number)
  unfolding ensure_token_row ensure_reserve ensure_iou ensure_curve
  ensure_token_row-Spends reserve_ledger owner k = write-Spends _
  ensure_token_row-Spends iou_ledger owner k = write-Spends _
  ensure_token_row-Spends curve_ledger owner k = write-Spends _

  transfer_on-Spends :
      (o : Option Ledger) (k : ContractKind) (from to v : Text)
      → Spends (transfer_on pg log o k from to v)
  unfolding transfer_on move add_supply adjust_balance
  transfer_on-Spends none k from to v = pure-Spends tt
  transfer_on-Spends (some b) k from to v =
      search (spending_rules, ensure_token_row-Spends, mirror-Spends, resnapshot-Spends) depth 14

  pub handle_transfer-Spends : (k : ContractKind) → Spends (handle_transfer pg log k)
  unfolding handle_transfer
  handle_transfer-Spends k =
      if-Spends (is_empty (first_arg log.args ("value" ∷ []))) _ _ (pure-Spends tt)
        (transfer_on-Spends (ledger_of k) k _ _ (first_arg log.args ("value" ∷ [])))
