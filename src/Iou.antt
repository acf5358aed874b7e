-- ===== src/Iou.antt =====
-- `handleIouTreasuryFee` of handlers.go: the treasury's cut of an IOU mint.
use clear_evmi_plugin.Prelude.{ℕ, ◌==◌, nat_equality, list_equality, pair_equality, if◌then◌else◌}
use clear_evmi_plugin.Prelude.Int.{ℤ, ◌+ℤ◌}
use clear_evmi_plugin.Text.{Text}
use clear_evmi_plugin.Address.{norm_addr}
use clear_evmi_plugin.Args.{num, zero_text}
use clear_evmi_plugin.Postgres.{Postgres}
use clear_evmi_plugin.Table.{modify}
use clear_evmi_plugin.Db.{Db}
use clear_evmi_plugin.Event.{LogEvent}
use clear_evmi_plugin.Balances.{ensure_iou}
use clear_evmi_plugin.Exec.{Exec, pure, numeric_arg, write, ◌>>=◌, ◌>>◌}

unfoldable pub add_fee : ℕ → Text → ℤ → ℕ → Db → Db
add_fee chain_id token fee block d = record d {
  iou_tokens =
      modify (chain_id, token)
        (λ row. record row { treasury_fees = row.treasury_fees +ℤ fee; last_block = block })
        d.iou_tokens;
}

unfoldable pub handle_iou_treasury_fee : Postgres → LogEvent → Exec (Unit {0})
handle_iou_treasury_fee pg log =
    let token = norm_addr log.address in
    let fee = num log.args "treasuryFee" in
    do
      ensure_iou log.chain_id token log.block_number
      if fee == zero_text
          then pure tt
          else (do n ← numeric_arg pg fee; write (add_fee log.chain_id token n log.block_number))
