-- ===== src/Examples/Deliveries.antt =====
-- The theorems on deliveries and Transfers at concrete inputs.
use clear_evmi_plugin.Prelude.{
  ◌≡◌, refl, List, [], ◌∷◌, none, some, pair_equality, triple_equality, arith, list_equality,
  nat_equality, string_equality,
}
use clear_evmi_plugin.Prelude.Int.{ℤ, pos, negsuc, ◌+ℤ◌, ◌-ℤ◌}
use clear_evmi_plugin.Text.{Text, text, has_prefix}
use clear_evmi_plugin.Address.{norm_addr}
use clear_evmi_plugin.Args.{arg, first_arg, num, neg, zero_text}
use clear_evmi_plugin.Kind.{iou_kind, base_reserve_kind}
use clear_evmi_plugin.Balances.{iou_ledger}
use clear_evmi_plugin.Delivery.{new_log_event, deliver_all}
use clear_evmi_plugin.Dispatch.{dispatch}
use clear_evmi_plugin.Quiet.{SameAmounts}
use clear_evmi_plugin.Dispatch.Keeps.{dispatch-SameAmounts}
use clear_evmi_plugin.Dispatch.Run.{IsClaimed, new_log_event-unclaimed}
use clear_evmi_plugin.Dispatch.Kept.{deliver_all-Extends}
use clear_evmi_plugin.Dispatch.Effects.Promise.{ExactlyOnce, deliver_all_once_each}
use clear_evmi_plugin.Dispatch.Redelivery.{times, transfer-IsClaimed}
use clear_evmi_plugin.Records.{kept, KeptIn}
use clear_evmi_plugin.Table.{find}
use clear_evmi_plugin.Reserve.Assets.{count}
use clear_evmi_plugin.Number.{natural, digits_from}
use clear_evmi_plugin.Snapshot.{store_value}
use clear_evmi_plugin.Snapshot.Solvent.{AllSolvent, store_value-AllSolvent}
use clear_evmi_plugin.Transfer.{handle_transfer}
use clear_evmi_plugin.Transfer.Progress.{
  IsReadable, CanDivide, all_divide, handle_transfer-Succeeds,
}
use clear_evmi_plugin.Transfer.Holdings.{Holding, balance_of, sent, received}
use clear_evmi_plugin.Transfer.Moves.{handle_transfer-balance}
use clear_evmi_plugin.ArrayArg.{elements, split_array_arg}
use clear_evmi_plugin.Db.{AssetRow, empty_db}
use clear_evmi_plugin.Event.{LogEvent}
use clear_evmi_plugin.Valuation.{rows_of}
use clear_evmi_plugin.Reserve.Events.{
  handle_reserve_deposit, handle_reserve_withdraw, handle_reserve_swap,
}
use clear_evmi_plugin.Reserve.Balanced.{AreRead, texts_of, paid, token_balance}
use clear_evmi_plugin.Reserve.BalancedEvents.{balanced-balance}
use clear_evmi_plugin.Reserve.SwapFlows.{moved_by, swap-balance}
use clear_evmi_plugin.Exec.{World, failed, served, unreported}
use clear_evmi_plugin.Exec.Succeeds.{Succeeds, Anything}
use clear_evmi_plugin.Exec.Ensures.{Ensures, Keeps}
use clear_evmi_plugin.Examples.{setup, server, start, mint, moved, later_point, read_integer}

deliver_all_once_each_example :
    ExactlyOnce setup
      (mint ∷ moved ∷ mint ∷ [])
      start.db
      (deliver_all (dispatch setup) (mint ∷ moved ∷ mint ∷ []) start).db
deliver_all_once_each_example = deliver_all_once_each setup (mint ∷ moved ∷ mint ∷ []) start

deliver_all-Extends_example :
    KeptIn (kept start.db) (kept (deliver_all (dispatch setup) (mint ∷ moved ∷ []) start).db)
deliver_all-Extends_example = deliver_all-Extends setup (mint ∷ moved ∷ []) start

-- The server fails at the begin.
abbrev failing : World
failing = record start { outcomes = failed ∷ [] }

new_log_event-unclaimed_example : (new_log_event (dispatch setup) mint failing).1.db ≡ failing.db
unfolding new_log_event find
new_log_event-unclaimed_example = new_log_event-unclaimed setup mint failing refl

-- The holder 0x1 of the IOU 0xaa.
abbrev first_holder : Holding
first_holder = (1, norm_addr (text "0xAA"), text "0x1")

handle_transfer-balance_example :
    Ensures
      (λ d. balance_of iou_ledger first_holder d ≡ pos 7)
      (handle_transfer server mint iou_kind)
      (λ _ d.
        balance_of iou_ledger first_holder d
        ≡ pos 7
          +ℤ (received 1
                (norm_addr (text "0xAA"))
                (norm_addr (first_arg mint.args ("from" ∷ "sender" ∷ [])))
                (norm_addr (first_arg mint.args ("to" ∷ "receiver" ∷ [])))
                first_holder
                (pos 500)
              -ℤ sent 1
                  (norm_addr (text "0xAA"))
                  (norm_addr (first_arg mint.args ("from" ∷ "sender" ∷ [])))
                  first_holder
                  (pos 500)))
unfolding read_integer natural digits_from first_arg arg text
handle_transfer-balance_example =
    handle_transfer-balance server mint iou_ledger first_holder iou_kind refl (pos 500) refl (pos 7)

mint-IsReadable : IsReadable server (first_arg mint.args ("value" ∷ []))
unfolding read_integer natural digits_from first_arg arg text neg zero_text has_prefix
mint-IsReadable = record { plain = (pos 500, refl); negated = (negsuc 499, refl) }

handle_transfer-Succeeds_example :
    Succeeds CanDivide (handle_transfer server mint iou_kind) Anything
handle_transfer-Succeeds_example = handle_transfer-Succeeds server mint iou_kind mint-IsReadable

-- A begin that fails, then one that does not, and a commit that is not reported.
abbrev unsteady : World
unsteady = record start { outcomes = failed ∷ served ∷ unreported ∷ [] }

transfer-IsClaimed_example :
    IsClaimed "mint"
      (deliver_all
        (dispatch setup)
        (moved ∷ [])
        (deliver_all (dispatch setup) (times 4 mint) unsteady)).db
unfolding count all_divide
transfer-IsClaimed_example =
    transfer-IsClaimed setup mint refl mint-IsReadable 3 unsteady (omega arith) refl (moved ∷ [])

store_value-AllSolvent_example :
    AllSolvent (store_value server mint (text "0xr") later_point).reserve_value_history
store_value-AllSolvent_example =
    store_value-AllSolvent server mint (text "0xr") later_point (omega arith, tt)

-- A deposit of 10 of the first asset of a base reserve, and of 20 of an asset that it does not list.
abbrev deposit : LogEvent
deposit = record mint {
  id = "deposit";
  contract_name = text "ClearReserve";
  address = text "0xR";
  event_name = "Deposit";
  args = ("amounts", text "[10 20]") ∷ [];
}

abbrev deposited : List (Text × ℤ)
deposited = (text "10", pos 10) ∷ (text "20", pos 20) ∷ []

abbrev listed : List (Text × AssetRow)
listed =
    (
      text "0xa",
      record { decimals = none; iou = none; position = some 0; iou_supply = pos 0; weight = none },
    )
    ∷ []

abbrev first_asset : Holding
first_asset = (1, norm_addr (text "0xR"), text "0xa")

deposited-AreRead : AreRead server deposited
unfolding read_integer natural digits_from text neg zero_text has_prefix ◌-ℤ◌
deposited-AreRead = ((refl, refl), ((refl, refl), tt))

deposited-given : split_array_arg (arg deposit.args "amounts") ≡ elements (texts_of deposited)
unfolding texts_of arg text split_array_arg
deposited-given = refl

balanced-balance_example :
    Ensures
      (λ d.
        (token_balance first_asset d ≡ pos 5)
        × (rows_of 1 (norm_addr (text "0xR")) d.reserve_assets ≡ listed))
      (handle_reserve_deposit server deposit base_reserve_kind)
      (λ _ d.
        token_balance first_asset d
        ≡ pos 5 +ℤ paid first_asset 1 (norm_addr (text "0xR")) listed 0 deposited)
    × Ensures
        (λ d.
          (token_balance first_asset d ≡ pos 5)
          × (rows_of 1 (norm_addr (text "0xR")) d.reserve_assets ≡ listed))
        (handle_reserve_withdraw server deposit base_reserve_kind)
        (λ _ d.
          token_balance first_asset d
          ≡ pos 5 +ℤ (pos 0 -ℤ paid first_asset 1 (norm_addr (text "0xR")) listed 0 deposited))
balanced-balance_example =
    balanced-balance server deposit base_reserve_kind refl deposited deposited-AreRead
      deposited-given first_asset listed (pos 5)

dispatch-SameAmounts_example :
    Keeps (SameAmounts empty_db) (dispatch setup deposit base_reserve_kind)
dispatch-SameAmounts_example = dispatch-SameAmounts setup deposit base_reserve_kind refl empty_db

-- A swap of 30 of the token 0xa for 20 of the token 0xb.
abbrev swap : LogEvent
swap = record deposit {
  id = "swap";
  event_name = "Swap";
  args =
      ("tokenIn", text "0xa")
      ∷ ("tokenOut", text "0xb")
      ∷ ("amountIn", text "30")
      ∷ ("amountOut", text "20")
      ∷ [];
}

swap-balance_example :
    Ensures
      (λ d. token_balance first_asset d ≡ pos 50)
      (handle_reserve_swap server swap base_reserve_kind)
      (λ _ d.
        token_balance first_asset d
        ≡ pos 50
          +ℤ moved_by 1 (norm_addr (text "0xR")) (norm_addr (text "0xa")) first_asset (pos 30)
          +ℤ moved_by 1
              (norm_addr (text "0xR"))
              (norm_addr (text "0xb"))
              first_asset
              (pos 0 -ℤ pos 20))
unfolding read_integer natural digits_from text neg zero_text has_prefix ◌-ℤ◌ num arg
swap-balance_example =
    swap-balance server swap base_reserve_kind first_asset (pos 50) (pos 30) (pos 20) refl refl
