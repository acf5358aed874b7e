-- ===== src/Reserve/Events.antt =====
-- The handlers of reserve events in handlers.go, from `handleReserveDeposit` to `handleReserveSwap`.
use clear_evmi_plugin.Prelude.{
  ◌+◌, Bool, true, false, [], ◌∷◌, string_equality, nat_equality, list_equality, pair_equality,
  if◌then◌else◌,
}
use clear_evmi_plugin.Text.{Text, text}
use clear_evmi_plugin.Address.{norm_addr}
use clear_evmi_plugin.Kind.{ContractKind, meta_reserve_kind, reserve_type}
use clear_evmi_plugin.Args.{arg, first_arg, num, neg, num_or_zero, zero_text}
use clear_evmi_plugin.Postgres.{Postgres}
use clear_evmi_plugin.Table.{insert_new, modify}
use clear_evmi_plugin.Db.{Db}
use clear_evmi_plugin.Event.{LogEvent}
use clear_evmi_plugin.Balances.{adjust_token_balance, ensure_reserve}
use clear_evmi_plugin.Snapshot.{snapshot_reserve_value}
use clear_evmi_plugin.Reserve.{
  insert_activity, bump_reserve, total_deposits, total_withdrawals, iou_minted, iou_redeemed,
  apply_meta_amounts, apply_reserve_amounts,
}
use clear_evmi_plugin.Exec.{Exec, numeric_arg, write, ◌>>=◌, ◌>>◌}

abbrev pub is_meta : ContractKind → Bool
is_meta meta_reserve_kind = true
is_meta k = false

module _ (pg : Postgres) (log : LogEvent) (k : ContractKind) where
  unfoldable pub reserve : Text
  reserve = norm_addr log.address

  -- A token flow of the event's reserve, and the end of most handlers.
  unfoldable pub flow : Text → Text → Exec (Unit {0})
  unfolding reserve
  flow asset delta = adjust_token_balance pg log.chain_id reserve asset delta log.block_number

  unfoldable pub ensure_own : Exec (Unit {0})
  unfolding reserve
  ensure_own = ensure_reserve log.chain_id reserve (reserve_type k) log.block_number

  -- The per-asset amounts of a balanced deposit or withdrawal.
  unfoldable pub apply_balanced : Bool → Exec (Unit {0})
  unfolding reserve
  apply_balanced negate =
      if is_meta k
      then apply_meta_amounts pg log.chain_id reserve negate log.block_number log.args
      else apply_reserve_amounts pg log.chain_id reserve negate log.block_number
          (arg log.args "amounts")

  unfoldable pub handle_reserve_deposit : Exec (Unit {0})
  unfolding reserve flow ensure_own apply_balanced
  handle_reserve_deposit = do
    insert_activity pg log reserve (record {
      action = text "deposit";
      caller = norm_addr (arg log.args "caller");
      receiver = norm_addr (arg log.args "receiver");
      asset = [];
      amount = first_arg log.args ("baseLpIn" ∷ "lpMinted" ∷ []);
      amount2 = num log.args "nativeIn";
      fee = zero_text;
      lp = num_or_zero (first_arg log.args ("metaLpMinted" ∷ "lpMinted" ∷ []));
    })
    apply_balanced false
    snapshot_reserve_value pg log reserve
    bump_reserve pg log.chain_id reserve (reserve_type k) total_deposits
        (num_or_zero (first_arg log.args ("metaLpMinted" ∷ "lpMinted" ∷ []))) log.block_number

  unfoldable pub handle_reserve_withdraw : Exec (Unit {0})
  unfolding reserve flow ensure_own apply_balanced
  handle_reserve_withdraw = do
    insert_activity pg log reserve (record {
      action = text "withdraw";
      caller = norm_addr (arg log.args "caller");
      receiver = norm_addr (arg log.args "receiver");
      asset = [];
      amount = first_arg log.args ("baseLpOut" ∷ "lpBurned" ∷ []);
      amount2 = num log.args "nativeOut";
      fee = zero_text;
      lp = num_or_zero (first_arg log.args ("metaLpBurned" ∷ "lpBurned" ∷ []));
    })
    apply_balanced true
    snapshot_reserve_value pg log reserve
    bump_reserve pg log.chain_id reserve (reserve_type k) total_withdrawals
        (num_or_zero (first_arg log.args ("metaLpBurned" ∷ "lpBurned" ∷ []))) log.block_number

  unfoldable pub handle_single_asset_deposit : Exec (Unit {0})
  unfolding reserve flow ensure_own apply_balanced
  handle_single_asset_deposit = do
    insert_activity pg log reserve (record {
      action = text "single_deposit";
      caller = norm_addr (arg log.args "caller");
      receiver = norm_addr (arg log.args "receiver");
      asset = norm_addr (arg log.args "asset");
      amount = num log.args "amountIn";
      amount2 = zero_text;
      fee = num log.args "fee";
      lp = num_or_zero (first_arg log.args ("metaLpMinted" ∷ "lpMinted" ∷ []));
    })
    flow (norm_addr (arg log.args "asset")) (num log.args "amountIn")
    flow (norm_addr (arg log.args "asset")) (neg (num log.args "fee"))
    snapshot_reserve_value pg log reserve
    bump_reserve pg log.chain_id reserve (reserve_type k) total_deposits
        (num_or_zero (first_arg log.args ("metaLpMinted" ∷ "lpMinted" ∷ []))) log.block_number

  unfoldable pub handle_single_asset_withdraw : Exec (Unit {0})
  unfolding reserve flow ensure_own apply_balanced
  handle_single_asset_withdraw = do
    insert_activity pg log reserve (record {
      action = text "single_withdraw";
      caller = norm_addr (arg log.args "caller");
      receiver = norm_addr (arg log.args "receiver");
      asset = norm_addr (arg log.args "asset");
      amount = num log.args "amountOut";
      amount2 = zero_text;
      fee = num log.args "fee";
      lp = num_or_zero (first_arg log.args ("metaLpBurned" ∷ "lpBurned" ∷ []));
    })
    flow (norm_addr (arg log.args "asset")) (neg (num log.args "amountOut"))
    flow (norm_addr (arg log.args "asset")) (neg (num log.args "fee"))
    snapshot_reserve_value pg log reserve
    bump_reserve pg log.chain_id reserve (reserve_type k) total_withdrawals
        (num_or_zero (first_arg log.args ("metaLpBurned" ∷ "lpBurned" ∷ []))) log.block_number

  unfoldable pub handle_rebalanced : Exec (Unit {0})
  unfolding reserve flow ensure_own apply_balanced
  handle_rebalanced = do
    ensure_own
    flow (norm_addr (arg log.args "tokenIn")) (num log.args "amountIn")
    flow (norm_addr (arg log.args "tokenOut")) (neg (num log.args "amountOut"))
    snapshot_reserve_value pg log reserve
    insert_activity pg log reserve (record {
      action = text "rebalance";
      caller = norm_addr (arg log.args "caller");
      receiver = norm_addr (arg log.args "recipient");
      asset = norm_addr (arg log.args "tokenIn");
      amount = num log.args "amountIn";
      amount2 = num log.args "amountOut";
      fee = zero_text;
      lp = zero_text;
    })

  unfoldable pub handle_flash_loan : Exec (Unit {0})
  unfolding reserve flow ensure_own apply_balanced
  handle_flash_loan = do
    ensure_own
    flow (norm_addr (arg log.args "token")) (num log.args "fee")
    snapshot_reserve_value pg log reserve
    insert_activity pg log reserve (record {
      action = text "flash_loan";
      caller = norm_addr (arg log.args "initiator");
      receiver = norm_addr (arg log.args "receiver");
      asset = norm_addr (arg log.args "token");
      amount = num log.args "amount";
      amount2 = zero_text;
      fee = num log.args "fee";
      lp = zero_text;
    })

  unfoldable pub handle_donation_recognized : Exec (Unit {0})
  unfolding reserve flow ensure_own apply_balanced
  handle_donation_recognized = do
    ensure_own
    flow (norm_addr (first_arg log.args ("asset" ∷ "leg" ∷ []))) (num log.args "units")
    snapshot_reserve_value pg log reserve
    insert_activity pg log reserve (record {
      action = text "donation";
      caller = [];
      receiver = [];
      asset = norm_addr (first_arg log.args ("asset" ∷ "leg" ∷ []));
      amount = num log.args "units";
      amount2 = zero_text;
      fee = zero_text;
      lp = zero_text;
    })

  unfoldable pub handle_iou_minted : Exec (Unit {0})
  unfolding reserve flow ensure_own apply_balanced
  handle_iou_minted = do
    insert_activity pg log reserve (record {
      action = text "iou_minted";
      caller = norm_addr (arg log.args "caller");
      receiver = norm_addr (arg log.args "receiver");
      asset = norm_addr (arg log.args "asset");
      amount = num log.args "amount";
      amount2 = zero_text;
      fee = zero_text;
      lp = zero_text;
    })
    flow (norm_addr (arg log.args "asset")) (num log.args "amount")
    snapshot_reserve_value pg log reserve
    bump_reserve pg log.chain_id reserve (reserve_type k) iou_minted (num log.args "amount")
        log.block_number

  unfoldable pub handle_iou_redeemed : Exec (Unit {0})
  unfolding reserve flow ensure_own apply_balanced
  handle_iou_redeemed = do
    insert_activity pg log reserve (record {
      action = text "iou_redeemed";
      caller = norm_addr (arg log.args "holder");
      receiver = norm_addr (arg log.args "receiver");
      asset = norm_addr (arg log.args "asset");
      amount = num log.args "amount";
      amount2 = zero_text;
      fee = zero_text;
      lp = zero_text;
    })
    flow (norm_addr (arg log.args "asset")) (neg (num log.args "amount"))
    snapshot_reserve_value pg log reserve
    bump_reserve pg log.chain_id reserve (reserve_type k) iou_redeemed (num log.args "amount")
        log.block_number

  unfoldable pub insert_swap : Exec (Unit {0})
  unfolding reserve
  insert_swap = do
    amount_in ← numeric_arg pg (num log.args "amountIn")
    amount_out ← numeric_arg pg (num log.args "amountOut")
    iou_total ← numeric_arg pg (num log.args "iouTotal")
    trader_iou ← numeric_arg pg (num log.args "traderIOU")
    treasury_iou ← numeric_arg pg (num log.args "treasuryIOU")
    lp_iou ← numeric_arg pg (num log.args "lpIOU")
    write (λ d. record d {
      reserve_swaps =
          insert_new log.id
            (record {
              chain_id = log.chain_id;
              reserve = reserve;
              block_number = log.block_number;
              log_index = log.log_index;
              tx_hash = log.transaction_hash;
              trader = norm_addr (arg log.args "trader");
              token_in = norm_addr (arg log.args "tokenIn");
              token_out = norm_addr (arg log.args "tokenOut");
              recipient = norm_addr (arg log.args "recipient");
              amount_in = amount_in;
              amount_out = amount_out;
              iou_total = iou_total;
              trader_iou = trader_iou;
              treasury_iou = treasury_iou;
              lp_iou = lp_iou;
            })
            d.reserve_swaps;
    })

  unfoldable pub count_swap : Db → Db
  unfolding reserve
  count_swap d = record d {
    reserves =
        modify (log.chain_id, reserve)
          (λ row. record row { swap_count = row.swap_count + 1; last_block = log.block_number })
          d.reserves;
  }

  unfoldable pub handle_reserve_swap : Exec (Unit {0})
  unfolding reserve flow ensure_own insert_swap count_swap
  handle_reserve_swap = do
    ensure_own
    insert_swap
    flow (norm_addr (arg log.args "tokenIn")) (num log.args "amountIn")
    flow (norm_addr (arg log.args "tokenOut")) (neg (num log.args "amountOut"))
    snapshot_reserve_value pg log reserve
    write count_swap
