-- ===== src/Curve.antt =====
-- The handlers of Curve pool events in handlers.go, and `handlePoolDeployed`, which links a pool to
-- the reserve it was deployed for.
pub mod Resolve
pub mod Host
pub mod Deployed
pub mod SwapCount
use clear_evmi_plugin.Prelude.{
  ℕ, ◌+◌, Bool, ◌||◌, List, [], ◌∷◌, Option, none, some, nat_equality, list_equality, pair_equality,
  string_equality, if◌then◌else◌,
}
use clear_evmi_plugin.Prelude.Int.{ℤ}
use clear_evmi_plugin.Text.{Text}
use clear_evmi_plugin.Address.{norm_addr, is_zero_addr}
use clear_evmi_plugin.Kind.{curve_kind}
use clear_evmi_plugin.Args.{arg, num, is_empty, null_num, null_empty}
use clear_evmi_plugin.ArrayArg.{json_array_arg}
use clear_evmi_plugin.Postgres.{Postgres}
use clear_evmi_plugin.Table.{insert_new, modify}
use clear_evmi_plugin.Db.{Db}
use clear_evmi_plugin.Event.{LogEvent}
use clear_evmi_plugin.Balances.{ensure_curve}
use clear_evmi_plugin.Registry.{track_contract}
use clear_evmi_plugin.Rpc.{Rpc}
use clear_evmi_plugin.Token.{ensure_tokens}
use clear_evmi_plugin.Exec.{Exec, pure, numeric_arg, numeric_opt, write, ◌>>=◌, ◌>>◌}

module _ (pg : Postgres) (log : LogEvent) where
  unfoldable pub count_curve_swap : Db → Db
  count_curve_swap d = record d {
    curve_pools =
        modify (log.chain_id, norm_addr log.address)
          (λ row. record row { swap_count = row.swap_count + 1; last_block = log.block_number })
          d.curve_pools;
  }

  unfoldable pub insert_curve_swap : Bool → Exec (Unit {0})
  insert_curve_swap underlying = do
    sold_id ← numeric_arg pg (num log.args "sold_id")
    tokens_sold ← numeric_arg pg (num log.args "tokens_sold")
    bought_id ← numeric_arg pg (num log.args "bought_id")
    tokens_bought ← numeric_arg pg (num log.args "tokens_bought")
    write (λ d. record d {
      curve_swaps =
          insert_new log.id
            (record {
              chain_id = log.chain_id;
              pool = norm_addr log.address;
              block_number = log.block_number;
              log_index = log.log_index;
              tx_hash = log.transaction_hash;
              buyer = norm_addr (arg log.args "buyer");
              sold_id = sold_id;
              tokens_sold = tokens_sold;
              bought_id = bought_id;
              tokens_bought = tokens_bought;
              underlying = underlying;
            })
            d.curve_swaps;
    })

  unfoldable pub handle_curve_swap : Bool → Exec (Unit {0})
  handle_curve_swap underlying = do
    ensure_curve log.chain_id (norm_addr log.address) log.block_number
    insert_curve_swap underlying
    write count_curve_swap

  unfoldable pub handle_curve_liquidity : Text → Exec (Unit {0})
  handle_curve_liquidity kind = do
    ensure_curve log.chain_id (norm_addr log.address) log.block_number
    token_amounts ← json_array_arg log.args "token_amounts" Bool.false
    fees ← json_array_arg log.args "fees" Bool.false
    token_id ← numeric_opt pg (null_num log.args "token_id")
    token_amount ← numeric_opt pg (null_num log.args "token_amount")
    coin_amount ← numeric_opt pg (null_num log.args "coin_amount")
    invariant ← numeric_opt pg (null_num log.args "invariant")
    token_supply ← numeric_opt pg (null_num log.args "token_supply")
    write (λ d. record d {
      curve_liquidity =
          insert_new log.id
            (record {
              chain_id = log.chain_id;
              pool = norm_addr log.address;
              block_number = log.block_number;
              log_index = log.log_index;
              tx_hash = log.transaction_hash;
              provider = norm_addr (arg log.args "provider");
              kind = kind;
              token_amounts = token_amounts;
              fees = fees;
              token_id = token_id;
              token_amount = token_amount;
              coin_amount = coin_amount;
              invariant = invariant;
              token_supply = token_supply;
            })
            d.curve_liquidity;
    })

module _ (rpc : Option Rpc) (log : LogEvent) where
  -- The coin is absent on a plain base pool.
  unfoldable pub link_pool : Text → Text → Bool → Db → Db
  link_pool pool coin is_base d = record d {
    curve_pools =
        modify (log.chain_id, pool)
          (λ row. record row {
            reserve = null_empty (norm_addr (arg log.args "reserve"));
            base_pool = null_empty (norm_addr (arg log.args "basePool"));
            coin = null_empty coin;
            is_base_pool = some is_base;
            deployer = some (norm_addr log.address);
          })
          d.curve_pools;
  }

  unfoldable pub handle_pool_deployed : Exec (Unit {0})
  handle_pool_deployed =
      let pool = norm_addr (arg log.args "pool") in
      let named = norm_addr (arg log.args "coin") in
      let is_base = is_empty named || is_zero_addr named in
      let coin = if is_base then [] else named in
      if is_empty pool || is_zero_addr pool then pure tt else (do
        ensure_curve log.chain_id pool log.block_number
        write (link_pool pool coin is_base)
        ensure_tokens rpc log.chain_id (pool ∷ coin ∷ []) log.block_number
        track_contract log.chain_id pool curve_kind log.block_number)
