-- ===== src/Factory.antt =====
-- `handleNewClearReserve` of handlers.go: the reserve factory announces a reserve.
use clear_evmi_plugin.Prelude.{
  Bool, ◌||◌, List, [], Option, none, some, nat_equality, list_equality, pair_equality,
  if◌then◌else◌,
}
use clear_evmi_plugin.Prelude.Int.{ℤ}
use clear_evmi_plugin.Text.{Text}
use clear_evmi_plugin.Address.{norm_addr, is_zero_addr}
use clear_evmi_plugin.Kind.{ContractKind, reserve_type, reserve_kind_from_type}
use clear_evmi_plugin.Args.{arg, is_empty, null_num, null_empty}
use clear_evmi_plugin.ArrayArg.{
  ArrayArg, not_array, absent, elements, split_array_arg, json_array_arg,
}
use clear_evmi_plugin.Postgres.{Postgres}
use clear_evmi_plugin.Table.{modify}
use clear_evmi_plugin.Db.{Db}
use clear_evmi_plugin.Event.{LogEvent}
use clear_evmi_plugin.Balances.{ensure_reserve}
use clear_evmi_plugin.Registry.{is_unknown, track_contract}
use clear_evmi_plugin.Rpc.{Rpc}
use clear_evmi_plugin.Token.{ensure_token, ensure_tokens}
use clear_evmi_plugin.Exec.{Exec, bad_argument, pure, raise, numeric_opt, write, ◌>>=◌, ◌>>◌}

-- The elements of an array argument, where it is well formed.
unfoldable pub array_elements : ArrayArg → Exec (List Text)
array_elements not_array = raise bad_argument
array_elements absent = pure []
array_elements (elements els) = pure els

unfoldable pub describe_reserve : LogEvent → Text → Option ℤ → Option (List Text) → Db → Db
describe_reserve log reserve index tokens d = record d {
  reserves =
      modify (log.chain_id, reserve)
        (λ row. record row {
          name = null_empty (arg log.args "name");
          symbol = null_empty (arg log.args "symbol");
          implementation = null_empty (norm_addr (arg log.args "implementation"));
          reserve_index = index;
          tokens = tokens;
          factory = some (norm_addr log.address);
        })
        d.reserves;
}

module _ (pg : Postgres) (rpc : Option Rpc) (log : LogEvent) where
  unfoldable pub create_reserve : Text → ContractKind → Exec (Unit {0})
  create_reserve reserve k = do
    ensure_reserve log.chain_id reserve (reserve_type k) log.block_number
    tokens ← json_array_arg log.args "tokens" Bool.true
    ensure_token rpc log.chain_id reserve log.block_number
        (record { name = arg log.args "name"; symbol = arg log.args "symbol"; decimals = none })
    reserve_tokens ← array_elements (split_array_arg (arg log.args "tokens"))
    ensure_tokens rpc log.chain_id reserve_tokens log.block_number
    index ← numeric_opt pg (null_num log.args "index")
    write (describe_reserve log reserve index tokens)
    track_contract log.chain_id reserve k log.block_number

  unfoldable pub handle_new_clear_reserve : Exec (Unit {0})
  handle_new_clear_reserve =
      let reserve = norm_addr (arg log.args "reserve") in
      let k = reserve_kind_from_type (arg log.args "reserveType") in
      if is_empty reserve || is_zero_addr reserve
      then pure tt
      else if is_unknown k
      then raise bad_argument
      else create_reserve reserve k
