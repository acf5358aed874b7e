-- ===== src/Examples/Starts.antt =====
-- The theorems on `Init` at concrete inputs.
use clear_evmi_plugin.Prelude.{
  ◌≡◌, refl, true, false, [], ◌∷◌, none, some, nat_equality, list_equality, pair_equality,
}
use clear_evmi_plugin.Text.{text}
use clear_evmi_plugin.Address.{norm_addr}
use clear_evmi_plugin.Schema.{run, has_columns, has_all, viewed, cascade, readable}
use clear_evmi_plugin.Schema.Script.{schema}
use clear_evmi_plugin.Table.{find}
use clear_evmi_plugin.Dispatch.{dispatch}
use clear_evmi_plugin.Delivery.{deliver_all}
use clear_evmi_plugin.Start.{PluginConfig, Services, Context, Exporter, read_config, init}
use clear_evmi_plugin.Start.Configured.{kind_at, seeded, kind_named}
use clear_evmi_plugin.Start.Restart.{init-registry}
use clear_evmi_plugin.Start.Defaults.{filled, init-with_defaults}
use clear_evmi_plugin.Start.Untouched.{DiffersAt, MayMigrate, entries_of, init-DiffersAt}
use clear_evmi_plugin.Text.{to_lower, trim_space, has_prefix, contains}
use clear_evmi_plugin.Address.{is_zero_addr, zero_address}
use clear_evmi_plugin.Args.{neg, first_arg, arg}
use clear_evmi_plugin.Number.{natural, digits_from}
use clear_evmi_plugin.Kind.{classify, kind_from_string, kind_token}
use clear_evmi_plugin.Balances.{ensure_iou, adjust_balance, add_balance, touch_iou}
use clear_evmi_plugin.Transfer.{
  handle_transfer, ensure_token_row, transfer_on, move, add_supply, mirror, resnapshot, bump_supply,
  query_or, reserve_of_iou, mirror_supply,
}
use clear_evmi_plugin.Table.{upsert, insert_new, modify}
use clear_evmi_plugin.Delivery.{
  new_log_event, transact, claim, handle_fresh, route, finish, commit, commit_by,
}
use clear_evmi_plugin.Registry.{
  resolve_kind, discover, remember_kind, persist_contract, seed_contracts, load_registry,
  registry_of,
}
use clear_evmi_plugin.Dispatch.{select_case, iou_cases, cases_of}
use clear_evmi_plugin.Exec.{◌>>=◌, ◌>>◌, statement, write, select, numeric_arg}
use clear_evmi_plugin.Start.{
  with_dsn, configured, connected_to, connect, prepared, prepare, is_true_by_default, migrate,
  settle, rpc_url_of,
}
use clear_evmi_plugin.Examples.{setup, start, mint, read_integer}

abbrev own_config : PluginConfig
own_config = record {
  dsn = text "postgres://clear";
  auto_migrate = none;
  contracts = record { address = text "0xAA"; kind = text "IOU" } ∷ [];
  rpc_url = [];
  curve_pool_abi = [];
  index_curve_pools = none;
}

abbrev services : Services
services = record {
  unmarshal = λ raw. some own_config;
  opens = λ dsn. true;
  blockchain = λ host. none;
  dial = λ url. none;
}

abbrev context : Context
context = record { exporter_name = text "clear"; chain_id = 1; config = text "{}"; host = none }

abbrev blank : Exporter
blank = record {
  name = [];
  chain_id = 0;
  connected = false;
  host = none;
  rpc = none;
  index_curve_pools = false;
  curve_pool_abi = [];
}

init-registry_example :
    find
      (norm_addr (text "0xaa"))
      (init services context blank (deliver_all (dispatch setup) (mint ∷ []) start)).1.1.registry
    ≡ kind_named (
        seeded (norm_addr (text "0xaa")) own_config.contracts (
          kind_at 1
            (norm_addr (text "0xaa"))
            (deliver_all (dispatch setup) (mint ∷ []) start).db.contracts))
unfolding read_config with_dsn init configured connected_to connect prepared prepare
    is_true_by_default migrate settle rpc_url_of seed_contracts load_registry registry_of
    kind_from_string new_log_event deliver_all transact claim handle_fresh resolve_kind discover
    route dispatch select_case iou_cases cases_of handle_transfer finish ◌>>=◌ statement find ◌>>◌
    remember_kind classify contains to_lower text persist_contract write first_arg arg
    ensure_token_row ensure_iou transfer_on move adjust_balance add_supply mirror resnapshot
    numeric_arg add_balance upsert insert_new modify norm_addr is_zero_addr zero_address bump_supply
    select query_or reserve_of_iou mirror_supply commit commit_by neg trim_space read_integer
    natural digits_from kind_token touch_iou has_prefix run schema has_columns has_all viewed
    cascade readable
init-registry_example =
    init-registry setup (mint ∷ []) start tt services context own_config blank refl refl
      (text "0xaa")

init-DiffersAt_example :
    DiffersAt 1
      (entries_of (read_config services (text "{}")))
      start.db
      (init services context blank start).1.1.db
    × MayMigrate start.catalog (init services context blank start).1.1.catalog
init-DiffersAt_example = init-DiffersAt services context blank start

init-with_defaults_example :
    init (filled services) context blank start ≡ init services context blank start
init-with_defaults_example = init-with_defaults services context blank start
