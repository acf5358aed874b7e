-- ===== src/Quiet/Discovery.antt =====
-- The handlers that discover contracts and tokens are quiet, and so is the lookup of a log's kind.
use clear_evmi_plugin.Prelude.{
  ℕ, String, refl, Bool, List, [], ◌∷◌, Option, none, some, nat_equality, list_equality,
  pair_equality,
}
use clear_evmi_plugin.Prelude.Int.{ℤ}
use clear_evmi_plugin.Text.{Text}
use clear_evmi_plugin.Address.{norm_addr}
use clear_evmi_plugin.Args.{Args, arg}
use clear_evmi_plugin.Kind.{ContractKind}
use clear_evmi_plugin.ArrayArg.{
  ArrayArg, not_array, absent, elements, split_array_arg, json_elements, json_array_arg,
}
use clear_evmi_plugin.Postgres.{Postgres}
use clear_evmi_plugin.Event.{LogEvent}
use clear_evmi_plugin.Table.{find}
use clear_evmi_plugin.Db.{Db}
use clear_evmi_plugin.Rpc.{Rpc, TokenAnswers}
use clear_evmi_plugin.Registry.{remember_kind, track_contract, discover, resolve_kind}
use clear_evmi_plugin.Token.{
  TokenMeta, fetch_token_meta, meta_for, register_token, ensure_token, ensure_tokens, read_answers,
}
use clear_evmi_plugin.Reserve.Assets.{handle_asset_added, dispatch_asset_added}
use clear_evmi_plugin.Factory.{
  array_elements, describe_reserve, create_reserve, handle_new_clear_reserve,
}
use clear_evmi_plugin.Curve.{
  count_curve_swap, insert_curve_swap, handle_curve_swap, handle_curve_liquidity, link_pool,
  handle_pool_deployed,
}
use clear_evmi_plugin.Exec.{World, pure, raise, write, request_failed}
use clear_evmi_plugin.Exec.Ensures.{Claims}
use clear_evmi_plugin.Quiet.{Quietly, IsQuiet}
use clear_evmi_plugin.Quiet.Rules.{
  pure-IsQuiet, raise-IsQuiet, if-IsQuiet, bind-IsQuiet, then-IsQuiet, write-IsQuiet,
  write_other-IsQuiet, statement-IsQuiet, modify_reserve-Quietly, modify_pool-Quietly, quiet_rules,
}
use clear_evmi_plugin.Quiet.Additions.{
  persist_contract-IsQuiet, claim_token-IsQuiet, store_meta-IsQuiet, list_asset-IsQuiet,
  add_curve_swap-IsQuiet, add_liquidity-IsQuiet,
}
use clear_evmi_plugin.Quiet.Shared.{
  ensure_reserve-IsQuiet, ensure_iou-IsQuiet, ensure_curve-IsQuiet,
}

remember_kind-IsQuiet : (addr : Text) (k : ContractKind) → IsQuiet (remember_kind addr k)
unfolding remember_kind
remember_kind-IsQuiet addr k = record { keeps = λ d. record { run = λ w p. p } }

ruleset registry_rules = (quiet_rules, remember_kind-IsQuiet, persist_contract-IsQuiet)

pub track_contract-IsQuiet :
    (c : ℕ) (addr : Text) (k : ContractKind) (block : ℕ) → IsQuiet (track_contract c addr k block)
unfolding track_contract
track_contract-IsQuiet c addr k block = search registry_rules depth 8

discover-IsQuiet : (log : LogEvent) (addr : Text) → IsQuiet (discover log addr)
unfolding discover
discover-IsQuiet log addr = search registry_rules depth 8

pub resolve_kind-IsQuiet : (log : LogEvent) → IsQuiet (resolve_kind log)
unfolding resolve_kind
resolve_kind-IsQuiet log = record {
  keeps = λ d. record { run = λ w p. by_value d w p (find (norm_addr log.address) w.registry) };
}
  where
    by_value :
        (d : Db) (w : World)
        → Quietly d w.db
        → (o : Option ContractKind)
        → Claims {A = ContractKind}
            (λ _. Quietly d)
            (elim o [ some k ↦ pure k w | none ↦ discover log (norm_addr log.address) w ])
    by_value d w p (some k) = p
    by_value d w p none = ((discover-IsQuiet log (norm_addr log.address)).keeps d).run w p

module _ (rpc : Option Rpc) (c : ℕ) where
  fetch_token_meta-IsQuiet : (r : Rpc) (addr : Text) → IsQuiet (fetch_token_meta r addr)
  unfolding fetch_token_meta
  fetch_token_meta-IsQuiet r addr = by_value (r.token_call addr)
    where
      by_value :
          (o : Option TokenAnswers)
          → IsQuiet {A = TokenMeta}
              (elim o [ none ↦ raise request_failed | some a ↦ pure (read_answers a) ])
      by_value none = raise-IsQuiet _
      by_value (some a) = pure-IsQuiet _

  meta_for-IsQuiet :
      (r : Option Rpc) (addr : Text) (created : Bool) (hints : TokenMeta)
      → IsQuiet (meta_for r addr created hints)
  unfolding meta_for
  meta_for-IsQuiet none addr created hints = pure-IsQuiet hints
  meta_for-IsQuiet (some r) addr created hints =
      search (quiet_rules, fetch_token_meta-IsQuiet) depth 8

  register_token-IsQuiet :
      (addr : Text) (block : ℕ) (hints : TokenMeta)
      → IsQuiet (register_token rpc c addr block hints)
  unfolding register_token
  register_token-IsQuiet addr block hints =
      search (quiet_rules, claim_token-IsQuiet, meta_for-IsQuiet, store_meta-IsQuiet) depth 8

  pub ensure_token-IsQuiet :
      (raw : Text) (block : ℕ) (hints : TokenMeta) → IsQuiet (ensure_token rpc c raw block hints)
  unfolding ensure_token
  ensure_token-IsQuiet raw block hints = search (quiet_rules, register_token-IsQuiet) depth 8

  pub ensure_tokens-IsQuiet :
      (addrs : List Text) (block : ℕ) → IsQuiet (ensure_tokens rpc c addrs block)
  unfolding ensure_tokens
  ensure_tokens-IsQuiet [] block = pure-IsQuiet tt
  ensure_tokens-IsQuiet (addr ∷ addrs) block =
      then-IsQuiet _ _ (ensure_token-IsQuiet addr block _) (ensure_tokens-IsQuiet addrs block)

pub array_elements-IsQuiet : (a : ArrayArg) → IsQuiet (array_elements a)
unfolding array_elements
array_elements-IsQuiet not_array = raise-IsQuiet _
array_elements-IsQuiet absent = pure-IsQuiet []
array_elements-IsQuiet (elements els) = pure-IsQuiet els

pub json_array_arg-IsQuiet :
    (args : Args) (key : String) (lower : Bool) → IsQuiet (json_array_arg args key lower)
unfolding json_array_arg json_elements
json_array_arg-IsQuiet args key lower = by_value (split_array_arg (arg args key))
  where
    by_value : (a : ArrayArg) → IsQuiet (json_elements lower a)
    by_value not_array = raise-IsQuiet _
    by_value absent = pure-IsQuiet none
    by_value (elements els) = pure-IsQuiet _

pub ruleset discovery_rules = (
  quiet_rules, ensure_reserve-IsQuiet, ensure_iou-IsQuiet, ensure_curve-IsQuiet,
  track_contract-IsQuiet, ensure_token-IsQuiet, ensure_tokens-IsQuiet, array_elements-IsQuiet,
  json_array_arg-IsQuiet, add_curve_swap-IsQuiet, add_liquidity-IsQuiet,
)

module _ (pg : Postgres) (rpc : Option Rpc) (log : LogEvent) where
  handle_asset_added-IsQuiet : (k : ContractKind) → IsQuiet (handle_asset_added pg rpc log k)
  unfolding handle_asset_added
  handle_asset_added-IsQuiet k = search (discovery_rules, list_asset-IsQuiet) depth 14

  pub dispatch_asset_added-IsQuiet :
      (k : ContractKind) → IsQuiet (dispatch_asset_added pg rpc log k)
  unfolding dispatch_asset_added
  dispatch_asset_added-IsQuiet k = search (discovery_rules, handle_asset_added-IsQuiet) depth 8

  describe_reserve-IsQuiet :
      (reserve : Text) (index : Option ℤ) (tokens : Option (List Text))
      → IsQuiet (write (describe_reserve log reserve index tokens))
  unfolding describe_reserve
  describe_reserve-IsQuiet reserve index tokens =
      write-IsQuiet _ (λ d. modify_reserve-Quietly (log.chain_id, reserve) d _ (λ w. refl))

  create_reserve-IsQuiet :
      (reserve : Text) (k : ContractKind) → IsQuiet (create_reserve pg rpc log reserve k)
  unfolding create_reserve
  create_reserve-IsQuiet reserve k = search (discovery_rules, describe_reserve-IsQuiet) depth 14

  pub handle_new_clear_reserve-IsQuiet : IsQuiet (handle_new_clear_reserve pg rpc log)
  unfolding handle_new_clear_reserve
  handle_new_clear_reserve-IsQuiet = search (quiet_rules, create_reserve-IsQuiet) depth 8

  count_curve_swap-IsQuiet : IsQuiet (write (count_curve_swap pg log))
  unfolding count_curve_swap
  count_curve_swap-IsQuiet = write-IsQuiet _ (λ d. modify_pool-Quietly _ d _ (λ w. refl))

  insert_curve_swap-IsQuiet : (underlying : Bool) → IsQuiet (insert_curve_swap pg log underlying)
  unfolding insert_curve_swap
  insert_curve_swap-IsQuiet underlying = search (quiet_rules, add_curve_swap-IsQuiet) depth 12

  pub handle_curve_swap-IsQuiet :
      (underlying : Bool) → IsQuiet (handle_curve_swap pg log underlying)
  unfolding handle_curve_swap
  handle_curve_swap-IsQuiet underlying =
      search (discovery_rules, insert_curve_swap-IsQuiet, count_curve_swap-IsQuiet) depth 8

  pub handle_curve_liquidity-IsQuiet : (kind : Text) → IsQuiet (handle_curve_liquidity pg log kind)
  unfolding handle_curve_liquidity
  handle_curve_liquidity-IsQuiet kind = search discovery_rules depth 14

  link_pool-IsQuiet :
      (pool coin : Text) (is_base : Bool) → IsQuiet (write (link_pool rpc log pool coin is_base))
  unfolding link_pool
  link_pool-IsQuiet pool coin is_base =
      write-IsQuiet _ (λ d. modify_pool-Quietly (log.chain_id, pool) d _ (λ w. refl))

  pub handle_pool_deployed-IsQuiet : IsQuiet (handle_pool_deployed rpc log)
  unfolding handle_pool_deployed
  handle_pool_deployed-IsQuiet = search (discovery_rules, link_pool-IsQuiet) depth 10
