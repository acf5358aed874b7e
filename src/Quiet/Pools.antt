-- ===== src/Quiet/Pools.antt =====
-- The handler of a pool that the Curve factory created is quiet, with its requests to the host.
use clear_evmi_plugin.Prelude.{
  ℕ, zero, suc, refl, Bool, true, false, List, [], ◌∷◌, if◌then◌else◌, Option, none, some,
  nat_equality, list_equality, pair_equality,
}
use clear_evmi_plugin.Prelude.Int.{ℤ}
use clear_evmi_plugin.Text.{Text}
use clear_evmi_plugin.Args.{Args}
use clear_evmi_plugin.Postgres.{Postgres}
use clear_evmi_plugin.Event.{LogEvent}
use clear_evmi_plugin.Table.{modify}
use clear_evmi_plugin.Db.{Db}
use clear_evmi_plugin.Rpc.{Rpc, Host, LogSource}
use clear_evmi_plugin.Curve.Host.{
  PoolIndexing, remember_abi, answered, known_or_new, abi_from, curve_pool_abi_id,
  create_log_source, register_with, register_curve_pool_source,
}
use clear_evmi_plugin.Curve.Deployed.{
  resolve_deployed_pool, CurvePoolInfo, event_coins, coins_of, describe_pool, put_coins,
  record_pool, handle_curve_pool_deployed,
}
use clear_evmi_plugin.Exec.{World, ok, pure, raise, write, request_failed}
use clear_evmi_plugin.Exec.Ensures.{Claims}
use clear_evmi_plugin.Quiet.{Quietly, IsQuiet}
use clear_evmi_plugin.Quiet.Rules.{
  pure-IsQuiet, raise-IsQuiet, then-IsQuiet, write-IsQuiet, write_other-IsQuiet,
  modify_pool-Quietly, quiet_rules,
}
use clear_evmi_plugin.Quiet.Discovery.{discovery_rules}

answered-IsQuiet : {A : Type 0} (o : Option A) → IsQuiet (answered o)
unfolding answered
answered-IsQuiet none = raise-IsQuiet request_failed
answered-IsQuiet (some a) = pure-IsQuiet a

remember_abi-IsQuiet : (id : ℕ) → IsQuiet (remember_abi id)
unfolding remember_abi
remember_abi-IsQuiet id = record { keeps = λ d. record { run = λ w p. p } }

known_or_new-IsQuiet :
    (host : Host) (name : Text) (o : Option ℕ) → IsQuiet (known_or_new host name o)
unfolding known_or_new
known_or_new-IsQuiet host name (some id) = remember_abi-IsQuiet id
known_or_new-IsQuiet host name none =
    search (quiet_rules, answered-IsQuiet, remember_abi-IsQuiet) depth 6

abi_from-IsQuiet : (host : Host) (name : Text) (n : ℕ) → IsQuiet (abi_from host name n)
unfolding abi_from
abi_from-IsQuiet host name (suc id) = pure-IsQuiet (suc id)
abi_from-IsQuiet host name zero =
    search (quiet_rules, answered-IsQuiet, known_or_new-IsQuiet) depth 6

curve_pool_abi_id-IsQuiet : (host : Host) (name : Text) → IsQuiet (curve_pool_abi_id host name)
unfolding curve_pool_abi_id
curve_pool_abi_id-IsQuiet host name = record {
  keeps =
      λ d. record { run = λ w p. ((abi_from-IsQuiet host name w.curve_abi_id).keeps d).run w p };
}

create_log_source-IsQuiet :
    (host : Host) (source : LogSource) → IsQuiet (create_log_source host source)
unfolding create_log_source
create_log_source-IsQuiet host source = record {
  keeps = λ d. record { run = λ w p. by_answer d w p (host.accepts_source source) };
}
  where
    by_answer :
        (d : Db) (w : World)
        → Quietly d w.db
        → (b : Bool)
        → Claims {A = Unit {0}}
            (λ _. Quietly d)
            (if b
              then (ok tt, record w { sources = source ∷ w.sources })
              else raise request_failed w)
    by_answer d w p true = p
    by_answer d w p false = tt

register_with-IsQuiet :
    (o : Option Host) (name : Text) (log : LogEvent) (pool : Text)
    → IsQuiet (register_with o name log pool)
unfolding register_with
register_with-IsQuiet none name log pool = pure-IsQuiet tt
register_with-IsQuiet (some host) name log pool =
    search (quiet_rules, curve_pool_abi_id-IsQuiet, create_log_source-IsQuiet) depth 6

register_curve_pool_source-IsQuiet :
    (indexing : PoolIndexing) (log : LogEvent) (pool : Text)
    → IsQuiet (register_curve_pool_source indexing log pool)
unfolding register_curve_pool_source
register_curve_pool_source-IsQuiet indexing log pool =
    search (quiet_rules, register_with-IsQuiet) depth 6

resolve_deployed_pool-IsQuiet :
    (rpc : Rpc) (factory tx_hash : Text) (i : ℕ)
    → IsQuiet (resolve_deployed_pool rpc factory tx_hash i)
unfolding resolve_deployed_pool
resolve_deployed_pool-IsQuiet rpc factory tx_hash i = search (quiet_rules, answered-IsQuiet) depth 6

event_coins-IsQuiet : (args : Args) (meta : Bool) → IsQuiet (event_coins args meta)
unfolding event_coins
event_coins-IsQuiet args meta = search discovery_rules depth 6

coins_of-IsQuiet :
    (info : CurvePoolInfo) (args : Args) (meta : Bool) → IsQuiet (coins_of info args meta)
unfolding coins_of
coins_of-IsQuiet info args meta = by_value info.coins
  where
    by_value :
        (cs : List Text)
        → IsQuiet {A = List Text} (elim cs [ [] ↦ event_coins args meta | c ∷ cs ↦ pure (c ∷ cs) ])
    by_value [] = event_coins-IsQuiet args meta
    by_value (c ∷ cs) = pure-IsQuiet (c ∷ cs)

put_coins-IsQuiet :
    (c : ℕ) (pool : Text) (decimals : List Text) (position : ℕ) (coins : List Text)
    → IsQuiet (put_coins c pool decimals position coins)
unfolding put_coins
put_coins-IsQuiet c pool decimals position [] = pure-IsQuiet tt
put_coins-IsQuiet c pool decimals position (coin ∷ coins) =
    then-IsQuiet _ _ (write_other-IsQuiet _ (λ d. refl))
      (put_coins-IsQuiet c pool decimals (suc position) coins)

module _ (pg : Postgres) (indexing : PoolIndexing) (log : LogEvent) (meta : Bool) where
  describe_pool-IsQuiet :
      (pool : Text) (info : CurvePoolInfo) (coins : List Text) (b : Bool) (amp fee : Option ℤ)
      → IsQuiet (
          write (λ d. record d {
            curve_pools =
                modify (log.chain_id, pool) (describe_pool log info coins b amp fee) d.curve_pools;
          }))
  unfolding describe_pool
  describe_pool-IsQuiet pool info coins b amp fee =
      write-IsQuiet _ (λ d. modify_pool-Quietly (log.chain_id, pool) d _ (λ w. refl))

  record_pool-IsQuiet :
      (rpc : Rpc) (pool : Text) → IsQuiet (record_pool pg indexing log meta rpc pool)
  unfolding record_pool
  record_pool-IsQuiet rpc pool =
      search
        (
          discovery_rules, coins_of-IsQuiet, describe_pool-IsQuiet, put_coins-IsQuiet,
          register_curve_pool_source-IsQuiet,
        )
        depth 16

  pub handle_curve_pool_deployed-IsQuiet :
      (rpc : Option Rpc) → IsQuiet (handle_curve_pool_deployed pg indexing log meta rpc)
  unfolding handle_curve_pool_deployed
  handle_curve_pool_deployed-IsQuiet none = pure-IsQuiet tt
  handle_curve_pool_deployed-IsQuiet (some rpc) =
      search (quiet_rules, resolve_deployed_pool-IsQuiet, record_pool-IsQuiet) depth 6
