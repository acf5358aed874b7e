-- ===== src/Curve/Deployed.antt =====
-- `handleCurvePoolDeployed` of handlers.go, with `fetchCurvePool` and `eventCoins` of curve.go: a pool
-- that the Curve factory created, whose address its event does not name.
use clear_evmi_plugin.Prelude.{
  ℕ, suc, Bool, ◌||◌, List, [], ◌∷◌, map, Option, none, some, or_else, coalesce, nat_equality,
  list_equality, pair_equality, triple_equality, if◌then◌else◌,
}
use clear_evmi_plugin.Prelude.Int.{ℤ}
use clear_evmi_plugin.Text.{Text}
use clear_evmi_plugin.Address.{norm_addr, is_zero_addr}
use clear_evmi_plugin.Kind.{curve_kind}
use clear_evmi_plugin.Args.{Args, arg, is_empty, null_num, null_empty}
use clear_evmi_plugin.ArrayArg.{split_array_arg}
use clear_evmi_plugin.Number.{coin_decimals}
use clear_evmi_plugin.Postgres.{Postgres}
use clear_evmi_plugin.Table.{upsert, modify}
use clear_evmi_plugin.Db.{Db, PoolRow}
use clear_evmi_plugin.Event.{LogEvent}
use clear_evmi_plugin.Balances.{ensure_curve}
use clear_evmi_plugin.Registry.{track_contract}
use clear_evmi_plugin.Rpc.{Rpc, PoolAnswers}
use clear_evmi_plugin.Token.{TokenMeta, read_answers, no_meta, ensure_token, ensure_tokens}
use clear_evmi_plugin.Factory.{array_elements}
use clear_evmi_plugin.Curve.Resolve.{deployed_pool}
use clear_evmi_plugin.Curve.Host.{PoolIndexing, answered, register_curve_pool_source}
use clear_evmi_plugin.Exec.{Exec, pure, numeric_opt, write, ◌>>=◌, ◌>>◌}

-- The pool of a deployment, or the empty text; an error where the request fails.
unfoldable pub resolve_deployed_pool : Rpc → Text → Text → ℕ → Exec Text
resolve_deployed_pool rpc factory tx_hash deploy_index =
    if rpc.is_zero_hash tx_hash then pure [] else (do
      logs ← answered (rpc.receipt_of tx_hash)
      pure (deployed_pool (rpc.to_address factory) deploy_index logs))

pub record CurvePoolInfo : Type 0 where
  pub token : TokenMeta
  pub implementation : Text
  pub is_meta : Option Bool
  pub coins : List Text
  pub coin_decimals : List Text

abbrev no_info : CurvePoolInfo
no_info = record {
  token = no_meta;
  implementation = [];
  is_meta = none;
  coins = [];
  coin_decimals = [];
}

-- The implementation, unless it is the zero address.
unfoldable pub known_address : Option Text → Text
known_address none = []
known_address (some a) = if is_zero_addr a then [] else norm_addr a

unfoldable pub read_pool : PoolAnswers → CurvePoolInfo
unfolding known_address
read_pool a = record {
  token = read_answers a.token;
  implementation = known_address a.implementation;
  is_meta = a.is_meta;
  coins = map norm_addr (coalesce a.coins []);
  coin_decimals = coalesce a.coin_decimals [];
}

info_of : Option PoolAnswers → CurvePoolInfo
unfolding read_pool
info_of none = no_info
info_of (some a) = read_pool a

-- A request that fails gives no metadata, which is no error.
unfoldable pub fetch_curve_pool : Rpc → Text → Text → CurvePoolInfo
unfolding info_of
fetch_curve_pool rpc factory pool = info_of (rpc.pool_call factory pool)

-- The address, where it is one.
unfoldable pub coin_of : Text → List Text → List Text
coin_of raw rest =
    let addr = norm_addr raw in if is_empty addr || is_zero_addr addr then rest else addr ∷ rest

-- The coins that the event itself names.
unfoldable pub event_coins : Args → Bool → Exec (List Text)
unfolding coin_of
event_coins args meta =
    if meta then pure (coin_of (arg args "coin") (coin_of (arg args "base_pool") [])) else (do
      coins ← array_elements (split_array_arg (arg args "coins"))
      pure (map norm_addr coins))

-- The registry's coins, where it has them.
unfoldable pub coins_of : CurvePoolInfo → Args → Bool → Exec (List Text)
unfolding event_coins
coins_of info args meta = elim info.coins [ [] ↦ event_coins args meta | c ∷ cs ↦ pure (c ∷ cs) ]

-- `jsonStrings`: NULL where there are none. The count alike.
unfoldable pub json_strings : List Text → Option (List Text)
json_strings [] = none
json_strings (c ∷ cs) = some (c ∷ cs)

unfoldable pub length : List Text → ℕ
length [] = 0
length (c ∷ cs) = suc (length cs)

unfoldable pub n_coins_of : List Text → Option ℕ
unfolding length
n_coins_of [] = none
n_coins_of (c ∷ cs) = some (length (c ∷ cs))

-- The columns of a deployment; what another event has linked stays.
unfoldable pub describe_pool :
    LogEvent → CurvePoolInfo → List Text → Bool → Option ℤ → Option ℤ → PoolRow → PoolRow
unfolding json_strings n_coins_of
describe_pool log info coins is_meta amp fee row = record row {
  curve_factory = some (norm_addr log.address);
  is_meta = some is_meta;
  amplification = amp;
  fee = fee;
  name = or_else (null_empty info.token.name) row.name;
  symbol = or_else (null_empty info.token.symbol) row.symbol;
  decimals = or_else info.token.decimals row.decimals;
  implementation = or_else (null_empty info.implementation) row.implementation;
  coins = or_else (json_strings coins) row.coins;
  n_coins = or_else (n_coins_of coins) row.n_coins;
  deployer = or_else row.deployer (null_empty (norm_addr (arg log.args "deployer")));
  base_pool = or_else row.base_pool (null_empty (norm_addr (arg log.args "base_pool")));
  coin = or_else row.coin (null_empty (norm_addr (arg log.args "coin")));
}

unfoldable pub put_coin : ℕ → Text → ℕ → Text → Option ℤ → Db → Db
put_coin chain_id pool position coin decimals d = record d {
  curve_pool_coins =
      upsert (chain_id, pool, position) (record { coin = coin; decimals = decimals })
        (λ row. record { coin = coin; decimals = or_else decimals row.decimals })
        d.curve_pool_coins;
}

-- The coins from a position on.
unfoldable pub put_coins : ℕ → Text → List Text → ℕ → List Text → Exec (Unit {0})
unfolding put_coin
put_coins chain_id pool decimals position [] = pure tt
put_coins chain_id pool decimals position (coin ∷ coins) =
    let rest = put_coins chain_id pool decimals (suc position) coins in
    do write (put_coin chain_id pool position coin (coin_decimals decimals position)); rest

module _ (pg : Postgres) (indexing : PoolIndexing) (log : LogEvent) (meta : Bool) where
  unfoldable pub record_pool : Rpc → Text → Exec (Unit {0})
  record_pool rpc pool =
      let info = fetch_curve_pool rpc (norm_addr log.address) pool in
      do
        coins ← coins_of info log.args meta
        ensure_curve log.chain_id pool log.block_number
        amp ← numeric_opt pg (or_else (null_num log.args "A") (null_num log.args "a"))
        fee ← numeric_opt pg (null_num log.args "fee")
        write (λ d. record d {
          curve_pools =
              modify (log.chain_id, pool)
                (describe_pool log info coins (coalesce info.is_meta meta) amp fee) d.curve_pools;
        })
        ensure_token (some rpc) log.chain_id pool log.block_number info.token
        ensure_tokens (some rpc) log.chain_id coins log.block_number
        put_coins log.chain_id pool info.coin_decimals 0 coins
        track_contract log.chain_id pool curve_kind log.block_number
        register_curve_pool_source indexing log pool

  -- Without an endpoint, or without a pool in the receipt, the event is consumed and that is all.
  unfoldable pub handle_curve_pool_deployed : Option Rpc → Exec (Unit {0})
  handle_curve_pool_deployed none = pure tt
  handle_curve_pool_deployed (some rpc) = do
    pool ← resolve_deployed_pool rpc (norm_addr log.address) log.transaction_hash log.log_index
    if is_empty pool then pure tt else record_pool rpc pool
