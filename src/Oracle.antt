-- ===== src/Oracle.antt =====
-- The oracle handlers of handlers.go: one row for each asset, of which every event patches its own
-- columns, and the history of prices.
pub mod Invalidated
use clear_evmi_plugin.Prelude.{
  ℕ, none, some, nat_equality, list_equality, pair_equality, string_equality, if◌then◌else◌,
}
use clear_evmi_plugin.Prelude.Int.{ℤ, pos}
use clear_evmi_plugin.Text.{Text}
use clear_evmi_plugin.Address.{norm_addr}
use clear_evmi_plugin.Args.{arg, num, null_num, is_empty, parse_bool}
use clear_evmi_plugin.Postgres.{Postgres}
use clear_evmi_plugin.Table.{upsert, insert_new}
use clear_evmi_plugin.Db.{Db, OracleRow}
use clear_evmi_plugin.Event.{LogEvent}
use clear_evmi_plugin.Exec.{Exec, pure, numeric_arg, numeric_opt, write, ◌>>=◌, ◌>>◌}

-- A row of an asset that no event has set any column of.
abbrev pub no_oracle_row : ℕ → OracleRow
no_oracle_row block = record {
  oracle = none;
  enabled = none;
  asset_decimals = none;
  oracle_decimals = none;
  price_ttl = none;
  price = none;
  redemption_price = none;
  publish_time = none;
  last_refresh = none;
  last_block = block;
  max_confidence_bps = none;
}

-- INSERT of the columns that `set` sets, ON CONFLICT DO UPDATE of the same. Every handler's inserted
-- row is its update of a row of NULLs.
unfoldable pub fold_oracle : ℕ → Text → ℕ → (OracleRow → OracleRow) → Db → Db
fold_oracle c asset block set d = record d {
  oracle_prices = upsert (c, asset) (set (no_oracle_row block)) set d.oracle_prices;
}

module _ (pg : Postgres) (log : LogEvent) where
  unfoldable pub asset : Text
  asset = norm_addr (arg log.args "asset")

  -- Without an asset there is no row to write.
  unfoldable pub with_asset : Exec (Unit {0}) → Exec (Unit {0})
  unfolding asset
  with_asset m = if is_empty asset then pure tt else m

  unfoldable pub fold : (OracleRow → OracleRow) → Exec (Unit {0})
  unfolding asset
  fold set = write (fold_oracle log.chain_id asset log.block_number set)

  unfoldable pub handle_oracle_configured : Exec (Unit {0})
  unfolding with_asset fold
  handle_oracle_configured = with_asset do
    asset_decimals ← numeric_opt pg (null_num log.args "assetDecimals")
    oracle_decimals ← numeric_opt pg (null_num log.args "oracleDecimals")
    price_ttl ← numeric_opt pg (null_num log.args "priceTTL")
    redemption_price ← numeric_opt pg (null_num log.args "redemptionPrice")
    fold (λ row. record row {
      oracle = some (norm_addr log.address);
      enabled = parse_bool (arg log.args "enabled");
      asset_decimals = asset_decimals;
      oracle_decimals = oracle_decimals;
      price_ttl = price_ttl;
      redemption_price = redemption_price;
      last_refresh = some log.block_timestamp;
      last_block = log.block_number;
    })

  unfoldable pub append_price : ℤ → Db → Db
  unfolding asset
  append_price price d = record d {
    oracle_price_history =
        insert_new log.id
          (record {
            chain_id = log.chain_id;
            asset = asset;
            block_number = log.block_number;
            block_timestamp = log.block_timestamp;
            price = price;
          })
          d.oracle_price_history;
  }

  unfoldable pub handle_oracle_rate : Exec (Unit {0})
  unfolding with_asset fold append_price
  handle_oracle_rate = with_asset do
    price ← numeric_arg pg (num log.args "price")
    fold (λ row. record row {
      oracle = some (norm_addr log.address);
      price = some price;
      last_refresh = some log.block_timestamp;
      last_block = log.block_number;
    })
    write (append_price price)

  unfoldable pub handle_oracle_redemption : Exec (Unit {0})
  unfolding with_asset fold
  handle_oracle_redemption = with_asset do
    redemption_price ← numeric_arg pg (num log.args "redemptionPrice")
    fold (λ row. record row {
      redemption_price = some redemption_price;
      last_refresh = some log.block_timestamp;
      last_block = log.block_number;
    })

  unfoldable pub handle_oracle_invalidated : Exec (Unit {0})
  unfolding with_asset fold
  handle_oracle_invalidated = with_asset (
      fold (λ row. record row {
        oracle = some (norm_addr log.address);
        price = some (pos 0);
        publish_time = none;
        last_refresh = some log.block_timestamp;
        last_block = log.block_number;
      }))

  unfoldable pub handle_oracle_max_confidence : Exec (Unit {0})
  unfolding with_asset fold
  handle_oracle_max_confidence = with_asset do
    bps ← numeric_arg pg (num log.args "maxConfidenceBps")
    fold (λ row. record row { max_confidence_bps = some bps; last_block = log.block_number })

  unfoldable pub handle_oracle_publish : Exec (Unit {0})
  unfolding with_asset fold
  handle_oracle_publish = with_asset do
    price ← numeric_arg pg (num log.args "price")
    publish_time ← numeric_opt pg (null_num log.args "publishTime")
    fold (λ row. record row {
      price = some price;
      publish_time = publish_time;
      last_refresh = some log.block_timestamp;
      last_block = log.block_number;
    })
