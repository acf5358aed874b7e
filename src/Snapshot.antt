-- ===== src/Snapshot.antt =====
-- `snapshotReserveValue` and `snapshotReserveAssets` of handlers.go: the daily value points.
pub mod Daily
pub mod Solvent
use clear_evmi_plugin.Prelude.{
  ℕ, ◌/◌, ◌&&◌, ◌==◌, Bool, true, not, List, [], ◌∷◌, Option, none, some, nat_equality,
  list_equality, pair_equality, triple_equality, leb, if◌then◌else◌,
}
use clear_evmi_plugin.Prelude.Int.{pos, ◌+ℤ◌, is_zero}
use clear_evmi_plugin.Text.{Text, text}
use clear_evmi_plugin.Postgres.{Postgres}
use clear_evmi_plugin.Table.{Table, upsert}
use clear_evmi_plugin.Db.{Db, AssetRow, ValueRow, AssetValueRow}
use clear_evmi_plugin.Event.{LogEvent}
use clear_evmi_plugin.Exec.{Exec, where_defined, write, ◌>>◌}
use clear_evmi_plugin.Valuation.{
  rows_of, base_of, par_value_of, ParValue, value_by_par, asset_value,
}

-- `(to_timestamp(t) AT TIME ZONE 'UTC')::date`, as the number of days since the epoch
unfoldable pub day_of : ℕ → ℕ
day_of timestamp = timestamp / 86400

-- `ON CONFLICT … DO UPDATE SET … WHERE block_number <= EXCLUDED.block_number`
abbrev pub later_value : ValueRow → ValueRow → ValueRow
later_value new old = if leb old.block_number new.block_number then new else old

abbrev pub later_asset_value : AssetValueRow → AssetValueRow → AssetValueRow
later_asset_value new old = if leb old.block_number new.block_number then new else old

abbrev pub divides : Option ParValue → Bool
divides none = true
divides (some base) = not (is_zero (base.lp_supply +ℤ pos 1))

unfoldable pub every_divides : (Text → Option ParValue) → List (Text × AssetRow) → Bool
every_divides base_of_asset [] = true
every_divides base_of_asset ((asset, a) ∷ rows) =
    divides (base_of_asset asset) && every_divides base_of_asset rows

module _ (pg : Postgres) (log : LogEvent) where
  -- no row of the view, no row inserted
  unfoldable pub put_value : Text → Db → Option ParValue → Db
  put_value r d none = d
  put_value r d (some p) =
      let row = value_by_par pg d log.chain_id r log.block_number log.block_timestamp p in
      record d {
        reserve_value_history =
            upsert (log.chain_id, r, day_of log.block_timestamp) row (later_value row)
              d.reserve_value_history;
      }

  unfoldable pub store_value : Text → Db → Db
  unfolding put_value
  store_value r d = put_value r d (par_value_of pg d log.chain_id r)

  -- Every row's figures are read before any is written: a statement sees the tables as they were.
  unfoldable pub store_assets :
      Text
      → Db
      → List (Text × AssetRow)
      → Table (ℕ × Text × (Text × ℕ)) AssetValueRow
      → Table (ℕ × Text × (Text × ℕ)) AssetValueRow
  store_assets r d [] t = t
  store_assets r d ((asset, a) ∷ rows) t =
      let row = asset_value pg d log.chain_id r log.block_number log.block_timestamp (asset, a) in
      store_assets r d rows (
        upsert (log.chain_id, r, (asset, day_of log.block_timestamp)) row (later_asset_value row) t)

  -- `base.lp_supply + 1` of every leg whose asset is a base reserve is a divisor.
  unfoldable pub legs_divide : Text → Db → Bool
  legs_divide r d =
      every_divides (λ asset. base_of pg d log.chain_id asset)
        (rows_of log.chain_id r d.reserve_assets)

  -- Only a meta reserve's value is taken from its legs.
  unfoldable pub value_divides : Text → Db → Bool
  unfolding legs_divide
  value_divides r d = elim (par_value_of pg d log.chain_id r) [
    | none ↦ true
    | some p ↦ if p.kind == text "meta" then legs_divide r d else true
  ]

  unfoldable pub snapshot_reserve_assets : Text → Exec (Unit {0})
  unfolding store_assets legs_divide
  snapshot_reserve_assets r = where_defined (legs_divide r) (
      write (λ d. record d {
        reserve_asset_history =
            store_assets r d (rows_of log.chain_id r d.reserve_assets) d.reserve_asset_history;
      }))

  unfoldable pub snapshot_reserve_value : Text → Exec (Unit {0})
  unfolding store_value value_divides snapshot_reserve_assets
  snapshot_reserve_value r = do
    where_defined (value_divides r) (write (store_value r))
    snapshot_reserve_assets r
