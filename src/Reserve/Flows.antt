-- ===== src/Reserve/Flows.antt =====
-- Calls that leave the physical token balances of reserves and their asset lists alone.
use clear_evmi_plugin.Prelude.{
  ℕ, ◌≡◌, refl, Option, none, some, nat_equality, list_equality, pair_equality,
}
use clear_evmi_plugin.Text.{Text}
use clear_evmi_plugin.Postgres.{Postgres}
use clear_evmi_plugin.Event.{LogEvent}
use clear_evmi_plugin.Table.{Table}
use clear_evmi_plugin.Db.{Db, AssetRow}
use clear_evmi_plugin.Balances.{Balances, ensure_reserve, touch_reserve}
use clear_evmi_plugin.Valuation.{ParValue, par_value_of}
use clear_evmi_plugin.Snapshot.{
  put_value, store_value, snapshot_reserve_assets, snapshot_reserve_value,
}
use clear_evmi_plugin.Reserve.{Activity, insert_activity, Counter, bump_reserve}
use clear_evmi_plugin.Exec.{where_defined, Exec, write}
use clear_evmi_plugin.Exec.Leaves.{
  Leaves, leave_rules, write-Leaves, where_defined-Leaves, then-Leaves,
}

-- What the flows are about.
pub record Tokens : Type 0 where
  pub balances : Balances
  pub assets : Table (ℕ × Text × Text) AssetRow

abbrev pub tokens_of : Db → Tokens
tokens_of d = record { balances = d.reserve_token_balances; assets = d.reserve_assets }

abbrev pub LeavesTokens : {A : Type 0} → Exec A → Type 1
LeavesTokens m = Leaves tokens_of m

module _ (pg : Postgres) (log : LogEvent) (reserve : Text) where
  pub insert_activity-LeavesTokens :
      (a : Activity) → LeavesTokens (insert_activity pg log reserve a)
  unfolding insert_activity
  insert_activity-LeavesTokens a = search leave_rules depth 12

  put_value-tokens :
      (d : Db) (o : Option ParValue) → tokens_of (put_value pg log reserve d o) ≡ tokens_of d
  unfolding put_value
  put_value-tokens d none = refl
  put_value-tokens d (some p) = refl

  pub snapshot_reserve_value-LeavesTokens : LeavesTokens (snapshot_reserve_value pg log reserve)
  unfolding snapshot_reserve_value store_value snapshot_reserve_assets
  snapshot_reserve_value-LeavesTokens =
      then-Leaves tokens_of (where_defined _ (write (store_value pg log reserve))) _
        (where_defined-Leaves tokens_of _ _ (
          write-Leaves tokens_of _
            (λ d. put_value-tokens d (par_value_of pg d log.chain_id reserve))))
        (where_defined-Leaves tokens_of _ _ (write-Leaves tokens_of _ (λ d. refl)))

  pub bump_reserve-LeavesTokens :
      (c : ℕ) (kind : Text) (col : Counter) (delta : Text) (block : ℕ)
      → LeavesTokens (bump_reserve pg c reserve kind col delta block)
  unfolding bump_reserve ensure_reserve touch_reserve
  bump_reserve-LeavesTokens c kind col delta block = search leave_rules depth 8
