-- ===== src/Quiet/Shared.antt =====
-- The calls that handlers share are quiet.
use clear_evmi_plugin.Prelude.{
  ℕ, ◌≡◌, refl, ◌==◌, ◌||◌, Option, none, some, max, nat_equality, list_equality, pair_equality,
}
use clear_evmi_plugin.Text.{Text, text}
use clear_evmi_plugin.Args.{is_empty, zero_text}
use clear_evmi_plugin.Postgres.{Postgres}
use clear_evmi_plugin.Event.{LogEvent}
use clear_evmi_plugin.Db.{Db}
use clear_evmi_plugin.Table.Column.{column-upsert}
use clear_evmi_plugin.Balances.{
  adjust_token_balance, touch_reserve, touch_iou, touch_curve, ensure_reserve, ensure_iou,
  ensure_curve, new_reserve, new_iou, new_pool,
}
use clear_evmi_plugin.Valuation.{ParValue, par_value_of}
use clear_evmi_plugin.Snapshot.{
  put_value, store_value, value_divides, snapshot_reserve_assets, snapshot_reserve_value,
}
use clear_evmi_plugin.Exec.{where_defined, pure, numeric_arg, write}
use clear_evmi_plugin.Quiet.{footprint, IsQuiet}
use clear_evmi_plugin.Quiet.Rules.{
  pure-IsQuiet, if-IsQuiet, bind-IsQuiet, then-IsQuiet, write-IsQuiet, write_other-IsQuiet,
  where_defined-IsQuiet, numeric_arg-IsQuiet, reserves-Quietly, iou_tokens-Quietly,
  curve_pools-Quietly,
}

module _ (i : ℕ) (o : Text) (block : ℕ) where
  pub ensure_reserve-IsQuiet : (kind : Text) → IsQuiet (ensure_reserve i o kind block)
  unfolding ensure_reserve touch_reserve
  ensure_reserve-IsQuiet kind = write-IsQuiet (touch_reserve i o kind block) λ d.
      reserves-Quietly d _ λ c owner.
        column-upsert (λ row. row.lp_supply) (i, o) (c, owner) (new_reserve kind block)
          (λ row. record row { last_block = max row.last_block block }) d.reserves refl (λ w. refl)

  pub ensure_iou-IsQuiet : IsQuiet (ensure_iou i o block)
  unfolding ensure_iou touch_iou
  ensure_iou-IsQuiet = write-IsQuiet (touch_iou i o block) λ d. iou_tokens-Quietly d _ λ c owner.
      column-upsert (λ row. row.total_supply) (i, o) (c, owner) (new_iou block)
        (λ row. record row { last_block = max row.last_block block }) d.iou_tokens refl (λ w. refl)

  pub ensure_curve-IsQuiet : IsQuiet (ensure_curve i o block)
  unfolding ensure_curve touch_curve
  ensure_curve-IsQuiet = write-IsQuiet (touch_curve i o block) λ d.
      curve_pools-Quietly d _ λ c owner.
        column-upsert (λ row. row.lp_supply) (i, o) (c, owner) (new_pool block)
          (λ row. record row { last_block = max row.last_block block }) d.curve_pools refl
          (λ w. refl)

module _ (pg : Postgres) where
  pub adjust_token_balance-IsQuiet :
      (c : ℕ) (reserve asset delta : Text) (block : ℕ)
      → IsQuiet (adjust_token_balance pg c reserve asset delta block)
  unfolding adjust_token_balance
  adjust_token_balance-IsQuiet c reserve asset delta block =
      if-IsQuiet (is_empty asset || is_empty delta || delta == zero_text || delta == text "-0")
        (pure tt) _ (pure-IsQuiet tt)
        (bind-IsQuiet (numeric_arg pg delta) _ (numeric_arg-IsQuiet pg delta)
          (λ n. write_other-IsQuiet _ (λ d. refl)))

  module _ (log : LogEvent) where
    put_value-footprint :
        (r : Text) (d : Db) (o : Option ParValue) → footprint (put_value pg log r d o) ≡ footprint d
    unfolding put_value
    put_value-footprint r d none = refl
    put_value-footprint r d (some p) = refl

    pub snapshot_reserve_value-IsQuiet : (r : Text) → IsQuiet (snapshot_reserve_value pg log r)
    unfolding snapshot_reserve_value store_value snapshot_reserve_assets
    snapshot_reserve_value-IsQuiet r =
        then-IsQuiet (where_defined (value_divides pg log r) (write (store_value pg log r))) _
          (where_defined-IsQuiet _ _ (
            write_other-IsQuiet _
              (λ d. put_value-footprint r d (par_value_of pg d log.chain_id r))))
          (where_defined-IsQuiet _ _ (write_other-IsQuiet _ (λ d. refl)))
