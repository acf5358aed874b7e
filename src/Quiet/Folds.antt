-- ===== src/Quiet/Folds.antt =====
-- The handlers that fold setters and prices into one row, and the treasury's fee, are quiet.
use clear_evmi_plugin.Prelude.{
  ℕ, ◌≡◌, refl, List, [], ◌∷◌, ◌==◌, Option, none, some, list_equality, nat_equality,
}
use clear_evmi_plugin.Prelude.Int.{ℤ}
use clear_evmi_plugin.Text.{Text, text}
use clear_evmi_plugin.Kind.{ContractKind}
use clear_evmi_plugin.Postgres.{Postgres}
use clear_evmi_plugin.Event.{LogEvent}
use clear_evmi_plugin.Table.{Table}
use clear_evmi_plugin.Db.{Db, Cell, OracleRow}
use clear_evmi_plugin.Iou.{add_fee, handle_iou_treasury_fee}
use clear_evmi_plugin.Patch.{
  convert, PatchTable, reserve_settings, protocol_config, curve_deployer_config, patch_table,
  patch_pairs, pairs_of, upsert_patch, handle_reserve_settings, handle_curve_deployer_config,
  handle_factory_config, handle_factory_implementation,
}
use clear_evmi_plugin.Oracle.{
  fold_oracle, with_asset, fold, append_price, handle_oracle_configured, handle_oracle_rate,
  handle_oracle_redemption, handle_oracle_invalidated, handle_oracle_publish,
  handle_oracle_max_confidence,
}
use clear_evmi_plugin.Exec.{write}
use clear_evmi_plugin.Quiet.{footprint, IsQuiet}
use clear_evmi_plugin.Quiet.Rules.{
  pure-IsQuiet, raise-IsQuiet, if-IsQuiet, bind-IsQuiet, write-IsQuiet, write_other-IsQuiet,
  numeric_arg-IsQuiet, modify_iou-Quietly, quiet_rules,
}
use clear_evmi_plugin.Quiet.Additions.{add_price-IsQuiet}
use clear_evmi_plugin.Quiet.Shared.{ensure_reserve-IsQuiet, ensure_iou-IsQuiet}

module _ (pg : Postgres) where
  convert-IsQuiet : (pairs : List (Text × Text)) → IsQuiet (convert pg pairs)
  unfolding convert
  convert-IsQuiet [] = pure-IsQuiet []
  convert-IsQuiet ((col, val) ∷ pairs) =
      let rest = convert-IsQuiet pairs in
      if-IsQuiet (col == text "curve_factory") _ _ (bind-IsQuiet _ _ rest (λ cells. pure-IsQuiet _))
        (bind-IsQuiet _ _ (numeric_arg-IsQuiet pg val)
          (λ n. bind-IsQuiet _ _ rest (λ cells. pure-IsQuiet _)))

  module _ (log : LogEvent) where
    patch_table-footprint :
        (table : PatchTable) (key : ℕ × Text) (kind : Text) (new : Table Text Cell) (block : ℕ)
        (d : Db)
        → footprint (patch_table table key kind new block d) ≡ footprint d
    unfolding patch_table
    patch_table-footprint reserve_settings key kind new block d = refl
    patch_table-footprint protocol_config key kind new block d = refl
    patch_table-footprint curve_deployer_config key kind new block d = refl

    patch_table-IsQuiet :
        (table : PatchTable) (key : ℕ × Text) (kind : Text) (new : Table Text Cell) (block : ℕ)
        → IsQuiet (write (patch_table table key kind new block))
    patch_table-IsQuiet table key kind new block =
        write_other-IsQuiet _ (patch_table-footprint table key kind new block)

    patch_pairs-IsQuiet :
        (table : PatchTable) (addr kind : Text) (o : Option (List (Text × Text)))
        → IsQuiet (patch_pairs pg log table addr kind o)
    unfolding patch_pairs
    patch_pairs-IsQuiet table addr kind none = raise-IsQuiet _
    patch_pairs-IsQuiet table addr kind (some pairs) =
        search (quiet_rules, convert-IsQuiet, patch_table-IsQuiet) depth 8

    upsert_patch-IsQuiet :
        (table : PatchTable) (addr kind : Text) (col_vals : List Text)
        → IsQuiet (upsert_patch pg log table addr kind col_vals)
    unfolding upsert_patch
    upsert_patch-IsQuiet table addr kind col_vals =
        patch_pairs-IsQuiet table addr kind (pairs_of col_vals)

    pub handle_reserve_settings-IsQuiet :
        (k : ContractKind) (col_vals : List Text)
        → IsQuiet (handle_reserve_settings pg log k col_vals)
    unfolding handle_reserve_settings
    handle_reserve_settings-IsQuiet k col_vals =
        search (quiet_rules, ensure_reserve-IsQuiet, upsert_patch-IsQuiet) depth 8

    pub handle_curve_deployer_config-IsQuiet :
        (col_vals : List Text) → IsQuiet (handle_curve_deployer_config pg log col_vals)
    unfolding handle_curve_deployer_config
    handle_curve_deployer_config-IsQuiet col_vals = upsert_patch-IsQuiet _ _ _ col_vals

    pub handle_factory_config-IsQuiet :
        (col value : Text) → IsQuiet (handle_factory_config pg log col value)
    unfolding handle_factory_config
    handle_factory_config-IsQuiet col value = search (quiet_rules, patch_table-IsQuiet) depth 8

    pub handle_factory_implementation-IsQuiet :
        (impl_col version_col : Text)
        → IsQuiet (handle_factory_implementation pg log impl_col version_col)
    unfolding handle_factory_implementation
    handle_factory_implementation-IsQuiet impl_col version_col =
        search (quiet_rules, patch_table-IsQuiet) depth 8

    fold-IsQuiet : (set : OracleRow → OracleRow) → IsQuiet (fold pg log set)
    unfolding fold fold_oracle
    fold-IsQuiet set = write_other-IsQuiet _ (λ d. refl)

    ruleset oracle_rules = (quiet_rules, fold-IsQuiet, add_price-IsQuiet)

    pub handle_oracle_configured-IsQuiet : IsQuiet (handle_oracle_configured pg log)
    unfolding handle_oracle_configured with_asset
    handle_oracle_configured-IsQuiet = search oracle_rules depth 12

    pub handle_oracle_rate-IsQuiet : IsQuiet (handle_oracle_rate pg log)
    unfolding handle_oracle_rate with_asset append_price
    handle_oracle_rate-IsQuiet = search oracle_rules depth 12

    pub handle_oracle_redemption-IsQuiet : IsQuiet (handle_oracle_redemption pg log)
    unfolding handle_oracle_redemption with_asset
    handle_oracle_redemption-IsQuiet = search oracle_rules depth 12

    pub handle_oracle_invalidated-IsQuiet : IsQuiet (handle_oracle_invalidated pg log)
    unfolding handle_oracle_invalidated with_asset
    handle_oracle_invalidated-IsQuiet = search oracle_rules depth 12

    pub handle_oracle_publish-IsQuiet : IsQuiet (handle_oracle_publish pg log)
    unfolding handle_oracle_publish with_asset
    handle_oracle_publish-IsQuiet = search oracle_rules depth 12

    pub handle_oracle_max_confidence-IsQuiet : IsQuiet (handle_oracle_max_confidence pg log)
    unfolding handle_oracle_max_confidence with_asset
    handle_oracle_max_confidence-IsQuiet = search oracle_rules depth 12

    add_fee-IsQuiet :
        (c : ℕ) (token : Text) (n : ℤ) (block : ℕ) → IsQuiet (write (add_fee c token n block))
    unfolding add_fee
    add_fee-IsQuiet c token n block =
        write-IsQuiet _ (λ d. modify_iou-Quietly (c, token) d _ (λ w. refl))

    pub handle_iou_treasury_fee-IsQuiet : IsQuiet (handle_iou_treasury_fee pg log)
    unfolding handle_iou_treasury_fee
    handle_iou_treasury_fee-IsQuiet =
        search (quiet_rules, ensure_iou-IsQuiet, add_fee-IsQuiet) depth 9
