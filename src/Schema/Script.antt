-- ===== src/Schema/Script.antt =====
-- The whole script of schema.go, in its order.
use clear_evmi_plugin.Prelude.{List, ◌++◌}
use clear_evmi_plugin.Schema.{Ddl}
use clear_evmi_plugin.Schema.Entities.{tracked_tables, reserve_tables}
use clear_evmi_plugin.Schema.Settings.{reserve_settings_tables, config_tables}
use clear_evmi_plugin.Schema.Holdings.{holding_tables, activity_tables}
use clear_evmi_plugin.Schema.Prices.{iou_tables, price_tables, value_tables}
use clear_evmi_plugin.Schema.Curves.{pool_tables, trade_tables}
use clear_evmi_plugin.Schema.Views.{drop_views, create_views}

unfoldable pub early_tables : List Ddl
unfolding tracked_tables reserve_tables reserve_settings_tables config_tables holding_tables
early_tables =
    tracked_tables
    ++ (reserve_tables ++ (reserve_settings_tables ++ (config_tables ++ holding_tables)))

unfoldable pub late_tables : List Ddl
unfolding activity_tables iou_tables price_tables value_tables pool_tables trade_tables
late_tables =
    activity_tables
    ++ (iou_tables ++ (price_tables ++ (value_tables ++ (pool_tables ++ trade_tables))))

unfoldable pub table_script : List Ddl
unfolding early_tables late_tables
table_script = early_tables ++ late_tables

unfoldable pub schema : List Ddl
unfolding table_script drop_views create_views
schema = table_script ++ (drop_views ++ create_views)
