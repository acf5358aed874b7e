-- ===== src/Schema/Views.antt =====
-- The two views of schema.go, dropped and created anew: their columns, and what they read. What they
-- compute is Valuation.
use clear_evmi_plugin.Prelude.{String, List, [], ◌∷◌}
use clear_evmi_plugin.Schema.{Ddl, Read, drop_view, create_view}

abbrev pub par_view : String
par_view = "clear_reserve_par_values"

abbrev pub value_view : String
value_view = "clear_reserve_values"

abbrev pub value_outputs : List String
value_outputs =
    "chain_id" ∷ "address" ∷ "kind" ∷ "lp_supply" ∷ "gross_assets" ∷ "iou_debt" ∷ "nav" ∷ []

abbrev pub par_outputs : List String
par_outputs =
    "chain_id" ∷ "address" ∷ "kind" ∷ "lp_supply" ∷ "gross_assets" ∷ "iou_debt" ∷ "nav"
    ∷ "avg_redemption" ∷ []

-- What both views read of the holdings of a reserve and of the prices.
abbrev pub holding_reads : List Read
holding_reads =
    ("clear_reserve_token_balances", "chain_id" ∷ "reserve" ∷ "asset" ∷ "balance" ∷ [])
    ∷ ("clear_reserve_assets", "chain_id" ∷ "reserve" ∷ "asset" ∷ "decimals" ∷ "iou_supply" ∷ [])
    ∷ ("clear_oracle_prices", "chain_id" ∷ "asset" ∷ "redemption_price" ∷ [])
    ∷ []

abbrev pub par_reads : List Read
par_reads = ("clear_reserves", "chain_id" ∷ "address" ∷ "kind" ∷ "lp_supply" ∷ []) ∷ holding_reads

abbrev pub value_reads : List Read
value_reads =
    (
      par_view,
      "chain_id" ∷ "address" ∷ "kind" ∷ "lp_supply" ∷ "gross_assets" ∷ "iou_debt" ∷ "nav"
          ∷ "avg_redemption" ∷ [],
    )
    ∷ holding_reads

unfoldable pub drop_views : List Ddl
drop_views = drop_view value_view ∷ drop_view par_view ∷ []

unfoldable pub create_views : List Ddl
create_views =
    create_view par_view par_outputs par_reads
    ∷ create_view value_view value_outputs value_reads
    ∷ []
