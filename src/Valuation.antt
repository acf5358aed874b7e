-- ===== src/Valuation.antt =====
-- The views `clear_reserve_par_values` and `clear_reserve_values` of schema.go, and the daily
-- snapshots of handlers.go that store what they show.
use clear_evmi_plugin.Prelude.{
  ℕ, ◌^◌, ◌&&◌, List, [], ◌∷◌, map, Option, none, some, ◌==◌, nat_equality, list_equality,
  pair_equality, triple_equality, coalesce, if◌then◌else◌,
}
use clear_evmi_plugin.Prelude.Int.{ℤ, pos, ◌+ℤ◌, ◌-ℤ◌, ◌*ℤ◌, is_zero}
use clear_evmi_plugin.Text.{Text, text}
use clear_evmi_plugin.Postgres.{Postgres, Decimal}
use clear_evmi_plugin.Decimal.{of_int, add, subtract, multiply, at_least_zero, power_ten, sum}
use clear_evmi_plugin.Table.{Table, find}
use clear_evmi_plugin.Db.{Db, AssetRow, BalanceRow, OracleRow, ValueRow, AssetValueRow}

-- The rows of one reserve in a table by chain, reserve and asset: the assets and what is stored.
unfoldable pub rows_of {ℓ} : {V : Type ℓ} → ℕ → Text → Table (ℕ × Text × Text) V → List (Text × V)
rows_of c r [] = []
rows_of c r (((i, reserve, asset), v) ∷ t) =
    let rest = rows_of c r t in if i == c && reserve == r then (asset, v) ∷ rest else rest

abbrev pub balance_or_zero : Option BalanceRow → ℤ
balance_or_zero none = pos 0
balance_or_zero (some b) = b.balance

-- `COALESCE(o.redemption_price * 10000000000, 1000000000000000000)`
unfoldable pub redemption_factor : Option OracleRow → Decimal
redemption_factor none = of_int (pos (10 ^ 18))
redemption_factor (some o) = elim o.redemption_price [
  | none ↦ of_int (pos (10 ^ 18))
  | some p ↦ of_int (p *ℤ pos (10 ^ 10))
]

-- `power(10::numeric, 18 - COALESCE(decimals, 18))`
unfoldable pub unit_value : Option ℤ → Decimal
unfolding ◌-ℤ◌
unit_value decimals = power_ten (pos 18 -ℤ coalesce decimals (pos 18))

unfoldable pub par_value : ℤ → Option ℤ → Decimal
unfolding unit_value
par_value units decimals = multiply (of_int units) (unit_value decimals)

-- A row of `clear_reserve_par_values`.
pub record ParValue : Type 0 where
  pub kind : Text
  pub lp_supply : ℤ
  pub gross_assets : Decimal
  pub iou_debt : Decimal
  pub nav : Decimal
  pub avg_redemption : Option Decimal

module _ (pg : Postgres) (d : Db) (c : ℕ) where
  unfoldable pub held : Text → Text → ℤ
  held reserve asset = balance_or_zero (find (c, reserve, asset) d.reserve_token_balances)

  -- the JOIN on a balance row's asset: a balance of an asset that is not registered is left out
  unfoldable pub gross_terms : Text → List (Text × BalanceRow) → List Decimal
  gross_terms r [] = []
  gross_terms r ((asset, b) ∷ rows) =
      let rest = gross_terms r rows in
      elim (find (c, r, asset) d.reserve_assets) [
        | none ↦ rest
        | some a ↦ par_value b.balance a.decimals ∷ rest
      ]

  unfoldable pub gross_par : Text → Decimal
  unfolding gross_terms
  gross_par r = sum (gross_terms r (rows_of c r d.reserve_token_balances))

  unfoldable pub debt_par : Text → Decimal
  debt_par r =
      sum (map (λ (_, a). par_value a.iou_supply a.decimals) (rows_of c r d.reserve_assets))

  unfoldable pub net_par : Text → Text × AssetRow → Decimal
  unfolding held
  net_par r (asset, a) =
      multiply (at_least_zero (of_int (held r asset -ℤ a.iou_supply))) (unit_value a.decimals)

  unfoldable pub weighted : Text → Text × AssetRow → Decimal
  unfolding net_par
  weighted r (asset, a) =
      multiply (net_par r (asset, a)) (redemption_factor (find (c, asset) d.oracle_prices))

  unfoldable pub avg_redemption : Text → Decimal
  unfolding net_par weighted
  avg_redemption r =
      let rows = rows_of c r d.reserve_assets in
      let net = sum (map (net_par r) rows) in
      let total = sum (map (weighted r) rows) in
      if is_zero net.mantissa then of_int (pos 0) else pg.trunc_div total net

  unfoldable pub par_value_of : Text → Option ParValue
  unfolding gross_par debt_par avg_redemption
  par_value_of r = elim (find (c, r) d.reserves) [
    | none ↦ none
    | some row ↦ some (record {
      kind = row.kind;
      lp_supply = row.lp_supply;
      gross_assets = gross_par r;
      iou_debt = debt_par r;
      nav = at_least_zero (subtract (gross_par r) (debt_par r));
      avg_redemption = if row.kind == text "base" then some (avg_redemption r) else none;
    })
  ]

  -- `LEFT JOIN clear_reserve_par_values base ON base.address = a.asset AND base.kind = 'base'`
  unfoldable pub base_of : Text → Option ParValue
  unfolding par_value_of
  base_of asset = elim (par_value_of asset) [
    | none ↦ none
    | some p ↦ if p.kind == text "base" then some p else none
  ]

  -- What `units` of a leg are worth: a token at its redemption price, or a base reserve's LP token
  -- at the base reserve's NAV per share.
  unfoldable pub leg_by_base : ℤ → Text → AssetRow → Option ParValue → Decimal
  leg_by_base units asset a none =
      pg.trunc_div
        (multiply (par_value units a.decimals)
          (redemption_factor (find (c, asset) d.oracle_prices)))
        (of_int (pos (10 ^ 18)))
  leg_by_base units asset a (some base) =
      let share =
        pg.trunc_div (multiply (of_int units) (add base.nav (of_int (pos 1))))
          (of_int (base.lp_supply +ℤ pos 1)) in
      pg.trunc_div (multiply share (coalesce base.avg_redemption (of_int (pos 0))))
        (of_int (pos (10 ^ 18)))

  unfoldable pub leg_value : ℤ → Text → AssetRow → Decimal
  unfolding leg_by_base ◌+ℤ◌
  leg_value units asset a = leg_by_base units asset a (base_of asset)

  unfoldable pub meta_gross : Text → Decimal
  unfolding held
  meta_gross r =
      sum (map (λ (asset, a). leg_value (held r asset) asset a) (rows_of c r d.reserve_assets))

  unfoldable pub meta_debt : Text → Decimal
  meta_debt r =
      sum (map (λ (asset, a). leg_value a.iou_supply asset a) (rows_of c r d.reserve_assets))

  -- A row of `clear_reserve_values`, with the columns that the snapshot takes.
  unfoldable pub value_by_par : Text → ℕ → ℕ → ParValue → ValueRow
  unfolding meta_gross meta_debt
  value_by_par r block timestamp p =
      let meta = p.kind == text "meta" in
      record {
        block_number = block;
        block_timestamp = timestamp;
        total_assets = if meta then meta_gross r else p.gross_assets;
        iou_debt = if meta then meta_debt r else p.iou_debt;
        nav = if meta then at_least_zero (subtract (meta_gross r) (meta_debt r)) else p.nav;
        total_supply = p.lp_supply;
      }

  unfoldable pub asset_value : Text → ℕ → ℕ → Text × AssetRow → AssetValueRow
  unfolding held
  asset_value r block timestamp (asset, a) = record {
    block_number = block;
    block_timestamp = timestamp;
    decimals = a.decimals;
    balance = held r asset;
    iou_supply = a.iou_supply;
    value = leg_value (held r asset) asset a;
    iou_value = leg_value a.iou_supply asset a;
  }
