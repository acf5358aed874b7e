-- ===== src/Reserve/Assets.antt =====
-- `handleAssetAdded` of handlers.go: an asset joins a reserve, with the IOU minted against it.
use clear_evmi_plugin.Prelude.{
  ℕ, suc, ◌||◌, not, List, [], ◌∷◌, Option, some, nat_equality, list_equality, triple_equality,
  if◌then◌else◌,
}
use clear_evmi_plugin.Prelude.Int.{ℤ, pos}
use clear_evmi_plugin.Text.{Text}
use clear_evmi_plugin.Address.{norm_addr, is_zero_addr}
use clear_evmi_plugin.Kind.{ContractKind, iou_kind, reserve_type}
use clear_evmi_plugin.Args.{arg, first_arg, is_empty, null_num, null_empty}
use clear_evmi_plugin.Number.{null_int}
use clear_evmi_plugin.Postgres.{Postgres}
use clear_evmi_plugin.Table.{upsert}
use clear_evmi_plugin.Db.{Db}
use clear_evmi_plugin.Event.{LogEvent}
use clear_evmi_plugin.Balances.{ensure_reserve, ensure_iou}
use clear_evmi_plugin.Registry.{track_contract}
use clear_evmi_plugin.Rpc.{Rpc}
use clear_evmi_plugin.Token.{no_meta, ensure_token}
use clear_evmi_plugin.Valuation.{rows_of}
use clear_evmi_plugin.Exec.{Exec, pure, numeric_opt, write, when, ◌>>=◌, ◌>>◌}

-- `SELECT count(*)`
unfoldable pub count {ℓ} : {A : Type ℓ} → List A → ℕ
count [] = 0
count (x ∷ xs) = suc (count xs)

-- The asset at the end of the reserve's list, or its columns refreshed where it is listed.
unfoldable pub list_asset : ℕ → Text → Text → Option ℤ → Option Text → Option ℤ → Db → Db
list_asset c reserve asset decimals iou weight d = record d {
  reserve_assets =
      upsert (c, reserve, asset)
        (record {
          decimals = decimals;
          iou = iou;
          position = some (count (rows_of c reserve d.reserve_assets));
          iou_supply = pos 0;
          weight = weight;
        })
        (λ row. record row { decimals = decimals; iou = iou; weight = weight }) d.reserve_assets;
}

module _ (pg : Postgres) (rpc : Option Rpc) (log : LogEvent) (k : ContractKind) where
  unfoldable pub handle_asset_added : Exec (Unit {0})
  handle_asset_added =
      let reserve = norm_addr log.address in
      let asset = norm_addr (arg log.args "asset") in
      let iou = norm_addr (arg log.args "iou") in
      do
        ensure_reserve log.chain_id reserve (reserve_type k) log.block_number
        when (not (is_empty iou || is_zero_addr iou)) (ensure_iou log.chain_id iou log.block_number)
        ensure_token rpc log.chain_id asset log.block_number
            (record { name = []; symbol = []; decimals = null_int log.args "decimals" })
        ensure_token rpc log.chain_id iou log.block_number no_meta
        ensure_token rpc log.chain_id reserve log.block_number no_meta
        decimals ← numeric_opt pg (null_num log.args "decimals")
        weight ← numeric_opt pg (null_num log.args "weight")
        write (list_asset log.chain_id reserve asset decimals (null_empty iou) weight)

  -- The case of `dispatchReserve`: the announced IOU is tracked from then on.
  unfoldable pub dispatch_asset_added : Exec (Unit {0})
  dispatch_asset_added =
      let iou = norm_addr (first_arg log.args ("iou" ∷ [])) in
      do
        handle_asset_added
        if is_empty iou || is_zero_addr iou
            then pure tt
            else track_contract log.chain_id iou iou_kind log.block_number
