-- ===== src/Transfer.antt =====
-- `handleTransfer` of handlers.go: an ERC20 Transfer on a reserve, an IOU or a Curve pool.
pub mod Sums
pub mod Backed
pub mod Supply
pub mod Progress
pub mod Holdings
pub mod Moves
pub mod Spends
use clear_evmi_plugin.Prelude.{
  ℕ, ◌&&◌, Bool, List, [], ◌∷◌, Option, none, some, ◌==◌, nat_equality, list_equality,
  pair_equality, if◌then◌else◌,
}
use clear_evmi_plugin.Prelude.Int.{ℤ, ◌+ℤ◌}
use clear_evmi_plugin.Text.{Text}
use clear_evmi_plugin.Address.{norm_addr, is_zero_addr}
use clear_evmi_plugin.Kind.{
  ContractKind, base_reserve_kind, meta_reserve_kind, iou_kind, curve_kind, reserve_type,
}
use clear_evmi_plugin.Args.{first_arg, neg, is_empty}
use clear_evmi_plugin.Postgres.{Postgres}
use clear_evmi_plugin.Table.{Table, modify}
use clear_evmi_plugin.Db.{Db, AssetRow}
use clear_evmi_plugin.Event.{LogEvent}
use clear_evmi_plugin.Balances.{
  Ledger, reserve_ledger, iou_ledger, curve_ledger, adjust_balance, ensure_reserve, ensure_curve,
  ensure_iou,
}
use clear_evmi_plugin.Snapshot.{snapshot_reserve_value}
use clear_evmi_plugin.Exec.{Exec, Result, ok, err, pure, select, numeric_arg, write, ◌>>=◌, ◌>>◌}

-- The ledger of a kind; a Transfer on any other contract is ignored.
abbrev pub ledger_of : ContractKind → Option Ledger
ledger_of base_reserve_kind = some reserve_ledger
ledger_of meta_reserve_kind = some reserve_ledger
ledger_of iou_kind = some iou_ledger
ledger_of curve_kind = some curve_ledger
ledger_of k = none

unfoldable pub ensure_token_row : Ledger → ℕ → Text → ContractKind → ℕ → Exec (Unit {0})
ensure_token_row reserve_ledger chain_id owner k block =
    ensure_reserve chain_id owner (reserve_type k) block
ensure_token_row iou_ledger chain_id owner k block = ensure_iou chain_id owner block
ensure_token_row curve_ledger chain_id owner k block = ensure_curve chain_id owner block

-- The token's own row, with its supply.
unfoldable pub bump_supply : Ledger → ℕ → Text → ℤ → ℕ → Db → Db
bump_supply reserve_ledger c owner n block d = record d {
  reserves =
      modify (c, owner) (λ row. record row { lp_supply = row.lp_supply +ℤ n; last_block = block })
        d.reserves;
}
bump_supply iou_ledger c owner n block d = record d {
  iou_tokens =
      modify (c, owner)
        (λ row. record row { total_supply = row.total_supply +ℤ n; last_block = block })
        d.iou_tokens;
}
bump_supply curve_ledger c owner n block d = record d {
  curve_pools =
      modify (c, owner) (λ row. record row { lp_supply = row.lp_supply +ℤ n; last_block = block })
        d.curve_pools;
}

-- `iou = $2` of a nullable column
abbrev pub is_iou : Text → AssetRow → Bool
is_iou iou a = elim a.iou [ none ↦ Bool.false | some i ↦ i == iou ]

-- `UPDATE clear_reserve_assets SET iou_supply = iou_supply + $3 WHERE chain_id = $1 AND iou = $2`
unfoldable pub mirror_supply :
    ℕ → Text → ℤ → Table (ℕ × Text × Text) AssetRow → Table (ℕ × Text × Text) AssetRow
mirror_supply c iou n [] = []
mirror_supply c iou n (((i, reserve, asset), a) ∷ t) =
    let row = if i == c && is_iou iou a then record a { iou_supply = a.iou_supply +ℤ n } else a in
    ((i, reserve, asset), row) ∷ mirror_supply c iou n t

unfoldable pub mirror : Ledger → ℕ → Text → ℤ → Exec (Unit {0})
mirror iou_ledger c owner n =
    write (λ d. record d { reserve_assets = mirror_supply c owner n d.reserve_assets })
mirror b c owner n = pure tt

unfoldable pub add_supply : Postgres → Ledger → ℕ → Text → Text → ℕ → Exec (Unit {0})
unfolding mirror
add_supply pg b c owner delta block = do
  n ← numeric_arg pg delta
  write (bump_supply b c owner n block)
  mirror b c owner n

-- `SELECT reserve FROM clear_reserve_assets WHERE chain_id = $1 AND iou = $2 LIMIT 1`: of several
-- rows the first that was inserted.
unfoldable pub reserve_of_iou : ℕ → Text → Table (ℕ × Text × Text) AssetRow → Text
reserve_of_iou c iou [] = []
reserve_of_iou c iou (((i, reserve, asset), a) ∷ t) =
    if i == c && is_iou iou a then reserve else reserve_of_iou c iou t

-- A failed query counts as no row: the error is dropped, but the transaction is spoilt by it.
abbrev pub or_default : {A : Type 0} → A → Result A → A
or_default a (ok b) = b
or_default a (err e) = a

unfoldable pub query_or : {A : Type 0} → A → Exec A → Exec A
query_or a m w = let (r, w') = m w in (ok (or_default a r), w')

unfoldable pub resnapshot : Postgres → LogEvent → Ledger → Text → Exec (Unit {0})
resnapshot pg log iou_ledger owner = do
  reserve ← query_or [] (select (λ d. reserve_of_iou log.chain_id owner d.reserve_assets))
  if is_empty reserve then pure tt else snapshot_reserve_value pg log reserve
resnapshot pg log b owner = pure tt

module _ (pg : Postgres) (log : LogEvent) where
  unfoldable pub move : Ledger → Text → Text → Text → Text → Exec (Unit {0})
  move b owner from to val =
      if is_zero_addr from
      then (do
        adjust_balance pg log.chain_id b owner to val log.block_number
        add_supply pg b log.chain_id owner val log.block_number
        resnapshot pg log b owner)
      else if is_zero_addr to
      then (do
        adjust_balance pg log.chain_id b owner from (neg val) log.block_number
        add_supply pg b log.chain_id owner (neg val) log.block_number
        resnapshot pg log b owner)
      else (do
        adjust_balance pg log.chain_id b owner from (neg val) log.block_number
        adjust_balance pg log.chain_id b owner to val log.block_number)

  unfoldable pub transfer_on : Option Ledger → ContractKind → Text → Text → Text → Exec (Unit {0})
  transfer_on none k from to val = pure tt
  transfer_on (some b) k from to val =
      let owner = norm_addr log.address in
      do ensure_token_row b log.chain_id owner k log.block_number; move b owner from to val

  unfoldable pub handle_transfer : ContractKind → Exec (Unit {0})
  unfolding transfer_on
  handle_transfer k =
      let from = norm_addr (first_arg log.args ("from" ∷ "sender" ∷ [])) in
      let to = norm_addr (first_arg log.args ("to" ∷ "receiver" ∷ [])) in
      let val = first_arg log.args ("value" ∷ []) in
      if is_empty val then pure tt else transfer_on (ledger_of k) k from to val
