-- ===== src/Reserve.antt =====
-- What the handlers of reserve events share in handlers.go: the activity log, the counters of a
-- reserve, and the movements of its physical token balances.
pub mod Events
pub mod Flows
pub mod Balanced
pub mod BalancedEvents
pub mod SwapFlows
pub mod SwapCount
pub mod Assets
use clear_evmi_plugin.Prelude.{
  ℕ, zero, suc, ◌+◌, Bool, true, false, ◌&&◌, not, String, List, [], ◌∷◌, Option, none, some, ◌==◌,
  nat_equality, string_equality, list_equality, pair_equality, leb, if◌then◌else◌,
}
use clear_evmi_plugin.Prelude.Int.{ℤ, ◌+ℤ◌}
use clear_evmi_plugin.Text.{Text, text}
use clear_evmi_plugin.Args.{Args, arg, first_arg, neg, num_or_zero, null_empty, is_empty}
use clear_evmi_plugin.ArrayArg.{ArrayArg, not_array, absent, elements, split_array_arg}
use clear_evmi_plugin.Postgres.{Postgres}
use clear_evmi_plugin.Table.{find, insert_new, modify}
use clear_evmi_plugin.Db.{Db, AssetRow, ReserveRow}
use clear_evmi_plugin.Event.{LogEvent}
use clear_evmi_plugin.Balances.{adjust_token_balance, ensure_reserve}
use clear_evmi_plugin.Valuation.{rows_of}
use clear_evmi_plugin.Exec.{
  Exec, bad_argument, pure, raise, select, numeric_arg, write, ◌>>=◌, ◌>>◌,
}

-- The arguments of `insertActivity` behind the reserve.
pub record Activity : Type 0 where
  pub action : Text
  pub caller : Text
  pub receiver : Text
  pub asset : Text
  pub amount : Text
  pub amount2 : Text
  pub fee : Text
  pub lp : Text

module _ (pg : Postgres) (log : LogEvent) where
  unfoldable pub insert_activity : Text → Activity → Exec (Unit {0})
  insert_activity reserve a = do
    amount ← numeric_arg pg a.amount
    amount2 ← numeric_arg pg a.amount2
    fee ← numeric_arg pg a.fee
    lp ← numeric_arg pg a.lp
    write (λ d. record d {
      reserve_activity =
          insert_new log.id
            (record {
              chain_id = log.chain_id;
              reserve = reserve;
              block_number = log.block_number;
              log_index = log.log_index;
              tx_hash = log.transaction_hash;
              action = a.action;
              caller = null_empty a.caller;
              receiver = null_empty a.receiver;
              asset = null_empty a.asset;
              amount = amount;
              amount2 = amount2;
              fee = fee;
              lp = lp;
            })
            d.reserve_activity;
    })

-- The column names that `bumpReserve` is called with.
pub data Counter : Type 0 where
  total_deposits total_withdrawals iou_minted iou_redeemed : Counter

unfoldable pub bump : Counter → ℤ → ℕ → ReserveRow → ReserveRow
bump total_deposits n block row = record row {
  total_deposits = row.total_deposits +ℤ n;
  last_block = block;
}
bump total_withdrawals n block row = record row {
  total_withdrawals = row.total_withdrawals +ℤ n;
  last_block = block;
}
bump iou_minted n block row = record row { iou_minted = row.iou_minted +ℤ n; last_block = block }
bump iou_redeemed n block row = record row {
  iou_redeemed = row.iou_redeemed +ℤ n;
  last_block = block;
}

unfoldable pub bump_reserve : Postgres → ℕ → Text → Text → Counter → Text → ℕ → Exec (Unit {0})
bump_reserve pg chain_id reserve kind col delta block = do
  ensure_reserve chain_id reserve kind block
  n ← numeric_arg pg delta
  write (λ d. record d { reserves = modify (chain_id, reserve) (bump col n block) d.reserves })

-- A row without a position comes last.
abbrev no_later : Option ℕ → Option ℕ → Bool
no_later (some m) (some n) = leb m n
no_later (some m) none = true
no_later none (some n) = false
no_later none none = true

-- ORDER BY position
insert_by_position : Text × AssetRow → List (Text × AssetRow) → List (Text × AssetRow)
insert_by_position (asset, a) [] = (asset, a) ∷ []
insert_by_position (asset, a) ((other, b) ∷ rows) =
    if no_later a.position b.position
    then (asset, a) ∷ (other, b) ∷ rows
    else (other, b) ∷ insert_by_position (asset, a) rows

unfoldable pub by_position : List (Text × AssetRow) → List (Text × AssetRow)
unfolding insert_by_position
by_position [] = []
by_position (row ∷ rows) = insert_by_position row (by_position rows)

abbrev is_kind : Text → Option ReserveRow → Bool
is_kind kind none = false
is_kind kind (some row) = row.kind == kind

-- the JOIN on `r.address = a.asset AND r.kind = 'base'`
unfoldable pub is_base_lp : Db → ℕ → Text → Bool
is_base_lp d c asset = is_kind (text "base") (find (c, asset) d.reserves)

-- The last leg that is a base reserve's LP token, and the empty text without one.
unfoldable pub last_base_lp : Db → ℕ → List (Text × AssetRow) → Text → Text
last_base_lp d c [] found = found
last_base_lp d c ((asset, a) ∷ rows) found =
    last_base_lp d c rows (if is_base_lp d c asset then asset else found)

unfoldable pub first_other : Text → List (Text × AssetRow) → Text
first_other base_lp [] = []
first_other base_lp ((asset, a) ∷ rows) =
    if not (asset == base_lp) then asset else first_other base_lp rows

-- The native and the BaseLP leg of a meta reserve.
by_order : List (Text × AssetRow) → Text × Text
by_order ((native, a) ∷ (base_lp, b) ∷ []) = (native, base_lp)
by_order rows = ([], [])

unfoldable pub meta_legs : ℕ → Text → Db → Text × Text
unfolding by_order
meta_legs c reserve d =
    let ordered = by_position (rows_of c reserve d.reserve_assets) in
    let base_lp = last_base_lp d c ordered [] in
    if not (is_empty base_lp) then (first_other base_lp ordered, base_lp) else by_order ordered

-- The sign that a flow is applied with.
abbrev pub signed : Bool → Text → Text
signed true v = neg v
signed false v = v

-- `position IS NOT NULL`, and the position is `i`.
abbrev pub is_at : ℕ → Option ℕ → Bool
is_at i none = false
is_at i (some n) = n == i

-- The asset at a position of the asset list, the empty text if there is none.
unfoldable pub asset_at : ℕ → List (Text × AssetRow) → Text → Text
asset_at i [] found = found
asset_at i ((asset, a) ∷ rows) found = asset_at i rows (if is_at i a.position then asset else found)

module _ (pg : Postgres) (chain_id : ℕ) (reserve : Text) (negate : Bool) (block : ℕ) where
  unfoldable pub apply_meta_amounts : Args → Exec (Unit {0})
  apply_meta_amounts args = do
    (native, base_lp) ← select (meta_legs chain_id reserve)
    adjust_token_balance pg chain_id reserve native
        (signed negate (num_or_zero (first_arg args ("nativeIn" ∷ "nativeOut" ∷ [])))) block
    adjust_token_balance pg chain_id reserve base_lp
        (signed negate (num_or_zero (first_arg args ("baseLpIn" ∷ "baseLpOut" ∷ [])))) block

  -- The amounts from position `i` on; one whose asset is unknown is passed over.
  unfoldable pub apply_amounts : List (Text × AssetRow) → ℕ → List Text → Exec (Unit {0})
  apply_amounts rows i [] = pure tt
  apply_amounts rows i (amt ∷ amounts) =
      let asset = asset_at i rows [] in
      let rest = apply_amounts rows (i + 1) amounts in
      if is_empty asset
      then rest
      else (do adjust_token_balance pg chain_id reserve asset (signed negate amt) block; rest)

  unfoldable pub apply_parsed : ArrayArg → Exec (Unit {0})
  apply_parsed not_array = raise bad_argument
  apply_parsed absent = pure tt
  apply_parsed (elements []) = pure tt
  apply_parsed (elements (amt ∷ amounts)) = do
    rows ← select (λ d. rows_of chain_id reserve d.reserve_assets)
    apply_amounts rows 0 (amt ∷ amounts)

  unfoldable pub apply_reserve_amounts : Text → Exec (Unit {0})
  unfolding apply_parsed
  apply_reserve_amounts amounts_arg = apply_parsed (split_array_arg amounts_arg)
