-- ===== src/Balances.antt =====
-- `adjustBalance` and `adjustTokenBalance` of db.go, and the upserts of handlers.go that make sure
-- of a contract's own row.
use clear_evmi_plugin.Prelude.{
  ℕ, ◌||◌, none, ◌==◌, nat_equality, list_equality, pair_equality, triple_equality, max,
  if◌then◌else◌,
}
use clear_evmi_plugin.Prelude.Int.{ℤ, pos, ◌+ℤ◌}
use clear_evmi_plugin.Text.{Text, text}
use clear_evmi_plugin.Args.{is_empty, zero_text}
use clear_evmi_plugin.Postgres.{Postgres}
use clear_evmi_plugin.Table.{Table, upsert}
use clear_evmi_plugin.Db.{Db, BalanceRow, ReserveRow, IouRow, PoolRow}
use clear_evmi_plugin.Exec.{Exec, pure, numeric_arg, write, ◌>>=◌}

-- The three ERC20 ledgers that Transfer events feed: a reserve's LP token, an IOU, and the LP token
-- of a Curve pool, each with its table of balances and its table of tokens.
pub data Ledger : Type 0 where
  reserve_ledger iou_ledger curve_ledger : Ledger

abbrev pub Balances : Type 0
Balances = Table (ℕ × Text × Text) BalanceRow

abbrev pub balances_of : Ledger → Db → Balances
balances_of reserve_ledger d = d.reserve_lp_balances
balances_of iou_ledger d = d.iou_balances
balances_of curve_ledger d = d.curve_lp_balances

abbrev pub with_balances : Ledger → Balances → Db → Db
with_balances reserve_ledger t d = record d { reserve_lp_balances = t }
with_balances iou_ledger t d = record d { iou_balances = t }
with_balances curve_ledger t d = record d { curve_lp_balances = t }

-- INSERT … ON CONFLICT … DO UPDATE SET balance = balance + EXCLUDED.balance
unfoldable pub add_balance : ℕ × Text × Text → ℤ → ℕ → Balances → Balances
add_balance key n block t =
    upsert key (record { balance = n; last_block = block })
      (λ row. record { balance = row.balance +ℤ n; last_block = block }) t

unfoldable pub adjust_balance : Postgres → ℕ → Ledger → Text → Text → Text → ℕ → Exec (Unit {0})
unfolding add_balance
adjust_balance pg chain_id b owner holder delta block = do
  n ← numeric_arg pg delta
  write (λ d. with_balances b (add_balance (chain_id, owner, holder) n block (balances_of b d)) d)

unfoldable pub adjust_token_balance : Postgres → ℕ → Text → Text → Text → ℕ → Exec (Unit {0})
unfolding add_balance
adjust_token_balance pg chain_id reserve asset delta block =
    if is_empty asset || is_empty delta || delta == zero_text || delta == text "-0"
    then pure tt
    else (do
      n ← numeric_arg pg delta
      write (λ d. record d {
        reserve_token_balances =
            add_balance (chain_id, reserve, asset) n block d.reserve_token_balances;
      }))

-- The defaults of a row that is inserted with its key, kind and block alone.
abbrev pub new_reserve : Text → ℕ → ReserveRow
new_reserve kind block = record {
  kind = kind;
  lp_supply = pos 0;
  total_deposits = pos 0;
  total_withdrawals = pos 0;
  iou_minted = pos 0;
  iou_redeemed = pos 0;
  swap_count = 0;
  name = none;
  symbol = none;
  implementation = none;
  reserve_index = none;
  tokens = none;
  factory = none;
  first_block = block;
  last_block = block;
}

abbrev pub new_pool : ℕ → PoolRow
new_pool block = record {
  lp_supply = pos 0;
  swap_count = 0;
  reserve = none;
  base_pool = none;
  coin = none;
  is_base_pool = none;
  deployer = none;
  curve_factory = none;
  name = none;
  symbol = none;
  decimals = none;
  amplification = none;
  fee = none;
  implementation = none;
  is_meta = none;
  coins = none;
  n_coins = none;
  first_block = block;
  last_block = block;
}

abbrev pub new_iou : ℕ → IouRow
new_iou block = record { total_supply = pos 0; treasury_fees = pos 0; last_block = block }

unfoldable pub touch_reserve : ℕ → Text → Text → ℕ → Db → Db
touch_reserve chain_id addr kind block d = record d {
  reserves =
      upsert (chain_id, addr) (new_reserve kind block)
        (λ row. record row { last_block = max row.last_block block }) d.reserves;
}

unfoldable pub ensure_reserve : ℕ → Text → Text → ℕ → Exec (Unit {0})
unfolding touch_reserve
ensure_reserve chain_id addr kind block = write (touch_reserve chain_id addr kind block)

unfoldable pub touch_curve : ℕ → Text → ℕ → Db → Db
touch_curve chain_id addr block d = record d {
  curve_pools =
      upsert (chain_id, addr) (new_pool block)
        (λ row. record row { last_block = max row.last_block block }) d.curve_pools;
}

unfoldable pub ensure_curve : ℕ → Text → ℕ → Exec (Unit {0})
unfolding touch_curve
ensure_curve chain_id addr block = write (touch_curve chain_id addr block)

unfoldable pub touch_iou : ℕ → Text → ℕ → Db → Db
touch_iou chain_id addr block d = record d {
  iou_tokens =
      upsert (chain_id, addr) (new_iou block)
        (λ row. record row { last_block = max row.last_block block }) d.iou_tokens;
}

unfoldable pub ensure_iou : ℕ → Text → ℕ → Exec (Unit {0})
unfolding touch_iou
ensure_iou chain_id addr block = write (touch_iou chain_id addr block)
