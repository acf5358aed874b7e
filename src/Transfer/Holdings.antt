-- ===== src/Transfer/Holdings.antt =====
-- What an ERC20 holder has, and what a Transfer is to give and to take.
use clear_evmi_plugin.Prelude.{
  ℕ, ◌≡◌, refl, ◌&&◌, not, Option, none, some, ◌==◌, ==-eq, inl, inr, Bool-cases, nat_equality,
  list_equality, pair_equality, triple_equality, if◌then◌else◌,
}
use clear_evmi_plugin.Prelude.Int.{ℤ, pos, ◌+ℤ◌, int_laws}
use clear_evmi_plugin.Text.{Text}
use clear_evmi_plugin.Address.{is_zero_addr}
use clear_evmi_plugin.Table.Laws.{find-upsert, upserted}
use clear_evmi_plugin.Table.Column.{column, value_or_zero}
use clear_evmi_plugin.Table.{find}
use clear_evmi_plugin.Db.{Db, BalanceRow}
use clear_evmi_plugin.Balances.{
  Ledger, reserve_ledger, iou_ledger, curve_ledger, Balances, balances_of, with_balances,
  add_balance,
}
use clear_evmi_plugin.Transfer.{bump_supply}
use clear_evmi_plugin.Records.Positions.{Assets}

abbrev pub Holding : Type 0
Holding = ℕ × Text × Text

abbrev pub balance_of : Ledger → Holding → Db → ℤ
balance_of b key d = column (λ (row : BalanceRow). row.balance) key (balances_of b d)

-- What a holding gains by an amount that goes to one of the keys.
abbrev pub share : Holding → Holding → ℤ → ℤ
share owner key n = if owner == key then n else pos 0

-- What a Transfer on the token takes from a holding: nothing where it mints.
unfoldable pub sent : ℕ → Text → Text → Holding → ℤ → ℤ
sent c token from key n = if is_zero_addr from then pos 0 else share (c, token, from) key n

-- What it gives: nothing where it burns.
unfoldable pub received : ℕ → Text → Text → Text → Holding → ℤ → ℤ
received c token from to key n =
    if not (is_zero_addr from) && is_zero_addr to then pos 0 else share (c, token, to) key n

pub balances_of-with_balances :
    (b : Ledger) (t : Balances) (d : Db) → balances_of b (with_balances b t d) ≡ t
balances_of-with_balances reserve_ledger t d = refl
balances_of-with_balances iou_ledger t d = refl
balances_of-with_balances curve_ledger t d = refl

pub balances_of-bump_supply :
    (b a : Ledger) (c : ℕ) (owner : Text) (n : ℤ) (block : ℕ) (d : Db)
    → balances_of b (bump_supply a c owner n block d) ≡ balances_of b d
unfolding bump_supply
balances_of-bump_supply reserve_ledger reserve_ledger c owner n block d = refl
balances_of-bump_supply reserve_ledger iou_ledger c owner n block d = refl
balances_of-bump_supply reserve_ledger curve_ledger c owner n block d = refl
balances_of-bump_supply iou_ledger reserve_ledger c owner n block d = refl
balances_of-bump_supply iou_ledger iou_ledger c owner n block d = refl
balances_of-bump_supply iou_ledger curve_ledger c owner n block d = refl
balances_of-bump_supply curve_ledger reserve_ledger c owner n block d = refl
balances_of-bump_supply curve_ledger iou_ledger c owner n block d = refl
balances_of-bump_supply curve_ledger curve_ledger c owner n block d = refl

pub balances_of-assets :
    (b : Ledger) (t : Assets) (d : Db)
    → balances_of b (record d { reserve_assets = t }) ≡ balances_of b d
balances_of-assets reserve_ledger t d = refl
balances_of-assets iou_ledger t d = refl
balances_of-assets curve_ledger t d = refl

pub add_balance-column :
    (owner key : Holding) (n : ℤ) (block : ℕ) (t : Balances)
    → column (λ (row : BalanceRow). row.balance) key (add_balance owner n block t)
      ≡ column (λ (row : BalanceRow). row.balance) key t +ℤ share owner key n
unfolding add_balance
add_balance-column owner key n block t =
    rw
      (find-upsert owner key (record { balance = n; last_block = block })
        (λ row. record { balance = row.balance +ℤ n; last_block = block }) t)
      (elim (Bool-cases (owner == key)) [
        | inl met ↦ rw (met, ==-eq owner key met) (by_value (find key t))
        | inr other ↦ rw other (omega int_laws)
      ])
  where
    by_value :
        (o : Option BalanceRow)
        → (upserted
            (record { balance = n; last_block = block })
            (λ row. record { balance = row.balance +ℤ n; last_block = block })
            o).balance
          ≡ value_or_zero (λ (row : BalanceRow). row.balance) o +ℤ n
    by_value none = omega int_laws
    by_value (some row) = refl
