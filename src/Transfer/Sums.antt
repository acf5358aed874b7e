-- ===== src/Transfer/Sums.antt =====
-- What the holders of a token have together, and its supply, under each statement of a Transfer.
use clear_evmi_plugin.Prelude.{
  ℕ, ◌≡◌, refl, Bool, true, false, ◌&&◌, ◌==◌, nat_equality, list_equality, pair_equality,
  triple_equality, if◌then◌else◌,
}
use clear_evmi_plugin.Prelude.Int.{ℤ, pos, ◌+ℤ◌, int_laws}
use clear_evmi_plugin.Text.{Text}
use clear_evmi_plugin.Table.Column.{column, is_present, column-modify}
use clear_evmi_plugin.Table.Sums.{sum_where, sum_where-upsert}
use clear_evmi_plugin.Db.{Db}
use clear_evmi_plugin.Balances.{
  Ledger, reserve_ledger, iou_ledger, curve_ledger, Balances, balances_of, with_balances,
  add_balance,
}
use clear_evmi_plugin.Transfer.{bump_supply}

abbrev pub is_of : ℕ → Text → ℕ × Text × Text → Bool
is_of c owner key = key.0 == c && key.1 == owner

-- The sum of all holders' balances of the token `owner` on chain `c`.
abbrev pub held : Ledger → ℕ → Text → Db → ℤ
held b c owner d = sum_where (is_of c owner) (λ row. row.balance) (balances_of b d)

-- The supply in the token's own row, 0 without a row.
abbrev pub supply : Ledger → ℕ → Text → Db → ℤ
supply reserve_ledger c owner d = column (λ row. row.lp_supply) (c, owner) d.reserves
supply iou_ledger c owner d = column (λ row. row.total_supply) (c, owner) d.iou_tokens
supply curve_ledger c owner d = column (λ row. row.lp_supply) (c, owner) d.curve_pools

abbrev pub has_row : Ledger → ℕ → Text → Db → Bool
has_row reserve_ledger c owner d = is_present (c, owner) d.reserves
has_row iou_ledger c owner d = is_present (c, owner) d.iou_tokens
has_row curve_ledger c owner d = is_present (c, owner) d.curve_pools

abbrev pub same_token : Ledger → ℕ → Text → Ledger → ℕ → Text → Bool
same_token reserve_ledger i o reserve_ledger c owner = i == c && o == owner
same_token iou_ledger i o iou_ledger c owner = i == c && o == owner
same_token curve_ledger i o curve_ledger c owner = i == c && o == owner
same_token a i o b c owner = false

-- The amount where the ledger and the token are the same, and else 0.
abbrev pub share : Ledger → ℕ → Text → ℤ → Ledger → ℕ → Text → ℤ
share a i o n b c owner = if same_token a i o b c owner then n else pos 0

same_plus_zero : (a : ℤ) → a ≡ a +ℤ pos 0
same_plus_zero a = omega int_laws

abbrev pub adjusted : Ledger → ℕ → Text → Text → ℤ → ℕ → Db → Db
adjusted a i o h n block d = with_balances a (add_balance (i, o, h) n block (balances_of a d)) d

-- The balances of the ledger with one of them adjusted.
module _ (i : ℕ) (o h : Text) (n : ℤ) (block c : ℕ) (owner : Text) where
  balances-adjusted :
      (t : Balances)
      → sum_where (is_of c owner) (λ row. row.balance) (add_balance (i, o, h) n block t)
        ≡ sum_where (is_of c owner) (λ row. row.balance) t
          +ℤ (if i == c && o == owner then n else pos 0)
  unfolding add_balance
  balances-adjusted t =
      sum_where-upsert (is_of c owner) (λ row. row.balance) (i, o, h)
        (record { balance = n; last_block = block })
        (λ row. record { balance = row.balance +ℤ n; last_block = block }) n refl (λ w. refl) t

  module _ (d : Db) where
    pub held-adjusted :
        (a b : Ledger)
        → held b c owner (adjusted a i o h n block d) ≡ held b c owner d +ℤ share a i o n b c owner
    held-adjusted reserve_ledger reserve_ledger = balances-adjusted d.reserve_lp_balances
    held-adjusted reserve_ledger iou_ledger = same_plus_zero (held iou_ledger c owner d)
    held-adjusted reserve_ledger curve_ledger = same_plus_zero (held curve_ledger c owner d)
    held-adjusted iou_ledger reserve_ledger = same_plus_zero (held reserve_ledger c owner d)
    held-adjusted iou_ledger iou_ledger = balances-adjusted d.iou_balances
    held-adjusted iou_ledger curve_ledger = same_plus_zero (held curve_ledger c owner d)
    held-adjusted curve_ledger reserve_ledger = same_plus_zero (held reserve_ledger c owner d)
    held-adjusted curve_ledger iou_ledger = same_plus_zero (held iou_ledger c owner d)
    held-adjusted curve_ledger curve_ledger = balances-adjusted d.curve_lp_balances

    pub supply-adjusted :
        (a b : Ledger) → supply b c owner (adjusted a i o h n block d) ≡ supply b c owner d
    supply-adjusted reserve_ledger reserve_ledger = refl
    supply-adjusted reserve_ledger iou_ledger = refl
    supply-adjusted reserve_ledger curve_ledger = refl
    supply-adjusted iou_ledger reserve_ledger = refl
    supply-adjusted iou_ledger iou_ledger = refl
    supply-adjusted iou_ledger curve_ledger = refl
    supply-adjusted curve_ledger reserve_ledger = refl
    supply-adjusted curve_ledger iou_ledger = refl
    supply-adjusted curve_ledger curve_ledger = refl

    pub has_row-adjusted :
        (a b : Ledger) → has_row b c owner (adjusted a i o h n block d) ≡ has_row b c owner d
    has_row-adjusted reserve_ledger reserve_ledger = refl
    has_row-adjusted reserve_ledger iou_ledger = refl
    has_row-adjusted reserve_ledger curve_ledger = refl
    has_row-adjusted iou_ledger reserve_ledger = refl
    has_row-adjusted iou_ledger iou_ledger = refl
    has_row-adjusted iou_ledger curve_ledger = refl
    has_row-adjusted curve_ledger reserve_ledger = refl
    has_row-adjusted curve_ledger iou_ledger = refl
    has_row-adjusted curve_ledger curve_ledger = refl

module _ (i : ℕ) (o : Text) (n : ℤ) (block c : ℕ) (owner : Text) (d : Db) where
  pub held-bump_supply :
      (a b : Ledger) → held b c owner (bump_supply a i o n block d) ≡ held b c owner d
  unfolding bump_supply
  held-bump_supply reserve_ledger reserve_ledger = refl
  held-bump_supply reserve_ledger iou_ledger = refl
  held-bump_supply reserve_ledger curve_ledger = refl
  held-bump_supply iou_ledger reserve_ledger = refl
  held-bump_supply iou_ledger iou_ledger = refl
  held-bump_supply iou_ledger curve_ledger = refl
  held-bump_supply curve_ledger reserve_ledger = refl
  held-bump_supply curve_ledger iou_ledger = refl
  held-bump_supply curve_ledger curve_ledger = refl

  pub supply-bump_supply :
      (a b : Ledger)
      → has_row a i o d ≡ true
      → supply b c owner (bump_supply a i o n block d)
        ≡ supply b c owner d +ℤ share a i o n b c owner
  unfolding bump_supply
  supply-bump_supply reserve_ledger reserve_ledger there =
      column-modify (λ row. row.lp_supply) (i, o) (c, owner)
        (λ row. record row { lp_supply = row.lp_supply +ℤ n; last_block = block }) n d.reserves
        (λ w. refl) there
  supply-bump_supply reserve_ledger iou_ledger there = same_plus_zero (supply iou_ledger c owner d)
  supply-bump_supply reserve_ledger curve_ledger there =
      same_plus_zero (supply curve_ledger c owner d)
  supply-bump_supply iou_ledger reserve_ledger there =
      same_plus_zero (supply reserve_ledger c owner d)
  supply-bump_supply iou_ledger iou_ledger there =
      column-modify (λ row. row.total_supply) (i, o) (c, owner)
        (λ row. record row { total_supply = row.total_supply +ℤ n; last_block = block }) n
        d.iou_tokens (λ w. refl) there
  supply-bump_supply iou_ledger curve_ledger there = same_plus_zero (supply curve_ledger c owner d)
  supply-bump_supply curve_ledger reserve_ledger there =
      same_plus_zero (supply reserve_ledger c owner d)
  supply-bump_supply curve_ledger iou_ledger there = same_plus_zero (supply iou_ledger c owner d)
  supply-bump_supply curve_ledger curve_ledger there =
      column-modify (λ row. row.lp_supply) (i, o) (c, owner)
        (λ row. record row { lp_supply = row.lp_supply +ℤ n; last_block = block }) n d.curve_pools
        (λ w. refl) there
