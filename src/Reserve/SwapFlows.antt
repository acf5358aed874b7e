-- ===== src/Reserve/SwapFlows.antt =====
-- `handleReserveSwap`, by what it does to the reserve's physical token balances.
use clear_evmi_plugin.Prelude.{
  ℕ, ◌≡◌, refl, ◌∙◌, [], ◌∷◌, some, string_equality, nat_equality, list_equality, pair_equality,
  triple_equality, if◌then◌else◌,
}
use clear_evmi_plugin.Prelude.Int.{ℤ, pos, ◌+ℤ◌, ◌-ℤ◌, int_laws}
use clear_evmi_plugin.Text.{Text}
use clear_evmi_plugin.Address.{norm_addr}
use clear_evmi_plugin.Args.{arg, num, neg, is_empty}
use clear_evmi_plugin.Kind.{ContractKind}
use clear_evmi_plugin.Postgres.{Postgres}
use clear_evmi_plugin.Event.{LogEvent}
use clear_evmi_plugin.Table.Column.{column}
use clear_evmi_plugin.Db.{BalanceRow}
use clear_evmi_plugin.Balances.{adjust_token_balance, ensure_reserve, touch_reserve}
use clear_evmi_plugin.Transfer.Holdings.{Holding, share}
use clear_evmi_plugin.Reserve.Events.{
  reserve, flow, ensure_own, insert_swap, count_swap, handle_reserve_swap,
}
use clear_evmi_plugin.Reserve.Flows.{
  Tokens, LeavesTokens, tokens_of, snapshot_reserve_value-LeavesTokens,
}
use clear_evmi_plugin.Reserve.Balanced.{token_balance, adjust_token_balance-column}
use clear_evmi_plugin.Exec.{write}
use clear_evmi_plugin.Exec.Leaves.{leave_rules, write-Leaves}
use clear_evmi_plugin.Exec.Ensures.{Ensures, Ensures-pure, Ensures-then}

-- What a flow of a token moves at a holding; a flow without a token moves nothing.
unfoldable pub moved_by : ℕ → Text → Text → Holding → ℤ → ℤ
moved_by c reserve asset key n = if is_empty asset then pos 0 else share (c, reserve, asset) key n

plus_zero : (x : ℤ) → x ≡ x +ℤ pos 0
plus_zero x = omega int_laws

module _ (pg : Postgres) (key : Holding) where
  flow-column :
      (x n : ℤ) (c : ℕ) (reserve asset v : Text) (block : ℕ)
      → pg.numeric v ≡ some n
      → Ensures
          (λ d. token_balance key d ≡ x)
          (adjust_token_balance pg c reserve asset v block)
          (λ _ d. token_balance key d ≡ x +ℤ moved_by c reserve asset key n)
  unfolding moved_by adjust_token_balance
  flow-column x n c reserve asset v block read = by_asset asset
    where
      by_asset :
          (asset : Text)
          → Ensures
              (λ d. token_balance key d ≡ x)
              (adjust_token_balance pg c reserve asset v block)
              (λ _ d.
                token_balance key d
                ≡ x +ℤ (if is_empty asset then pos 0 else share (c, reserve, asset) key n))
      by_asset [] = Ensures-pure tt _ (λ d p. p ∙ plus_zero x)
      by_asset (b ∷ asset) =
          adjust_token_balance-column pg key x n c reserve (b ∷ asset) v block refl read

module _ (pg : Postgres) (log : LogEvent) (k : ContractKind) where
  ensure_own-LeavesTokens : LeavesTokens (ensure_own pg log k)
  unfolding ensure_own ensure_reserve touch_reserve
  ensure_own-LeavesTokens = write-Leaves tokens_of _ (λ d. refl)

  insert_swap-LeavesTokens : LeavesTokens (insert_swap pg log k)
  unfolding insert_swap
  insert_swap-LeavesTokens = search leave_rules depth 14

  count_swap-LeavesTokens : LeavesTokens (write (count_swap pg log k))
  unfolding count_swap
  count_swap-LeavesTokens = write-Leaves tokens_of _ (λ d. refl)

  -- Where the database reads the amount in as `a` and the `neg` of the amount out as `-b`, a swap that
  -- is handled without an error adds `a` to the reserve's balance of the token in and takes `b` from
  -- its balance of the token out, a token that the log does not name passed over, and changes no other
  -- holding.
  pub swap-balance :
      (key : Holding) (x a b : ℤ)
      → pg.numeric (num log.args "amountIn") ≡ some a
      → pg.numeric (neg (num log.args "amountOut")) ≡ some (pos 0 -ℤ b)
      → let own = norm_addr log.address in
        Ensures
          (λ d. token_balance key d ≡ x)
          (handle_reserve_swap pg log k)
          (λ _ d.
            token_balance key d
            ≡ x
              +ℤ moved_by log.chain_id own (norm_addr (arg log.args "tokenIn")) key a
              +ℤ moved_by log.chain_id own (norm_addr (arg log.args "tokenOut")) key (pos 0 -ℤ b))
  unfolding handle_reserve_swap flow reserve
  swap-balance key x a b amount_in amount_out =
      let own = norm_addr log.address in
      let At : ℤ → Tokens → Type 0 =
        λ y t. column (λ (row : BalanceRow). row.balance) key t.balances ≡ y in
      let y : ℤ = x +ℤ moved_by log.chain_id own (norm_addr (arg log.args "tokenIn")) key a in
      let z : ℤ =
        y +ℤ moved_by log.chain_id own (norm_addr (arg log.args "tokenOut")) key (pos 0 -ℤ b) in
      Ensures-then _ _ (λ d. token_balance key d ≡ x) _ (ensure_own-LeavesTokens.keeps (At x))
        (Ensures-then _ _ (λ d. token_balance key d ≡ x) _ (insert_swap-LeavesTokens.keeps (At x))
          (Ensures-then _ _ (λ d. token_balance key d ≡ y) _
            (flow-column pg key x a log.chain_id own _ _ log.block_number amount_in)
            (Ensures-then _ _ (λ d. token_balance key d ≡ z) _
              (flow-column pg key y (pos 0 -ℤ b) log.chain_id own _ _ log.block_number amount_out)
              (Ensures-then _ _ (λ d. token_balance key d ≡ z) _
                ((snapshot_reserve_value-LeavesTokens pg log own).keeps (At z))
                (count_swap-LeavesTokens.keeps (At z))))))
