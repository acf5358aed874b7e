-- ===== src/Curve/SwapCount.antt =====
-- `handleCurveSwap`, by the number of swaps that a pool's row counts.
use clear_evmi_plugin.Prelude.{
  ℕ, ◌≡◌, refl, Bool, ◌&&◌, none, ◌==◌, string_equality, nat_equality, list_equality, pair_equality,
  true,
}
use clear_evmi_plugin.Text.{Text}
use clear_evmi_plugin.Address.{norm_addr}
use clear_evmi_plugin.Postgres.{Postgres}
use clear_evmi_plugin.Event.{LogEvent}
use clear_evmi_plugin.Table.{find}
use clear_evmi_plugin.Table.Tallies.{Tallies, Owes, touch-Tallies, insert-Owes, count-Tallies}
use clear_evmi_plugin.Table.Column.{is_present}
use clear_evmi_plugin.Db.{Db, PoolRow, CurveSwapRow}
use clear_evmi_plugin.Balances.{ensure_curve, touch_curve}
use clear_evmi_plugin.Curve.{insert_curve_swap, count_curve_swap, handle_curve_swap}
use clear_evmi_plugin.Exec.Ensures.{Ensures, Ensures-write, Ensures-then, Ensures-read}

-- Whether a swap is one of the pool at an address of a chain.
abbrev pub is_trade_of : ℕ × Text → CurveSwapRow → Bool
is_trade_of key row = row.chain_id == key.0 && row.pool == key.1

abbrev pub trade_count_of : PoolRow → ℕ
trade_count_of row = row.swap_count

-- The row of every pool counts the rows of its swaps; a pool without a row has none.
abbrev pub CountsTrades : Db → Type 0
CountsTrades d = Tallies trade_count_of is_trade_of d.curve_pools d.curve_swaps

module _ (pg : Postgres) (log : LogEvent) where
  abbrev pool : ℕ × Text
  pool = (log.chain_id, norm_addr log.address)

  abbrev IsReady : Db → Type 0
  IsReady d =
      CountsTrades d × (is_present pool d.curve_pools ≡ true) × (find log.id d.curve_swaps ≡ none)

  abbrev IsOwed : Db → Type 0
  IsOwed d = Owes trade_count_of is_trade_of pool d.curve_pools d.curve_swaps

  ensure_curve-IsReady :
      Ensures
        (λ d. CountsTrades d × (find log.id d.curve_swaps ≡ none))
        (ensure_curve log.chain_id (norm_addr log.address) log.block_number)
        (λ _. IsReady)
  unfolding ensure_curve touch_curve
  ensure_curve-IsReady = Ensures-write _ (λ d p.
      let (tallies, present) =
        touch-Tallies trade_count_of is_trade_of pool d.curve_pools d.curve_swaps _ _ refl
          (λ w. refl) p.0 in
      (tallies, present, p.1))

  insert_curve_swap-IsOwed :
      (underlying : Bool) → Ensures IsReady (insert_curve_swap pg log underlying) (λ _. IsOwed)
  unfolding insert_curve_swap
  insert_curve_swap-IsOwed underlying = Ensures-read pg _ _ (λ a. Ensures-read pg _ _ (λ b.
      Ensures-read pg _ _ (λ c. Ensures-read pg _ _ (λ t. Ensures-write _ (λ d p.
        insert-Owes trade_count_of is_trade_of pool d.curve_pools d.curve_swaps log.id _ (λ j. refl)
          p.2 p.0 p.1)))))

  -- Where the row of every Curve pool counts its swaps, and no swap has the log's id, it is so after an
  -- exchange, of the pool's own coins or of underlying ones, that is handled without an error.
  pub handle_curve_swap-CountsTrades :
      (underlying : Bool)
      → Ensures
          (λ d. CountsTrades d × (find log.id d.curve_swaps ≡ none))
          (handle_curve_swap pg log underlying)
          (λ _. CountsTrades)
  unfolding handle_curve_swap count_curve_swap
  handle_curve_swap-CountsTrades underlying = Ensures-then _ _ IsReady _ ensure_curve-IsReady (
      Ensures-then _ _ IsOwed _ (insert_curve_swap-IsOwed underlying) (
        Ensures-write _ (λ d p.
          count-Tallies trade_count_of is_trade_of pool d.curve_pools d.curve_swaps _ (λ w. refl)
            p)))
