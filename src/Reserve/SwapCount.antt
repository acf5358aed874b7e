-- ===== src/Reserve/SwapCount.antt =====
-- `handleReserveSwap`, by the number of swaps that a reserve's row counts.
use clear_evmi_plugin.Prelude.{
  ℕ, String, ◌≡◌, refl, Bool, true, ◌&&◌, Option, none, some, ◌==◌, string_equality, nat_equality,
  list_equality, pair_equality,
}
use clear_evmi_plugin.Text.{Text}
use clear_evmi_plugin.Address.{norm_addr}
use clear_evmi_plugin.Kind.{ContractKind}
use clear_evmi_plugin.Postgres.{Postgres}
use clear_evmi_plugin.Event.{LogEvent}
use clear_evmi_plugin.Table.{Table, find}
use clear_evmi_plugin.Table.Tallies.{Tallies, Owes, touch-Tallies, insert-Owes, count-Tallies}
use clear_evmi_plugin.Table.Column.{is_present}
use clear_evmi_plugin.Db.{Db, ReserveRow, SwapRow}
use clear_evmi_plugin.Balances.{adjust_token_balance, ensure_reserve, touch_reserve}
use clear_evmi_plugin.Valuation.{ParValue, par_value_of}
use clear_evmi_plugin.Snapshot.{
  put_value, store_value, snapshot_reserve_assets, snapshot_reserve_value,
}
use clear_evmi_plugin.Reserve.Events.{
  reserve, flow, ensure_own, insert_swap, count_swap, handle_reserve_swap,
}
use clear_evmi_plugin.Exec.{where_defined, write}
use clear_evmi_plugin.Exec.Leaves.{
  Leaves, leave_rules, write-Leaves, where_defined-Leaves, then-Leaves,
}
use clear_evmi_plugin.Exec.Ensures.{Ensures, Ensures-write, Ensures-then, Ensures-read}

-- Whether a swap is one of the reserve at an address of a chain.
abbrev pub is_swap_of : ℕ × Text → SwapRow → Bool
is_swap_of key row = row.chain_id == key.0 && row.reserve == key.1

abbrev pub swap_count_of : ReserveRow → ℕ
swap_count_of row = row.swap_count

-- The row of every reserve counts the rows of its swaps; a reserve without a row has none.
abbrev pub CountsSwaps : Db → Type 0
CountsSwaps d = Tallies swap_count_of is_swap_of d.reserves d.reserve_swaps

record SwapTables : Type 0 where
  reserves : Table (ℕ × Text) ReserveRow
  swaps : Table String SwapRow

abbrev swap_tables : Db → SwapTables
swap_tables d = record { reserves = d.reserves; swaps = d.reserve_swaps }

module _ (pg : Postgres) (log : LogEvent) where
  adjust_token_balance-Leaves :
      (c : ℕ) (owner asset delta : Text) (block : ℕ)
      → Leaves swap_tables (adjust_token_balance pg c owner asset delta block)
  unfolding adjust_token_balance
  adjust_token_balance-Leaves c owner asset delta block = search leave_rules depth 8

  put_value-swap_tables :
      (owner : Text) (d : Db) (o : Option ParValue)
      → swap_tables (put_value pg log owner d o) ≡ swap_tables d
  unfolding put_value
  put_value-swap_tables owner d none = refl
  put_value-swap_tables owner d (some p) = refl

  snapshot-Leaves : (owner : Text) → Leaves swap_tables (snapshot_reserve_value pg log owner)
  unfolding snapshot_reserve_value store_value snapshot_reserve_assets
  snapshot-Leaves owner =
      then-Leaves swap_tables (where_defined _ (write (store_value pg log owner))) _
        (where_defined-Leaves swap_tables _ _ (
          write-Leaves swap_tables _
            (λ d. put_value-swap_tables owner d (par_value_of pg d log.chain_id owner))))
        (where_defined-Leaves swap_tables _ _ (write-Leaves swap_tables _ (λ d. refl)))

module _ (pg : Postgres) (log : LogEvent) (k : ContractKind) where
  abbrev own : ℕ × Text
  own = (log.chain_id, norm_addr log.address)

  abbrev IsNew : Db → Type 0
  IsNew d = find log.id d.reserve_swaps ≡ none

  abbrev IsReady : SwapTables → Type 0
  IsReady t =
      Tallies swap_count_of is_swap_of t.reserves t.swaps
      × (is_present own t.reserves ≡ true)
      × (find log.id t.swaps ≡ none)

  abbrev IsOwed : SwapTables → Type 0
  IsOwed t = Owes swap_count_of is_swap_of own t.reserves t.swaps

  ensure_own-IsReady :
      Ensures (λ d. CountsSwaps d × IsNew d) (ensure_own pg log k) (λ _ d. IsReady (swap_tables d))
  unfolding ensure_own ensure_reserve touch_reserve reserve
  ensure_own-IsReady = Ensures-write _ (λ d p.
      let (tallies, present) =
        touch-Tallies swap_count_of is_swap_of own d.reserves d.reserve_swaps _ _ refl (λ w. refl)
          p.0 in
      (tallies, present, p.1))

  insert_swap-IsOwed :
      Ensures (λ d. IsReady (swap_tables d)) (insert_swap pg log k) (λ _ d. IsOwed (swap_tables d))
  unfolding insert_swap reserve
  insert_swap-IsOwed = Ensures-read pg _ _ (λ a. Ensures-read pg _ _ (λ b. Ensures-read pg _ _ (λ c.
      Ensures-read pg _ _ (λ t. Ensures-read pg _ _ (λ u. Ensures-read pg _ _ (λ l.
        Ensures-write _ (λ d p.
          insert-Owes swap_count_of is_swap_of own d.reserves d.reserve_swaps log.id _ (λ j. refl)
            p.2 p.0 p.1)))))))

  count_swap-CountsSwaps :
      Ensures (λ d. IsOwed (swap_tables d)) (write (count_swap pg log k)) (λ _. CountsSwaps)
  unfolding count_swap reserve
  count_swap-CountsSwaps =
      Ensures-write _ (λ d p.
        count-Tallies swap_count_of is_swap_of own d.reserves d.reserve_swaps _ (λ w. refl) p)

  -- Where the row of every reserve counts its swaps, and no swap has the log's id, it is so after a
  -- swap that is handled without an error.
  pub handle_reserve_swap-CountsSwaps :
      Ensures
        (λ d. CountsSwaps d × (find log.id d.reserve_swaps ≡ none))
        (handle_reserve_swap pg log k)
        (λ _. CountsSwaps)
  unfolding handle_reserve_swap flow reserve
  handle_reserve_swap-CountsSwaps =
      let owner = norm_addr log.address in
      let Owed : Db → Type 0 = λ d. IsOwed (swap_tables d) in
      Ensures-then _ _ (λ d. IsReady (swap_tables d)) _ ensure_own-IsReady
        (Ensures-then _ _ Owed _ insert_swap-IsOwed (
          Ensures-then _ _ Owed _
            ((adjust_token_balance-Leaves pg log log.chain_id owner _ _ log.block_number).keeps
              IsOwed)
            (Ensures-then _ _ Owed _
              ((adjust_token_balance-Leaves pg log log.chain_id owner _ _ log.block_number).keeps
                IsOwed)
              (Ensures-then _ _ Owed _ ((snapshot-Leaves pg log owner).keeps IsOwed)
                count_swap-CountsSwaps))))
