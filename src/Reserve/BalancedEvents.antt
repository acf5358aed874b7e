-- ===== src/Reserve/BalancedEvents.antt =====
-- `handleReserveDeposit` and `handleReserveWithdraw` of a base reserve, by what they do to its
-- physical token balances.
use clear_evmi_plugin.Prelude.{
  ◌≡◌, subst, Bool, true, false, List, [], ◌∷◌, string_equality, nat_equality, list_equality,
  triple_equality, sym, ◌∙◌,
}
use clear_evmi_plugin.Prelude.Int.{ℤ, pos, ◌+ℤ◌, ◌-ℤ◌, int_laws}
use clear_evmi_plugin.Text.{Text}
use clear_evmi_plugin.Address.{norm_addr}
use clear_evmi_plugin.Args.{arg}
use clear_evmi_plugin.ArrayArg.{elements, split_array_arg}
use clear_evmi_plugin.Kind.{ContractKind}
use clear_evmi_plugin.Postgres.{Postgres}
use clear_evmi_plugin.Event.{LogEvent}
use clear_evmi_plugin.Table.Column.{column}
use clear_evmi_plugin.Db.{Db, AssetRow, BalanceRow}
use clear_evmi_plugin.Transfer.Holdings.{Holding}
use clear_evmi_plugin.Valuation.{rows_of}
use clear_evmi_plugin.Reserve.{
  Activity, apply_parsed, apply_amounts, apply_reserve_amounts, insert_activity, Counter,
  bump_reserve,
}
use clear_evmi_plugin.Reserve.Events.{
  is_meta, reserve, apply_balanced, handle_reserve_deposit, handle_reserve_withdraw,
}
use clear_evmi_plugin.Reserve.Flows.{
  Tokens, insert_activity-LeavesTokens, snapshot_reserve_value-LeavesTokens,
  bump_reserve-LeavesTokens,
}
use clear_evmi_plugin.Reserve.Balanced.{
  AreRead, texts_of, paid, token_balance, signed_number, apply_amounts-column,
}
use clear_evmi_plugin.Snapshot.{snapshot_reserve_value}
use clear_evmi_plugin.Exec.{select, ◌>>◌}
use clear_evmi_plugin.Exec.Ensures.{
  Ensures, Ensures-pure, Ensures-select, Ensures-bind, Ensures-then, Ensures-fact,
}

module _ (pg : Postgres) (log : LogEvent) (k : ContractKind) (base : is_meta k ≡ false)
    (amounts : List (Text × ℤ)) (read : AreRead pg amounts)
    (given : split_array_arg (arg log.args "amounts") ≡ elements (texts_of amounts)) (key : Holding)
    (rows : List (Text × AssetRow)) (x : ℤ) where
  abbrev own : Text
  own = norm_addr log.address

  abbrev Holds : Tokens → Type 0
  Holds t =
      (column (λ (row : BalanceRow). row.balance) key t.balances ≡ x)
      × (rows_of log.chain_id own t.assets ≡ rows)

  abbrev Before : Db → Type 0
  Before d = (token_balance key d ≡ x) × (rows_of log.chain_id own d.reserve_assets ≡ rows)

  -- The amounts, added or taken away.
  abbrev After : Bool → Db → Type 0
  After negate d =
      token_balance key d ≡ x +ℤ signed_number negate (paid key log.chain_id own rows 0 amounts)

  apply_parsed-After :
      (negate : Bool)
      → Ensures Before
          (apply_parsed pg log.chain_id own negate log.block_number (elements (texts_of amounts)))
          (λ _. After negate)
  unfolding apply_parsed texts_of paid
  apply_parsed-After negate = by_amounts amounts read
    where
      nothing : (s : Bool) → x ≡ x +ℤ signed_number s (pos 0)
      nothing true = omega int_laws
      nothing false = omega int_laws

      by_amounts :
          (listed : List (Text × ℤ))
          → AreRead pg listed
          → Ensures Before
              (apply_parsed pg log.chain_id own negate log.block_number
                (elements (texts_of listed)))
              (λ _ d.
                token_balance key d
                ≡ x +ℤ signed_number negate (paid key log.chain_id own rows 0 listed))
      by_amounts [] h = Ensures-pure tt _ (λ d p. p.0 ∙ nothing negate)
      by_amounts ((v, n) ∷ rest) h =
          Ensures-bind (select (λ d. rows_of log.chain_id own d.reserve_assets)) _
            (λ found d. (found ≡ rows) × (token_balance key d ≡ x)) _
            (Ensures-select _ _ (λ d p. (p.1, p.0)))
            λ found. Ensures-fact _ λ same.
              subst
                (λ r.
                  Ensures (λ d. token_balance key d ≡ x)
                    (apply_amounts pg log.chain_id own negate log.block_number r 0
                      (texts_of ((v, n) ∷ rest)))
                    (λ _ d.
                      token_balance key d
                      ≡ x
                        +ℤ signed_number negate (paid key log.chain_id own rows 0 ((v, n) ∷ rest))))
                (sym same)
                (apply_amounts-column pg key log.chain_id own negate log.block_number rows
                  ((v, n) ∷ rest) 0 x h)

  apply_balanced-After :
      (negate : Bool) → Ensures Before (apply_balanced pg log k negate) (λ _. After negate)
  unfolding apply_balanced reserve apply_reserve_amounts
  apply_balanced-After negate = rw (base, given) (apply_parsed-After negate)

  -- What stands around the amounts leaves them alone.
  around :
      (negate : Bool) (a : Activity) (kind : Text) (col : Counter) (delta : Text)
      → Ensures Before
          (insert_activity pg log own a
            >> (apply_balanced pg log k negate
                >> (snapshot_reserve_value pg log own
                    >> bump_reserve pg log.chain_id own kind col delta log.block_number)))
          (λ _. After negate)
  around negate a kind col delta =
      let Moved : Tokens → Type 0 = λ t.
        column (λ (row : BalanceRow). row.balance) key t.balances
        ≡ x +ℤ signed_number negate (paid key log.chain_id own rows 0 amounts) in
      Ensures-then _ _ Before _ ((insert_activity-LeavesTokens pg log own a).keeps Holds) (
        Ensures-then _ _ (After negate) _ (apply_balanced-After negate) (
          Ensures-then _ _ (After negate) _
            ((snapshot_reserve_value-LeavesTokens pg log own).keeps Moved)
            ((bump_reserve-LeavesTokens pg log own log.chain_id kind col delta
                log.block_number).keeps
              Moved)))

  -- A deposit into a base reserve adds its amounts to the reserve's token balances, and a withdrawal
  -- takes them away, where they are handled without an error: each amount goes to the asset that the
  -- reserve lists at the amount's position, amounts without an asset are passed over, and no other
  -- holding changes. The database reads the amounts and their `neg` as opposite numbers.
  pub balanced-balance :
      Ensures
        (λ d. (token_balance key d ≡ x) × (rows_of log.chain_id own d.reserve_assets ≡ rows))
        (handle_reserve_deposit pg log k)
        (λ _ d. token_balance key d ≡ x +ℤ paid key log.chain_id own rows 0 amounts)
      × Ensures
          (λ d. (token_balance key d ≡ x) × (rows_of log.chain_id own d.reserve_assets ≡ rows))
          (handle_reserve_withdraw pg log k)
          (λ _ d. token_balance key d ≡ x +ℤ (pos 0 -ℤ paid key log.chain_id own rows 0 amounts))
  unfolding handle_reserve_deposit handle_reserve_withdraw reserve
  balanced-balance = (around false _ _ _ _, around true _ _ _ _)
