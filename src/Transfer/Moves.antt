-- ===== src/Transfer/Moves.antt =====
-- A Transfer moves its value, as an ERC20 does: what it does to the balance of every holder.
use clear_evmi_plugin.Prelude.{
  ℕ, ◌≡◌, refl, ◌∙◌, subst, ap, Bool, true, false, ◌&&◌, not, [], ◌∷◌, some, ◌==◌, nat_equality,
  list_equality, pair_equality, triple_equality, if◌then◌else◌,
}
use clear_evmi_plugin.Prelude.Int.{ℤ, pos, ◌+ℤ◌, ◌-ℤ◌, int_laws}
use clear_evmi_plugin.Text.{Text}
use clear_evmi_plugin.Address.{norm_addr, is_zero_addr}
use clear_evmi_plugin.Args.{first_arg, is_empty, neg}
use clear_evmi_plugin.Args.Signs.{numeric-opposite}
use clear_evmi_plugin.Kind.{ContractKind}
use clear_evmi_plugin.Postgres.{Postgres}
use clear_evmi_plugin.Event.{LogEvent}
use clear_evmi_plugin.Table.Column.{column}
use clear_evmi_plugin.Db.{Db, BalanceRow}
use clear_evmi_plugin.Balances.{Ledger, balances_of, adjust_balance}
use clear_evmi_plugin.Transfer.{
  ensure_token_row, bump_supply, mirror_supply, add_supply, resnapshot, move, transfer_on,
  ledger_of, handle_transfer,
}
use clear_evmi_plugin.Quiet.{Quietly}
use clear_evmi_plugin.Quiet.Rules.{IsQuiet-Keeps}
use clear_evmi_plugin.Quiet.Transfers.{add_supply-Keeps, resnapshot-Keeps, ensure_token_row-IsQuiet}
use clear_evmi_plugin.Exec.{Exec, pure, numeric_arg, ◌>>◌}
use clear_evmi_plugin.Exec.Ensures.{
  Ensures, Ensures-pure, Ensures-write, Ensures-bind, Ensures-then, Ensures-if, Ensures-numeric_arg,
}
use clear_evmi_plugin.Transfer.Holdings.{
  Holding, balance_of, share, sent, received, balances_of-with_balances, balances_of-bump_supply,
  balances_of-assets, add_balance-column,
}

module _ (pg : Postgres) (log : LogEvent) (b : Ledger) (key : Holding) where
  abbrev At : ℤ → Db → Type 0
  At x d = balance_of b key d ≡ x

  Quietly-At : (x : ℤ) (d d' : Db) → Quietly d d' → At x d → At x d'
  Quietly-At x d d' s p =
      ap (column (λ (row : BalanceRow). row.balance) key) (s.amounts.balances b) ∙ p

  supplies-At :
      (x : ℤ) (a : Ledger) (c : ℕ) (owner : Text) (n : ℤ) (block : ℕ) (d : Db)
      → At x d
      → At x (bump_supply a c owner n block d)
  supplies-At x a c owner n block d p = rw (balances_of-bump_supply b a c owner n block d) p

  mirrors-At :
      (x : ℤ) (c : ℕ) (iou : Text) (n : ℤ) (d : Db)
      → At x d
      → At x (record d { reserve_assets = mirror_supply c iou n d.reserve_assets })
  mirrors-At x c iou n d p = rw (balances_of-assets b (mirror_supply c iou n d.reserve_assets) d) p

  -- An adjustment by a text that is read as `n`, if it is read at all.
  adjust_balance-At :
      (x n : ℤ) (c : ℕ) (owner h v : Text) (block : ℕ)
      → ((m : ℤ) → pg.numeric v ≡ some m → m ≡ n)
      → Ensures
          (At x)
          (adjust_balance pg c b owner h v block)
          (λ _. At (x +ℤ share (c, owner, h) key n))
  unfolding adjust_balance
  adjust_balance-At x n c owner h v block reads =
      Ensures-bind (numeric_arg pg v) _ _ _ (Ensures-numeric_arg pg v) λ m. Ensures-write _ λ d p.
        rw (balances_of-with_balances b _ d) (
          add_balance-column (c, owner, h) key m block (balances_of b d)
          ∙ let same : m ≡ n = reads m p.1 in rw (p.0, same))

  equal-At :
      {A : Type 0} (P : Db → Type 0) (m : Exec A) (y z : ℤ)
      → y ≡ z
      → Ensures P m (λ _. At y)
      → Ensures P m (λ _. At z)
  equal-At P m y z e h = subst (λ u. Ensures P m (λ _. At u)) e h

  -- The supply and the snapshots are other tables.
  supply_change-At :
      (x n : ℤ) (owner h v : Text)
      → ((m : ℤ) → pg.numeric v ≡ some m → m ≡ n)
      → Ensures
          (At x)
          (adjust_balance pg log.chain_id b owner h v log.block_number
            >> (add_supply pg b log.chain_id owner v log.block_number >> resnapshot pg log b owner))
          (λ _. At (x +ℤ share (log.chain_id, owner, h) key n))
  supply_change-At x n owner h v reads =
      let y : ℤ = x +ℤ share (log.chain_id, owner, h) key n in
      Ensures-then _ _ (At y) _
        (adjust_balance-At x n log.chain_id owner h v log.block_number reads)
        (Ensures-then _ _ (At y) _
          (add_supply-Keeps (At y) (Quietly-At y) (supplies-At y) (mirrors-At y) pg log b owner v)
          (resnapshot-Keeps (At y) (Quietly-At y) (supplies-At y) (mirrors-At y) pg log b owner))

  module _ (v : Text) (n : ℤ) (readable : pg.numeric v ≡ some n) where
    reads_value : (m : ℤ) → pg.numeric v ≡ some m → m ≡ n
    reads_value m e = cc

    reads_negated : (m : ℤ) → pg.numeric (neg v) ≡ some m → m ≡ pos 0 -ℤ n
    reads_negated m e = numeric-opposite pg v n m readable e

    credited :
        (x : ℤ) (owner : Holding) → x +ℤ share owner key n ≡ x +ℤ (share owner key n -ℤ pos 0)
    credited x owner = omega int_laws

    debited :
        (x : ℤ) (owner : Holding)
        → x +ℤ share owner key (pos 0 -ℤ n) ≡ x +ℤ (pos 0 -ℤ share owner key n)
    debited x owner = by_test (owner == key)
      where
        by_test :
            (b : Bool)
            → x +ℤ (if b then pos 0 -ℤ n else pos 0) ≡ x +ℤ (pos 0 -ℤ (if b then n else pos 0))
        by_test true = refl
        by_test false = omega int_laws

    move-At :
        (x : ℤ) (token from to : Text)
        → Ensures (At x) (move pg log b token from to v) (λ _.
          At (
            x +ℤ (received log.chain_id token from to key n -ℤ sent log.chain_id token from key n)))
    unfolding move received sent
    move-At x token from to = by_tests (is_zero_addr from) (is_zero_addr to)
      where
        holding : Text → Holding
        holding h = (log.chain_id, token, h)

        both :
            x +ℤ share (holding from) key (pos 0 -ℤ n) +ℤ share (holding to) key n
            ≡ x +ℤ (share (holding to) key n -ℤ share (holding from) key n)
        both = rw (debited x (holding from)) (omega int_laws)

        by_tests :
            (mint burn : Bool)
            → Ensures
                (At x)
                (if mint
                  then adjust_balance pg log.chain_id b token to v log.block_number
                    >> (add_supply pg b log.chain_id token v log.block_number
                        >> resnapshot pg log b token)
                  else if burn
                  then adjust_balance pg log.chain_id b token from (neg v) log.block_number
                    >> (add_supply pg b log.chain_id token (neg v) log.block_number
                        >> resnapshot pg log b token)
                  else adjust_balance pg log.chain_id b token from (neg v) log.block_number
                    >> adjust_balance pg log.chain_id b token to v log.block_number)
                (λ _. At (
                  x
                  +ℤ ((if not mint && burn then pos 0 else share (holding to) key n)
                      -ℤ (if mint then pos 0 else share (holding from) key n))))
        by_tests true burn =
            equal-At (At x) _ _ _ (credited x (holding to))
              (supply_change-At x n token to v reads_value)
        by_tests false true =
            equal-At (At x) _ _ _ (debited x (holding from))
              (supply_change-At x (pos 0 -ℤ n) token from (neg v) reads_negated)
        by_tests false false = equal-At (At x) _ _ _ both (
            Ensures-then _ _ (At (x +ℤ share (holding from) key (pos 0 -ℤ n))) _
              (adjust_balance-At x (pos 0 -ℤ n) log.chain_id token from (neg v) log.block_number
                reads_negated)
              (adjust_balance-At _ n log.chain_id token to v log.block_number reads_value))

    transfer_on-At :
        (x : ℤ) (k : ContractKind) (from to : Text)
        → Ensures (At x) (transfer_on pg log (some b) k from to v) (λ _. At (
            x
            +ℤ (received log.chain_id (norm_addr log.address) from to key n
                -ℤ sent log.chain_id (norm_addr log.address) from key n)))
    unfolding transfer_on
    transfer_on-At x k from to =
        let token = norm_addr log.address in
        Ensures-then (ensure_token_row b log.chain_id token k log.block_number) _ (At x) _
          (IsQuiet-Keeps (At x) (Quietly-At x) _ (
            ensure_token_row-IsQuiet (At x) (Quietly-At x) (supplies-At x) (mirrors-At x) pg log b
              token k log.block_number))
          (move-At x token from to)

  unreadable : (v : Text) (n : ℤ) → is_empty v ≡ true → pg.numeric v ≡ some n → (x y : ℤ) → x ≡ y
  unreadable [] n e h x y = cc (pg.numeric_empty)
  unreadable (c ∷ v) n e h x y = cc

  -- A Transfer on a contract whose kind has the ledger, handled without an error, with a value that
  -- the database reads as `n`: the balance of every holder of every token in the ledger changes by what
  -- the log's token gives the holder less what it takes. It gives `n` to the recipient, unless it is a
  -- burn, and takes `n` from the sender, unless it is a mint; other tokens give and take nothing.
  pub handle_transfer-balance :
      (k : ContractKind)
      → ledger_of k ≡ some b
      → (n : ℤ) → pg.numeric (first_arg log.args ("value" ∷ [])) ≡ some n
      → (x : ℤ)
      → let from = norm_addr (first_arg log.args ("from" ∷ "sender" ∷ [])) in
        let to = norm_addr (first_arg log.args ("to" ∷ "receiver" ∷ [])) in
        let token = norm_addr log.address in
        Ensures
          (λ d. balance_of b key d ≡ x)
          (handle_transfer pg log k)
          (λ _ d.
            balance_of b key d
            ≡ x
              +ℤ (received log.chain_id token from to key n -ℤ sent log.chain_id token from key n))
  unfolding handle_transfer
  handle_transfer-balance k own n readable x = rw own (
      Ensures-if (is_empty (first_arg log.args ("value" ∷ []))) _ _
        (λ empty.
          equal-At (At x) (pure tt) x _ (unreadable _ n empty readable x _)
            (Ensures-pure tt (λ _. At x) (λ d p. p)))
        (λ _.
          transfer_on-At (first_arg log.args ("value" ∷ [])) n readable x k
            (norm_addr (first_arg log.args ("from" ∷ "sender" ∷ [])))
            (norm_addr (first_arg log.args ("to" ∷ "receiver" ∷ [])))))
