-- ===== src/Transfer/Supply.antt =====
-- A Transfer that is handled without an error keeps every token backed.
use clear_evmi_plugin.Prelude.{
  ℕ, ◌≡◌, refl, ◌∙◌, Bool, true, false, not, ◌||◌, Option, none, some, [], ◌∷◌, if◌then◌else◌,
}
use clear_evmi_plugin.Prelude.Int.{ℤ, pos, ◌+ℤ◌, ◌-ℤ◌, int_laws}
use clear_evmi_plugin.Text.{Text}
use clear_evmi_plugin.Address.{norm_addr, is_zero_addr}
use clear_evmi_plugin.Kind.{ContractKind}
use clear_evmi_plugin.Args.{neg, is_empty, first_arg}
use clear_evmi_plugin.Args.Signs.{numeric-opposite}
use clear_evmi_plugin.Postgres.{Postgres}
use clear_evmi_plugin.Db.{Db}
use clear_evmi_plugin.Event.{LogEvent}
use clear_evmi_plugin.Balances.{Ledger, reserve_ledger, iou_ledger, curve_ledger, adjust_balance}
use clear_evmi_plugin.Snapshot.{
  snapshot_reserve_value, snapshot_reserve_assets, store_value, value_divides, put_value,
}
use clear_evmi_plugin.Valuation.{ParValue, par_value_of}
use clear_evmi_plugin.Transfer.{
  ensure_token_row, bump_supply, add_supply, mirror, resnapshot, query_or, reserve_of_iou, move,
  transfer_on, ledger_of, handle_transfer,
}
use clear_evmi_plugin.Transfer.Backed.{
  SameLedgers, IsBacked, IsAhead, Keeps-other, adjusted-IsAhead, bump_supply-IsBacked,
  IsAhead-IsBacked, ensure_token_row-IsAhead,
}
use clear_evmi_plugin.Exec.{
  where_defined, ok, World, pure, select, numeric_arg, write, ◌>>◌, statement, refuse, next, later,
  is_served,
}
use clear_evmi_plugin.Exec.Ensures.{
  Ensures, Keeps, Ensures-pure, Ensures-write, Ensures-bind, Ensures-then, Ensures-if,
  Ensures-given, Ensures-fact, Ensures-where_defined, Ensures-weaken, Ensures-numeric_arg,
}

zero_plus : (m : ℤ) → pos 0 +ℤ m ≡ m
zero_plus m = omega int_laws

opposite : (m n : ℤ) → m ≡ pos 0 -ℤ n → pos 0 +ℤ m +ℤ n ≡ pos 0
opposite m n h = rw h (omega int_laws)

pub query_or-Keeps :
    {A : Type 0} (a : A) (f : Db → A) (P : Db → Type 0) → Keeps P (query_or a (select f))
unfolding query_or select statement refuse
query_or-Keeps a f P = record {
  run = λ w p. by_test (w.aborted || not (is_served (next w.outcomes))) w p;
}
  where
    by_test :
        (t : Bool) (w : World)
        → P w.db
        → P
            (if t
              then refuse w
              else (ok (f w.db), record w { db = w.db; outcomes = later w.outcomes })).1.db
    by_test true w p = p
    by_test false w p = p

module _ (pg : Postgres) (log : LogEvent) where
  put_value-SameLedgers :
      (r : Text) (d : Db) (o : Option ParValue) → SameLedgers d (put_value pg log r d o)
  unfolding put_value
  put_value-SameLedgers r d none = record {
    lp = refl;
    iou = refl;
    curve = refl;
    reserves = refl;
    iou_tokens = refl;
    pools = refl;
  }
  put_value-SameLedgers r d (some p) = record {
    lp = refl;
    iou = refl;
    curve = refl;
    reserves = refl;
    iou_tokens = refl;
    pools = refl;
  }

  -- A snapshot writes to the history alone.
  pub snapshot_reserve_value-IsBacked :
      (r : Text) → Keeps IsBacked (snapshot_reserve_value pg log r)
  unfolding snapshot_reserve_value snapshot_reserve_assets store_value
  snapshot_reserve_value-IsBacked r =
      Ensures-then (where_defined (value_divides pg log r) (write (store_value pg log r)))
        (snapshot_reserve_assets pg log r) IsBacked (λ _. IsBacked)
        (Ensures-where_defined _ _ _ (
          Keeps-other (store_value pg log r)
            (λ d. put_value-SameLedgers r d (par_value_of pg d log.chain_id r))))
        (Ensures-where_defined _ _ _ (
          Keeps-other _ (λ d. record {
            lp = refl;
            iou = refl;
            curve = refl;
            reserves = refl;
            iou_tokens = refl;
            pools = refl;
          })))

  resnapshot-IsBacked : (a : Ledger) (o : Text) → Keeps IsBacked (resnapshot pg log a o)
  unfolding resnapshot
  resnapshot-IsBacked iou_ledger o =
      Ensures-bind (query_or [] (select (λ d. reserve_of_iou log.chain_id o d.reserve_assets)))
        (λ reserve. if is_empty reserve then pure tt else snapshot_reserve_value pg log reserve)
        (λ _. IsBacked) (λ _. IsBacked)
        (query_or-Keeps [] (λ d. reserve_of_iou log.chain_id o d.reserve_assets) IsBacked)
        λ reserve.
          Ensures-if (is_empty reserve) (pure tt) (snapshot_reserve_value pg log reserve)
            (λ _. Ensures-pure tt (λ _. IsBacked) (λ d p. p))
            (λ _. snapshot_reserve_value-IsBacked reserve)
  resnapshot-IsBacked reserve_ledger o = Ensures-pure tt (λ _. IsBacked) (λ d p. p)
  resnapshot-IsBacked curve_ledger o = Ensures-pure tt (λ _. IsBacked) (λ d p. p)

  module _ (a : Ledger) (i : ℕ) (o : Text) (block : ℕ) where
    -- What an adjustment by the text `v` leaves: its amount, and the holders ahead by it.
    abbrev Moved : ℤ → Text → Db → Type 0
    Moved m v d = (n : ℤ) × ((pg.numeric v ≡ some n) × IsAhead a i o (m +ℤ n) d)

    adjust_balance-IsAhead :
        (m : ℤ) (h v : Text)
        → Ensures (IsAhead a i o m) (adjust_balance pg i a o h v block) (λ _. Moved m v)
    unfolding adjust_balance
    adjust_balance-IsAhead m h v =
        Ensures-bind (numeric_arg pg v) _ _ _ (Ensures-numeric_arg pg v)
          λ n. Ensures-write _ λ d p. (n, (p.1, adjusted-IsAhead a i o m n h block d p.0))

    mirror-IsBacked : (n : ℤ) → Keeps IsBacked (mirror a i o n)
    unfolding mirror
    mirror-IsBacked n = mirror_by a
      where
        mirror_by : (b : Ledger) → Keeps IsBacked (mirror b i o n)
        mirror_by iou_ledger = Keeps-other _ (λ d. record {
          lp = refl;
          iou = refl;
          curve = refl;
          reserves = refl;
          iou_tokens = refl;
          pools = refl;
        })
        mirror_by reserve_ledger = Ensures-pure tt (λ _. IsBacked) (λ d p. p)
        mirror_by curve_ledger = Ensures-pure tt (λ _. IsBacked) (λ d p. p)

    add_supply-IsBacked :
        (v : Text) → Ensures (Moved (pos 0) v) (add_supply pg a i o v block) (λ _. IsBacked)
    unfolding add_supply
    add_supply-IsBacked v = Ensures-bind (numeric_arg pg v) _ _ _ (Ensures-numeric_arg pg v) λ n.
        Ensures-then (write (bump_supply a i o n block)) (mirror a i o n) IsBacked _
          (Ensures-write (bump_supply a i o n block)
            λ d p. bump_supply-IsBacked a i o n block d (caught_up n d p))
          (mirror-IsBacked n)
      where
        caught_up :
            (n : ℤ) (d : Db) → Moved (pos 0) v d × (pg.numeric v ≡ some n) → IsAhead a i o n d
        caught_up n d ((m, (e, ahead)), f) =
            let same : m ≡ n = cc in
            let total : pos 0 +ℤ m ≡ n = zero_plus m ∙ same in rw total at ahead

    -- A mint or a burn.
    supply_change-IsBacked :
        (h v : Text)
        → Ensures
            (IsAhead a i o (pos 0))
            (adjust_balance pg i a o h v block
              >> (add_supply pg a i o v block >> resnapshot pg log a o))
            (λ _. IsBacked)
    supply_change-IsBacked h v =
        Ensures-then _ _ (Moved (pos 0) v) _ (adjust_balance-IsAhead (pos 0) h v)
          (Ensures-then _ _ IsBacked _ (add_supply-IsBacked v) (resnapshot-IsBacked a o))

    -- Between two holders: the debit and the credit are opposite.
    exchange-IsBacked :
        (from to v : Text)
        → Ensures
            (IsAhead a i o (pos 0))
            (adjust_balance pg i a o from (neg v) block >> adjust_balance pg i a o to v block)
            (λ _. IsBacked)
    exchange-IsBacked from to v =
        Ensures-then _ _ (Moved (pos 0) (neg v)) _ (adjust_balance-IsAhead (pos 0) from (neg v)) (
          Ensures-given (adjust_balance pg i a o to v block) λ n.
            Ensures-fact (adjust_balance pg i a o to v block) λ e.
              Ensures-weaken _ (λ _. Moved (pos 0 +ℤ n) v) _
                (adjust_balance-IsAhead (pos 0 +ℤ n) to v) (λ _ d p. settled n e d p))
      where
        settled :
            (n : ℤ) → pg.numeric (neg v) ≡ some n → (d : Db) → Moved (pos 0 +ℤ n) v d → IsBacked d
        settled n e d (m, (f, ahead)) =
            IsAhead-IsBacked a i o d (rw (opposite n m (numeric-opposite pg v m n f e)) at ahead)

  pub move-IsBacked :
      (a : Ledger) (o from to v : Text)
      → Ensures (IsAhead a log.chain_id o (pos 0)) (move pg log a o from to v) (λ _. IsBacked)
  unfolding move
  move-IsBacked a o from to v =
      Ensures-if (is_zero_addr from) _ _
        (λ _. supply_change-IsBacked a log.chain_id o log.block_number to v)
        (λ _.
          Ensures-if (is_zero_addr to) _ _
            (λ _. supply_change-IsBacked a log.chain_id o log.block_number from (neg v))
            (λ _. exchange-IsBacked a log.chain_id o log.block_number from to v))

  transfer_on-IsBacked :
      (l : Option Ledger) (k : ContractKind) (from to v : Text)
      → Keeps IsBacked (transfer_on pg log l k from to v)
  unfolding transfer_on
  transfer_on-IsBacked none k from to v = Ensures-pure tt (λ _. IsBacked) (λ d p. p)
  transfer_on-IsBacked (some a) k from to v =
      let owner = norm_addr log.address in
      Ensures-then (ensure_token_row a log.chain_id owner k log.block_number) _
        (IsAhead a log.chain_id owner (pos 0)) _
        (ensure_token_row-IsAhead log.chain_id owner log.block_number a k)
        (move-IsBacked a owner from to v)

  -- Where every token's supply is the sum of its holders' balances, a Transfer of any contract that
  -- is handled without an error leaves it so: a mint and a burn move both sides alike, a transfer
  -- between holders moves neither, whatever the amount's text is.
  pub handle_transfer-IsBacked : (k : ContractKind) → Keeps IsBacked (handle_transfer pg log k)
  unfolding handle_transfer
  handle_transfer-IsBacked k =
      Ensures-if (is_empty (first_arg log.args ("value" ∷ []))) (pure tt) _
        (λ _. Ensures-pure tt (λ _. IsBacked) (λ d p. p))
        (λ _.
          transfer_on-IsBacked (ledger_of k) k
            (norm_addr (first_arg log.args ("from" ∷ "sender" ∷ [])))
            (norm_addr (first_arg log.args ("to" ∷ "receiver" ∷ [])))
            (first_arg log.args ("value" ∷ [])))
