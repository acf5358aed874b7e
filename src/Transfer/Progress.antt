-- ===== src/Transfer/Progress.antt =====
-- A Transfer of a readable value is handled without an error wherever the server serves.
use clear_evmi_plugin.Prelude.{
  ℕ, ◌≡◌, refl, subst, ◌==◌, ◌&&◌, Bool, true, false, not, List, [], ◌∷◌, Option, none, some,
  list_equality, nat_equality, pair_equality, arith, if◌then◌else◌,
}
use clear_evmi_plugin.Prelude.Int.{ℤ, pos, ◌+ℤ◌, is_zero}
use clear_evmi_plugin.Text.{Text, text}
use clear_evmi_plugin.Address.{norm_addr, is_zero_addr}
use clear_evmi_plugin.Table.{Table, find}
use clear_evmi_plugin.Db.{Db, ReserveRow, AssetRow}
use clear_evmi_plugin.Decimal.{at_least_zero, subtract}
use clear_evmi_plugin.Valuation.{
  ParValue, rows_of, base_of, par_value_of, gross_par, debt_par, avg_redemption,
}
use clear_evmi_plugin.Args.{first_arg, is_empty, neg}
use clear_evmi_plugin.Kind.{ContractKind}
use clear_evmi_plugin.Postgres.{Postgres}
use clear_evmi_plugin.Event.{LogEvent}
use clear_evmi_plugin.Balances.{
  Ledger, reserve_ledger, iou_ledger, curve_ledger, adjust_balance, add_balance, ensure_reserve,
  ensure_iou, ensure_curve,
}
use clear_evmi_plugin.Snapshot.{
  divides, every_divides, legs_divide, value_divides, put_value, store_value,
  snapshot_reserve_value, snapshot_reserve_assets,
}
use clear_evmi_plugin.Transfer.{
  ensure_token_row, mirror, bump_supply, add_supply, resnapshot, move, transfer_on, ledger_of,
  handle_transfer,
}
use clear_evmi_plugin.Exec.{◌>>◌}
use clear_evmi_plugin.Exec.Succeeds.{
  Succeeds, Anything, pure-Succeeds, if-Succeeds, bind-Succeeds, then-Succeeds, write-Succeeds,
  select-Succeeds, query_or-Succeeds, where_defined-Succeeds, numeric_arg-Succeeds, forget-Succeeds,
  whatever-Succeeds,
}

-- The database accepts the text as a number, and its `neg`.
pub record IsReadable (pg : Postgres) (v : Text) : Type 0 where
  pub plain : (n : ℤ) × (pg.numeric v ≡ some n)
  pub negated : (n : ℤ) × (pg.numeric (neg v) ≡ some n)

abbrev is_divisor : ReserveRow → Bool
is_divisor row = not (is_zero (row.lp_supply +ℤ pos 1))

-- No reserve has the supply -1 of its LP token, by one more than which a snapshot divides.
unfoldable pub all_divide : Table (ℕ × Text) ReserveRow → Bool
all_divide [] = true
all_divide ((key, row) ∷ t) = is_divisor row && all_divide t

abbrev pub CanDivide : Db → Type 0
CanDivide d = all_divide d.reserves ≡ true

find-divides :
    (key : ℕ × Text) (t : Table (ℕ × Text) ReserveRow) (row : ReserveRow)
    → all_divide t ≡ true
    → find key t ≡ some row
    → is_divisor row ≡ true
unfolding find all_divide
find-divides key [] row h e = cc
find-divides key ((other, here) ∷ t) row h e = by_test (other == key) e (find-divides key t row)
  where
    by_test :
        (b : Bool)
        → (if b then some here else find key t) ≡ some row
        → (all_divide t ≡ true → find key t ≡ some row → is_divisor row ≡ true)
        → is_divisor row ≡ true
    by_test true e ih =
        let same : here ≡ row = cc in subst (λ x. is_divisor x ≡ true) same (ground arith)
    by_test false e ih = ih (ground arith) e

module _ (pg : Postgres) (d : Db) (c : ℕ) (can : CanDivide d) where
  base_of-divides : (asset : Text) → divides (base_of pg d c asset) ≡ true
  unfolding base_of par_value_of
  base_of-divides asset = by_row (find (c, asset) d.reserves) refl
    where
      by_kind :
          (b : Bool) (p : ParValue)
          → not (is_zero (p.lp_supply +ℤ pos 1)) ≡ true
          → divides (if b then some p else none) ≡ true
      by_kind true p h = h
      by_kind false p h = refl

      by_row :
          (o : Option ReserveRow)
          → find (c, asset) d.reserves ≡ o
          → let shown : Option ParValue = elim o [
            | none ↦ none
            | some row ↦ some (record {
              kind = row.kind;
              lp_supply = row.lp_supply;
              gross_assets = gross_par pg d c asset;
              iou_debt = debt_par pg d c asset;
              nav = at_least_zero (subtract (gross_par pg d c asset) (debt_par pg d c asset));
              avg_redemption =
                  if row.kind == text "base" then some (avg_redemption pg d c asset) else none;
            })
          ] in
            divides
              (elim shown [ none ↦ none | some p ↦ if p.kind == text "base" then some p else none ])
            ≡ true
      by_row none e = refl
      by_row (some row) e =
          by_kind (row.kind == text "base") _ (find-divides (c, asset) d.reserves row can e)

  every_divides-true :
      (rows : List (Text × AssetRow)) → every_divides (λ asset. base_of pg d c asset) rows ≡ true
  unfolding every_divides
  every_divides-true [] = refl
  every_divides-true ((asset, a) ∷ rows) = rw (base_of-divides asset, every_divides-true rows)

module _ (pg : Postgres) (log : LogEvent) where
  legs_divide-true : (r : Text) (d : Db) → CanDivide d → legs_divide pg log r d ≡ true
  unfolding legs_divide
  legs_divide-true r d can =
      every_divides-true pg d log.chain_id can (rows_of log.chain_id r d.reserve_assets)

  value_divides-true : (r : Text) (d : Db) → CanDivide d → value_divides pg log r d ≡ true
  unfolding value_divides
  value_divides-true r d can = by_value (par_value_of pg d log.chain_id r)
    where
      by_kind : (b : Bool) → (if b then legs_divide pg log r d else true) ≡ true
      by_kind true = legs_divide-true r d can
      by_kind false = refl

      by_value :
          (o : Option ParValue)
          → elim o [
            | none ↦ true
            | some p ↦ if p.kind == text "meta" then legs_divide pg log r d else true
          ]
            ≡ true
      by_value none = refl
      by_value (some p) = by_kind (p.kind == text "meta")

  put_value-CanDivide :
      (r : Text) (d : Db) (o : Option ParValue) → CanDivide d → CanDivide (put_value pg log r d o)
  unfolding put_value
  put_value-CanDivide r d none h = h
  put_value-CanDivide r d (some p) h = h

  snapshot-Succeeds : (r : Text) → Succeeds CanDivide (snapshot_reserve_value pg log r) CanDivide
  unfolding snapshot_reserve_value snapshot_reserve_assets store_value
  snapshot-Succeeds r =
      then-Succeeds _ _
        (where_defined-Succeeds _ _ (value_divides-true r)
          (write-Succeeds _ λ d h. put_value-CanDivide r d (par_value_of pg d log.chain_id r) h))
        (where_defined-Succeeds _ _ (legs_divide-true r) (write-Succeeds _ (λ d h. h)))

  -- What a ledger's Transfers need of the tables: only those of an IOU take a snapshot.
  Needed : Ledger → Db → Type 0
  Needed iou_ledger = CanDivide
  Needed b = Anything

  abbrev Accepted : Text → Type 0
  Accepted v = (n : ℤ) × (pg.numeric v ≡ some n)

  adjust_balance-Succeeds :
      (b : Ledger) (owner h v : Text)
      → Accepted v
      → Succeeds (Needed b) (adjust_balance pg log.chain_id b owner h v log.block_number) (Needed b)
  unfolding adjust_balance add_balance Needed
  adjust_balance-Succeeds reserve_ledger owner h v (n, e) =
      bind-Succeeds _ _ (numeric_arg-Succeeds pg v n e) (λ m. write-Succeeds _ (λ d p. tt))
  adjust_balance-Succeeds iou_ledger owner h v (n, e) =
      bind-Succeeds _ _ (numeric_arg-Succeeds pg v n e) (λ m. write-Succeeds _ (λ d p. p))
  adjust_balance-Succeeds curve_ledger owner h v (n, e) =
      bind-Succeeds _ _ (numeric_arg-Succeeds pg v n e) (λ m. write-Succeeds _ (λ d p. tt))

  add_supply-Succeeds :
      (b : Ledger) (owner v : Text)
      → Accepted v
      → Succeeds (Needed b) (add_supply pg b log.chain_id owner v log.block_number) (Needed b)
  unfolding add_supply mirror bump_supply Needed
  add_supply-Succeeds reserve_ledger owner v (n, e) =
      bind-Succeeds _ _ (numeric_arg-Succeeds pg v n e)
        (λ m. then-Succeeds _ _ (write-Succeeds _ (λ d p. tt)) (pure-Succeeds tt))
  add_supply-Succeeds iou_ledger owner v (n, e) =
      bind-Succeeds _ _ (numeric_arg-Succeeds pg v n e)
        (λ m. then-Succeeds _ _ (write-Succeeds _ (λ d p. p)) (write-Succeeds _ (λ d p. p)))
  add_supply-Succeeds curve_ledger owner v (n, e) =
      bind-Succeeds _ _ (numeric_arg-Succeeds pg v n e)
        (λ m. then-Succeeds _ _ (write-Succeeds _ (λ d p. tt)) (pure-Succeeds tt))

  resnapshot-Succeeds :
      (b : Ledger) (owner : Text) → Succeeds (Needed b) (resnapshot pg log b owner) (Needed b)
  unfolding resnapshot Needed
  resnapshot-Succeeds reserve_ledger owner = pure-Succeeds tt
  resnapshot-Succeeds iou_ledger owner =
      bind-Succeeds _ _ (query_or-Succeeds [] _ (select-Succeeds _))
        λ reserve. if-Succeeds (is_empty reserve) _ _ (pure-Succeeds tt) (snapshot-Succeeds reserve)
  resnapshot-Succeeds curve_ledger owner = pure-Succeeds tt

  ensure_token_row-Succeeds :
      (b : Ledger) (owner : Text) (k : ContractKind)
      → Succeeds (Needed b) (ensure_token_row b log.chain_id owner k log.block_number) (Needed b)
  unfolding ensure_token_row ensure_reserve ensure_iou ensure_curve Needed
  ensure_token_row-Succeeds reserve_ledger owner k = write-Succeeds _ (λ d p. tt)
  ensure_token_row-Succeeds iou_ledger owner k = write-Succeeds _ (λ d p. p)
  ensure_token_row-Succeeds curve_ledger owner k = write-Succeeds _ (λ d p. tt)

  move-Succeeds :
      (b : Ledger) (owner from to v : Text)
      → IsReadable pg v
      → Succeeds (Needed b) (move pg log b owner from to v) (Needed b)
  unfolding move
  move-Succeeds b owner from to v readable =
      if-Succeeds (is_zero_addr from) _ _ (supplied to v readable.plain) (
        if-Succeeds (is_zero_addr to) _ _ (supplied from (neg v) readable.negated) (
          then-Succeeds _ _ (adjust_balance-Succeeds b owner from (neg v) readable.negated)
            (adjust_balance-Succeeds b owner to v readable.plain)))
    where
      supplied :
          (h t : Text)
          → Accepted t
          → Succeeds
              (Needed b)
              (adjust_balance pg log.chain_id b owner h t log.block_number
                >> (add_supply pg b log.chain_id owner t log.block_number
                    >> resnapshot pg log b owner))
              (Needed b)
      supplied h t read =
          then-Succeeds _ _ (adjust_balance-Succeeds b owner h t read)
            (then-Succeeds _ _ (add_supply-Succeeds b owner t read) (resnapshot-Succeeds b owner))

  transfer_on-Succeeds :
      (b : Ledger) (k : ContractKind) (from to v : Text)
      → IsReadable pg v
      → Succeeds (Needed b) (transfer_on pg log (some b) k from to v) (Needed b)
  unfolding transfer_on
  transfer_on-Succeeds b k from to v readable =
      then-Succeeds _ _ (ensure_token_row-Succeeds b (norm_addr log.address) k)
        (move-Succeeds b (norm_addr log.address) from to v readable)

  by_ledger-Succeeds :
      (o : Option Ledger) (k : ContractKind) (from to v : Text)
      → IsReadable pg v
      → Succeeds CanDivide (transfer_on pg log o k from to v) Anything
  unfolding transfer_on Needed
  by_ledger-Succeeds none k from to v readable = forget-Succeeds _ (pure-Succeeds tt)
  by_ledger-Succeeds (some reserve_ledger) k from to v readable =
      whatever-Succeeds _ (transfer_on-Succeeds reserve_ledger k from to v readable)
  by_ledger-Succeeds (some iou_ledger) k from to v readable =
      forget-Succeeds _ (transfer_on-Succeeds iou_ledger k from to v readable)
  by_ledger-Succeeds (some curve_ledger) k from to v readable =
      whatever-Succeeds _ (transfer_on-Succeeds curve_ledger k from to v readable)

  pub handle_transfer-Succeeds :
      (k : ContractKind)
      → IsReadable pg (first_arg log.args ("value" ∷ []))
      → Succeeds CanDivide (handle_transfer pg log k) Anything
  unfolding handle_transfer
  handle_transfer-Succeeds k readable =
      if-Succeeds (is_empty (first_arg log.args ("value" ∷ []))) _ _
        (forget-Succeeds _ (pure-Succeeds tt))
        (by_ledger-Succeeds (ledger_of k) k
          (norm_addr (first_arg log.args ("from" ∷ "sender" ∷ [])))
          (norm_addr (first_arg log.args ("to" ∷ "receiver" ∷ [])))
          (first_arg log.args ("value" ∷ [])) readable)
