-- ===== src/Snapshot/Solvent.antt =====
-- No snapshot stores a negative net asset value.
use clear_evmi_plugin.Prelude.{
  ℕ, ◌≡◌, refl, subst, Bool, true, false, [], ◌∷◌, Option, none, some, leb, ◌==◌, nat_equality,
  list_equality, pair_equality, triple_equality, arith, if◌then◌else◌,
}
use clear_evmi_plugin.Prelude.Int.{pos, ◌≤ℤ◌, ltb_ℤ}
use clear_evmi_plugin.Text.{Text, text}
use clear_evmi_plugin.Postgres.{Postgres, Decimal}
use clear_evmi_plugin.Decimal.{of_int, at_least_zero, subtract}
use clear_evmi_plugin.Event.{LogEvent}
use clear_evmi_plugin.Table.{Table, find, upsert}
use clear_evmi_plugin.Db.{Db, ReserveRow, ValueRow}
use clear_evmi_plugin.Valuation.{
  ParValue, par_value_of, value_by_par, gross_par, debt_par, meta_gross, meta_debt, avg_redemption,
}
use clear_evmi_plugin.Snapshot.{day_of, later_value, put_value, store_value}

-- Every point of the history is of a net asset value that is not negative.
abbrev pub AllSolvent : Table (ℕ × Text × ℕ) ValueRow → Type 0
AllSolvent [] = Unit {0}
AllSolvent ((key, row) ∷ rows) = (pos 0 ≤ℤ row.nav.mantissa) × AllSolvent rows

at_least_zero-mantissa : (a : Decimal) → pos 0 ≤ℤ (at_least_zero a).mantissa
unfolding at_least_zero of_int
at_least_zero-mantissa a = by_test (ltb_ℤ a.mantissa (pos 0)) refl
  where
    by_test :
        (b : Bool)
        → ltb_ℤ a.mantissa (pos 0) ≡ b
        → pos 0 ≤ℤ (if b then record { mantissa = pos 0; scale = 0 } else a).mantissa
    by_test true e = omega arith
    by_test false e = ground (arith, e)

later_value-nav :
    (new old : ValueRow)
    → pos 0 ≤ℤ new.nav.mantissa
    → pos 0 ≤ℤ old.nav.mantissa
    → pos 0 ≤ℤ (later_value new old).nav.mantissa
later_value-nav new old h k = by_test (leb old.block_number new.block_number)
  where
    by_test : (b : Bool) → pos 0 ≤ℤ (if b then new else old).nav.mantissa
    by_test true = h
    by_test false = k

abbrev is_key : ℕ × Text × ℕ → ℕ × Text × ℕ → Bool
is_key a b = a == b

upsert-AllSolvent :
    (key : ℕ × Text × ℕ) (new : ValueRow) (t : Table (ℕ × Text × ℕ) ValueRow)
    → pos 0 ≤ℤ new.nav.mantissa
    → AllSolvent t
    → AllSolvent (upsert key new (later_value new) t)
unfolding upsert
upsert-AllSolvent key new [] h k = (h, tt)
upsert-AllSolvent key new ((other, old) ∷ t) h k =
    by_test (is_key other key) (upsert-AllSolvent key new t h k.1)
  where
    by_test :
        (met : Bool)
        → AllSolvent (upsert key new (later_value new) t)
        → AllSolvent (
            if met
            then (other, later_value new old) ∷ t
            else (other, old) ∷ upsert key new (later_value new) t)
    by_test true rest = (later_value-nav new old h k.0, k.1)
    by_test false rest = (k.0, rest)

same_value : (p q : ParValue) → some p ≡ some q → p ≡ q
same_value p q e = cc

module _ (pg : Postgres) (d : Db) (c : ℕ) (r : Text) where
  par_value_of-nav : (p : ParValue) → par_value_of pg d c r ≡ some p → pos 0 ≤ℤ p.nav.mantissa
  unfolding par_value_of
  par_value_of-nav p e = by_row (find (c, r) d.reserves) e
    where
      by_row :
          (o : Option ReserveRow)
          → let shown : Option ParValue = elim o [
            | none ↦ none
            | some row ↦ some (record {
              kind = row.kind;
              lp_supply = row.lp_supply;
              gross_assets = gross_par pg d c r;
              iou_debt = debt_par pg d c r;
              nav = at_least_zero (subtract (gross_par pg d c r) (debt_par pg d c r));
              avg_redemption =
                  if row.kind == text "base" then some (avg_redemption pg d c r) else none;
            })
          ] in
            shown ≡ some p → pos 0 ≤ℤ p.nav.mantissa
      by_row none e = cc
      by_row (some row) e =
          subst (λ (x : ParValue). pos 0 ≤ℤ x.nav.mantissa) (same_value _ p e)
            (at_least_zero-mantissa (subtract (gross_par pg d c r) (debt_par pg d c r)))

  value_by_par-nav :
      (block timestamp : ℕ) (p : ParValue)
      → pos 0 ≤ℤ p.nav.mantissa
      → pos 0 ≤ℤ (value_by_par pg d c r block timestamp p).nav.mantissa
  unfolding value_by_par
  value_by_par-nav block timestamp p h = by_test (p.kind == text "meta")
    where
      by_test :
          (meta : Bool)
          → pos 0
            ≤ℤ (if meta
                then at_least_zero (subtract (meta_gross pg d c r) (meta_debt pg d c r))
                else p.nav).mantissa
      by_test true = at_least_zero-mantissa (subtract (meta_gross pg d c r) (meta_debt pg d c r))
      by_test false = h

-- Where no net asset value in the history is negative, none is after a snapshot of any reserve, base
-- or meta, whatever the balances, the debts, the prices and the server's divisions.
pub store_value-AllSolvent :
    (pg : Postgres) (log : LogEvent) (r : Text) (d : Db)
    → AllSolvent d.reserve_value_history
    → AllSolvent (store_value pg log r d).reserve_value_history
unfolding store_value put_value
store_value-AllSolvent pg log r d h = by_value (par_value_of pg d log.chain_id r) refl
  where
    by_value :
        (o : Option ParValue)
        → par_value_of pg d log.chain_id r ≡ o
        → AllSolvent (put_value pg log r d o).reserve_value_history
    by_value none e = h
    by_value (some p) e =
        upsert-AllSolvent (log.chain_id, r, day_of log.block_timestamp) _ d.reserve_value_history
          (value_by_par-nav pg d log.chain_id r log.block_number log.block_timestamp p
            (par_value_of-nav pg d log.chain_id r p e))
          h
