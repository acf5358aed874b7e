-- ===== src/Quiet/Rules.antt =====
-- How a quiet call is put together.
use clear_evmi_plugin.Prelude.{
  ℕ, ◌≡◌, refl, Bool, true, false, Option, none, some, nat_equality, list_equality, pair_equality,
  if◌then◌else◌,
}
use clear_evmi_plugin.Prelude.Int.{ℤ}
use clear_evmi_plugin.Text.{Text}
use clear_evmi_plugin.Postgres.{Postgres}
use clear_evmi_plugin.Table.{Table, modify}
use clear_evmi_plugin.Table.Column.{column, column-modify_same}
use clear_evmi_plugin.Db.{Db, ReserveRow, IouRow, PoolRow}
use clear_evmi_plugin.Balances.{Ledger, reserve_ledger, iou_ledger, curve_ledger, balances_of}
use clear_evmi_plugin.Transfer.Sums.{supply}
use clear_evmi_plugin.Exec.{
  World, Result, Error, Exec, pure, raise, refuse, statement, select, numeric_arg, numeric_opt,
  where_defined, write, when, ◌>>=◌, ◌>>◌,
}
use clear_evmi_plugin.Exec.Ensures.{
  Keeps, Claims, Ensures-pure, Ensures-raise, Ensures-refuse, Ensures-statement, Ensures-select,
  Ensures-bind, Ensures-where_defined,
}
use clear_evmi_plugin.Records.{kept, Extends, KeptIn-refl}
use clear_evmi_plugin.Quiet.{
  amounts_of, amounts_of-SameAmounts, Quietly, Quietly-refl, Quietly-trans, footprint,
  footprint-Quietly, IsQuiet,
}

module _ {A : Type 0} where
  pub pure-IsQuiet : (a : A) → IsQuiet (pure a)
  pure-IsQuiet a = record { keeps = λ d. Ensures-pure a (λ _. Quietly d) (λ _ p. p) }

  pub raise-IsQuiet : (e : Error) → IsQuiet {A = A} (raise e)
  raise-IsQuiet e = record { keeps = λ d. Ensures-raise e (λ _. Quietly d) }

  pub statement-IsQuiet : (q : Db → A × Db) → ((d : Db) → Quietly d (q d).1) → IsQuiet (statement q)
  statement-IsQuiet q h = record {
    keeps = λ d. Ensures-statement q (λ _. Quietly d) (λ d' p. Quietly-trans p (h d'));
  }

  pub select-IsQuiet : (f : Db → A) → IsQuiet (select f)
  select-IsQuiet f = record { keeps = λ d. Ensures-select f (λ _. Quietly d) (λ _ p. p) }

  pub where_defined-IsQuiet :
      (test : Db → Bool) (m : Exec A) → IsQuiet m → IsQuiet (where_defined test m)
  where_defined-IsQuiet test m h = record {
    keeps = λ d. Ensures-where_defined test m (λ _. Quietly d) (h.keeps d);
  }

  pub if-IsQuiet : (b : Bool) (m n : Exec A) → IsQuiet m → IsQuiet n → IsQuiet (if b then m else n)
  if-IsQuiet true m n h k = h
  if-IsQuiet false m n h k = k

module _ {A B : Type 0} where
  pub bind-IsQuiet :
      (m : Exec A) (f : A → Exec B) → IsQuiet m → ((a : A) → IsQuiet (f a)) → IsQuiet (m >>= f)
  bind-IsQuiet m f h k = record {
    keeps =
        λ d. Ensures-bind m f (λ _. Quietly d) (λ _. Quietly d) (h.keeps d) (λ a. (k a).keeps d);
  }

  pub then-IsQuiet : (m : Exec A) (n : Exec B) → IsQuiet m → IsQuiet n → IsQuiet (m >> n)
  unfolding ◌>>◌
  then-IsQuiet m n h k = bind-IsQuiet m (λ _. n) h (λ _. k)

pub when-IsQuiet : (b : Bool) (m : Exec (Unit {0})) → IsQuiet m → IsQuiet (when b m)
unfolding when
when-IsQuiet b m h = if-IsQuiet b m (pure tt) h (pure-IsQuiet tt)

pub write-IsQuiet : (f : Db → Db) → ((d : Db) → Quietly d (f d)) → IsQuiet (write f)
unfolding write
write-IsQuiet f h = statement-IsQuiet (λ d. (tt, f d)) h

-- A statement on other tables.
pub write_other-IsQuiet :
    (f : Db → Db) → ((d : Db) → footprint (f d) ≡ footprint d) → IsQuiet (write f)
write_other-IsQuiet f h = write-IsQuiet f (λ d. footprint-Quietly (h d))

-- A statement that adds to what is written once and for all.
pub write_more-IsQuiet :
    (f : Db → Db)
    → ((d : Db) → amounts_of (f d) ≡ amounts_of d)
    → ((d : Db) → Extends d (f d))
    → IsQuiet (write f)
write_more-IsQuiet f h k =
    write-IsQuiet f (λ d. record { amounts = amounts_of-SameAmounts (h d); extends = k d })

pub numeric_arg-IsQuiet : (pg : Postgres) (v : Text) → IsQuiet (numeric_arg pg v)
unfolding numeric_arg
numeric_arg-IsQuiet pg v = by_value (pg.numeric v)
  where
    by_value : (o : Option ℤ) → IsQuiet {A = ℤ} (elim o [ none ↦ refuse | some n ↦ pure n ])
    by_value none = record { keeps = λ d. Ensures-refuse (λ _. Quietly d) }
    by_value (some n) = pure-IsQuiet n

pub numeric_opt-IsQuiet : (pg : Postgres) (o : Option Text) → IsQuiet (numeric_opt pg o)
unfolding numeric_opt
numeric_opt-IsQuiet pg none = pure-IsQuiet none
numeric_opt-IsQuiet pg (some v) =
    bind-IsQuiet (numeric_arg pg v) _ (numeric_arg-IsQuiet pg v) (λ n. pure-IsQuiet (some n))

pub ruleset quiet_rules = (
  pure-IsQuiet, raise-IsQuiet, select-IsQuiet, if-IsQuiet, bind-IsQuiet, then-IsQuiet, when-IsQuiet,
  numeric_arg-IsQuiet, numeric_opt-IsQuiet,
)

-- The three tables of tokens, with another table in the place of theirs that has the same supplies.
module _ (d : Db) where
  pub reserves-Quietly :
      (t : Table (ℕ × Text) ReserveRow)
      → ((c : ℕ) (owner : Text)
          → column (λ row. row.lp_supply) (c, owner) t
            ≡ column (λ row. row.lp_supply) (c, owner) d.reserves)
      → Quietly d (record d { reserves = t })
  reserves-Quietly t h = record {
    amounts = record { balances = same; supplies = supplies; processed = refl };
    extends = KeptIn-refl (kept d);
  }
    where
      same : (b : Ledger) → balances_of b (record d { reserves = t }) ≡ balances_of b d
      same reserve_ledger = refl
      same iou_ledger = refl
      same curve_ledger = refl

      supplies :
          (b : Ledger) (c : ℕ) (owner : Text)
          → supply b c owner (record d { reserves = t }) ≡ supply b c owner d
      supplies reserve_ledger c owner = h c owner
      supplies iou_ledger c owner = refl
      supplies curve_ledger c owner = refl

  pub iou_tokens-Quietly :
      (t : Table (ℕ × Text) IouRow)
      → ((c : ℕ) (owner : Text)
          → column (λ row. row.total_supply) (c, owner) t
            ≡ column (λ row. row.total_supply) (c, owner) d.iou_tokens)
      → Quietly d (record d { iou_tokens = t })
  iou_tokens-Quietly t h = record {
    amounts = record { balances = same; supplies = supplies; processed = refl };
    extends = KeptIn-refl (kept d);
  }
    where
      same : (b : Ledger) → balances_of b (record d { iou_tokens = t }) ≡ balances_of b d
      same reserve_ledger = refl
      same iou_ledger = refl
      same curve_ledger = refl

      supplies :
          (b : Ledger) (c : ℕ) (owner : Text)
          → supply b c owner (record d { iou_tokens = t }) ≡ supply b c owner d
      supplies reserve_ledger c owner = refl
      supplies iou_ledger c owner = h c owner
      supplies curve_ledger c owner = refl

  pub curve_pools-Quietly :
      (t : Table (ℕ × Text) PoolRow)
      → ((c : ℕ) (owner : Text)
          → column (λ row. row.lp_supply) (c, owner) t
            ≡ column (λ row. row.lp_supply) (c, owner) d.curve_pools)
      → Quietly d (record d { curve_pools = t })
  curve_pools-Quietly t h = record {
    amounts = record { balances = same; supplies = supplies; processed = refl };
    extends = KeptIn-refl (kept d);
  }
    where
      same : (b : Ledger) → balances_of b (record d { curve_pools = t }) ≡ balances_of b d
      same reserve_ledger = refl
      same iou_ledger = refl
      same curve_ledger = refl

      supplies :
          (b : Ledger) (c : ℕ) (owner : Text)
          → supply b c owner (record d { curve_pools = t }) ≡ supply b c owner d
      supplies reserve_ledger c owner = refl
      supplies iou_ledger c owner = refl
      supplies curve_ledger c owner = h c owner

-- An update of a row that leaves its supply alone.
module _ (key : ℕ × Text) (d : Db) where
  pub modify_reserve-Quietly :
      (f : ReserveRow → ReserveRow)
      → ((w : ReserveRow) → (f w).lp_supply ≡ w.lp_supply)
      → Quietly d (record d { reserves = modify key f d.reserves })
  modify_reserve-Quietly f h =
      reserves-Quietly d (modify key f d.reserves)
        (λ c owner. column-modify_same (λ row. row.lp_supply) key (c, owner) f d.reserves h)

  pub modify_iou-Quietly :
      (f : IouRow → IouRow)
      → ((w : IouRow) → (f w).total_supply ≡ w.total_supply)
      → Quietly d (record d { iou_tokens = modify key f d.iou_tokens })
  modify_iou-Quietly f h =
      iou_tokens-Quietly d (modify key f d.iou_tokens)
        (λ c owner. column-modify_same (λ row. row.total_supply) key (c, owner) f d.iou_tokens h)

  pub modify_pool-Quietly :
      (f : PoolRow → PoolRow)
      → ((w : PoolRow) → (f w).lp_supply ≡ w.lp_supply)
      → Quietly d (record d { curve_pools = modify key f d.curve_pools })
  modify_pool-Quietly f h =
      curve_pools-Quietly d (modify key f d.curve_pools)
        (λ c owner. column-modify_same (λ row. row.lp_supply) key (c, owner) f d.curve_pools h)

module _ (P : Db → Type 0) (respects : (d d' : Db) → Quietly d d' → P d → P d') where
  -- What quiet changes of the tables respect, every quiet call keeps.
  pub IsQuiet-Keeps : {A : Type 0} (m : Exec A) → IsQuiet m → Keeps P m
  IsQuiet-Keeps {A} m q = record {
    run = λ w p. Claims-map w (m w) p ((q.keeps w.db).run w (Quietly-refl w.db));
  }
    where
      Claims-map :
          (w : World) (r : Result A × World)
          → P w.db
          → Claims (λ _. Quietly w.db) r
          → Claims (λ _. P) r
      Claims-map w (Result.ok a, w') p s = respects w.db w'.db s p
      Claims-map w (Result.err e, w') p s = tt
