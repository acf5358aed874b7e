-- ===== src/Exec/Spends.antt =====
-- Calls that use up answers of the server, and never add one.
use clear_evmi_plugin.Prelude.{
  ◌≤◌, Bool, true, false, not, ◌||◌, List, [], ◌∷◌, Option, none, some, arith, if◌then◌else◌,
}
use clear_evmi_plugin.Prelude.Int.{ℤ}
use clear_evmi_plugin.Text.{Text}
use clear_evmi_plugin.Postgres.{Postgres}
use clear_evmi_plugin.Db.{Db}
use clear_evmi_plugin.Reserve.Assets.{count}
use clear_evmi_plugin.Transfer.{query_or}
use clear_evmi_plugin.Exec.{
  World, Outcome, Result, ok, err, Exec, pure, statement, refuse, select, numeric_arg, write,
  where_defined, continue, next, later, is_served, ◌>>=◌, ◌>>◌,
}

pub record Spends {A : Type 0} (m : Exec A) : Type 0 where
  pub run : (w : World) → count (m w).1.outcomes ≤ count w.outcomes

pub count-later : (os : List Outcome) → count (later os) ≤ count os
unfolding count
count-later [] = omega arith
count-later (o ∷ os) = omega arith

module _ {A : Type 0} where
  pub pure-Spends : (a : A) → Spends (pure a)
  pure-Spends a = record { run = λ w. omega arith }

  pub refuse-Spends : Spends {A = A} refuse
  unfolding refuse
  refuse-Spends = record { run = λ w. count-later w.outcomes }

  pub statement-Spends : (q : Db → A × Db) → Spends (statement q)
  unfolding statement refuse
  statement-Spends q = record {
    run = λ w. by_test w (w.aborted || not (is_served (next w.outcomes)));
  }
    where
      by_test :
          (w : World) (refused : Bool)
          → count
              (if refused then refuse {A = A} w else (
                ok (q w.db).0,
                record w { db = (q w.db).1; outcomes = later w.outcomes },
              )).1.outcomes
            ≤ count w.outcomes
      by_test w true = count-later w.outcomes
      by_test w false = count-later w.outcomes

  pub select-Spends : (f : Db → A) → Spends (select f)
  unfolding select
  select-Spends f = statement-Spends (λ d. (f d, d))

  pub if-Spends : (b : Bool) (m n : Exec A) → Spends m → Spends n → Spends (if b then m else n)
  if-Spends true m n h k = h
  if-Spends false m n h k = k

  pub where_defined-Spends :
      (test : Db → Bool) (m : Exec A) → Spends m → Spends (where_defined test m)
  unfolding where_defined refuse
  where_defined-Spends test m h = record { run = λ w. by_test (test w.db) w }
    where
      by_test :
          (b : Bool) (w : World) → count (if b then m w else refuse w).1.outcomes ≤ count w.outcomes
      by_test true w = h.run w
      by_test false w = count-later w.outcomes

  pub query_or-Spends : (a : A) (m : Exec A) → Spends m → Spends (query_or a m)
  unfolding query_or
  query_or-Spends a m h = record { run = λ w. h.run w }

module _ {A B : Type 0} where
  continue-Spends :
      (r : Result A × World) (f : A → Exec B)
      → ((a : A) → Spends (f a))
      → count (continue r.0 f r.1).1.outcomes ≤ count r.1.outcomes
  continue-Spends (ok a, w) f k = (k a).run w
  continue-Spends (err x, w) f k = omega arith

  pub bind-Spends :
      (m : Exec A) (f : A → Exec B) → Spends m → ((a : A) → Spends (f a)) → Spends (m >>= f)
  unfolding ◌>>=◌
  bind-Spends m f h k = record {
    run = λ w. let first = h.run w in let second = continue-Spends (m w) f k in omega arith;
  }

  pub then-Spends : (m : Exec A) (n : Exec B) → Spends m → Spends n → Spends (m >> n)
  unfolding ◌>>◌
  then-Spends m n h k = bind-Spends m (λ _. n) h (λ _. k)

pub write-Spends : (f : Db → Db) → Spends (write f)
unfolding write
write-Spends f = statement-Spends (λ d. (tt, f d))

pub numeric_arg-Spends : (pg : Postgres) (v : Text) → Spends (numeric_arg pg v)
unfolding numeric_arg
numeric_arg-Spends pg v = by_value (pg.numeric v)
  where
    by_value : (o : Option ℤ) → Spends {A = ℤ} (elim o [ none ↦ refuse | some n ↦ pure n ])
    by_value none = refuse-Spends
    by_value (some n) = pure-Spends n

pub ruleset spending_rules = (
  pure-Spends, select-Spends, statement-Spends, if-Spends, bind-Spends, then-Spends, write-Spends,
  where_defined-Spends, query_or-Spends, numeric_arg-Spends,
)
