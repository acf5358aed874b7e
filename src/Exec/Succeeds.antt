-- ===== src/Exec/Succeeds.antt =====
-- Calls that return a result wherever the server serves every statement.
use clear_evmi_plugin.Prelude.{◌≡◌, refl, Bool, true, false, [], some, if◌then◌else◌}
use clear_evmi_plugin.Prelude.Int.{ℤ}
use clear_evmi_plugin.Text.{Text}
use clear_evmi_plugin.Postgres.{Postgres}
use clear_evmi_plugin.Db.{Db}
use clear_evmi_plugin.Transfer.{query_or, or_default}
use clear_evmi_plugin.Exec.{
  World, Result, ok, err, Exec, pure, statement, select, numeric_arg, where_defined, write,
  continue, ◌>>=◌, ◌>>◌,
}

-- The server has no failure to come and none has happened in the transaction.
pub record IsSound (w : World) : Type 0 where
  pub served : w.outcomes ≡ []
  pub running : w.aborted ≡ false

-- A result, a world that is sound still, and a condition on its tables.
abbrev pub Done : {A : Type 0} → (Db → Type 0) → Result A × World → Type 0
Done {A} Q r = (a : A) × ((r.0 ≡ ok a) × (IsSound r.1 × Q r.1.db))

-- From tables of the first condition to tables of the second.
pub record Succeeds {A : Type 0} (P : Db → Type 0) (m : Exec A) (Q : Db → Type 0) : Type 0 where
  pub run : (w : World) → IsSound w → P w.db → Done Q (m w)

abbrev pub Anything : Db → Type 0
Anything d = Unit

module _ {A : Type 0} {P Q : Db → Type 0} where
  pub statement-Succeeds :
      (q : Db → A × Db) → ((d : Db) → P d → Q (q d).1) → Succeeds P (statement q) Q
  unfolding statement
  statement-Succeeds q k = record {
    run = λ w p h.
        rw (p.running, p.served)
          ((q w.db).0, (refl, (record { served = refl; running = refl }, k w.db h)));
  }

  pub if-Succeeds :
      (b : Bool) (m n : Exec A)
      → Succeeds P m Q
      → Succeeds P n Q
      → Succeeds P (if b then m else n) Q
  if-Succeeds true m n h k = h
  if-Succeeds false m n h k = k

  pub query_or-Succeeds : (a : A) (m : Exec A) → Succeeds P m Q → Succeeds P (query_or a m) Q
  unfolding query_or
  query_or-Succeeds a m h = record { run = λ w p k. by_value (m w) (h.run w p k) }
    where
      by_value : (r : Result A × World) → Done Q r → Done Q (ok (or_default a r.0), r.1)
      by_value r (b, (e, sound)) = (or_default a r.0, (refl, sound))

  pub where_defined-Succeeds :
      (test : Db → Bool) (m : Exec A)
      → ((d : Db) → P d → test d ≡ true)
      → Succeeds P m Q
      → Succeeds P (where_defined test m) Q
  unfolding where_defined
  where_defined-Succeeds test m e h = record { run = λ w p k. rw (e w.db k) (h.run w p k) }

module _ {A : Type 0} {P : Db → Type 0} where
  pub pure-Succeeds : (a : A) → Succeeds P (pure a) P
  pure-Succeeds a = record { run = λ w p h. (a, (refl, (p, h))) }

  pub select-Succeeds : (f : Db → A) → Succeeds P (select f) P
  unfolding select
  select-Succeeds f = statement-Succeeds (λ d. (f d, d)) (λ d h. h)

  pub forget-Succeeds : {Q : Db → Type 0} (m : Exec A) → Succeeds P m Q → Succeeds P m Anything
  forget-Succeeds {Q} m h = record { run = λ w p k. weaker (m w) (h.run w p k) }
    where
      weaker : (r : Result A × World) → Done Q r → Done Anything r
      weaker r (a, (e, (sound, q))) = (a, (e, (sound, tt)))

  pub whatever-Succeeds : {Q : Db → Type 0} (m : Exec A) → Succeeds Anything m Q → Succeeds P m Q
  whatever-Succeeds m h = record { run = λ w p k. h.run w p tt }

module _ {A B : Type 0} {Q R : Db → Type 0} where
  continue-Done :
      (r : Result A × World) (f : A → Exec B)
      → Done R r
      → ((a : A) → Succeeds R (f a) Q)
      → Done Q (continue r.0 f r.1)
  continue-Done (ok b, w) f (a, (e, (sound, h))) k = (k b).run w sound h
  continue-Done (err x, w) f (a, (e, sound)) k = cc

module _ {A B : Type 0} {P Q R : Db → Type 0} where
  pub bind-Succeeds :
      (m : Exec A) (f : A → Exec B)
      → Succeeds P m R
      → ((a : A) → Succeeds R (f a) Q)
      → Succeeds P (m >>= f) Q
  unfolding ◌>>=◌
  bind-Succeeds m f h k = record { run = λ w p c. continue-Done (m w) f (h.run w p c) k }

  pub then-Succeeds :
      (m : Exec A) (n : Exec B) → Succeeds P m R → Succeeds R n Q → Succeeds P (m >> n) Q
  unfolding ◌>>◌
  then-Succeeds m n h k = bind-Succeeds m (λ _. n) h (λ _. k)

module _ {P Q : Db → Type 0} where
  pub write-Succeeds : (f : Db → Db) → ((d : Db) → P d → Q (f d)) → Succeeds P (write f) Q
  unfolding write
  write-Succeeds f k = statement-Succeeds (λ d. (tt, f d)) k

pub numeric_arg-Succeeds :
    {P : Db → Type 0} (pg : Postgres) (v : Text) (n : ℤ)
    → pg.numeric v ≡ some n
    → Succeeds P (numeric_arg pg v) P
unfolding numeric_arg
numeric_arg-Succeeds pg v n e = rw (e, numeric_arg) (pure-Succeeds n)
