-- ===== src/Exec/Ensures.antt =====
-- Reasoning about a call that returns without an error: a condition on the tables before it gives a
-- condition on its result and the tables after it.
use clear_evmi_plugin.Prelude.{
  ◌≡◌, refl, Bool, true, false, not, ◌||◌, Option, none, some, if◌then◌else◌,
}
use clear_evmi_plugin.Db.{Db}
use clear_evmi_plugin.Prelude.Int.{ℤ}
use clear_evmi_plugin.Text.{Text}
use clear_evmi_plugin.Postgres.{Postgres}
use clear_evmi_plugin.Exec.{
  Error, Result, ok, err, World, Exec, pure, raise, refuse, statement, select, numeric_arg, later,
  where_defined, continue, ◌>>=◌, ◌>>◌, write, when, next, is_served,
}

-- What a result claims of the tables; an error claims nothing, since it rolls the tables back.
abbrev pub Claims : {A : Type 0} → (A → Db → Type 0) → Result A × World → Type 0
Claims Q (ok a, w) = Q a w.db
Claims Q (err e, w) = Unit

pub record Ensures {A : Type 0} (P : Db → Type 0) (m : Exec A) (Q : A → Db → Type 0) : Type 0 where
  pub run : (w : World) → P w.db → Claims Q (m w)

-- The condition holds before and, if the call returns without an error, after it.
abbrev pub Keeps : {A : Type 0} → (Db → Type 0) → Exec A → Type 0
Keeps P m = Ensures P m (λ _. P)

module _ {A : Type 0} where
  if-Claims :
      (b : Bool) (m n : Result A × World) (Q : A → Db → Type 0)
      → Claims Q m
      → Claims Q n
      → Claims Q (if b then m else n)
  if-Claims true m n Q h k = h
  if-Claims false m n Q h k = k

module _ {A : Type 0} {P : Db → Type 0} where
  pub Ensures-pure : (a : A) (Q : A → Db → Type 0) → ((d : Db) → P d → Q a d) → Ensures P (pure a) Q
  Ensures-pure a Q h = record { run = λ w p. h w.db p }

  pub Ensures-raise : (e : Error) (Q : A → Db → Type 0) → Ensures P (raise e) Q
  Ensures-raise e Q = record { run = λ w p. tt }

  pub Ensures-refuse : (Q : A → Db → Type 0) → Ensures P refuse Q
  unfolding refuse
  Ensures-refuse Q = record { run = λ w p. tt }

  pub Ensures-statement :
      (q : Db → A × Db) (Q : A → Db → Type 0)
      → ((d : Db) → P d → Q (q d).0 (q d).1)
      → Ensures P (statement q) Q
  unfolding statement
  Ensures-statement q Q h = record {
    run = λ w p.
        if-Claims (w.aborted || not (is_served (next w.outcomes))) (refuse w)
          (ok (q w.db).0, record w { db = (q w.db).1; outcomes = later w.outcomes }) Q tt
          (h w.db p);
  }

  pub Ensures-where_defined :
      (test : Db → Bool) (m : Exec A) (Q : A → Db → Type 0)
      → Ensures P m Q
      → Ensures P (where_defined test m) Q
  unfolding where_defined refuse
  Ensures-where_defined test m Q h = record {
    run = λ w p. if-Claims (test w.db) (m w) (refuse w) Q (h.run w p) tt;
  }

  pub Ensures-select :
      (f : Db → A) (Q : A → Db → Type 0) → ((d : Db) → P d → Q (f d) d) → Ensures P (select f) Q
  unfolding select
  Ensures-select f Q h = Ensures-statement (λ d. (f d, d)) Q h

module _ {A : Type 0} where
  Claims-map :
      (r : Result A × World) (Q R : A → Db → Type 0)
      → ((a : A) (d : Db) → Q a d → R a d)
      → Claims Q r
      → Claims R r
  Claims-map (ok a, w) Q R h c = h a w.db c
  Claims-map (err e, w) Q R h c = tt

  pub Ensures-weaken :
      {P : Db → Type 0} (m : Exec A) (Q R : A → Db → Type 0)
      → Ensures P m Q
      → ((a : A) (d : Db) → Q a d → R a d)
      → Ensures P m R
  Ensures-weaken m Q R h k = record { run = λ w p. Claims-map (m w) Q R k (h.run w p) }

-- The condition before may give a value, and facts about it.
pub Ensures-given :
    {A X : Type 0} {P : X → Db → Type 0} {Q : A → Db → Type 0} (m : Exec A)
    → ((x : X) → Ensures (P x) m Q)
    → Ensures (λ d. (x : X) × P x d) m Q
Ensures-given m h = record { run = λ w p. (h p.0).run w p.1 }

pub Ensures-fact :
    {A F : Type 0} {P : Db → Type 0} {Q : A → Db → Type 0} (m : Exec A)
    → (F → Ensures P m Q)
    → Ensures (λ d. F × P d) m Q
Ensures-fact m h = record { run = λ w p. (h p.0).run w p.1 }

module _ {A B : Type 0} where
  continue-Claims :
      (r : Result A) (w : World) (f : A → Exec B) (R : A → Db → Type 0) (Q : B → Db → Type 0)
      → Claims R (r, w)
      → ((a : A) → Ensures (R a) (f a) Q)
      → Claims Q (continue r f w)
  continue-Claims (ok a) w f R Q h k = (k a).run w h
  continue-Claims (err e) w f R Q h k = tt

module _ {A B : Type 0} {P : Db → Type 0} where
  pub Ensures-bind :
      (m : Exec A) (f : A → Exec B) (R : A → Db → Type 0) (Q : B → Db → Type 0)
      → Ensures P m R
      → ((a : A) → Ensures (R a) (f a) Q)
      → Ensures P (m >>= f) Q
  unfolding ◌>>=◌
  Ensures-bind m f R Q h k = record {
    run = λ w p. let (r, w') = m w in continue-Claims r w' f R Q (h.run w p) k;
  }

  pub Ensures-then :
      (m : Exec A) (n : Exec B) (R : Db → Type 0) (Q : B → Db → Type 0)
      → Ensures P m (λ _. R)
      → Ensures R n Q
      → Ensures P (m >> n) Q
  unfolding ◌>>◌
  Ensures-then m n R Q h k = Ensures-bind m (λ _. n) (λ _. R) Q h (λ _. k)

pub Ensures-write :
    {P Q : Db → Type 0} (f : Db → Db) → ((d : Db) → P d → Q (f d)) → Ensures P (write f) (λ _. Q)
unfolding write
Ensures-write {P} {Q} f h = Ensures-statement (λ d. (tt, f d)) (λ _. Q) h

pub Ensures-when :
    {P : Db → Type 0} (b : Bool) (m : Exec (Unit {0})) → Keeps P m → Keeps P (when b m)
unfolding when
Ensures-when true m h = h
Ensures-when {P} false m h = Ensures-pure tt (λ _. P) (λ d p. p)

pub Ensures-if :
    {A : Type 0} {P : Db → Type 0} {Q : A → Db → Type 0} (b : Bool) (m n : Exec A)
    → (b ≡ true → Ensures P m Q)
    → (b ≡ false → Ensures P n Q)
    → Ensures P (if b then m else n) Q
Ensures-if true m n h k = h refl
Ensures-if false m n h k = k refl

module _ {P : Db → Type 0} (pg : Postgres) where
  -- The number is what the database reads in the text.
  pub Ensures-numeric_arg :
      (v : Text) → Ensures P (numeric_arg pg v) (λ n d. P d × (pg.numeric v ≡ some n))
  unfolding numeric_arg
  Ensures-numeric_arg v = by_value (pg.numeric v) refl
    where
      by_value :
          (o : Option ℤ)
          → pg.numeric v ≡ o
          → Ensures P
              (elim o [ none ↦ refuse | some n ↦ pure n ])
              (λ n d. P d × (pg.numeric v ≡ some n))
      by_value none e = Ensures-refuse (λ n d. P d × (pg.numeric v ≡ some n))
      by_value (some n) e = Ensures-pure n (λ n d. P d × (pg.numeric v ≡ some n)) (λ d p. (p, e))

  -- A call that goes on with a number that the server reads.
  pub Ensures-read :
      {B : Type 0} {Q : B → Db → Type 0} (v : Text) (f : ℤ → Exec B)
      → ((n : ℤ) → Ensures P (f n) Q)
      → Ensures P (numeric_arg pg v >>= f) Q
  Ensures-read {B} {Q} v f h =
      Ensures-bind (numeric_arg pg v) f (λ _. P) Q
        (Ensures-weaken _ _ (λ _. P) (Ensures-numeric_arg v) (λ n d p. p.0)) h
