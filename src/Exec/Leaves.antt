-- ===== src/Exec/Leaves.antt =====
-- Calls that leave a part of the tables as it is.
use clear_evmi_plugin.Prelude.{◌≡◌, sym, subst, Bool, true, false, if◌then◌else◌}
use clear_evmi_plugin.Text.{Text}
use clear_evmi_plugin.Postgres.{Postgres}
use clear_evmi_plugin.Db.{Db}
use clear_evmi_plugin.Exec.{Exec, numeric_arg, pure, where_defined, write, ◌>>=◌, ◌>>◌}
use clear_evmi_plugin.Exec.Ensures.{
  Keeps, Ensures-pure, Ensures-where_defined, Ensures-write, Ensures-bind, Ensures-weaken,
  Ensures-numeric_arg,
}

module _ {V : Type 0} (part : Db → V) where
  -- Whatever holds of the part holds after the call, unless it returns an error.
  pub record Leaves {A : Type 0} (m : Exec A) : Type 1 where
    pub keeps : (Q : V → Type 0) → Keeps (λ d. Q (part d)) m

  module _ {A B : Type 0} where
    pub bind-Leaves :
        (m : Exec A) (f : A → Exec B) → Leaves m → ((a : A) → Leaves (f a)) → Leaves (m >>= f)
    bind-Leaves m f h k = record {
      keeps = λ Q.
          Ensures-bind m f (λ _ d. Q (part d)) (λ _ d. Q (part d)) (h.keeps Q) (λ a. (k a).keeps Q);
    }

    pub then-Leaves : (m : Exec A) (n : Exec B) → Leaves m → Leaves n → Leaves (m >> n)
    unfolding ◌>>◌
    then-Leaves m n h k = bind-Leaves m (λ _. n) h (λ _. k)

  pub pure-Leaves : {A : Type 0} (a : A) → Leaves (pure a)
  pure-Leaves a = record { keeps = λ Q. Ensures-pure a (λ _ d. Q (part d)) (λ d p. p) }

  pub if-Leaves :
      {A : Type 0} (b : Bool) (m n : Exec A) → Leaves m → Leaves n → Leaves (if b then m else n)
  if-Leaves true m n h k = h
  if-Leaves false m n h k = k

  pub write-Leaves : (f : Db → Db) → ((d : Db) → part (f d) ≡ part d) → Leaves (write f)
  write-Leaves f h = record { keeps = λ Q. Ensures-write f (λ d p. subst Q (sym (h d)) p) }

  pub where_defined-Leaves :
      {A : Type 0} (test : Db → Bool) (m : Exec A) → Leaves m → Leaves (where_defined test m)
  where_defined-Leaves test m h = record {
    keeps = λ Q. Ensures-where_defined test m (λ _ d. Q (part d)) (h.keeps Q);
  }

  pub numeric_arg-Leaves : (pg : Postgres) (v : Text) → Leaves (numeric_arg pg v)
  numeric_arg-Leaves pg v = record {
    keeps = λ Q. Ensures-weaken _ _ (λ _ d. Q (part d)) (Ensures-numeric_arg pg v) (λ n d p. p.0);
  }

pub ruleset leave_rules = (
  bind-Leaves, then-Leaves, write-Leaves, where_defined-Leaves, numeric_arg-Leaves, pure-Leaves,
  if-Leaves,
)
