-- ===== src/Exec.antt =====
-- The state that a call of the exporter works on, and its computations: Go functions that make
-- statements in one transaction and may return an error.
pub mod Ensures
pub mod Succeeds
pub mod Spends
pub mod Leaves
use clear_evmi_plugin.Schema.{Catalog}
use clear_evmi_plugin.Rpc.{LogSource}
use clear_evmi_plugin.Prelude.{
  ℕ, Bool, true, false, ◌||◌, not, List, [], ◌∷◌, Option, none, some, if◌then◌else◌,
}
use clear_evmi_plugin.Prelude.Int.{ℤ}
use clear_evmi_plugin.Text.{Text}
use clear_evmi_plugin.Postgres.{Postgres}
use clear_evmi_plugin.Kind.{ContractKind}
use clear_evmi_plugin.Table.{Table}
use clear_evmi_plugin.Db.{Db}

pub data Error : Type 0 where
  -- a statement, a commit or the connection failed
  query_failed : Error
  -- an argument that a handler refuses
  bad_argument : Error
  -- a request to the chain or to the host failed
  request_failed : Error

pub data Result (A : Type 0) : Type 0 where
  ok : A → Result A
  err : Error → Result A

-- How the server answers a statement. A commit may also be `unreported`: carried out, though the
-- connection is lost before its answer.
pub data Outcome : Type 0 where
  served failed unreported : Outcome

-- The database as the open transaction sees it: its rows, by the columns that the script of schema.go
-- leaves (a column that a table still lacks reads as what the script fills it with), and its catalog,
-- which no transaction of the exporter changes. Then the exporter's registry, which is memory and takes
-- no part in the transaction, the answers that the server is going to give (`served` when the list
-- has ended), and whether a statement has failed, after which Postgres refuses all that follow. The id
-- of the pool ABI (0 until it is known) and the log sources created at the host, the last first, are
-- not of the transaction either.
pub record World : Type 0 where
  pub db : Db
  pub catalog : Catalog
  pub registry : Table Text ContractKind
  pub outcomes : List Outcome
  pub aborted : Bool
  pub curve_abi_id : ℕ
  pub sources : List LogSource

abbrev pub Exec : Type 0 → Type 0
Exec A = World → Result A × World

abbrev pub next : List Outcome → Outcome
next [] = served
next (o ∷ os) = o

abbrev pub later : List Outcome → List Outcome
later [] = []
later (o ∷ os) = os

abbrev pub is_served : Outcome → Bool
is_served served = true
is_served failed = false
is_served unreported = false

module _ {A : Type 0} where
  abbrev pub pure : A → Exec A
  pure a w = (ok a, w)

  abbrev pub raise : Error → Exec A
  raise e w = (err e, w)

  -- The server refuses a statement. In a transaction it then refuses all that follow.
  unfoldable pub refuse : Exec A
  refuse w = (err query_failed, record w { aborted = true; outcomes = later w.outcomes })

  -- `tx.Exec`, `tx.Query`: a statement reads and writes the tables, unless it fails.
  unfoldable pub statement : (Db → A × Db) → Exec A
  unfolding refuse
  statement q w =
      let (a, d) = q w.db in
      if w.aborted || not (is_served (next w.outcomes))
      then refuse w
      else (ok a, record w { db = d; outcomes = later w.outcomes })

  -- A statement whose expressions have no value on some tables, where the server refuses it.
  unfoldable pub where_defined : (Db → Bool) → Exec A → Exec A
  where_defined test m w = if test w.db then m w else refuse w

module _ {A B : Type 0} where
  abbrev pub continue : Result A → (A → Exec B) → Exec B
  continue (ok a) f w = f a w
  continue (err e) f w = (err e, w)

  infixl 5 ◌>>=◌ ◌>>◌
  unfoldable pub ◌>>=◌ : Exec A → (A → Exec B) → Exec B
  ◌>>=◌ m f w = let (r, w') = m w in continue r f w'

  unfoldable pub ◌>>◌ : Exec A → Exec B → Exec B
  unfolding ◌>>=◌
  m >> k = m >>= λ _. k

-- A statement that always has an effect and no rows to return.
unfoldable pub write : (Db → Db) → Exec (Unit {0})
write f = statement (λ d. (tt, f d))

-- SELECT
unfoldable pub select : {A : Type 0} → (Db → A) → Exec A
select f = statement (λ d. (f d, d))

-- The server converts the text of an argument to a number, and refuses the statement if it cannot.
unfoldable pub numeric_arg : Postgres → Text → Exec ℤ
numeric_arg pg v = elim (pg.numeric v) [ none ↦ refuse | some n ↦ pure n ]

-- The same for an argument that may be NULL.
unfoldable pub numeric_opt : Postgres → Option Text → Exec (Option ℤ)
unfolding numeric_arg ◌>>=◌
numeric_opt pg none = pure none
numeric_opt pg (some v) = do n ← numeric_arg pg v; pure (some n)

unfoldable pub when : Bool → Exec (Unit {0}) → Exec (Unit {0})
when b m = if b then m else pure tt
