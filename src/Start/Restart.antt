-- ===== src/Start/Restart.antt =====
-- What `Init` loads, on the tables of whatever deliveries went before.
use clear_evmi_plugin.Prelude.{
  ℕ, ◌≡◌, refl, Bool, true, false, ◌||◌, not, List, [], Option, none, some, or_else, nat_equality,
  list_equality, pair_equality, if◌then◌else◌,
}
use clear_evmi_plugin.Text.{Text}
use clear_evmi_plugin.Address.{norm_addr}
use clear_evmi_plugin.Table.{find}
use clear_evmi_plugin.Schema.{Catalog, run}
use clear_evmi_plugin.Schema.Script.{schema}
use clear_evmi_plugin.Db.{Db}
use clear_evmi_plugin.Event.{LogEvent}
use clear_evmi_plugin.Registry.{registry_of, seed_contracts, load_registry}
use clear_evmi_plugin.Records.Contracts.{IsKeyed}
use clear_evmi_plugin.Start.{
  PluginConfig, Services, Context, Exporter, read_config, is_true_by_default, connect, migrate,
  migrated, prepare, prepared, connected_to, configured, init,
}
use clear_evmi_plugin.Start.Configured.{
  kind_at, seeded, kind_named, seed_contracts-kind_at, seed_contracts-IsKeyed, registry_of-find,
}
use clear_evmi_plugin.Dispatch.{Setup, dispatch}
use clear_evmi_plugin.Dispatch.Kept.{deliver_all-Extends}
use clear_evmi_plugin.Delivery.{deliver_all}
use clear_evmi_plugin.Exec.{
  World, Result, ok, err, Error, Exec, pure, select, statement, refuse, continue, next, is_served,
  later, ◌>>=◌, ◌>>◌,
}
use clear_evmi_plugin.Exec.Ensures.{
  Keeps, Claims, Ensures-pure, Ensures-raise, Ensures-select, Ensures-if,
}

module _ {A : Type 0} (R R' : Db → Type 0) where
  both-Claims :
      (r : Result A × World) → Claims (λ _. R) r → Claims (λ _. R') r → Claims (λ _ d. R d × R' d) r
  both-Claims (ok a, w) h k = (h, k)
  both-Claims (err e, w) h k = tt

-- What holds of an error and of what the second call makes of the first one's tables.
then_claims :
    {A B : Type 0} (R : Db → Type 0) (Q : Result B × World → Type 0) (m : Exec A) (n : Exec B)
    (w : World)
    → ((e : Error) (w' : World) → Q (err e, w'))
    → Claims (λ _. R) (m w)
    → ((w' : World) → R w'.db → Q (n w'))
    → Q ((m >> n) w)
unfolding ◌>>=◌ ◌>>◌
then_claims {A} {B} R Q m n w errs h k = by_value (m w) h
  where
    by_value : (r : Result A × World) → Claims (λ _. R) r → Q (continue r.0 (λ _. n) r.1)
    by_value (ok a, w') h = k w' h
    by_value (err e, w') h = errs e w'

load_registry-registry :
    (c : ℕ) (w : World)
    → (load_registry c w).0 ≡ ok tt
    → (load_registry c w).1.registry ≡ registry_of c w.db.contracts []
unfolding load_registry select statement refuse ◌>>=◌
load_registry-registry c w = by_test (w.aborted || not (is_served (next w.outcomes)))
  where
    loaded : Bool → Result (Unit {0}) × World
    loaded refused =
        let r =
          (if refused then refuse w else (
            ok (registry_of c w.db.contracts []),
            record w { outcomes = later w.outcomes },
          )) in
        continue r.0 (λ reg w'. (ok tt, record w' { registry = reg })) r.1

    by_test :
        (refused : Bool)
        → (loaded refused).0 ≡ ok tt
        → (loaded refused).1.registry ≡ registry_of c w.db.contracts []
    by_test true e = cc
    by_test false e = refl

migrate-Keeps : (P : Db → Type 0) → Keeps P migrate
unfolding migrate migrated refuse
migrate-Keeps P = record {
  run = λ w p. by_test (w.aborted || not (is_served (next w.outcomes))) (run schema w.catalog) w p;
}
  where
    by_test :
        (b : Bool) (o : Option Catalog) (w : World)
        → P w.db
        → Claims (λ _. P) (if b then refuse w else migrated o w)
    by_test true o w p = tt
    by_test false none w p = tt
    by_test false (some catalog) w p = p

module _ (c : ℕ) (a : Text) (cfg : PluginConfig) (o : Option Text) where
  abbrev Stored : Db → Type 0
  Stored d = (kind_at c a d.contracts ≡ o) × IsKeyed d.contracts

  abbrev Seeded : Db → Type 0
  Seeded d = (kind_at c a d.contracts ≡ seeded a cfg.contracts o) × IsKeyed d.contracts

  -- A start that succeeds has the address as the configuration and the tables say.
  abbrev Loads : Result (Unit {0}) × World → Type 0
  Loads r = r.0 ≡ ok tt → find a r.1.registry ≡ kind_named (seeded a cfg.contracts o)

  load_registry-Loads : (w : World) → Seeded w.db → Loads (load_registry c w)
  unfolding find
  load_registry-Loads w p e =
      rw (load_registry-registry c w e, registry_of-find c a w.db.contracts [] p.1, p.0)
        (or_none (kind_named (seeded a cfg.contracts o)))
    where
      or_none : {K : Type 0} (k : Option K) → or_else k none ≡ k
      or_none none = refl
      or_none (some k) = refl

  prepare-Loads : (w : World) → Stored w.db → Loads (prepare c cfg w)
  unfolding prepare migrate
  prepare-Loads w p =
      then_claims Stored Loads (if is_true_by_default cfg.auto_migrate then migrate else pure tt) _
        w (λ e w' h. cc) (prepared_tables.run w p)
        λ w' q.
          then_claims Seeded Loads (seed_contracts c cfg.contracts) (load_registry c) w'
            (λ e w'' h. cc)
            (both-Claims (λ d. kind_at c a d.contracts ≡ seeded a cfg.contracts o)
              (λ d. IsKeyed d.contracts) (seed_contracts c cfg.contracts w')
              ((seed_contracts-kind_at c a cfg.contracts o).run w' q.0)
              ((seed_contracts-IsKeyed c cfg.contracts).run w' q.1))
            load_registry-Loads
    where
      prepared_tables :
          Keeps Stored (if is_true_by_default cfg.auto_migrate then migrate else pure tt)
      prepared_tables =
          Ensures-if (is_true_by_default cfg.auto_migrate) migrate (pure tt)
            (λ _. migrate-Keeps Stored) (λ _. Ensures-pure tt (λ _. Stored) (λ d p. p))

  connect-Stored : (s : Services) → Keeps Stored (connect s cfg.dsn)
  unfolding connect
  connect-Stored s =
      Ensures-if (s.opens cfg.dsn) _ _ (λ _. Ensures-select (λ _. tt) (λ _. Stored) (λ d p. p))
        (λ _. Ensures-raise Error.request_failed (λ _. Stored))

module _ (s : Services) (ctx : Context) (a : Text) where
  abbrev Starts : PluginConfig → Option Text → Result (Unit {0}) × (Exporter × World) → Type 0
  Starts cfg o r = Loads ctx.chain_id a cfg o (r.0, r.1.1)

  init-Starts :
      (cfg : PluginConfig) (e : Exporter) (w : World)
      → read_config s ctx.config ≡ ok cfg
      → IsKeyed w.db.contracts
      → Starts cfg (kind_at ctx.chain_id a w.db.contracts) (init s ctx e w)
  unfolding init configured connected_to prepared
  init-Starts cfg e w readable keyed = rw readable (
      by_connection (connect s cfg.dsn (record w { registry = []; aborted = false })) (
        (connect-Stored ctx.chain_id a cfg o s).run (record w { registry = []; aborted = false })
          (refl, keyed)))
    where
      o : Option Text
      o = kind_at ctx.chain_id a w.db.contracts

      by_preparation :
          (e : Exporter) (r : Result (Unit {0}) × World)
          → Loads ctx.chain_id a cfg o r
          → Starts cfg o (prepared s ctx cfg e r)
      by_preparation e (ok done, w') h = h
      by_preparation e (err x, w') h = h

      by_connection :
          (r : Result (Unit {0}) × World)
          → Claims (λ _. Stored ctx.chain_id a cfg o) r
          → Starts cfg o (
              connected_to s ctx cfg
                (record e { name = ctx.exporter_name; chain_id = ctx.chain_id })
                r)
      by_connection (ok done, w') h =
          by_preparation _ (prepare ctx.chain_id cfg w') (prepare-Loads ctx.chain_id a cfg o w' h)
      by_connection (err x, w') h = λ e. cc

-- Whatever was delivered before: where the exporter is started again with a configuration that can be
-- read and without an error, the registry has an address, in its normal form, with the kind that the
-- last entry of the configuration for it names, and without such an entry with the kind that its row
-- in the table of contracts names, and else not at all. The table has one row for each chain and
-- address, in its normal form, before the deliveries.
pub init-registry :
    (setup : Setup) (logs : List LogEvent) (w : World)
    → IsKeyed w.db.contracts
    → (s : Services) (ctx : Context) (cfg : PluginConfig) (e : Exporter)
    → read_config s ctx.config ≡ ok cfg
    → let now = deliver_all (dispatch setup) logs w in
      let started = init s ctx e now in
      started.0 ≡ ok tt
      → (a : Text)
      → find (norm_addr a) started.1.1.registry
        ≡ kind_named (
            seeded
              (norm_addr a)
              cfg.contracts
              (kind_at ctx.chain_id (norm_addr a) now.db.contracts))
init-registry setup logs w keyed s ctx cfg e readable started a =
    init-Starts s ctx (norm_addr a) cfg e (deliver_all (dispatch setup) logs w) readable
      ((deliver_all-Extends setup logs w).keyed keyed) started
