-- ===== src/Start/Untouched.antt =====
-- What `Init` leaves as it was, whether it succeeds or not.
use clear_evmi_plugin.Prelude.{
  ℕ, ◌≡◌, refl, sym, ◌∙◌, ap, subst, Bool, true, false, ◌||◌, ◌&&◌, not, List, [], ◌∷◌, ◌==◌, ==-eq,
  ==-refl, inl, inr, ◌⊎◌, Option, none, some, Bool-cases, nat_equality, list_equality,
  pair_equality, if◌then◌else◌,
}
use clear_evmi_plugin.Text.{Text}
use clear_evmi_plugin.Address.{norm_addr}
use clear_evmi_plugin.Args.{is_empty}
use clear_evmi_plugin.Kind.{kind_from_string}
use clear_evmi_plugin.Table.{find}
use clear_evmi_plugin.Table.Laws.{find-upsert}
use clear_evmi_plugin.Schema.{Catalog, run}
use clear_evmi_plugin.Schema.Script.{schema}
use clear_evmi_plugin.Db.{Db}
use clear_evmi_plugin.Registry.{is_unknown, ContractConfig, seed_contracts, load_registry}
use clear_evmi_plugin.Records.Contracts.{Contracts}
use clear_evmi_plugin.Start.{
  PluginConfig, Services, Context, Exporter, read_config, is_true_by_default, connect, migrate,
  migrated, prepare, prepared, connected_to, configured, init,
}
use clear_evmi_plugin.Start.Configured.{seed_one}
use clear_evmi_plugin.Exec.{
  World, Result, ok, err, request_failed, Exec, pure, raise, select, write, statement, refuse,
  continue, next, is_served, later, ◌>>=◌, ◌>>◌,
}

-- The configuration has an entry of the address.
unfoldable pub is_configured : Text → List ContractConfig → Bool
is_configured a [] = false
is_configured a (entry ∷ entries) = norm_addr entry.address == a || is_configured a entries

abbrev pub entries_of : Result PluginConfig → List ContractConfig
entries_of (ok cfg) = cfg.contracts
entries_of (err x) = []

-- Only the table of contracts differs, and there only rows of the chain's addresses in the list.
pub record DiffersAt (c : ℕ) (entries : List ContractConfig) (d d' : Db) : Type 0 where
  pub contracts : Contracts
  pub others : d' ≡ record d { contracts = contracts }
  pub rows :
      (i : ℕ) (a : Text)
      → (i == c && is_configured a entries) ≡ false
      → find (i, a) contracts ≡ find (i, a) d.contracts

module _ (c : ℕ) (entries : List ContractConfig) where
  DiffersAt-refl : (d : Db) → DiffersAt c entries d d
  DiffersAt-refl d = record { contracts = d.contracts; others = refl; rows = λ i a h. refl }

  DiffersAt-trans :
      {d d' d'' : Db}
      → DiffersAt c entries d d'
      → DiffersAt c entries d' d''
      → DiffersAt c entries d d''
  DiffersAt-trans p q = record {
    contracts = q.contracts;
    others = q.others ∙ ap (λ (x : Db). record x { contracts = q.contracts }) p.others;
    rows =
        λ i a h. q.rows i a h ∙ (ap (λ (x : Db). find (i, a) x.contracts) p.others ∙ p.rows i a h);
  }

  -- The rows differ so, and the catalog is the same.
  abbrev Rest : World → World → Type 0
  Rest w w' = DiffersAt c entries w.db w'.db × (w'.catalog ≡ w.catalog)

  Rest-refl : (w : World) → Rest w w
  Rest-refl w = (DiffersAt-refl w.db, refl)

  -- Whatever the server answers.
  abbrev Touches : {A : Type 0} → Exec A → Type 0
  Touches m = (w : World) → Rest w (m w).1

  pure-Touches : {A : Type 0} (a : A) → Touches (pure a)
  pure-Touches a w = Rest-refl w

  statement-Touches :
      {A : Type 0} (q : Db → A × Db)
      → ((d : Db) → DiffersAt c entries d (q d).1)
      → Touches (statement q)
  unfolding statement refuse
  statement-Touches {A} q h w = by_test (w.aborted || not (is_served (next w.outcomes)))
    where
      by_test :
          (refused : Bool)
          → Rest w
              (if refused
                then refuse w
                else (ok (q w.db).0, record w { db = (q w.db).1; outcomes = later w.outcomes })).1
      by_test true = Rest-refl w
      by_test false = (h w.db, refl)

  write-Touches : (f : Db → Db) → ((d : Db) → DiffersAt c entries d (f d)) → Touches (write f)
  unfolding write
  write-Touches f h = statement-Touches (λ d. (tt, f d)) h

  bind-Touches :
      {A B : Type 0} (m : Exec A) (f : A → Exec B)
      → Touches m
      → ((a : A) → Touches (f a))
      → Touches (m >>= f)
  unfolding ◌>>=◌
  bind-Touches {A} m f h k w = by_value (m w) (h w)
    where
      by_value : (r : Result A × World) → Rest w r.1 → Rest w (continue r.0 f r.1).1
      by_value (ok a, w') (p, e) = let (q, e') = k a w' in (DiffersAt-trans p q, e' ∙ e)
      by_value (err x, w') p = p

  then-Touches : {A B : Type 0} (m : Exec A) (n : Exec B) → Touches m → Touches n → Touches (m >> n)
  unfolding ◌>>◌
  then-Touches m n h k = bind-Touches m (λ _. n) h (λ _. k)

  if-Touches :
      {A : Type 0} (b : Bool) (m n : Exec A) → Touches m → Touches n → Touches (if b then m else n)
  if-Touches true m n h k = h
  if-Touches false m n h k = k

  seed_one-DiffersAt :
      (entry : ContractConfig)
      → is_configured (norm_addr entry.address) entries ≡ true
      → (d : Db) → DiffersAt c entries d (seed_one c entry d)
  seed_one-DiffersAt entry listed d = record {
    contracts = (seed_one c entry d).contracts;
    others = refl;
    rows = λ i a h.
        let other = apart i a h in
        rw (find-upsert {K = ℕ × Text} (c, norm_addr entry.address) (i, a) _ _ d.contracts, other);
  }
    where
      apart :
          (i : ℕ) (a : Text)
          → (i == c && is_configured a entries) ≡ false
          → (c == i && norm_addr entry.address == a) ≡ false
      apart i a h = elim (Bool-cases (c == i && norm_addr entry.address == a)) [
        | inl met ↦
            let same : ◌≡◌ {A = ℕ × Text} (c, norm_addr entry.address) (i, a) =
              ==-eq (c, norm_addr entry.address) (i, a) met in
            let unlisted : (c == c && is_configured (norm_addr entry.address) entries) ≡ false =
              subst (λ (key : ℕ × Text). (key.0 == c && is_configured key.1 entries) ≡ false)
                (sym same) h in
            let absurd = rw (==-refl c, listed) at unlisted in cc
        | inr other ↦ other
      ]

  seed_contracts-Touches :
      (some_of : List ContractConfig)
      → ((a : Text) → is_configured a some_of ≡ true → is_configured a entries ≡ true)
      → Touches (seed_contracts c some_of)
  unfolding seed_contracts is_configured
  seed_contracts-Touches [] within = pure-Touches tt
  seed_contracts-Touches (entry ∷ some_of) within =
      let rest =
        seed_contracts-Touches some_of
          λ a h. within a (rw h (or_true (norm_addr entry.address == a))) in
      if-Touches (is_empty (norm_addr entry.address) || is_unknown (kind_from_string entry.kind))
        (seed_contracts c some_of) (write (seed_one c entry) >> seed_contracts c some_of) rest
        (then-Touches (write (seed_one c entry)) (seed_contracts c some_of)
          (write-Touches (seed_one c entry) (
            seed_one-DiffersAt entry
              (within (norm_addr entry.address) (rw (==-refl (norm_addr entry.address))))))
          rest)
    where
      or_true : (b : Bool) → (b || true) ≡ true
      or_true true = refl
      or_true false = refl

  load_registry-Touches : Touches (load_registry c)
  unfolding load_registry select
  load_registry-Touches =
      bind-Touches _ _ (statement-Touches _ DiffersAt-refl) (λ reg w. Rest-refl w)

  connect-Touches : (s : Services) (dsn : Text) → Touches (connect s dsn)
  unfolding connect select
  connect-Touches s dsn =
      if-Touches (s.opens dsn) _ (raise request_failed) (statement-Touches _ DiffersAt-refl)
        (λ w. Rest-refl w)

-- The catalog is as it was, or as the script of schema.go leaves it.
abbrev pub MayMigrate : Catalog → Catalog → Type 0
MayMigrate c c' = (c' ≡ c) ⊎ (run schema c ≡ some c')

-- All that a start does to the database.
abbrev pub Starts : ℕ → List ContractConfig → World → World → Type 0
Starts c entries w w' = DiffersAt c entries w.db w'.db × MayMigrate w.catalog w'.catalog

module _ (c : ℕ) (cfg : PluginConfig) where
  then-Rest :
      (w w' w'' : World)
      → Starts c cfg.contracts w w'
      → Rest c cfg.contracts w' w''
      → Starts c cfg.contracts w w''
  then-Rest w w' w'' (p, inl same) (q, e) = (DiffersAt-trans c cfg.contracts p q, inl (e ∙ same))
  then-Rest w w' w'' (p, inr done) (q, e) = (
    DiffersAt-trans c cfg.contracts p q,
    inr (subst (λ z. run schema w.catalog ≡ some z) (sym e) done),
  )

  migrate-Starts : (w : World) → Starts c cfg.contracts w (migrate w).1
  unfolding migrate migrated refuse
  migrate-Starts w =
      by_test (w.aborted || not (is_served (next w.outcomes))) (run schema w.catalog) refl
    where
      same : DiffersAt c cfg.contracts w.db w.db
      same = DiffersAt-refl c cfg.contracts w.db

      by_test :
          (b : Bool) (o : Option Catalog)
          → run schema w.catalog ≡ o
          → Starts c cfg.contracts w (if b then refuse w else migrated o w).1
      by_test true o e = (same, inl refl)
      by_test false none e = (same, inl refl)
      by_test false (some catalog) e = (same, inr e)

  seed_and_load : Touches c cfg.contracts (seed_contracts c cfg.contracts >> load_registry c)
  seed_and_load =
      then-Touches c cfg.contracts (seed_contracts c cfg.contracts) (load_registry c)
        (seed_contracts-Touches c cfg.contracts cfg.contracts (λ a h. h))
        (load_registry-Touches c cfg.contracts)

  prepare-Starts : (w : World) → Starts c cfg.contracts w (prepare c cfg w).1
  unfolding prepare ◌>>◌ ◌>>=◌
  prepare-Starts w = by_flag (is_true_by_default cfg.auto_migrate)
    where
      by_result :
          (r : Result (Unit {0}) × World)
          → Starts c cfg.contracts w r.1
          → Starts c cfg.contracts w
              (continue r.0 (λ _. seed_contracts c cfg.contracts >> load_registry c) r.1).1
      by_result (ok done, w') p =
          then-Rest w w' ((seed_contracts c cfg.contracts >> load_registry c) w').1 p
            (seed_and_load w')
      by_result (err x, w') p = p

      by_flag :
          (b : Bool)
          → Starts c cfg.contracts w
              (let r = (if b then migrate else pure tt) w in
                continue r.0 (λ _. seed_contracts c cfg.contracts >> load_registry c) r.1).1
      by_flag true = by_result (migrate w) (migrate-Starts w)
      by_flag false = by_result (ok tt, w) (DiffersAt-refl c cfg.contracts w.db, inl refl)

-- Whether it succeeds or returns an error half-way, a start leaves the catalog as it was or as the
-- script of schema.go makes it, and the rows of all tables but that of the contracts, and there every
-- row of another chain or of an address that the configuration has no entry for; a configuration that
-- cannot be read, or names no database, has no entries.
pub init-DiffersAt :
    (s : Services) (ctx : Context) (e : Exporter) (w : World)
    → DiffersAt ctx.chain_id (entries_of (read_config s ctx.config)) w.db (init s ctx e w).1.1.db
      × MayMigrate w.catalog (init s ctx e w).1.1.catalog
unfolding init configured connected_to prepared
init-DiffersAt s ctx e w = by_config (read_config s ctx.config)
  where
    begun : World
    begun = record w { registry = []; aborted = false }

    started : Exporter
    started = record e { name = ctx.exporter_name; chain_id = ctx.chain_id }

    by_preparation :
        (cfg : PluginConfig) (e : Exporter) (r : Result (Unit {0}) × World)
        → Starts ctx.chain_id cfg.contracts w r.1
        → Starts ctx.chain_id cfg.contracts w (prepared s ctx cfg e r).1.1
    by_preparation cfg e (ok done, w') p = p
    by_preparation cfg e (err x, w') p = p

    after :
        (cfg : PluginConfig) (w' : World)
        → Rest ctx.chain_id cfg.contracts w w'
        → Starts ctx.chain_id cfg.contracts w (prepare ctx.chain_id cfg w').1
    after cfg w' (p, e) =
        let (q, m) = prepare-Starts ctx.chain_id cfg w' in
        (
          DiffersAt-trans ctx.chain_id cfg.contracts p q,
          subst (λ z. MayMigrate z (prepare ctx.chain_id cfg w').1.catalog) e m,
        )

    by_connection :
        (cfg : PluginConfig) (r : Result (Unit {0}) × World)
        → Rest ctx.chain_id cfg.contracts w r.1
        → Starts ctx.chain_id cfg.contracts w (connected_to s ctx cfg started r).1.1
    by_connection cfg (ok done, w') p =
        by_preparation cfg _ (prepare ctx.chain_id cfg w') (after cfg w' p)
    by_connection cfg (err x, w') (p, e) = (p, inl e)

    by_config :
        (r : Result PluginConfig)
        → Starts ctx.chain_id (entries_of r) w (configured s ctx r started begun).1.1
    by_config (ok cfg) =
        by_connection cfg (connect s cfg.dsn begun)
          (connect-Touches ctx.chain_id cfg.contracts s cfg.dsn begun)
    by_config (err x) = (DiffersAt-refl ctx.chain_id [] w.db, inl refl)
