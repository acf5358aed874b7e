-- ===== src/Start/Defaults.antt =====
-- What the schema of the configuration says of absent fields is what `Init` does.
use clear_evmi_plugin.Prelude.{
  ℕ, ◌≡◌, refl, Bool, true, false, ◌==◌, List, [], ◌∷◌, Option, none, some, or_else, nat_equality,
  list_equality, if◌then◌else◌,
}
use mathlib.Core.Option
use clear_evmi_plugin.Text.{Text, text, trim_space}
use clear_evmi_plugin.Args.{is_empty}
use clear_evmi_plugin.Start.{
  PluginConfig, default_curve_pool_abi_name, rpc_url_of, ConfigField, config_schema, Services,
  Context, Exporter, with_dsn, read_config, is_true_by_default, connect, prepare, settle, prepared,
  connected_to, configured, init,
}
use clear_evmi_plugin.Rpc.{Host}
use clear_evmi_plugin.Exec.{World, Result, ok, err, bad_argument}

-- The default of a field.
unfoldable pub default_of : Text → List ConfigField → Text
default_of name [] = []
default_of name (field ∷ fields) =
    if field.name == name then field.default else default_of name fields

-- The configuration with the defaults of the schema in the place of what is absent.
unfoldable pub with_defaults : PluginConfig → PluginConfig
with_defaults cfg = record cfg {
  auto_migrate =
      or_else cfg.auto_migrate
        (some (default_of (text "autoMigrate") config_schema == text "true"));
  rpc_url = if is_empty cfg.rpc_url then default_of (text "rpcUrl") config_schema else cfg.rpc_url;
  curve_pool_abi =
      if is_empty (trim_space cfg.curve_pool_abi)
      then default_of (text "curvePoolAbi") config_schema
      else cfg.curve_pool_abi;
  index_curve_pools =
      or_else cfg.index_curve_pools
        (some (default_of (text "indexCurvePools") config_schema == text "true"));
}

migrates_by_default :
    (m : Option Bool)
    → is_true_by_default
        (or_else m (some (default_of (text "autoMigrate") config_schema == text "true")))
      ≡ is_true_by_default m
unfolding is_true_by_default default_of config_schema text
migrates_by_default none = refl
migrates_by_default (some b) = refl

indexes_by_default :
    (m : Option Bool)
    → is_true_by_default
        (or_else m (some (default_of (text "indexCurvePools") config_schema == text "true")))
      ≡ is_true_by_default m
unfolding is_true_by_default default_of config_schema text
indexes_by_default none = refl
indexes_by_default (some b) = refl

no_default_url :
    (url : Text) → (if is_empty url then default_of (text "rpcUrl") config_schema else url) ≡ url
unfolding default_of config_schema text
no_default_url [] = refl
no_default_url (b ∷ url) = refl

default_abi :
    (abi : Text)
    → let name = trim_space (
        if is_empty (trim_space abi)
        then default_of (text "curvePoolAbi") config_schema
        else abi) in
      (if is_empty name then default_curve_pool_abi_name else name)
      ≡ (if is_empty (trim_space abi) then default_curve_pool_abi_name else trim_space abi)
unfolding default_of config_schema text trim_space
default_abi abi = by_test (is_empty (trim_space abi)) refl
  where
    by_test :
        (b : Bool)
        → is_empty (trim_space abi) ≡ b
        → let name =
            trim_space (if b then default_of (text "curvePoolAbi") config_schema else abi) in
          (if is_empty name then default_curve_pool_abi_name else name)
          ≡ (if b then default_curve_pool_abi_name else trim_space abi)
    by_test true e = refl
    by_test false e = rw e

module _ (s : Services) where
  -- The same services, though what they read has the defaults filled in.
  abbrev pub filled : Services
  filled = record s { unmarshal = λ raw. Option.map with_defaults (s.unmarshal raw) }

  settle-with_defaults :
      (host : Option Host) (cfg : PluginConfig) (e : Exporter)
      → settle filled host (with_defaults cfg) e ≡ settle s host cfg e
  unfolding settle with_defaults rpc_url_of
  settle-with_defaults none cfg e = rw (
    default_abi cfg.curve_pool_abi,
    indexes_by_default cfg.index_curve_pools,
    no_default_url cfg.rpc_url,
  )
  settle-with_defaults (some host) cfg e = rw (
    default_abi cfg.curve_pool_abi,
    indexes_by_default cfg.index_curve_pools,
    no_default_url cfg.rpc_url,
  )

  prepare-with_defaults :
      (c : ℕ) (cfg : PluginConfig) → prepare c (with_defaults cfg) ≡ prepare c cfg
  unfolding prepare with_defaults
  prepare-with_defaults c cfg = rw (migrates_by_default cfg.auto_migrate)

  module _ (ctx : Context) where
    prepared-with_defaults :
        (cfg : PluginConfig) (e : Exporter) (r : Result (Unit {0}) × World)
        → prepared filled ctx (with_defaults cfg) e r ≡ prepared s ctx cfg e r
    unfolding prepared
    prepared-with_defaults cfg e (ok done, w) = rw (settle-with_defaults ctx.host cfg e)
    prepared-with_defaults cfg e (err x, w) = refl

    connected_to-with_defaults :
        (cfg : PluginConfig) (e : Exporter) (r : Result (Unit {0}) × World)
        → connected_to filled ctx (with_defaults cfg) e r ≡ connected_to s ctx cfg e r
    unfolding connected_to
    connected_to-with_defaults cfg e (ok done, w) =
        rw (prepare-with_defaults ctx.chain_id cfg)
          (prepared-with_defaults cfg _ (prepare ctx.chain_id cfg w))
    connected_to-with_defaults cfg e (err x, w) = refl

    configured-with_dsn :
        (cfg : PluginConfig) (e : Exporter) (w : World)
        → configured filled ctx (with_dsn (with_defaults cfg)) e w
          ≡ configured s ctx (with_dsn cfg) e w
    unfolding configured with_dsn connect with_defaults
    configured-with_dsn cfg e w = by_test (is_empty cfg.dsn)
      where
        by_test :
            (b : Bool)
            → configured filled ctx (if b then err bad_argument else ok (with_defaults cfg)) e w
              ≡ configured s ctx (if b then err bad_argument else ok cfg) e w
        by_test true = refl
        by_test false = connected_to-with_defaults cfg e (connect s cfg.dsn w)

    -- An absent field of the configuration has the effect of the default that the schema declares for
    -- it: filling in the schema's defaults changes nothing that `Init` returns or leaves in the tables,
    -- the registry and the exporter.
    pub init-with_defaults : (e : Exporter) (w : World) → init filled ctx e w ≡ init s ctx e w
    unfolding init read_config with_dsn configured
    init-with_defaults e w = by_config ctx.config
      where
        started : Exporter
        started = record e { name = ctx.exporter_name; chain_id = ctx.chain_id }

        begun : World
        begun = record w { registry = []; aborted = false }

        by_value :
            (o : Option PluginConfig)
            → configured filled ctx
                (elim (Option.map with_defaults o) [
                  | none ↦ err bad_argument
                  | some cfg ↦ with_dsn cfg
                ])
                started
                begun
              ≡ configured s ctx
                  (elim o [ none ↦ err bad_argument | some cfg ↦ with_dsn cfg ])
                  started
                  begun
        by_value none = refl
        by_value (some cfg) = configured-with_dsn cfg started begun

        by_config :
            (raw : Text)
            → configured filled ctx (read_config filled raw) started begun
              ≡ configured s ctx (read_config s raw) started begun
        by_config [] = refl
        by_config (b ∷ raw) = by_value (s.unmarshal (b ∷ raw))
