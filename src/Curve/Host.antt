-- ===== src/Curve/Host.antt =====
-- `registerCurvePoolSource` and `curvePoolAbiID` of host.go: the host indexes a pool from then on.
use clear_evmi_plugin.Prelude.{ℕ, zero, suc, Bool, ◌∷◌, Option, none, some, if◌then◌else◌}
use clear_evmi_plugin.Text.{Text}
use clear_evmi_plugin.Event.{LogEvent}
use clear_evmi_plugin.Rpc.{LogSource, Host}
use clear_evmi_plugin.Exec.{Exec, request_failed, ok, pure, raise, ◌>>=◌}

-- The exporter's settings of the same names, with the host where there is one.
pub record PoolIndexing : Type 0 where
  pub host : Option Host
  pub index_curve_pools : Bool
  pub curve_pool_abi : Text

-- The id is kept for the next pool.
unfoldable pub remember_abi : ℕ → Exec ℕ
remember_abi id w = (ok id, record w { curve_abi_id = id })

unfoldable pub answered : {A : Type 0} → Option A → Exec A
answered none = raise request_failed
answered (some a) = pure a

unfoldable pub known_or_new : Host → Text → Option ℕ → Exec ℕ
known_or_new host name (some id) = remember_abi id
known_or_new host name none = do id ← answered (host.upsert_abi name); remember_abi id

unfoldable pub abi_from : Host → Text → ℕ → Exec ℕ
abi_from host name (suc id) = pure (suc id)
abi_from host name zero = do
  existing ← answered (host.get_abi name)
  known_or_new host name existing

unfoldable pub curve_pool_abi_id : Host → Text → Exec ℕ
unfolding abi_from
curve_pool_abi_id host name w = abi_from host name w.curve_abi_id w

unfoldable pub create_log_source : Host → LogSource → Exec (Unit {0})
create_log_source host source w =
    if host.accepts_source source
    then (ok tt, record w { sources = source ∷ w.sources })
    else raise request_failed w

unfoldable pub register_with : Option Host → Text → LogEvent → Text → Exec (Unit {0})
register_with none name log pool = pure tt
register_with (some host) name log pool = do
  abi ← curve_pool_abi_id host name
  create_log_source host
      (record { parent = log.source_id; address = pool; abi = abi; start_block = log.block_number })

unfoldable pub register_curve_pool_source : PoolIndexing → LogEvent → Text → Exec (Unit {0})
register_curve_pool_source indexing log pool =
    if indexing.index_curve_pools
    then register_with indexing.host indexing.curve_pool_abi log pool
    else pure tt
