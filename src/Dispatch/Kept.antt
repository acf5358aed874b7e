-- ===== src/Dispatch/Kept.antt =====
-- What the exporter writes once and for all, over any sequence of deliveries.
use clear_evmi_plugin.Prelude.{List, string_equality}
use clear_evmi_plugin.Event.{LogEvent}
use clear_evmi_plugin.Registry.{resolve_kind}
use clear_evmi_plugin.Records.{kept, Extends, KeptIn-refl, KeptIn-trans, processed-KeptIn}
use clear_evmi_plugin.Quiet.Rules.{IsQuiet-Keeps}
use clear_evmi_plugin.Quiet.Transfers.{HasKept, Quietly-HasKept, handle_transfer-HasKept}
use clear_evmi_plugin.Quiet.Discovery.{resolve_kind-IsQuiet}
use clear_evmi_plugin.Dispatch.{Setup, dispatch}
use clear_evmi_plugin.Dispatch.Keeps.{dispatch-Keeps}
use clear_evmi_plugin.Delivery.{claim, deliver_all}
use clear_evmi_plugin.Delivery.Invariant.{deliver_all-Keeps}
use clear_evmi_plugin.Db.{Db}
use clear_evmi_plugin.Exec.{World}
use clear_evmi_plugin.Exec.Ensures.{Keeps, Ensures-statement}

claim-HasKept : (d₀ : Db) (log : LogEvent) → Keeps (HasKept d₀) (claim log)
unfolding claim
claim-HasKept d₀ log =
    Ensures-statement _ (λ _. HasKept d₀)
      (λ d p. KeptIn-trans p (processed-KeptIn (kept d) log.id log.chain_id))

module _ (setup : Setup) (logs : List LogEvent) (w : World) where
  -- Whatever is delivered, in whatever order and however often, and whatever the server, the chain
  -- and the host answer: a processed event, the row of a contract, a swap, an activity, a price, a
  -- Curve swap or a Curve liquidity event that the tables hold stays in them as it is; a name, a
  -- symbol or the decimals that are known of a token are not replaced, nor the block at which it
  -- was first seen; and where the positions of a reserve's assets, in the order of the listing, are
  -- 0, 1, 2 and so on, they remain so. Where the table of contracts has one row for each chain and
  -- address, in its normal form, it remains so.
  pub deliver_all-Extends : Extends w.db (deliver_all (dispatch setup) logs w).db
  deliver_all-Extends =
      deliver_all-Keeps (dispatch setup) (HasKept w.db) (claim-HasKept w.db)
        (λ log.
          IsQuiet-Keeps (HasKept w.db) (Quietly-HasKept w.db) (resolve_kind log)
            (resolve_kind-IsQuiet log))
        (λ log k.
          dispatch-Keeps (HasKept w.db) (Quietly-HasKept w.db) setup log
            (λ _. handle_transfer-HasKept w.db setup.pg log) k)
        logs w (KeptIn-refl (kept w.db))
