-- ===== src/Dispatch/Progress.antt =====
-- A Transfer that is delivered again and again takes effect.
use clear_evmi_plugin.Prelude.{
  ◌≡◌, refl, sym, subst, Bool, true, false, [], ◌∷◌, Option, none, some, nat_equality,
  list_equality, string_equality,
}
use clear_evmi_plugin.Address.{norm_addr}
use clear_evmi_plugin.Args.{first_arg}
use clear_evmi_plugin.Kind.{
  ContractKind, classify, unknown_kind, base_reserve_kind, meta_reserve_kind, iou_kind, curve_kind,
  oracle_kind, factory_kind, curve_deployer_kind, curve_factory_kind,
}
use clear_evmi_plugin.Text.{Text}
use clear_evmi_plugin.Table.{find}
use clear_evmi_plugin.Event.{LogEvent}
use clear_evmi_plugin.Registry.{is_unknown, remember_kind, persist_contract, discover, resolve_kind}
use clear_evmi_plugin.Transfer.Progress.{IsReadable, CanDivide, handle_transfer-Succeeds}
use clear_evmi_plugin.Dispatch.{
  Setup, select_case, settings_cases, reserve_cases, iou_cases, curve_cases, oracle_cases,
  factory_cases, curve_deployer_cases, curve_factory_cases, cases_of, dispatch,
}
use clear_evmi_plugin.Delivery.{claim, duplicate, handled, route, handle_fresh, transact}
use clear_evmi_plugin.Exec.{World, pure}
use clear_evmi_plugin.Exec.Succeeds.{
  IsSound, Done, Succeeds, Anything, pure-Succeeds, if-Succeeds, bind-Succeeds, then-Succeeds,
  statement-Succeeds, write-Succeeds, forget-Succeeds,
}

remember_kind-Succeeds :
    (addr : Text) (k : ContractKind) → Succeeds CanDivide (remember_kind addr k) CanDivide
unfolding remember_kind
remember_kind-Succeeds addr k = record {
  run = λ w p h. (tt, (refl, (record { served = p.served; running = p.running }, h)));
}

discover-Succeeds :
    (log : LogEvent) (addr : Text) → Succeeds CanDivide (discover log addr) CanDivide
unfolding discover persist_contract
discover-Succeeds log addr =
    let k : ContractKind = classify log.contract_name in
    then-Succeeds _ _ (remember_kind-Succeeds addr k) (
      if-Succeeds (is_unknown k) _ _ (pure-Succeeds k) (
        then-Succeeds _ _ (write-Succeeds {P = CanDivide} {Q = CanDivide} _ (λ d p. p))
          (pure-Succeeds k)))

resolve_kind-Succeeds : (log : LogEvent) → Succeeds CanDivide (resolve_kind log) CanDivide
unfolding resolve_kind
resolve_kind-Succeeds log = record {
  run = λ w p h. by_value w p h (find (norm_addr log.address) w.registry);
}
  where
    by_value :
        (w : World)
        → IsSound w
        → CanDivide w.db
        → (o : Option ContractKind)
        → Done {A = ContractKind} CanDivide
            (elim o [ some k ↦ pure k w | none ↦ discover log (norm_addr log.address) w ])
    by_value w p h (some k) = (k, (refl, (p, h)))
    by_value w p h none = (discover-Succeeds log (norm_addr log.address)).run w p h

module _ (setup : Setup) (log : LogEvent)
    (readable : IsReadable setup.pg (first_arg log.args ("value" ∷ []))) where
  ignored-Succeeds : Succeeds CanDivide (pure tt) Anything
  ignored-Succeeds = forget-Succeeds _ (pure-Succeeds tt)

  transfer_case-Succeeds :
      (k : ContractKind)
      → Succeeds CanDivide (select_case "Transfer" (cases_of setup log k)) Anything
  unfolding select_case cases_of reserve_cases settings_cases iou_cases curve_cases oracle_cases
      factory_cases curve_deployer_cases curve_factory_cases
  transfer_case-Succeeds base_reserve_kind =
      handle_transfer-Succeeds setup.pg log base_reserve_kind readable
  transfer_case-Succeeds meta_reserve_kind =
      handle_transfer-Succeeds setup.pg log meta_reserve_kind readable
  transfer_case-Succeeds iou_kind = handle_transfer-Succeeds setup.pg log iou_kind readable
  transfer_case-Succeeds curve_kind = handle_transfer-Succeeds setup.pg log curve_kind readable
  transfer_case-Succeeds oracle_kind = ignored-Succeeds
  transfer_case-Succeeds factory_kind = ignored-Succeeds
  transfer_case-Succeeds curve_deployer_kind = ignored-Succeeds
  transfer_case-Succeeds curve_factory_kind = ignored-Succeeds
  transfer_case-Succeeds unknown_kind = ignored-Succeeds

  dispatch-Succeeds :
      log.event_name ≡ "Transfer"
      → (k : ContractKind) → Succeeds CanDivide (dispatch setup log k) Anything
  unfolding dispatch
  dispatch-Succeeds transfer k =
      subst (λ name. Succeeds CanDivide (select_case name (cases_of setup log k)) Anything)
        (sym transfer) (transfer_case-Succeeds k)

  pub transact-Succeeds :
      log.event_name ≡ "Transfer" → Succeeds CanDivide (transact (dispatch setup) log) Anything
  unfolding transact claim handle_fresh route
  transact-Succeeds transfer = bind-Succeeds _ _ (statement-Succeeds _ (λ d p. p)) by_claim
    where
      by_kind : (k : ContractKind) → Succeeds CanDivide (route (dispatch setup) log k) Anything
      by_kind k = if-Succeeds (is_unknown k) _ _ (forget-Succeeds _ (pure-Succeeds handled)) (
          then-Succeeds (dispatch setup log k) _ (dispatch-Succeeds transfer k)
            (pure-Succeeds handled))

      by_claim :
          (fresh : Bool) → Succeeds CanDivide (handle_fresh (dispatch setup) log fresh) Anything
      by_claim true = bind-Succeeds (resolve_kind log) _ (resolve_kind-Succeeds log) by_kind
      by_claim false = forget-Succeeds _ (pure-Succeeds duplicate)
