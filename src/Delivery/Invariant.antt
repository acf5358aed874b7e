-- ===== src/Delivery/Invariant.antt =====
-- What every handler keeps, every delivery keeps; and an id that is claimed stays claimed.
use clear_evmi_plugin.Prelude.{
  subst, sym, Bool, true, false, List, [], ◌∷◌, string_equality, inl, inr,
}
use clear_evmi_plugin.Kind.{ContractKind}
use clear_evmi_plugin.Registry.{resolve_kind, is_unknown}
use clear_evmi_plugin.Db.{Db}
use clear_evmi_plugin.Event.{LogEvent}
use clear_evmi_plugin.Exec.{World, Exec, pure}
use clear_evmi_plugin.Exec.Ensures.{
  Keeps, Claims, Ensures-bind, Ensures-then, Ensures-if, Ensures-pure,
}
use clear_evmi_plugin.Delivery.{
  claim, duplicate, handled, route, transact, handle_fresh, new_log_event, deliver_all,
}
use clear_evmi_plugin.Delivery.Once.{new_log_event-IsAtomic}

module _ (dispatch : LogEvent → ContractKind → Exec (Unit {0})) (P : Db → Type 0)
    (claims : (log : LogEvent) → Keeps P (claim log))
    (resolves : (log : LogEvent) → Keeps P (resolve_kind log))
    (dispatches : (log : LogEvent) (k : ContractKind) → Keeps P (dispatch log k)) where
  route-Keeps : (log : LogEvent) (k : ContractKind) → Keeps P (route dispatch log k)
  unfolding route
  route-Keeps log k =
      Ensures-if (is_unknown k) (pure handled) _ (λ _. Ensures-pure handled (λ _. P) (λ d p. p))
        (λ _.
          Ensures-then (dispatch log k) (pure handled) P (λ _. P) (dispatches log k)
            (Ensures-pure handled (λ _. P) (λ d p. p)))

  handle_fresh-Keeps : (log : LogEvent) (fresh : Bool) → Keeps P (handle_fresh dispatch log fresh)
  unfolding handle_fresh
  handle_fresh-Keeps log true =
      Ensures-bind (resolve_kind log) (route dispatch log) (λ _. P) (λ _. P) (resolves log)
        (route-Keeps log)
  handle_fresh-Keeps log false = Ensures-pure duplicate (λ _. P) (λ d p. p)

  transact-Keeps : (log : LogEvent) → Keeps P (transact dispatch log)
  unfolding transact
  transact-Keeps log =
      Ensures-bind (claim log) (handle_fresh dispatch log) (λ _. P) (λ _. P) (claims log)
        (handle_fresh-Keeps log)

  pub new_log_event-Keeps :
      (log : LogEvent) (w : World) → P w.db → P (new_log_event dispatch log w).1.db
  new_log_event-Keeps log w p = elim (new_log_event-IsAtomic dispatch log w) [
    | inl same ↦ subst P (sym same) p
    | inr (w', (e, same)) ↦
        subst P (sym same) (subst (Claims (λ _. P)) e ((transact-Keeps log).run _ p))
  ]

  pub deliver_all-Keeps :
      (logs : List LogEvent) (w : World) → P w.db → P (deliver_all dispatch logs w).db
  unfolding deliver_all
  deliver_all-Keeps [] w p = p
  deliver_all-Keeps (log ∷ logs) w p =
      deliver_all-Keeps logs (new_log_event dispatch log w).1 (new_log_event-Keeps log w p)
