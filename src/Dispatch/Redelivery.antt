-- ===== src/Dispatch/Redelivery.antt =====
-- A Transfer that is delivered again and again is claimed once the server has no more failures to come.
use clear_evmi_plugin.Prelude.{
  ℕ, zero, suc, ◌-◌, ◌≤◌, ◌≡◌, refl, sym, subst, Bool, true, false, List, [], ◌∷◌, Option, none,
  some, inl, inr, Bool-cases, list_equality, string_equality, nat_equality, arith, if◌then◌else◌,
}
use clear_evmi_plugin.Text.{Text}
use clear_evmi_plugin.Address.{norm_addr}
use clear_evmi_plugin.Args.{first_arg}
use clear_evmi_plugin.Kind.{
  ContractKind, unknown_kind, base_reserve_kind, meta_reserve_kind, iou_kind, curve_kind,
  oracle_kind, factory_kind, curve_deployer_kind, curve_factory_kind,
}
use clear_evmi_plugin.Table.{find}
use clear_evmi_plugin.Table.Column.{is_present}
use clear_evmi_plugin.Db.{Db}
use clear_evmi_plugin.Event.{LogEvent}
use clear_evmi_plugin.Registry.{is_unknown, remember_kind, persist_contract, discover, resolve_kind}
use clear_evmi_plugin.Reserve.Assets.{count}
use clear_evmi_plugin.Transfer.Progress.{IsReadable, CanDivide}
use clear_evmi_plugin.Transfer.Spends.{handle_transfer-Spends}
use clear_evmi_plugin.Dispatch.{
  Setup, select_case, settings_cases, reserve_cases, iou_cases, curve_cases, oracle_cases,
  factory_cases, curve_deployer_cases, curve_factory_cases, cases_of, dispatch,
}
use clear_evmi_plugin.Dispatch.Progress.{transact-Succeeds}
use clear_evmi_plugin.Dispatch.Run.{
  IsClaimed, new_log_event-unclaimed, new_log_event-ClaimsLog, deliver_all-IsClaimed,
}
use clear_evmi_plugin.Delivery.{
  claim, Verdict, duplicate, handled, route, handle_fresh, transact, roll_back, commit_by, commit,
  finish, new_log_event, deliver_all,
}
use clear_evmi_plugin.Exec.{
  World, Outcome, served, failed, unreported, Error, Result, ok, err, pure, later, next, is_served,
}
use clear_evmi_plugin.Exec.Succeeds.{Done, Anything}
use clear_evmi_plugin.Exec.Spends.{
  Spends, count-later, pure-Spends, if-Spends, bind-Spends, then-Spends, statement-Spends,
  spending_rules,
}

remember_kind-Spends : (addr : Text) (k : ContractKind) → Spends (remember_kind addr k)
unfolding remember_kind
remember_kind-Spends addr k = record { run = λ w. omega arith }

discover-Spends : (log : LogEvent) (addr : Text) → Spends (discover log addr)
unfolding discover persist_contract
discover-Spends log addr = search (spending_rules, remember_kind-Spends) depth 8

resolve_kind-Spends : (log : LogEvent) → Spends (resolve_kind log)
unfolding resolve_kind
resolve_kind-Spends log = record { run = λ w. by_value w (find (norm_addr log.address) w.registry) }
  where
    by_value :
        (w : World) (o : Option ContractKind)
        → let r : Result ContractKind × World = elim o [
          | some k ↦ pure k w
          | none ↦ discover log (norm_addr log.address) w
        ] in
          count r.1.outcomes ≤ count w.outcomes
    by_value w (some k) = omega arith
    by_value w none = (discover-Spends log (norm_addr log.address)).run w

module _ (setup : Setup) (log : LogEvent) where
  transfer_case-Spends : (k : ContractKind) → Spends (select_case "Transfer" (cases_of setup log k))
  unfolding select_case cases_of reserve_cases settings_cases iou_cases curve_cases oracle_cases
      factory_cases curve_deployer_cases curve_factory_cases
  transfer_case-Spends base_reserve_kind = handle_transfer-Spends setup.pg log base_reserve_kind
  transfer_case-Spends meta_reserve_kind = handle_transfer-Spends setup.pg log meta_reserve_kind
  transfer_case-Spends iou_kind = handle_transfer-Spends setup.pg log iou_kind
  transfer_case-Spends curve_kind = handle_transfer-Spends setup.pg log curve_kind
  transfer_case-Spends oracle_kind = pure-Spends tt
  transfer_case-Spends factory_kind = pure-Spends tt
  transfer_case-Spends curve_deployer_kind = pure-Spends tt
  transfer_case-Spends curve_factory_kind = pure-Spends tt
  transfer_case-Spends unknown_kind = pure-Spends tt

  dispatch-Spends : log.event_name ≡ "Transfer" → (k : ContractKind) → Spends (dispatch setup log k)
  unfolding dispatch
  dispatch-Spends transfer k =
      subst (λ name. Spends (select_case name (cases_of setup log k))) (sym transfer)
        (transfer_case-Spends k)

  transact-Spends : log.event_name ≡ "Transfer" → Spends (transact (dispatch setup) log)
  unfolding transact claim handle_fresh route
  transact-Spends transfer = bind-Spends _ _ (statement-Spends _) by_claim
    where
      by_kind : (k : ContractKind) → Spends (route (dispatch setup) log k)
      by_kind k =
          if-Spends (is_unknown k) _ _ (pure-Spends handled) (
            then-Spends (dispatch setup log k) _ (dispatch-Spends transfer k) (pure-Spends handled))

      by_claim : (fresh : Bool) → Spends (handle_fresh (dispatch setup) log fresh)
      by_claim true = bind-Spends (resolve_kind log) _ (resolve_kind-Spends log) by_kind
      by_claim false = pure-Spends duplicate

commit_by-outcomes :
    (o : Outcome) (saved : Db) (w : World)
    → count (commit_by o saved w).1.outcomes ≤ count w.outcomes
unfolding commit_by roll_back
commit_by-outcomes served saved w = count-later w.outcomes
commit_by-outcomes failed saved w = count-later w.outcomes
commit_by-outcomes unreported saved w = count-later w.outcomes

finish-outcomes :
    (saved : Db) (r : Result Verdict × World)
    → count (finish saved r).1.outcomes ≤ count r.1.outcomes
unfolding finish roll_back commit
finish-outcomes saved (err e, w) = count-later w.outcomes
finish-outcomes saved (ok duplicate, w) = count-later w.outcomes
finish-outcomes saved (ok handled, w) =
    commit_by-outcomes (if w.aborted then failed else next w.outcomes) saved w

-- The transaction of a sound world ends without an error.
finish_sound :
    (saved : Db) (r : Result Verdict × World) → Done Anything r → (finish saved r).0 ≡ ok tt
unfolding finish commit commit_by
finish_sound saved (err e, w) (v, (h, sound)) = cc
finish_sound saved (ok duplicate, w) (v, (h, (sound, _))) = rw sound.served
finish_sound saved (ok handled, w) (v, (h, (sound, _))) = rw (sound.running, sound.served)

one_less : (os : List Outcome) → count (later os) ≤ count os - 1
unfolding count
one_less [] = omega arith
one_less (o ∷ os) = omega arith

none_left : (os : List Outcome) → count os ≤ 0 → os ≡ []
unfolding count
none_left [] h = refl
none_left (o ∷ os) h = ground arith

-- The same log, so many times.
unfoldable pub times : ℕ → LogEvent → List LogEvent
times zero log = []
times (suc n) log = log ∷ times n log

module _ (setup : Setup) (log : LogEvent) (transfer : log.event_name ≡ "Transfer") where
  new_log_event-outcomes :
      (w : World) → count (new_log_event (dispatch setup) log w).1.outcomes ≤ count w.outcomes - 1
  unfolding new_log_event
  new_log_event-outcomes w = by_test (is_served (next w.outcomes))
    where
      begun : World
      begun = record w { aborted = false; outcomes = later w.outcomes }

      by_test :
          (b : Bool)
          → count
              (if b
                then finish w.db (transact (dispatch setup) log begun)
                else (err Error.query_failed, record w { outcomes = later w.outcomes })).1.outcomes
            ≤ count w.outcomes - 1
      by_test true =
          let ended = finish-outcomes w.db (transact (dispatch setup) log begun) in
          let spent = (transact-Spends setup log transfer).run begun in
          let began = one_less w.outcomes in omega arith
      by_test false = one_less w.outcomes

  new_log_event-served :
      (w : World)
      → IsReadable setup.pg (first_arg log.args ("value" ∷ []))
      → CanDivide w.db
      → w.outcomes ≡ []
      → (new_log_event (dispatch setup) log w).0 ≡ ok tt
  unfolding new_log_event
  new_log_event-served w readable can e = rw e (
      finish_sound w.db _ (
        (transact-Succeeds setup log readable transfer).run
          (record w { aborted = false; outcomes = [] }) (record { served = refl; running = refl })
          can))

  -- A delivery after which the log is not claimed leaves the tables, and so the divisors.
  stays-CanDivide :
      (w : World)
      → is_present log.id (new_log_event (dispatch setup) log w).1.db.processed_events ≡ false
      → CanDivide w.db
      → CanDivide (new_log_event (dispatch setup) log w).1.db
  stays-CanDivide w h can = subst CanDivide (sym (new_log_event-unclaimed setup log w h)) can

  times-IsClaimed :
      IsReadable setup.pg (first_arg log.args ("value" ∷ []))
      → (n : ℕ) (w : World) → count w.outcomes ≤ n
      → CanDivide w.db
      → IsClaimed log.id (deliver_all (dispatch setup) (times (suc n) log) w).db
  unfolding deliver_all times
  times-IsClaimed readable zero w enough can =
      new_log_event-ClaimsLog setup log w
        (new_log_event-served w readable can (none_left w.outcomes enough))
  times-IsClaimed readable (suc n) w enough can =
      let spent = new_log_event-outcomes w in
      let w' : World = (new_log_event (dispatch setup) log w).1 in
      elim (Bool-cases (is_present log.id w'.db.processed_events)) [
        | inl claimed ↦ deliver_all-IsClaimed setup log.id (times (suc n) log) w' claimed
        | inr absent ↦ times-IsClaimed readable n w' (omega arith) (stays-CanDivide w absent can)
      ]

  -- However many of the server's answers to come are failures: where the value of a Transfer and its
  -- `neg` are texts that the database reads as numbers, and no reserve has a supply of -1, then after
  -- one more delivery of the Transfer than there are answers listed, and any deliveries since, its
  -- log is claimed.
  pub transfer-IsClaimed :
      IsReadable setup.pg (first_arg log.args ("value" ∷ []))
      → (n : ℕ) (w : World) → count w.outcomes ≤ n
      → CanDivide w.db
      → (logs : List LogEvent)
      → IsClaimed log.id
          (deliver_all
            (dispatch setup)
            logs
            (deliver_all (dispatch setup) (times (suc n) log) w)).db
  transfer-IsClaimed readable n w enough can logs =
      deliver_all-IsClaimed setup log.id logs (deliver_all (dispatch setup) (times (suc n) log) w)
        (times-IsClaimed readable n w enough can)
