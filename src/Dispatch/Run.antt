-- ===== src/Dispatch/Run.antt =====
-- The exporter with its own dispatcher, over any sequence of deliveries.
use clear_evmi_plugin.Prelude.{
  ℕ, String, ◌≡◌, refl, subst, Bool, true, false, List, Option, none, some, inl, inr, is_none, ◌==◌,
  string_equality, if◌then◌else◌,
}
use clear_evmi_plugin.Table.{Table, find, insert_new}
use clear_evmi_plugin.Table.Column.{is_present, upsert-present, upsert-present_self}
use clear_evmi_plugin.Db.{Db}
use clear_evmi_plugin.Event.{LogEvent}
use clear_evmi_plugin.Registry.{is_unknown, resolve_kind}
use clear_evmi_plugin.Transfer.Backed.{IsBacked, SameLedgers, SameLedgers-IsBacked}
use clear_evmi_plugin.Quiet.{SameAmounts-IsBacked}
use clear_evmi_plugin.Quiet.Rules.{IsQuiet-Keeps}
use clear_evmi_plugin.Quiet.Transfers.{IsProcessed, Quietly-IsProcessed}
use clear_evmi_plugin.Quiet.Discovery.{resolve_kind-IsQuiet}
use clear_evmi_plugin.Dispatch.{Setup, dispatch}
use clear_evmi_plugin.Dispatch.Keeps.{dispatch-IsBacked, dispatch-IsProcessed}
use clear_evmi_plugin.Delivery.{
  claim, Verdict, duplicate, handled, route, handle_fresh, transact, roll_back, commit_by, commit,
  finish, new_log_event, deliver_all,
}
use clear_evmi_plugin.Delivery.Once.{Unchanged, new_log_event-IsAtomic, new_log_event-processed}
use clear_evmi_plugin.Delivery.Invariant.{deliver_all-Keeps}
use clear_evmi_plugin.Exec.{
  Error, Result, ok, err, World, Outcome, served, failed, unreported, Exec, pure, next, later,
  is_served,
}
use clear_evmi_plugin.Exec.Ensures.{
  Ensures, Keeps, Claims, Ensures-pure, Ensures-statement, Ensures-bind, Ensures-if, Ensures-then,
}

-- The log of this id has been handled.
abbrev pub IsClaimed : String → Db → Type 0
IsClaimed id d = is_present id d.processed_events ≡ true

claim-IsBacked : (log : LogEvent) → Keeps IsBacked (claim log)
unfolding claim
claim-IsBacked log = Ensures-statement _ (λ _. IsBacked) (λ d p. SameLedgers-IsBacked (same d) p)
  where
    same :
        (d : Db)
        → SameLedgers d
            (record d { processed_events = insert_new log.id log.chain_id d.processed_events })
    same d = record {
      lp = refl;
      iou = refl;
      curve = refl;
      reserves = refl;
      iou_tokens = refl;
      pools = refl;
    }

IsProcessed-IsClaimed :
    {A : Type 0} (id : String) (m : Exec A)
    → ((t : Table String ℕ) → Keeps (IsProcessed t) m)
    → Keeps (IsClaimed id) m
IsProcessed-IsClaimed {A} id m h = record {
  run = λ w p. transfer w (m w) p ((h w.db.processed_events).run w refl);
}
  where
    transfer :
        (w : World) (r : Result A × World)
        → IsClaimed id w.db
        → Claims (λ _. IsProcessed w.db.processed_events) r
        → Claims (λ _. IsClaimed id) r
    transfer w (ok a, w') p same = rw same p
    transfer w (err e, w') p same = tt

claim-IsClaimed : (id : String) (log : LogEvent) → Keeps (IsClaimed id) (claim log)
unfolding claim insert_new
claim-IsClaimed id log =
    Ensures-statement _ (λ _. IsClaimed id)
      λ d p.
        rw (upsert-present log.id id log.chain_id (λ w. w) d.processed_events, p)
          (by_test (log.id == id))
  where
    by_test : (b : Bool) → (if b then true else true) ≡ true
    by_test true = refl
    by_test false = refl

resolve_kind-IsProcessed :
    (t : Table String ℕ) (log : LogEvent) → Keeps (IsProcessed t) (resolve_kind log)
resolve_kind-IsProcessed t log =
    IsQuiet-Keeps (IsProcessed t) (Quietly-IsProcessed t) (resolve_kind log)
      (resolve_kind-IsQuiet log)

module _ (setup : Setup) where
  -- Whatever is delivered, in whatever order and however often, and whatever the server, the chain
  -- and the host answer: where every token's supply was the sum of its holders' balances, it is.
  pub deliver_all-IsBacked :
      (logs : List LogEvent) (w : World)
      → IsBacked w.db
      → IsBacked (deliver_all (dispatch setup) logs w).db
  deliver_all-IsBacked logs w p =
      deliver_all-Keeps (dispatch setup) IsBacked claim-IsBacked
        (λ log.
          IsQuiet-Keeps IsBacked (λ d d' s p. SameAmounts-IsBacked s.amounts p) (resolve_kind log)
            (resolve_kind-IsQuiet log))
        (dispatch-IsBacked setup) logs w p

  pub deliver_all-IsClaimed :
      (id : String) (logs : List LogEvent) (w : World)
      → IsClaimed id w.db
      → IsClaimed id (deliver_all (dispatch setup) logs w).db
  deliver_all-IsClaimed id logs w p =
      deliver_all-Keeps (dispatch setup) (IsClaimed id) (claim-IsClaimed id)
        (λ log. IsProcessed-IsClaimed id (resolve_kind log) (λ t. resolve_kind-IsProcessed t log))
        (λ log k.
          IsProcessed-IsClaimed id (dispatch setup log k) (λ t. dispatch-IsProcessed t setup log k))
        logs w p

  -- What a claim tells: a row was inserted, or the id was there when the transaction began.
  abbrev Told : LogEvent → Table String ℕ → Bool → Db → Type 0
  Told log t true d = IsClaimed log.id d
  Told log t false d = is_present log.id t ≡ true

  claim-Told :
      (log : LogEvent) (t : Table String ℕ) → Ensures (IsProcessed t) (claim log) (Told log t)
  unfolding claim insert_new
  claim-Told log t =
      Ensures-statement _ (Told log t)
        λ d same. by_value d (find log.id d.processed_events) same refl
    where
      by_value :
          (d : Db) (o : Option ℕ)
          → IsProcessed t d
          → find log.id d.processed_events ≡ o
          → Told log t
              (is_none o)
              (record d { processed_events = insert_new log.id log.chain_id d.processed_events })
      by_value d none same e = upsert-present_self log.id log.chain_id (λ w. w) d.processed_events
      by_value d (some c) same e = subst (λ u. is_present log.id u ≡ true) same (rw e)

  -- What a transaction that ends without an error tells.
  abbrev Ended : LogEvent → Table String ℕ → Verdict → Db → Type 0
  Ended log t handled d = IsClaimed log.id d
  Ended log t duplicate d = is_present log.id t ≡ true

  handle_fresh-Ended :
      (log : LogEvent) (t : Table String ℕ) (fresh : Bool)
      → Ensures (Told log t fresh) (handle_fresh (dispatch setup) log fresh) (Ended log t)
  unfolding handle_fresh route
  handle_fresh-Ended log t true =
      Ensures-bind (resolve_kind log) _ (λ _. IsClaimed log.id) (Ended log t)
        (IsProcessed-IsClaimed log.id (resolve_kind log) (λ t. resolve_kind-IsProcessed t log))
        λ k.
          Ensures-if (is_unknown k) _ _ (λ _. Ensures-pure handled (Ended log t) (λ d p. p))
            (λ _.
              Ensures-then (dispatch setup log k) (pure handled) (IsClaimed log.id) (Ended log t)
                (IsProcessed-IsClaimed log.id (dispatch setup log k)
                  (λ t. dispatch-IsProcessed t setup log k))
                (Ensures-pure handled (Ended log t) (λ d p. p)))
  handle_fresh-Ended log t false = Ensures-pure duplicate (Ended log t) (λ d p. p)

  transact-Ended :
      (log : LogEvent) (t : Table String ℕ)
      → Ensures (IsProcessed t) (transact (dispatch setup) log) (Ended log t)
  unfolding transact
  transact-Ended log t =
      Ensures-bind (claim log) _ (Told log t) (Ended log t) (claim-Told log t)
        (handle_fresh-Ended log t)

  -- A call that returns without an error has claimed its log.
  abbrev ClaimsLog : LogEvent → Result (Unit {0}) × World → Type 0
  ClaimsLog log r = r.0 ≡ ok tt → IsClaimed log.id r.1.db

  commit_by-ClaimsLog :
      (log : LogEvent) (o : Outcome) (saved : Db) (w : World)
      → IsClaimed log.id w.db
      → ClaimsLog log (commit_by o saved w)
  unfolding commit_by
  commit_by-ClaimsLog log served saved w p e = p
  commit_by-ClaimsLog log failed saved w p e = cc
  commit_by-ClaimsLog log unreported saved w p e = cc

  finish-ClaimsLog :
      (log : LogEvent) (saved : Db) (r : Result Verdict × World)
      → Claims (Ended log saved.processed_events) r
      → ClaimsLog log (finish saved r)
  unfolding finish roll_back commit
  finish-ClaimsLog log saved (err e, w) c h = cc
  finish-ClaimsLog log saved (ok duplicate, w) c h = c
  finish-ClaimsLog log saved (ok handled, w) c h =
      commit_by-ClaimsLog log (if w.aborted then failed else next w.outcomes) saved w c h

  pub new_log_event-ClaimsLog :
      (log : LogEvent) (w : World) → ClaimsLog log (new_log_event (dispatch setup) log w)
  unfolding new_log_event
  new_log_event-ClaimsLog log w = by_test (is_served (next w.outcomes))
    where
      by_test :
          (b : Bool)
          → ClaimsLog log (
              if b
              then finish w.db (
                  transact
                    (dispatch setup)
                    log
                    (record w { aborted = false; outcomes = later w.outcomes }))
              else (err Error.query_failed, record w { outcomes = later w.outcomes }))
      by_test true h =
          finish-ClaimsLog log w.db (transact (dispatch setup) log _)
            ((transact-Ended log w.db.processed_events).run _ refl) h
      by_test false h = cc

  -- Whatever a delivery returns: where the log is not claimed after it, the tables are as they were
  -- before it.
  pub new_log_event-unclaimed :
      (log : LogEvent) (w : World)
      → is_present log.id (new_log_event (dispatch setup) log w).1.db.processed_events ≡ false
      → (new_log_event (dispatch setup) log w).1.db ≡ w.db
  new_log_event-unclaimed log w h = elim (new_log_event-IsAtomic (dispatch setup) log w) [
    | inl same ↦ same
    | inr (w', (e, same)) ↦
        let claimed : IsClaimed log.id w'.db =
          subst (Claims (Ended log w.db.processed_events)) e
            ((transact-Ended log w.db.processed_events).run _ refl) in
        let absent : is_present log.id w'.db.processed_events ≡ false =
          subst (λ (d : Db). is_present log.id d.processed_events ≡ false) same h in
        cc
  ]

  -- Exactly once: after a delivery that returned without an error, and any deliveries since, the
  -- same log delivered again changes neither the tables nor the registry, whatever is answered.
  pub deliver_all_once :
      (log : LogEvent) (w : World) (logs : List LogEvent)
      → (new_log_event (dispatch setup) log w).0 ≡ ok tt
      → let now = deliver_all (dispatch setup) logs (new_log_event (dispatch setup) log w).1 in
        Unchanged (dispatch setup) now (new_log_event (dispatch setup) log now).1
  deliver_all_once log w logs e =
      new_log_event-processed (dispatch setup) log _
        (deliver_all-IsClaimed log.id logs _ (new_log_event-ClaimsLog log w e))
