-- ===== src/Dispatch/Effects/Promise.antt =====
-- The exporter's deliveries come to such effects, whatever is delivered and answered.
use clear_evmi_plugin.Prelude.{
  ℕ, String, ◌≡◌, refl, ap, subst, Bool, true, false, ◌||◌, List, [], ◌∷◌, Option, none, some,
  is_none, inl, inr, string_equality,
}
use clear_evmi_plugin.Table.{Table, find, insert_new}
use clear_evmi_plugin.Table.Column.{is_present}
use clear_evmi_plugin.Db.{Db}
use clear_evmi_plugin.Event.{LogEvent}
use clear_evmi_plugin.Registry.{is_unknown, resolve_kind}
use clear_evmi_plugin.Quiet.Rules.{IsQuiet-Keeps}
use clear_evmi_plugin.Quiet.Transfers.{IsProcessed, Quietly-IsProcessed}
use clear_evmi_plugin.Quiet.Discovery.{resolve_kind-IsQuiet}
use clear_evmi_plugin.Dispatch.{Setup, dispatch}
use clear_evmi_plugin.Dispatch.Keeps.{dispatch-IsProcessed}
use clear_evmi_plugin.Delivery.{
  claim, Verdict, duplicate, handled, route, handle_fresh, transact, new_log_event, deliver_all,
}
use clear_evmi_plugin.Delivery.Once.{IsAtomic, new_log_event-IsAtomic}
use clear_evmi_plugin.Exec.{Result, ok, err, World, Exec, pure, later}
use clear_evmi_plugin.Exec.Ensures.{
  Ensures, Keeps, Claims, Ensures-pure, Ensures-statement, Ensures-bind, Ensures-if, Ensures-then,
}
use clear_evmi_plugin.Dispatch.Effects.{
  any_with_id, AreDistinct, Effects, finished, passed, taken, Effects-fresh, Effects-AreDistinct,
  Effects-processed,
}

module _ {A : Type 0} (F : Type 0) (P : Db → Type 0) where
  and-Claims : (r : Result A × World) → F → Claims (λ _. P) r → Claims (λ _ d. F × P d) r
  and-Claims (ok a, w) f p = (f, p)
  and-Claims (err e, w) f p = tt

  -- A fact that has nothing to do with the tables holds still.
  and-Keeps : (m : Exec A) → Keeps P m → Keeps (λ d. F × P d) m
  and-Keeps m h = record { run = λ w p. and-Claims (m w) p.0 (h.run w p.1) }

module _ (setup : Setup) where
  -- What a transaction tells that ends without an error.
  abbrev Told : LogEvent → Table String ℕ → Bool → Db → Type 0
  Told log t true d =
      (is_present log.id t ≡ false) × IsProcessed (insert_new log.id log.chain_id t) d
  Told log t false d = Unit {0}

  abbrev Ended : LogEvent → Table String ℕ → Verdict → Db → Type 0
  Ended log t handled d =
      (is_present log.id t ≡ false) × IsProcessed (insert_new log.id log.chain_id t) d
  Ended log t duplicate d = Unit {0}

  claim-Told :
      (log : LogEvent) (t : Table String ℕ) → Ensures (IsProcessed t) (claim log) (Told log t)
  unfolding claim
  claim-Told log t =
      Ensures-statement _ (Told log t)
        λ d same. by_value d (find log.id d.processed_events) same refl
    where
      by_value :
          (d : Db) (o : Option ℕ)
          → IsProcessed t d
          → find log.id d.processed_events ≡ o
          → Told log t
              (is_none o)
              (record d { processed_events = insert_new log.id log.chain_id d.processed_events })
      by_value d none same e = (
        subst (λ u. is_present log.id u ≡ false) same (rw e),
        ap (insert_new log.id log.chain_id) same,
      )
      by_value d (some c) same e = tt

  handle_fresh-Ended :
      (log : LogEvent) (t : Table String ℕ) (fresh : Bool)
      → Ensures (Told log t fresh) (handle_fresh (dispatch setup) log fresh) (Ended log t)
  unfolding handle_fresh route
  handle_fresh-Ended log t true =
      let u = insert_new log.id log.chain_id t in
      let F = is_present log.id t ≡ false in
      let done = Ensures-pure handled (Ended log t) (λ d p. p) in
      Ensures-bind (resolve_kind log) _ (λ _ d. F × IsProcessed u d) (Ended log t)
        (and-Keeps F (IsProcessed u) (resolve_kind log) (
          IsQuiet-Keeps (IsProcessed u) (Quietly-IsProcessed u) (resolve_kind log)
            (resolve_kind-IsQuiet log)))
        λ k.
          Ensures-if (is_unknown k) _ _ (λ _. done)
            (λ _.
              Ensures-then (dispatch setup log k) (pure handled) (λ d. F × IsProcessed u d)
                (Ended log t)
                (and-Keeps F (IsProcessed u) (dispatch setup log k)
                  (dispatch-IsProcessed u setup log k))
                done)
  handle_fresh-Ended log t false = Ensures-pure duplicate (Ended log t) (λ d p. p)

  transact-Ended :
      (log : LogEvent) (t : Table String ℕ)
      → Ensures (IsProcessed t) (transact (dispatch setup) log) (Ended log t)
  unfolding transact
  transact-Ended log t =
      Ensures-bind (claim log) _ (Told log t) (Ended log t) (claim-Told log t)
        (handle_fresh-Ended log t)

  add_delivery :
      (log : LogEvent) (logs : List LogEvent) (w : World) (d d' : Db)
      → IsAtomic (dispatch setup) log w d
      → (took : List LogEvent) × Effects setup logs took d d'
      → (took : List LogEvent) × Effects setup (log ∷ logs) took w.db d'
  add_delivery log logs w d d' (inl same) (took, rest) =
      (took, passed log logs took w.db d' (subst (λ x. Effects setup logs took x d') same rest))
  add_delivery log logs w d d' (inr (w', (e, same))) (took, rest) =
      let begun : World = record w { aborted = false; outcomes = later w.outcomes } in
      let told : Ended log w.db.processed_events handled w'.db =
        subst (Claims (Ended log w.db.processed_events)) e
          ((transact-Ended log w.db.processed_events).run begun refl) in
      (
        log ∷ took,
        taken log logs took begun w' d' told.0 e told.1
            (subst (λ x. Effects setup logs took x d') same rest),
      )

  effects :
      (logs : List LogEvent) (w : World)
      → (took : List LogEvent) × Effects setup logs took w.db
          (deliver_all (dispatch setup) logs w).db
  unfolding deliver_all
  effects [] w = ([], finished w.db)
  effects (log ∷ logs) w =
      add_delivery log logs w _ _ (new_log_event-IsAtomic (dispatch setup) log w)
        (effects logs (new_log_event (dispatch setup) log w).1)

  -- What the exporter promises of a sequence of deliveries.
  pub record ExactlyOnce (logs : List LogEvent) (d d' : Db) : Type 0 where
    pub took : List LogEvent
    pub effects : Effects setup logs took d d'
    pub distinct : AreDistinct took
    pub fresh :
        (id : String) → any_with_id id took ≡ true → is_present id d.processed_events ≡ false
    pub processed :
        (id : String)
        → is_present id d'.processed_events
          ≡ (any_with_id id took || is_present id d.processed_events)

  -- Whatever is delivered, in whatever order and however often, and whatever the server, the chain
  -- and the host answer: the tables become what the transactions of some of the delivered logs make
  -- of them, one after another in the order of delivery and each without an error. Their ids differ
  -- from each other and from those claimed before, and they are just what the ledger of processed
  -- events gains.
  pub deliver_all_once_each :
      (logs : List LogEvent) (w : World)
      → ExactlyOnce logs w.db (deliver_all (dispatch setup) logs w).db
  deliver_all_once_each logs w =
      let (took, run) = effects logs w in
      record {
        took = took;
        effects = run;
        distinct = Effects-AreDistinct setup logs took _ _ run;
        fresh = Effects-fresh setup logs took _ _ run;
        processed = Effects-processed setup logs took _ _ run;
      }
