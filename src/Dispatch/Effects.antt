-- ===== src/Dispatch/Effects.antt =====
-- What a sequence of deliveries comes to: some of the logs took effect, one after another, each once.
pub mod Promise
use clear_evmi_plugin.Prelude.{
  ℕ, String, ◌≡◌, refl, ◌∙◌, ap, subst, Bool, true, false, ◌||◌, List, [], ◌∷◌, Option, none, some,
  is_none, ◌==◌, ==-eq, ==-refl, inl, inr, string_equality, if◌then◌else◌,
}
use clear_evmi_plugin.Table.{Table, find, insert_new}
use clear_evmi_plugin.Table.Column.{is_present, upsert-present}
use clear_evmi_plugin.Db.{Db}
use clear_evmi_plugin.Event.{LogEvent}
use clear_evmi_plugin.Registry.{is_unknown, resolve_kind}
use clear_evmi_plugin.Quiet.Rules.{IsQuiet-Keeps}
use clear_evmi_plugin.Quiet.Transfers.{IsProcessed, Quietly-IsProcessed}
use clear_evmi_plugin.Quiet.Discovery.{resolve_kind-IsQuiet}
use clear_evmi_plugin.Dispatch.{Setup, dispatch}
use clear_evmi_plugin.Dispatch.Keeps.{dispatch-IsProcessed}
use clear_evmi_plugin.Delivery.{
  claim, Verdict, duplicate, handled, route, handle_fresh, transact, new_log_event, deliver_all,
}
use clear_evmi_plugin.Delivery.Once.{IsAtomic, new_log_event-IsAtomic}
use clear_evmi_plugin.Exec.{Result, ok, err, World, Exec, pure, later}
use clear_evmi_plugin.Exec.Ensures.{
  Ensures, Keeps, Claims, Ensures-pure, Ensures-statement, Ensures-bind, Ensures-if, Ensures-then,
}

-- One of the logs has the id.
unfoldable pub any_with_id : String → List LogEvent → Bool
any_with_id id [] = false
any_with_id id (log ∷ logs) = log.id == id || any_with_id id logs

abbrev pub AreDistinct : List LogEvent → Type 0
AreDistinct [] = Unit {0}
AreDistinct (log ∷ logs) = (any_with_id log.id logs ≡ false) × AreDistinct logs

insert_new-present :
    (id other : String) (c : ℕ) (t : Table String ℕ)
    → is_present other (insert_new id c t) ≡ (id == other || is_present other t)
unfolding insert_new
insert_new-present id other c t =
    upsert-present id other c (λ w. w) t ∙ by_test (id == other) (is_present other t)
  where
    by_test : (b p : Bool) → (if b then true else p) ≡ (b || p)
    by_test true p = refl
    by_test false p = refl

module _ (setup : Setup) where
  -- From the first tables to the second: of the delivered logs, in the order of their deliveries,
  -- those of the second list took effect. A log takes effect where its id is not claimed, by all that
  -- its transaction writes, and its id is then claimed and no other; the rest change nothing.
  pub data Effects : List LogEvent → List LogEvent → Db → Db → Type 0 where
    finished : (d : Db) → Effects [] [] d d
    passed :
        (log : LogEvent) (logs took : List LogEvent) (d d' : Db)
        → Effects logs took d d'
        → Effects (log ∷ logs) took d d'
    taken :
        (log : LogEvent) (logs took : List LogEvent) (w w' : World) (d' : Db)
        → is_present log.id w.db.processed_events ≡ false
        → transact (dispatch setup) log w ≡ (ok handled, w')
        → w'.db.processed_events ≡ insert_new log.id log.chain_id w.db.processed_events
        → Effects logs took w'.db d'
        → Effects (log ∷ logs) (log ∷ took) w.db d'

  -- The ids of the logs that took effect were not claimed before.
  pub Effects-fresh :
      (logs took : List LogEvent) (d d' : Db)
      → Effects logs took d d'
      → (id : String) → any_with_id id took ≡ true
      → is_present id d.processed_events ≡ false
  unfolding any_with_id
  Effects-fresh _ _ _ _ (finished d) id h = cc
  Effects-fresh _ took d d' (passed log logs _ _ _ rest) id h =
      Effects-fresh logs took d d' rest id h
  Effects-fresh _ _ _ d' (taken log logs took w w' _ fresh e claimed rest) id h =
      by_id (log.id == id) refl h (Effects-fresh logs took w'.db d' rest id)
    where
      by_id :
          (b : Bool)
          → (log.id == id) ≡ b
          → (b || any_with_id id took) ≡ true
          → (any_with_id id took ≡ true → is_present id w'.db.processed_events ≡ false)
          → is_present id w.db.processed_events ≡ false
      by_id true met h later =
          subst (λ i. is_present i w.db.processed_events ≡ false) (==-eq log.id id met) fresh
      by_id false other h later =
          let absent : is_present id w'.db.processed_events ≡ false = later h in
          let told : is_present id (insert_new log.id log.chain_id w.db.processed_events) ≡ false =
            subst (λ t. is_present id t ≡ false) claimed absent in
          rw (insert_new-present log.id id log.chain_id w.db.processed_events, other) at told

  pub Effects-AreDistinct :
      (logs took : List LogEvent) (d d' : Db) → Effects logs took d d' → AreDistinct took
  Effects-AreDistinct _ _ _ _ (finished d) = tt
  Effects-AreDistinct _ took d d' (passed log logs _ _ _ rest) =
      Effects-AreDistinct logs took d d' rest
  Effects-AreDistinct _ _ _ d' (taken log logs took w w' _ fresh e claimed rest) = (
    by_id (any_with_id log.id took) refl (Effects-fresh logs took w'.db d' rest log.id),
    Effects-AreDistinct logs took w'.db d' rest,
  )
    where
      own : is_present log.id w'.db.processed_events ≡ true
      own = rw (
        claimed,
        insert_new-present log.id log.id log.chain_id w.db.processed_events,
        ==-refl log.id,
      )

      by_id :
          (b : Bool)
          → any_with_id log.id took ≡ b
          → (any_with_id log.id took ≡ true → is_present log.id w'.db.processed_events ≡ false)
          → b ≡ false
      by_id true e absent = let none_left = absent e in let there = own in cc
      by_id false e absent = refl

  -- The claimed ids are those that were claimed and those of the logs that took effect.
  pub Effects-processed :
      (logs took : List LogEvent) (d d' : Db)
      → Effects logs took d d'
      → (id : String)
      → is_present id d'.processed_events
        ≡ (any_with_id id took || is_present id d.processed_events)
  unfolding any_with_id
  Effects-processed _ _ _ _ (finished d) id = refl
  Effects-processed _ took d d' (passed log logs _ _ _ rest) id =
      Effects-processed logs took d d' rest id
  Effects-processed _ _ _ d' (taken log logs took w w' _ fresh e claimed rest) id =
      Effects-processed logs took w'.db d' rest id
      ∙ rw (claimed, insert_new-present log.id id log.chain_id w.db.processed_events)
          (swap (any_with_id id took) (log.id == id) (is_present id w.db.processed_events))
    where
      swap : (a b c : Bool) → (a || (b || c)) ≡ ((b || a) || c)
      swap true true c = refl
      swap true false c = refl
      swap false true c = refl
      swap false false c = refl
