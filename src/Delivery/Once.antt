-- ===== src/Delivery/Once.antt =====
-- A log takes effect at most once, and wholly or not at all.
use clear_evmi_plugin.Prelude.{
  ◌≡◌, refl, ℕ, Bool, true, false, not, Option, none, some, is_none, string_equality, inl, inr, ◌⊎◌,
  if◌then◌else◌,
}
use clear_evmi_plugin.Kind.{ContractKind}
use clear_evmi_plugin.Table.{find, insert_new}
use clear_evmi_plugin.Table.Column.{is_present, is_some}
use clear_evmi_plugin.Db.{Db}
use clear_evmi_plugin.Event.{LogEvent}
use clear_evmi_plugin.Exec.{
  Error, Result, ok, err, Outcome, served, failed, unreported, World, Exec, next, later, is_served,
  statement, refuse, continue, ◌>>=◌,
}
use clear_evmi_plugin.Delivery.{
  claim, Verdict, duplicate, handled, transact, handle_fresh, roll_back, commit_by, commit, finish,
  new_log_event,
}

module _ (dispatch : LogEvent → ContractKind → Exec (Unit {0})) where
  -- The work of a transaction that begins in the world `w`.
  abbrev pub work : LogEvent → World → Result Verdict × World
  work log w = transact dispatch log (record w { aborted = false; outcomes = later w.outcomes })

  -- What a call leaves in the tables: what it found, or all that its handler did without an error.
  abbrev pub IsAtomic : LogEvent → World → Db → Type 0
  IsAtomic log w d = (d ≡ w.db) ⊎ ((w' : World) × ((work log w ≡ (ok handled, w')) × (d ≡ w'.db)))

  commit_by-IsAtomic :
      (o : Outcome) (log : LogEvent) (w w' : World)
      → work log w ≡ (ok handled, w')
      → IsAtomic log w (commit_by o w.db w').1.db
  unfolding commit_by
  commit_by-IsAtomic served log w w' e = inr (w', (e, refl))
  commit_by-IsAtomic failed log w w' e = inl refl
  commit_by-IsAtomic unreported log w w' e = inr (w', (e, refl))

  finish-IsAtomic :
      (r : Result Verdict × World) (log : LogEvent) (w : World)
      → work log w ≡ r
      → IsAtomic log w (finish w.db r).1.db
  unfolding finish roll_back commit
  finish-IsAtomic (err x, w') log w e = inl refl
  finish-IsAtomic (ok duplicate, w') log w e = inl refl
  finish-IsAtomic (ok handled, w') log w e =
      commit_by-IsAtomic (if w'.aborted then failed else next w'.outcomes) log w w' e

  -- Whatever fails on the way, in a handler, a statement or the commit, the tables hold either what
  -- they held before the call, or everything that the handler wrote and the claim of the log's id.
  pub new_log_event-IsAtomic :
      (log : LogEvent) (w : World) → IsAtomic log w (new_log_event dispatch log w).1.db
  unfolding new_log_event
  new_log_event-IsAtomic log w = by_test (is_served (next w.outcomes))
    where
      by_test :
          (b : Bool)
          → IsAtomic log w
              (if b
                then finish w.db (work log w)
                else (err Error.query_failed, record w { outcomes = later w.outcomes })).1.db
      by_test true = finish-IsAtomic (work log w) log w refl
      by_test false = inl refl

  -- The tables and the registry are those of the world `w`.
  abbrev pub Unchanged : World → World → Type 0
  Unchanged w w' = (w'.db ≡ w.db) × (w'.registry ≡ w.registry)

  claimed_before :
      (log : LogEvent) (w : World)
      → is_present log.id w.db.processed_events ≡ true
      → Unchanged w (finish w.db (work log w)).1
  unfolding finish transact claim handle_fresh statement refuse roll_back ◌>>=◌
  claimed_before log w h =
      by_cases (not (is_served (next (later w.outcomes)))) (find log.id w.db.processed_events) h
    where
      by_cases :
          (t : Bool) (o : Option ℕ)
          → is_some o ≡ true
          → let w₀ : World = record w { aborted = false; outcomes = later w.outcomes } in
            let (r, w₁) = if t then refuse w₀ else (
              ok (is_none o),
              record w₀ {
                db = record w.db {
                  processed_events = insert_new log.id log.chain_id w.db.processed_events;
                };
                outcomes = later w₀.outcomes;
              },
            ) in
            Unchanged w (finish w.db (continue r (handle_fresh dispatch log) w₁)).1
      by_cases true o h = (refl, refl)
      by_cases false (some c) h = (refl, refl)
      by_cases false none h = cc

  -- A log whose id is in the ledger of processed events changes neither the tables nor the registry,
  -- whatever the server answers.
  pub new_log_event-processed :
      (log : LogEvent) (w : World)
      → is_present log.id w.db.processed_events ≡ true
      → Unchanged w (new_log_event dispatch log w).1
  unfolding new_log_event
  new_log_event-processed log w h = by_test (is_served (next w.outcomes))
    where
      by_test :
          (b : Bool)
          → Unchanged w
              (if b
                then finish w.db (work log w)
                else (err Error.query_failed, record w { outcomes = later w.outcomes })).1
      by_test true = claimed_before log w h
      by_test false = (refl, refl)
