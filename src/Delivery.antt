-- ===== src/Delivery.antt =====
-- `NewLogEvent` of main.go: one transaction for each delivered log, with the ledger of processed
-- events that makes a redelivery do nothing. The dispatcher is an argument here.
pub mod Once
pub mod Invariant
use clear_evmi_plugin.Prelude.{
  Bool, true, false, List, [], ◌∷◌, is_none, string_equality, if◌then◌else◌,
}
use clear_evmi_plugin.Kind.{ContractKind}
use clear_evmi_plugin.Table.{find, insert_new}
use clear_evmi_plugin.Db.{Db}
use clear_evmi_plugin.Event.{LogEvent}
use clear_evmi_plugin.Registry.{is_unknown, resolve_kind}
use clear_evmi_plugin.Exec.{
  Error, query_failed, Result, ok, err, Outcome, served, failed, unreported, World, Exec, next,
  later, is_served, pure, statement, ◌>>=◌, ◌>>◌,
}

-- INSERT INTO clear_processed_events … ON CONFLICT DO NOTHING, and whether a row was inserted.
unfoldable pub claim : LogEvent → Exec Bool
claim log = statement (λ d. (
  is_none (find log.id d.processed_events),
  record d { processed_events = insert_new log.id log.chain_id d.processed_events },
))

-- How the work of a transaction ended, where it had no error.
pub data Verdict : Type 0 where
  duplicate handled : Verdict

module _ (dispatch : LogEvent → ContractKind → Exec (Unit {0})) where
  unfoldable pub route : LogEvent → ContractKind → Exec Verdict
  route log k = if is_unknown k then pure handled else (do dispatch log k; pure handled)

  unfoldable pub handle_fresh : LogEvent → Bool → Exec Verdict
  handle_fresh log true = do k ← resolve_kind log; route log k
  handle_fresh log false = pure duplicate

  unfoldable pub transact : LogEvent → Exec Verdict
  transact log = do fresh ← claim log; handle_fresh log fresh

-- The tables are again as they were. The registry is not.
unfoldable pub roll_back : Db → World → World
roll_back saved w = record w { db = saved; aborted = false; outcomes = later w.outcomes }

unfoldable pub commit_by : Outcome → Db → World → Result (Unit {0}) × World
unfolding roll_back
commit_by served saved w = (ok tt, record w { outcomes = later w.outcomes })
commit_by failed saved w = (err query_failed, roll_back saved w)
commit_by unreported saved w = (err query_failed, record w { outcomes = later w.outcomes })

-- The commit of a transaction in which a statement has failed rolls it back.
unfoldable pub commit : Db → World → Result (Unit {0}) × World
unfolding commit_by
commit saved w = commit_by (if w.aborted then failed else next w.outcomes) saved w

unfoldable pub finish : Db → Result Verdict × World → Result (Unit {0}) × World
finish saved (err e, w) = (err e, roll_back saved w)
finish saved (ok duplicate, w) =
    (if is_served (next w.outcomes) then ok tt else err query_failed, roll_back saved w)
finish saved (ok handled, w) = commit saved w

module _ (dispatch : LogEvent → ContractKind → Exec (Unit {0})) where
  unfoldable pub new_log_event : LogEvent → Exec (Unit {0})
  new_log_event log w =
      let begun = record w { aborted = false; outcomes = later w.outcomes } in
      if is_served (next w.outcomes)
      then finish w.db (transact dispatch log begun)
      else (err query_failed, record w { outcomes = later w.outcomes })

  -- The logs that the server delivers, one after another, again and again as it sees fit.
  unfoldable pub deliver_all : List LogEvent → World → World
  deliver_all [] w = w
  deliver_all (log ∷ logs) w = deliver_all logs (new_log_event log w).1
