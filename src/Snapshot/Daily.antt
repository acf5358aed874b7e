-- ===== src/Snapshot/Daily.antt =====
-- The point of a day is the one of the latest block, in whatever order the day's events come.
use clear_evmi_plugin.Prelude.{
  ℕ, ◌≡◌, ◌∙◌, ◌≤◌, ◌<◌, ap, true, false, Option, none, some, leb, ==-refl, nat_equality,
  list_equality, pair_equality, triple_equality, arith,
}
use clear_evmi_plugin.Text.{Text}
use clear_evmi_plugin.Postgres.{Postgres}
use clear_evmi_plugin.Event.{LogEvent}
use clear_evmi_plugin.Table.{find}
use clear_evmi_plugin.Table.Laws.{find-upsert, upserted}
use clear_evmi_plugin.Db.{Db, ValueRow}
use clear_evmi_plugin.Valuation.{ParValue, value_by_par}
use clear_evmi_plugin.Snapshot.{day_of, later_value, put_value}

-- The point that the history has of a reserve and a day.
abbrev pub point : ℕ → Text → ℕ → Db → Option ValueRow
point c r day d = find (c, r, day) d.reserve_value_history

stale : (new old : ValueRow) → new.block_number < old.block_number → later_value new old ≡ old
stale new old h = let e : leb old.block_number new.block_number ≡ false = ground arith in rw e

fresh : (new old : ValueRow) → old.block_number ≤ new.block_number → later_value new old ≡ new
fresh new old h = let e : leb old.block_number new.block_number ≡ true = ground arith in rw e

module _ (pg : Postgres) (log : LogEvent) (r : Text) (d : Db) (p : ParValue) where
  abbrev day : ℕ
  day = day_of log.block_timestamp

  abbrev value : ValueRow
  value = value_by_par pg d log.chain_id r log.block_number log.block_timestamp p

  put_value-point :
      point log.chain_id r day (put_value pg log r d (some p))
      ≡ some (upserted value (later_value value) (point log.chain_id r day d))
  unfolding put_value
  put_value-point =
      let key : ℕ × Text × ℕ = (log.chain_id, r, day) in
      rw (find-upsert key key value (later_value value) d.reserve_value_history, ==-refl key)

  -- A snapshot of a reserve stores all its figures as the point of the day, where the day has no
  -- point or one of a block that is not later; a point of a later block stays, with all its figures.
  pub put_value-later :
      (point log.chain_id r day d ≡ none
        → point log.chain_id r day (put_value pg log r d (some p)) ≡ some value)
      × ((old : ValueRow)
          → point log.chain_id r day d ≡ some old
          → (old.block_number ≤ log.block_number
              → point log.chain_id r day (put_value pg log r d (some p)) ≡ some value)
            × (log.block_number < old.block_number
                → point log.chain_id r day (put_value pg log r d (some p)) ≡ some old))
  unfolding value_by_par
  put_value-later = (
    λ e. put_value-point ∙ ap (λ o. some (upserted value (later_value value) o)) e,
    λ old e. (
      λ h.
          put_value-point
          ∙ ap (λ o. some (upserted value (later_value value) o)) e
          ∙ ap some (fresh value old h),
      λ h.
          put_value-point
          ∙ ap (λ o. some (upserted value (later_value value) o)) e
          ∙ ap some (stale value old h),
    ),
  )
