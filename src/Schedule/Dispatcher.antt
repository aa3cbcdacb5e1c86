-- ===== src/Schedule/Dispatcher.antt =====
-- The dispatcher (src/booksaver/application/schedule_dispatcher.py). The coordinator is a
-- parameter, as are the clock and the stop event, read by number: the `n`th reading of a pass.
-- The repository's table is the state; `active_user_ids` is the sorted list without duplicates.
pub mod Horizon
use booksaver_agent.Base.{
  ℕ, ◌+◌, ◌-◌, ◌*◌, ◌/◌, Bool, true, false, Option, none, some, List, [], ◌∷◌, ◌==◌, is_nil,
  if◌then◌else◌, ltb, Result, Error, raise_if, ok, ◌>>=◌, ◌>>◌,
}
use booksaver_agent.Schedule.Slot.{
  second, utc_day, ScheduleSettings, SlotIdentity, ScheduledCheckSlot, ScheduledAdmission,
}
use booksaver_agent.Schedule.Generate.{RandomBelow, generate_daily_slots}
use booksaver_agent.Schedule.Store.Rows.{Table, sort_by}
use booksaver_agent.Schedule.Store.Insert.{
  list_for_user_date, insert_daily_schedule, last_planned_before,
}
use booksaver_agent.Schedule.Store.Due.{prepare_due, by_time}
use booksaver_agent.Schedule.Store.Claim.{recover_running, prune_terminal, next_planned_at}

-- `_BUSY_RETRY`
unfoldable pub busy_retry : ℕ
busy_retry = 30 * second

-- `prior.planned_at if prior is not None else None`
abbrev pub planned_of : Option ScheduledCheckSlot → Option ℕ
planned_of none = none
planned_of (some s) = some s.planned_at

module _ (settings : ScheduleSettings) (randbelow : ℕ → ℕ → RandomBelow) where
  -- One day of one user.
  unfoldable pub plan_day : ℕ → ℕ → Table → Result Table
  plan_day user_id date t = do
    prior ← last_planned_before user_id (date * utc_day) t
    slots ← generate_daily_slots user_id date settings (randbelow user_id date) (planned_of prior)
    persisted ← insert_daily_schedule slots t
    ok persisted.0

  unfoldable pub ensure_day : ℕ → ℕ → Table → Result Table
  ensure_day user_id date t = do
    listed ← list_for_user_date user_id date t
    if is_nil listed then plan_day user_id date t else ok t

  -- `_ensure_horizon`
  unfoldable pub ensure_horizon : List ℕ → ℕ → Table → Result Table
  ensure_horizon [] today t = ok t
  ensure_horizon (user_id ∷ user_ids) today t = do
    first ← ensure_day user_id today t
    second ← ensure_day user_id (today + 1) first
    ensure_horizon user_ids today second

-- The fields that a pass changes, beside the table.
pub record DispatcherState : Type 0 where
  pub table : Table
  pub recovery_complete : Bool
  pub last_pruned_on : Option ℕ

module _ (coordinator : SlotIdentity → ℕ → Table → Table × ScheduledAdmission) (clock : ℕ → ℕ)
    (stopped : ℕ → Bool) where
  -- The loop over the due slots, with the next wake; `n` is the number of the next reading.
  unfoldable pub dispatch : ℕ → List ScheduledCheckSlot → Table → Table × Option ℕ
  dispatch n [] t = (t, next_planned_at (clock n) t)
  dispatch n (slot ∷ due) t =
      let (t', admission) = coordinator slot.identity (clock n) t in
      let rest = dispatch (n + 1) due t' in
      if stopped n then (t, none) else elim admission [
        | ScheduledAdmission.busy ↦ (t', some (clock (n + 1) + busy_retry))
        | ScheduledAdmission.stopping ↦ (t', none)
        | _ ↦ rest
      ]

abbrev pub same_day : Option ℕ → ℕ → Bool
same_day none today = false
same_day (some day) today = day == today

-- `_recovery_complete`: the rows that ran before a restart are closed once.
unfoldable pub recover_once : ℕ → DispatcherState → DispatcherState
recover_once now s =
    if s.recovery_complete
    then s
    else record s { table = (recover_running now s.table).0; recovery_complete = true }

-- `_last_pruned_on`: the old rows go once a day. The retention is counted in days; an instant before
-- the first day of the calendar raises.
unfoldable pub prune_once : ℕ → ℕ → DispatcherState → Result DispatcherState
prune_once now retention_days s =
    let today = now / utc_day in
    if same_day s.last_pruned_on today
    then ok s
    else raise_if (ltb now (retention_days * utc_day)) Error.overflow_error
      >> ok (record s {
        table = (prune_terminal (now - retention_days * utc_day) s.table).0;
        last_pruned_on = some today;
      })

module _ (settings : ScheduleSettings) (randbelow : ℕ → ℕ → RandomBelow)
    (coordinator : SlotIdentity → ℕ → Table → Table × ScheduledAdmission) (clock : ℕ → ℕ)
    (stopped : ℕ → Bool) where
  unfoldable pub run_started : List ℕ → DispatcherState → Result (DispatcherState × Option ℕ)
  run_started user_ids s = do
    let now = clock 0
    planned ← ensure_horizon settings randbelow user_ids (now / utc_day) s.table
    kept ← prune_once now settings.retention_days (recover_once now (record s { table = planned }))
    due ← prepare_due now settings.missed_run_grace settings.minimum_spacing kept.table
    let after = dispatch coordinator clock stopped 1 (sort_by by_time due.1) due.0
    ok (record kept { table = after.0 }, after.1)

  -- `run_once`: the state after the pass and the next wake. Where a call raises, the changes of the
  -- calls before it, each of which the code has committed, are not in the result.
  unfoldable pub run_once : List ℕ → DispatcherState → Result (DispatcherState × Option ℕ)
  run_once user_ids s = if stopped 0 then ok (s, none) else run_started user_ids s
