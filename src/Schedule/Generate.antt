-- ===== src/Schedule/Generate.antt =====
-- `generate_daily_slots` of src/booksaver/domain/schedule.py. `randbelow` is the caller's; its
-- first argument here is the number of the call, so that a random source is a function.
pub mod Windows
pub mod Plan
pub mod Total
use mathlib.Core.Bool.{not}
use Prim.Native.Nat.{max}
use booksaver_agent.Base.{
  ℕ, zero, suc, ◌+◌, ◌-◌, ◌*◌, ◌/◌, Option, none, some, List, [], ◌∷◌, Bool, leb, ◌==◌,
  if◌then◌else◌, Result, ok, err, value_error, ◌>>=◌, ◌>>◌, raise_if, false,
}
use booksaver_agent.Base.Round.{div_half_even}
use booksaver_agent.Schedule.Slot.{
  ScheduleSettings, ScheduledCheckSlot, SlotStatus, second, utc_day, new_slot,
}

abbrev pub RandomBelow : Type 0
RandomBelow = ℕ → ℕ → ℕ

-- `day_start + (_UTC_DAY * ordinal / count)`
unfoldable pub window_start : ℕ → ℕ → ℕ → ℕ
window_start day_start count ordinal = day_start + div_half_even (utc_day * ordinal) count

unfoldable pub window_end : ℕ → ℕ → ℕ → ℕ
window_end day_start count ordinal =
    if ordinal == count - 1
    then day_start + utc_day
    else day_start + div_half_even (utc_day * (ordinal + 1)) count

-- the later of the window's start and the end of the spacing
unfoldable pub feasible_start : ℕ → ℕ → Option ℕ → ℕ
feasible_start start spacing none = start
feasible_start start spacing (some previous) = max start (previous + spacing)

-- One round of the loop. The span is truncated to whole seconds, and one that is not positive is
-- refused; `-` stops at 0, which is refused too.
unfoldable pub plan_slot :
    ScheduleSettings → ℕ → ℕ → RandomBelow → ℕ → Option ℕ → Result ScheduledCheckSlot
unfolding feasible_start
plan_slot settings user_id schedule_date randbelow ordinal previous =
    let day_start = schedule_date * utc_day in
    let count = settings.checks_per_booking_per_day in
    let feasible =
      feasible_start (window_start day_start count ordinal) settings.minimum_spacing previous in
    let span_seconds = (window_end day_start count ordinal - feasible) / second in
    let offset_seconds = randbelow ordinal span_seconds in
    if span_seconds == 0
    then err value_error
    else if leb span_seconds offset_seconds
    then err value_error
    else new_slot (record {
      identity = record { user_id = user_id; schedule_date = schedule_date; ordinal = ordinal };
      planned_at = feasible + offset_seconds * second;
      status = SlotStatus.planned;
      started_at = none;
      finished_at = none;
      miss_reason = none;
    })

-- the rounds that are left, from `ordinal` on
unfoldable pub plan_slots :
    ScheduleSettings → ℕ → ℕ → RandomBelow → ℕ → ℕ → Option ℕ → Result (List ScheduledCheckSlot)
plan_slots settings user_id schedule_date randbelow zero ordinal previous = ok []
plan_slots settings user_id schedule_date randbelow (suc rounds) ordinal previous = do
  slot ← plan_slot settings user_id schedule_date randbelow ordinal previous
  rest ←
      plan_slots settings user_id schedule_date randbelow rounds (ordinal + 1)
        (some slot.planned_at)
  ok (slot ∷ rest)

-- `prior is not None and prior >= day_start`
abbrev pub reaches : Option ℕ → ℕ → Bool
reaches none bound = false
reaches (some value) bound = leb bound value

unfoldable pub generate_daily_slots :
    ℕ → ℕ → ScheduleSettings → RandomBelow → Option ℕ → Result (List ScheduledCheckSlot)
unfolding plan_slots
generate_daily_slots user_id schedule_date settings randbelow prior = do
  raise_if (reaches prior (schedule_date * utc_day)) value_error
  plan_slots settings user_id schedule_date randbelow settings.checks_per_booking_per_day 0 prior
