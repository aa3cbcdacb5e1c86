-- ===== src/Schedule/Generate/Total.antt =====
-- Totality of `generate_daily_slots` of src/booksaver/domain/schedule.py, day after day.
use booksaver_agent.Base.{
  ℕ, zero, suc, ◌+◌, ◌*◌, ◌-◌, ◌/◌, ◌≤◌, ◌<◌, ◌≡◌, refl, arith, Option, none, some, List, [], ◌∷◌,
  ok,
}
use booksaver_agent.Schedule.Slot.{
  ScheduleSettings, ScheduledCheckSlot, SlotStatus, second, utc_day, new_slot,
}
use booksaver_agent.Schedule.Generate.{
  RandomBelow, window_start, window_end, feasible_start, plan_slot, plan_slots,
  generate_daily_slots,
}
use booksaver_agent.Schedule.Generate.Windows.{
  IsValidSettings, edge_le, edge_first, spacing_le_window, window_end-eq,
}
use booksaver_agent.Schedule.Generate.Plan.{IsDailyPlan, plan_slot-IsPlannedIn}

-- The random source keeps its contract, for any bound that is not 0.
abbrev pub IsRandomBelow : RandomBelow → Type 0
IsRandomBelow randbelow = (call bound : ℕ) → 0 < bound → randbelow call bound < bound

-- The instant before which every slot of an earlier day ends, a second ahead of `bound`.
abbrev pub EndsBefore : Option ℕ → ℕ → Type 0
EndsBefore none bound = Unit
EndsBefore (some previous) bound = previous + second ≤ bound

module _ (settings : ScheduleSettings) (u d : ℕ) (randbelow : RandomBelow)
    (v : IsValidSettings settings) (seconds_apart : second ≤ settings.minimum_spacing)
    (random : IsRandomBelow randbelow) where
  -- With a whole second left in the window, the round draws a slot.
  plan_slot_fits :
      (ordinal : ℕ) (previous : Option ℕ)
      → let count = settings.checks_per_booking_per_day in
        let start = window_start (d * utc_day) count ordinal in
        let stop = window_end (d * utc_day) count ordinal in
        let feasible = feasible_start start settings.minimum_spacing previous in
        d * utc_day ≤ feasible
        → feasible + second ≤ stop
        → stop ≤ d * utc_day + utc_day
        → (s : ScheduledCheckSlot) × (plan_slot settings u d randbelow ordinal previous ≡ ok s)
  unfolding plan_slot new_slot
  plan_slot_fits ordinal previous low room high =
      let count = settings.checks_per_booking_per_day in
      let feasible =
        feasible_start (window_start (d * utc_day) count ordinal) settings.minimum_spacing
          previous in
      let span = (window_end (d * utc_day) count ordinal - feasible) / second in
      let drawn = random ordinal span (omega arith) in
      (
        record {
          identity = record { user_id = u; schedule_date = d; ordinal = ordinal };
          planned_at = feasible + randbelow ordinal span * second;
          status = SlotStatus.planned;
          started_at = none;
          finished_at = none;
          miss_reason = none;
        },
        ground (arith, drawn),
      )

  window_room :
      (ordinal : ℕ)
      → ordinal < settings.checks_per_booking_per_day
      → let count = settings.checks_per_booking_per_day in
        (window_start (d * utc_day) count ordinal + settings.minimum_spacing
          ≤ window_end (d * utc_day) count ordinal)
        × (window_end (d * utc_day) count ordinal ≤ d * utc_day + utc_day)
        × (d * utc_day ≤ window_start (d * utc_day) count ordinal)
  unfolding window_start
  window_room ordinal h =
      let count = settings.checks_per_booking_per_day in
      omega (
        arith,
        window_end-eq (d * utc_day) count ordinal h,
        spacing_le_window count ordinal settings.minimum_spacing v.some_check v.spacing_fits,
        edge_le count (ordinal + 1) v.some_check (omega arith),
      )

  plan_slot_total :
      (ordinal : ℕ) (previous : Option ℕ)
      → ordinal < settings.checks_per_booking_per_day
      → EndsBefore previous (window_start (d * utc_day) settings.checks_per_booking_per_day ordinal)
      → (s : ScheduledCheckSlot) × (plan_slot settings u d randbelow ordinal previous ≡ ok s)
  unfolding feasible_start
  plan_slot_total ordinal none h e =
      let room = window_room ordinal h in
      plan_slot_fits ordinal none (omega arith) (omega arith) (omega arith)
  plan_slot_total ordinal (some p) h e =
      let room = window_room ordinal h in
      plan_slot_fits ordinal (some p) (omega arith) (omega arith) (omega arith)

  plan_slots_total :
      (rounds ordinal : ℕ) (previous : Option ℕ)
      → ordinal + rounds ≡ settings.checks_per_booking_per_day
      → EndsBefore previous (window_start (d * utc_day) settings.checks_per_booking_per_day ordinal)
      → (slots : List ScheduledCheckSlot) × (plan_slots settings u d randbelow rounds ordinal
            previous
          ≡ ok slots)
  unfolding plan_slots
  plan_slots_total zero ordinal previous sum e = ([], refl)
  plan_slots_total (suc rounds) ordinal previous sum e =
      let (s, made) = plan_slot_total ordinal previous (omega arith) e in
      let planned = plan_slot-IsPlannedIn settings u d randbelow ordinal previous s made in
      let count = settings.checks_per_booking_per_day in
      let (rest, more) = plan_slots_total rounds (ordinal + 1) (some s.planned_at) (omega arith) (
        omega
          (arith, planned.before_end, window_end-eq (d * utc_day) count ordinal (omega arith))) in
      (s ∷ rest, rw made (rw more))

  -- Settings that `__post_init__` accepts, with a spacing of at least a second, a random source that
  -- stays below its bound, and a day before whose last slot lies a second before midnight always
  -- yield a day's schedule.
  pub generate_daily_slots_total :
      (prior : Option ℕ)
      → EndsBefore prior (d * utc_day)
      → (slots : List ScheduledCheckSlot) × (generate_daily_slots u d settings randbelow prior
          ≡ ok slots)
  unfolding generate_daily_slots window_start
  generate_daily_slots_total none e =
      plan_slots_total settings.checks_per_booking_per_day 0 none (omega arith) tt
  generate_daily_slots_total (some p) e =
      let (slots, made) =
        plan_slots_total settings.checks_per_booking_per_day 0 (some p) (omega arith)
          (omega (arith, edge_first settings.checks_per_booking_per_day v.some_check)) in
      (slots, ground (arith, made))

-- The last planned instant of a list of slots, or the one before it.
abbrev pub last_planned : Option ℕ → List ScheduledCheckSlot → Option ℕ
last_planned previous [] = previous
last_planned previous (s ∷ slots) = last_planned (some s.planned_at) slots

IsDailyPlan-le :
    (settings : ScheduleSettings) (u d ordinal : ℕ) (previous : Option ℕ)
    (slots : List ScheduledCheckSlot)
    → IsDailyPlan settings u d ordinal previous slots
    → ordinal ≤ settings.checks_per_booking_per_day
IsDailyPlan-le settings u d ordinal previous [] plan = omega arith
IsDailyPlan-le settings u d ordinal previous (s ∷ slots) (_, rest) =
    omega (arith, IsDailyPlan-le settings u d (ordinal + 1) (some s.planned_at) slots rest)

-- A day's plan ends a second before midnight, so it can stand before the next day's.
pub IsDailyPlan-EndsBefore :
    (settings : ScheduleSettings) (u d ordinal : ℕ) (previous : Option ℕ)
    (slots : List ScheduledCheckSlot)
    → 0 < settings.checks_per_booking_per_day
    → EndsBefore previous ((d + 1) * utc_day)
    → IsDailyPlan settings u d ordinal previous slots
    → EndsBefore (last_planned previous slots) ((d + 1) * utc_day)
unfolding window_start
IsDailyPlan-EndsBefore settings u d ordinal previous [] pos e plan = e
IsDailyPlan-EndsBefore settings u d ordinal previous (s ∷ slots) pos e (first, rest) =
    let inside = IsDailyPlan-le settings u d (ordinal + 1) (some s.planned_at) slots rest in
    IsDailyPlan-EndsBefore settings u d (ordinal + 1) (some s.planned_at) slots pos
      (omega (
        arith,
        first.before_end,
        window_end-eq (d * utc_day) settings.checks_per_booking_per_day ordinal (omega arith),
        edge_le settings.checks_per_booking_per_day (ordinal + 1) pos inside,
      ))
      rest
