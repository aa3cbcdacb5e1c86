-- ===== src/Schedule/Generate/Plan.antt =====
-- What a generated day looks like (`generate_daily_slots` of src/booksaver/domain/schedule.py).
use mathlib.Core.Path.{subst}
use booksaver_agent.Base.{
  ℕ, zero, suc, ◌+◌, ◌*◌, ◌≤◌, ◌≡◌, inl, inr, arith, Bool-cases, Option, none, some, List, [], ◌∷◌,
  ok, >>=-eq-ok,
}
use booksaver_agent.Schedule.Slot.{
  ScheduleSettings, ScheduledCheckSlot, SlotStatus, second, utc_day, new_slot,
}
use booksaver_agent.Schedule.Generate.{
  RandomBelow, window_start, window_end, plan_slot, plan_slots, reaches, generate_daily_slots,
}

-- The spacing after the previous planned instant, if there is one.
abbrev pub IsSpaced : ℕ → Option ℕ → ℕ → Type 0
IsSpaced spacing none at = Unit
IsSpaced spacing (some previous) at = previous + spacing ≤ at

-- The slot of one window, after `previous`: at a whole second's distance from the window's end.
pub record IsPlannedIn (settings : ScheduleSettings) (user_id schedule_date ordinal : ℕ)
    (previous : Option ℕ) (s : ScheduledCheckSlot) : Type 0 where
  pub of_user : s.user_id ≡ user_id
  pub on_date : s.schedule_date ≡ schedule_date
  pub at_ordinal : s.ordinal ≡ ordinal
  pub is_planned : s.status ≡ SlotStatus.planned
  pub not_started : s.started_at ≡ none
  pub not_finished : s.finished_at ≡ none
  pub no_reason : s.miss_reason ≡ none
  pub after_start :
      window_start (schedule_date * utc_day) settings.checks_per_booking_per_day ordinal
      ≤ s.planned_at
  pub before_end :
      s.planned_at + second
      ≤ window_end (schedule_date * utc_day) settings.checks_per_booking_per_day ordinal
  pub spaced : IsSpaced settings.minimum_spacing previous s.planned_at

-- The slots from `ordinal` on: one for each window that is left.
abbrev pub IsDailyPlan : ScheduleSettings → ℕ → ℕ → ℕ → Option ℕ → List ScheduledCheckSlot → Type 0
IsDailyPlan settings user_id schedule_date ordinal previous [] =
    ordinal ≡ settings.checks_per_booking_per_day
IsDailyPlan settings user_id schedule_date ordinal previous (s ∷ slots) =
    IsPlannedIn settings user_id schedule_date ordinal previous s
    × IsDailyPlan settings user_id schedule_date (ordinal + 1) (some s.planned_at) slots

pub plan_slot-IsPlannedIn :
    (settings : ScheduleSettings) (user_id schedule_date : ℕ) (randbelow : RandomBelow)
    (ordinal : ℕ) (previous : Option ℕ) (s : ScheduledCheckSlot)
    → plan_slot settings user_id schedule_date randbelow ordinal previous ≡ ok s
    → IsPlannedIn settings user_id schedule_date ordinal previous s
unfolding plan_slot new_slot
plan_slot-IsPlannedIn settings user_id schedule_date randbelow ordinal none s h = ground arith
plan_slot-IsPlannedIn settings user_id schedule_date randbelow ordinal (some p) s h = ground arith

plan_slots-IsDailyPlan :
    (settings : ScheduleSettings) (user_id schedule_date : ℕ) (randbelow : RandomBelow)
    (rounds ordinal : ℕ) (previous : Option ℕ) (slots : List ScheduledCheckSlot)
    → ordinal + rounds ≡ settings.checks_per_booking_per_day
    → plan_slots settings user_id schedule_date randbelow rounds ordinal previous ≡ ok slots
    → IsDailyPlan settings user_id schedule_date ordinal previous slots
unfolding plan_slots
plan_slots-IsDailyPlan settings u d randbelow zero ordinal previous [] e h = omega arith
plan_slots-IsDailyPlan settings u d randbelow zero ordinal previous (s ∷ slots) e h = cc
plan_slots-IsDailyPlan settings u d randbelow (suc rounds) ordinal previous slots e h =
    let (s, first, more) = >>=-eq-ok (plan_slot settings u d randbelow ordinal previous) _ h in
    let (rest, others, joined) =
      >>=-eq-ok (plan_slots settings u d randbelow rounds (ordinal + 1) (some s.planned_at)) _
        more in
    ok_list joined (
      plan_slot-IsPlannedIn settings u d randbelow ordinal previous s first,
      plan_slots-IsDailyPlan settings u d randbelow rounds (ordinal + 1) (some s.planned_at) rest
          (omega arith) others,
    )
  where
    ok_list :
        {s : ScheduledCheckSlot} {rest : List ScheduledCheckSlot}
        → ok (s ∷ rest) ≡ ok slots
        → IsDailyPlan settings u d ordinal previous (s ∷ rest)
        → IsDailyPlan settings u d ordinal previous slots
    ok_list {s} {rest} p q =
        let same : s ∷ rest ≡ slots = cc in subst (IsDailyPlan settings u d ordinal previous) same q

-- What `generate_daily_slots` returns is one planned slot for each window, in order, each in its
-- window and at least the spacing after the one before and after the day before's last.
pub generate_daily_slots-IsDailyPlan :
    (user_id schedule_date : ℕ) (settings : ScheduleSettings) (randbelow : RandomBelow)
    (prior : Option ℕ) (slots : List ScheduledCheckSlot)
    → generate_daily_slots user_id schedule_date settings randbelow prior ≡ ok slots
    → IsDailyPlan settings user_id schedule_date 0 prior slots
unfolding generate_daily_slots
generate_daily_slots-IsDailyPlan u d settings randbelow prior slots h =
    elim (Bool-cases (reaches prior (d * utc_day))) [
      | inl late ↦ let absurd_h = rw late at h in cc
      | inr early ↦
          plan_slots-IsDailyPlan settings u d randbelow settings.checks_per_booking_per_day 0 prior
            slots (omega arith) (rw early at h)
    ]
