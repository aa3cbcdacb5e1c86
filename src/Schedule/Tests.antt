-- ===== src/Schedule/Tests.antt =====
-- The schedule's theorems at a concrete day: one user with one slot.
use booksaver_agent.Base.{◌≡◌, refl, true, none, some, List, [], ◌∷◌, All, ok, arith}
use mathlib.Core.List.{Memᴰ}
use booksaver_agent.Base.Pairs.{Pairwise}
use booksaver_agent.Base.Round.{div_half_even}
use booksaver_agent.Schedule.Slot.{
  utc_day, ScheduleSettings, SlotStatus, ScheduledCheckSlot, check_settings, check_slot, new_slot,
}
use booksaver_agent.Schedule.Generate.{
  RandomBelow, window_start, window_end, feasible_start, plan_slot, plan_slots,
  generate_daily_slots,
}
use booksaver_agent.Schedule.Generate.Windows.{IsValidSettings, check_settings_iff}
use booksaver_agent.Schedule.Generate.Plan.{IsDailyPlan, generate_daily_slots-IsDailyPlan}
use booksaver_agent.Schedule.Generate.Total.{generate_daily_slots_total}
use booksaver_agent.Schedule.Store.Rows.{
  first_by, Table, update, count, latest_started, insert_by, sort_by, load,
}
use booksaver_agent.Schedule.Store.Sound.{IsSound}
use booksaver_agent.Schedule.Store.Insert.{
  day_rows, list_for_user_date, counts_from, same_ordinals, is_increasing, insert_checked,
  insert_daily_schedule,
}
use booksaver_agent.Schedule.Store.InsertLaws.{insert_daily_schedule_stable}
use booksaver_agent.Schedule.Store.InsertSound.{insert-IsSound}
use booksaver_agent.Schedule.Store.Due.{
  miss_planned_row, split_newest, miss_all, judge, offer, close_stale, due_rows, prepare_due,
}
use booksaver_agent.Schedule.Store.Insert.{last_planned_before}
use booksaver_agent.Schedule.Dispatcher.{plan_day, ensure_day, ensure_horizon}
use booksaver_agent.Schedule.Dispatcher.Horizon.{HasDay, Grows, ensure_horizon-HasDay}
use booksaver_agent.Schedule.Store.Offered.{IsClaimable, prepare_due-IsClaimable}
use booksaver_agent.Schedule.Store.Claim.{find, start_row, claim_row, claim}
use booksaver_agent.Schedule.Store.ClaimLaws.{IsClaim}
use booksaver_agent.Schedule.Store.ClaimEffect.{IsApart, claim-IsApart}
use booksaver_agent.Schedule.Store.ClaimExclusive.{claim-exclusive}
use booksaver_agent.Schedule.Store.History.{Step, Inv, Reach, Reach-Inv}

abbrev one_check : ScheduleSettings
one_check = record {
  checks_per_booking_per_day = 1;
  minimum_spacing = 1000000;
  missed_run_grace = 50;
  retention_days = 1;
}

abbrev no_offset : RandomBelow
no_offset _ _ = 0

abbrev first_slot : ScheduledCheckSlot
first_slot = record {
  identity = record { user_id = 1; schedule_date = 0; ordinal = 0 };
  planned_at = 0;
  status = SlotStatus.planned;
  started_at = none;
  finished_at = none;
  miss_reason = none;
}

abbrev running_slot : ScheduledCheckSlot
running_slot = record first_slot { status = SlotStatus.running; started_at = some 50 }

abbrev empty_table : Table
empty_table = record { rows = []; active = λ _. true }

abbrev one_row : Table
one_row = record { rows = first_slot ∷ []; active = λ _. true }

abbrev one_running : Table
one_running = record { rows = running_slot ∷ []; active = λ _. true }

first_slot_valid : check_slot first_slot ≡ ok tt
unfolding check_slot
first_slot_valid = refl

one_row-IsSound : IsSound one_row.rows
one_row-IsSound = record { valid = (first_slot_valid, tt); distinct = (tt, tt) }

empty-IsSound : IsSound empty_table.rows
empty-IsSound = record { valid = tt; distinct = tt }

one_check_valid : check_settings one_check ≡ ok tt
unfolding check_settings div_half_even
one_check_valid = refl

generated : generate_daily_slots 1 0 one_check no_offset none ≡ ok (first_slot ∷ [])
unfolding generate_daily_slots plan_slots plan_slot feasible_start window_start window_end
    div_half_even new_slot check_slot
generated = refl

inserted : insert_daily_schedule (first_slot ∷ []) empty_table ≡ ok (one_row, first_slot ∷ [])
unfolding insert_daily_schedule insert_checked counts_from is_increasing day_rows list_for_user_date
    load sort_by insert_by new_slot check_slot
inserted = refl

again : insert_daily_schedule (first_slot ∷ []) one_row ≡ ok (one_row, first_slot ∷ [])
unfolding insert_daily_schedule insert_checked counts_from is_increasing day_rows list_for_user_date
    load sort_by insert_by new_slot check_slot same_ordinals
again = refl

prepared : prepare_due 50 50 1 one_row ≡ ok (one_row, first_slot ∷ [])
unfolding prepare_due close_stale due_rows split_newest miss_all miss_planned_row offer judge
    latest_started update sort_by insert_by new_slot check_slot
prepared = refl

claimed : claim first_slot.identity 50 50 1 one_row ≡ ok (one_running, some running_slot)
unfolding claim claim_row start_row find count update latest_started new_slot check_slot
claimed = refl

first_slot-IsClaim : IsClaim first_slot.identity 50 0 1 one_row first_slot
unfolding latest_started
first_slot-IsClaim = record {
  in_table = Memᴰ.head refl;
  of_key = refl;
  due = refl;
  newest = refl;
  spaced = refl;
}

prepare_due-IsClaimable_example :
    IsSound one_row.rows × All (IsClaimable 50 50 1 one_row) (first_slot ∷ [])
prepare_due-IsClaimable_example =
    prepare_due-IsClaimable 50 50 1 one_row one_row (first_slot ∷ []) one_row-IsSound prepared

Reach-Inv_example : Inv 1 50 one_running
Reach-Inv_example = Reach-Inv {grace = 50} (
    Reach.next {last = 40}
      (Reach.next (Reach.empty (λ _. true)) (omega arith)
        (Step.plan first_slot [] (first_slot ∷ []) (first_slot_valid, tt) inserted))
      (omega arith) (Step.start first_slot.identity (some running_slot) claimed))

claim-IsApart_example : Pairwise (IsApart 1) one_running.rows
claim-IsApart_example =
    claim-IsApart first_slot.identity 50 50 1 one_row one_running (some running_slot)
      one_row-IsSound (tt, tt) claimed

claim-exclusive_example : claim first_slot.identity 50 50 1 one_running ≡ ok (one_running, none)
claim-exclusive_example =
    claim-exclusive first_slot.identity first_slot.identity 50 50 50 50 1 one_row one_running
      running_slot claimed refl (omega arith) (omega arith) (omega arith) (omega arith)

insert_daily_schedule_stable_example : (one_row ≡ one_row) × (first_slot ∷ [] ≡ first_slot ∷ [])
insert_daily_schedule_stable_example =
    insert_daily_schedule_stable first_slot first_slot [] [] empty_table one_row one_row
      (first_slot ∷ []) (first_slot ∷ []) refl refl inserted again

insert-IsSound_example : IsSound one_row.rows × Pairwise (IsApart 1) one_row.rows
insert-IsSound_example =
    insert-IsSound 1 first_slot [] empty_table one_row (first_slot ∷ []) (first_slot_valid, tt)
      empty-IsSound tt inserted

generate_daily_slots-IsDailyPlan_example : IsDailyPlan one_check 1 0 0 none (first_slot ∷ [])
generate_daily_slots-IsDailyPlan_example =
    generate_daily_slots-IsDailyPlan 1 0 one_check no_offset none (first_slot ∷ []) generated

one_check-IsValidSettings : IsValidSettings one_check
one_check-IsValidSettings = (check_settings_iff one_check).0 one_check_valid

generate_daily_slots_total_example :
    (slots : List ScheduledCheckSlot) × (generate_daily_slots 1 0 one_check no_offset none
      ≡ ok slots)
generate_daily_slots_total_example =
    generate_daily_slots_total one_check 1 0 no_offset one_check-IsValidSettings (omega arith)
      (λ call bound h. h) none tt

abbrev next_slot : ScheduledCheckSlot
next_slot = record {
  identity = record { user_id = 1; schedule_date = 1; ordinal = 0 };
  planned_at = utc_day;
  status = SlotStatus.planned;
  started_at = none;
  finished_at = none;
  miss_reason = none;
}

abbrev two_days : Table
two_days = record { rows = first_slot ∷ next_slot ∷ []; active = λ _. true }

first_day : ensure_day one_check (λ _ _. no_offset) 1 0 empty_table ≡ ok one_row
unfolding ensure_day plan_day last_planned_before generate_daily_slots plan_slots plan_slot
    feasible_start window_start window_end div_half_even new_slot check_slot insert_daily_schedule
    insert_checked counts_from is_increasing day_rows list_for_user_date load sort_by insert_by
    first_by
first_day = refl

second_day : ensure_day one_check (λ _ _. no_offset) 1 1 one_row ≡ ok two_days
unfolding ensure_day plan_day last_planned_before generate_daily_slots plan_slots plan_slot
    feasible_start window_start window_end div_half_even new_slot check_slot insert_daily_schedule
    insert_checked counts_from is_increasing day_rows list_for_user_date load sort_by insert_by
    first_by
second_day = refl

ensured : ensure_horizon one_check (λ _ _. no_offset) (1 ∷ []) 0 empty_table ≡ ok two_days
unfolding ensure_horizon
ensured = rw first_day (rw second_day refl)

ensure_horizon-HasDay_example :
    Grows empty_table two_days × All (λ u. HasDay u 0 two_days × HasDay u 1 two_days) (1 ∷ [])
ensure_horizon-HasDay_example =
    ensure_horizon-HasDay one_check (λ _ _. no_offset) (1 ∷ []) 0 empty_table two_days ensured
