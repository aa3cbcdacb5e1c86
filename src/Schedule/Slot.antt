-- ===== src/Schedule/Slot.antt =====
-- The slot types of src/booksaver/domain/schedule.py. An instant is the number of microseconds
-- since datetime.min in UTC, a date the number of days since then, and a timedelta a number of
-- microseconds; the type checks of `__post_init__` hold by typing.
use booksaver_agent.Base.{
  ℕ, ◌/◌, Bool, true, false, not, ◌||◌, Option, none, some, ltb, leb, ◌==◌, Result, ok, value_error,
  ◌>>◌, raise_if, is_none, is_some,
}
use booksaver_agent.Base.Round.{div_half_even}

abbrev pub second : ℕ
second = 1_000_000

-- `_UTC_DAY`
abbrev pub utc_day : ℕ
utc_day = 86_400_000_000

pub data SlotStatus : Type 0 where
  planned running completed missed : SlotStatus

pub data MissReason : Type 0 where
  grace_expired superseded_catch_up spacing_conflict recovered_running : MissReason
  user_unavailable stopping : MissReason

pub data ScheduledAdmission : Type 0 where
  completed busy stopping stale : ScheduledAdmission

pub record ScheduleSettings : Type 0 where
  pub checks_per_booking_per_day : ℕ
  pub minimum_spacing : ℕ
  pub missed_run_grace : ℕ
  pub retention_days : ℕ

-- `ScheduleSettings.__post_init__`
unfoldable pub check_settings : ScheduleSettings → Result (Unit {0})
check_settings s = do
  raise_if (ltb s.checks_per_booking_per_day 1) value_error
  raise_if (leb s.minimum_spacing 0) value_error
  raise_if (leb s.missed_run_grace 0) value_error
  raise_if (ltb s.retention_days 1) value_error
  raise_if (leb (div_half_even utc_day s.checks_per_booking_per_day) s.minimum_spacing) value_error

pub record SlotIdentity : Type 0 where
  pub user_id : ℕ
  pub schedule_date : ℕ
  pub ordinal : ℕ

pub record ScheduledCheckSlot : Type 0 where
  pub identity : SlotIdentity
  pub open identity use {user_id, schedule_date, ordinal}
  pub planned_at : ℕ
  pub status : SlotStatus
  pub started_at : Option ℕ
  pub finished_at : Option ℕ
  pub miss_reason : Option MissReason

-- `value is not None and value < bound`
abbrev pub precedes : Option ℕ → ℕ → Bool
precedes none bound = false
precedes (some value) bound = ltb value bound

-- the finish against the start, where both are there
abbrev pub finish_precedes_start : Option ℕ → Option ℕ → Bool
finish_precedes_start none started = false
finish_precedes_start (some finish) none = false
finish_precedes_start (some finish) (some start) = ltb finish start

-- Whether the outcome fields break the rule of the status.
abbrev pub breaks_lifecycle : SlotStatus → Option ℕ → Option ℕ → Option MissReason → Bool
breaks_lifecycle SlotStatus.planned started finished reason =
    is_some started || (is_some finished || is_some reason)
breaks_lifecycle SlotStatus.running started finished reason =
    is_none started || (is_some finished || is_some reason)
breaks_lifecycle SlotStatus.completed started finished reason =
    is_none started || (is_none finished || is_some reason)
breaks_lifecycle SlotStatus.missed started finished reason = is_none finished || is_none reason

-- `ScheduledCheckSlot.__post_init__`
unfoldable pub check_slot : ScheduledCheckSlot → Result (Unit {0})
check_slot s = do
  raise_if (not (s.planned_at / utc_day == s.schedule_date)) value_error
  raise_if (precedes s.started_at s.planned_at) value_error
  raise_if (precedes s.finished_at s.planned_at) value_error
  raise_if (finish_precedes_start s.finished_at s.started_at) value_error
  raise_if (breaks_lifecycle s.status s.started_at s.finished_at s.miss_reason) value_error

-- The constructor call: the slot, if it passes.
unfoldable pub new_slot : ScheduledCheckSlot → Result ScheduledCheckSlot
unfolding check_slot
new_slot s = check_slot s >> ok s

-- `slot.is_terminal`
unfoldable pub is_terminal : ScheduledCheckSlot → Bool
is_terminal s = elim s.status [ SlotStatus.completed ↦ true | SlotStatus.missed ↦ true | _ ↦ false ]
