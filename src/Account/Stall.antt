-- ===== src/Account/Stall.antt =====
-- When a monitored reservation has stalled (src/booksaver/domain/monitoring_stall.py), and whether
-- a sync stops its checks (src/booksaver/infrastructure/persistence/monitoring_stall.py). An
-- instant is a number of microseconds; the frozenset of reasons is a list.
pub mod Laws
use booksaver_agent.Base.{
  ℕ, ◌-◌, ◌*◌, Bool, true, false, not, ◌&&◌, ◌||◌, Option, none, some, List, all, ltb, ◌==◌, is_nil,
  if◌then◌else◌,
}
use booksaver_agent.Base.Text.{Text}
use booksaver_agent.Account.Eligibility.{EligibilityStatus, EligibilityReason}

-- `STALL_AFTER`, 24 hours
unfoldable pub stall_after : ℕ
stall_after = 24 * 3600 * 1000000

-- Membership of `_HOLD_REASONS`.
unfoldable pub is_hold : EligibilityReason → Bool
is_hold EligibilityReason.missing_booked_total = true
is_hold EligibilityReason.missing_room_type = true
is_hold EligibilityReason.missing_occupancy = true
is_hold EligibilityReason.refundability_unknown = true
is_hold EligibilityReason.past_or_completed = false
is_hold EligibilityReason.cancelled = false
is_hold EligibilityReason.not_upcoming = false
is_hold EligibilityReason.non_refundable = false
is_hold EligibilityReason.missing_confirmation = false
is_hold EligibilityReason.missing_property = false
is_hold EligibilityReason.missing_stay_dates = false
is_hold EligibilityReason.not_observed = false

pub data StallReason : Type 0 where
  sync_failing total_unconfirmed checks_failing : StallReason

pub record MonitoredReservation : Type 0 where
  pub reservation_key : ℕ
  pub property_name : Text
  pub eligibility : EligibilityStatus
  pub eligibility_reasons : List EligibilityReason
  pub first_observed_at : ℕ
  pub last_conclusive_at : Option ℕ
  pub latest_sync_failed : Bool

unfoldable pub is_eligible : EligibilityStatus → Bool
is_eligible EligibilityStatus.eligible = true
is_eligible EligibilityStatus.ineligible = false

unfoldable pub is_monitored : MonitoredReservation → Bool
is_monitored r =
    is_eligible r.eligibility
    || (all is_hold r.eligibility_reasons && not (is_nil r.eligibility_reasons))

-- `max(first_observed_at, last_conclusive_at or first_observed_at)`
unfoldable pub since : MonitoredReservation → ℕ
since r = elim r.last_conclusive_at [
  | none ↦ r.first_observed_at
  | some at ↦ if ltb r.first_observed_at at then at else r.first_observed_at
]

-- An instant before `since` is less than 24 hours after it, as the difference stops at 0 here.
unfoldable pub stall_reason : MonitoredReservation → ℕ → Option StallReason
unfolding stall_after
stall_reason r now =
    if not (is_monitored r)
    then none
    else if ltb (now - since r) stall_after
    then none
    else if r.latest_sync_failed
    then some StallReason.sync_failing
    else if not (is_eligible r.eligibility)
    then some StallReason.total_unconfirmed
    else some StallReason.checks_failing

pub data InventoryCompleteness : Type 0 where
  complete incomplete failed : InventoryCompleteness

-- The latest row of `booking_sync_runs`, and whether an agentic execution made it.
pub record SyncRow : Type 0 where
  pub run_id : ℕ
  pub completeness : InventoryCompleteness
  pub is_agentic : Bool

-- `_sync_blocks_checks`, given the run in which the reservation was last observed.
unfoldable pub sync_blocks_checks : Option SyncRow → Option ℕ → Bool
sync_blocks_checks none observed = false
sync_blocks_checks (some sync) observed = elim sync.completeness [
  | InventoryCompleteness.complete ↦ false
  | InventoryCompleteness.failed ↦ true
  | InventoryCompleteness.incomplete ↦
      not sync.is_agentic || elim observed [ none ↦ true | some run ↦ not (run == sync.run_id) ]
]
