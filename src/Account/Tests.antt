-- ===== src/Account/Tests.antt =====
-- The theorems on an account at one reservation whose booked total is missing.
use booksaver_agent.Base.{◌+◌, ◌≤◌, ◌≡◌, ◌≢◌, ◌↔◌, true, false, none, some, [], ◌∷◌, all}
use booksaver_agent.Account.Eligibility.{
  ReservationLifecycle, EligibilityStatus, EligibilityReason, ReservationObservation,
  eligibility_reasons, evaluate_eligibility,
}
use booksaver_agent.Account.Eligibility.Laws.{IsMonitorable, evaluate_eligibility_iff}
use booksaver_agent.Account.Stall.{
  MonitoredReservation, SyncRow, InventoryCompleteness, stall_after, is_hold, is_monitored,
  stall_reason, sync_blocks_checks,
}
use booksaver_agent.Account.Stall.Laws.{
  AllSince, IsHeld, LetsCheck, stall_reason_iff, hold_reasons_iff, sync_blocks_checks_iff,
}

abbrev without_total : ReservationObservation
without_total = record {
  remote_id = 49 ∷ [];
  lifecycle = ReservationLifecycle.upcoming;
  confirmation_id = some (49 ∷ []);
  property_name = some (97 ∷ []);
  property_ref = some (98 ∷ []);
  check_in = some 20;
  check_out = some 22;
  room_type = some (99 ∷ []);
  booked_total = none;
  refundable = some true;
  occupancy = some 2;
}

abbrev held : MonitoredReservation
held = record {
  reservation_key = 1;
  property_name = 97 ∷ [];
  eligibility = EligibilityStatus.ineligible;
  eligibility_reasons = EligibilityReason.missing_booked_total ∷ [];
  first_observed_at = 5;
  last_conclusive_at = some 7;
  latest_sync_failed = false;
}

abbrev agentic : SyncRow
agentic = record { run_id = 3; completeness = InventoryCompleteness.incomplete; is_agentic = true }

evaluate_eligibility_iff_example :
    ((evaluate_eligibility without_total 10).status ≡ EligibilityStatus.eligible)
    ↔ IsMonitorable without_total 10
evaluate_eligibility_iff_example = evaluate_eligibility_iff without_total 10

hold_reasons_iff_example :
    (all is_hold (eligibility_reasons without_total 10) ≡ true) ↔ IsHeld without_total 10
hold_reasons_iff_example = hold_reasons_iff without_total 10

stall_reason_iff_example : (stall_reason held 100000000000 ≢ none) ↔ (
    (is_monitored held ≡ true)
    × (held.first_observed_at + stall_after ≤ 100000000000)
    × AllSince held.last_conclusive_at 100000000000)
stall_reason_iff_example = stall_reason_iff held 100000000000

sync_blocks_checks_iff_example :
    (sync_blocks_checks (some agentic) (some 3) ≡ false) ↔ LetsCheck (some agentic) (some 3)
sync_blocks_checks_iff_example = sync_blocks_checks_iff (some agentic) (some 3)
