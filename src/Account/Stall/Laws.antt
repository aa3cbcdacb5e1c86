-- ===== src/Account/Stall/Laws.antt =====
-- When a reservation counts as stalled, and which ineligible reservations can.
use booksaver_agent.Base.{
  ℕ, ◌+◌, ◌≡◌, ◌≢◌, ◌↔◌, ◌⊎◌, refl, true, false, Option, none, some, ◌≤◌, ◌<◌, all, arith, is_none,
}
use booksaver_agent.Account.Eligibility.{
  ReservationLifecycle, ReservationObservation, eligibility_reasons, lifecycle_reasons, has_ended,
  is_missing,
}
use booksaver_agent.Account.Eligibility.Reasons.{Passes, all-reasons}
use booksaver_agent.Account.Stall.{
  stall_after, is_hold, MonitoredReservation, is_monitored, since, stall_reason,
  InventoryCompleteness, SyncRow, sync_blocks_checks,
}

abbrev pub AllSince : Option ℕ → ℕ → Type 0
AllSince none limit = Unit
AllSince (some at) limit = at + stall_after ≤ limit

-- A reservation has stalled exactly when it is monitored and a day has passed since it was first
-- observed and since its last conclusive check.
pub stall_reason_iff :
    (r : MonitoredReservation) (now : ℕ)
    → (stall_reason r now ≢ none) ↔ (
        (is_monitored r ≡ true)
        × (r.first_observed_at + stall_after ≤ now)
        × AllSince r.last_conclusive_at now)
unfolding stall_reason since stall_after
stall_reason_iff r now = (λ h. ground (arith), λ k. ground (arith))

-- What a reservation that is held for its reasons still promises.
pub record IsHeld (o : ReservationObservation) (today : ℕ) : Type 0 where
  pub upcoming : o.lifecycle ≡ ReservationLifecycle.upcoming
  pub not_refused : o.refundable ≢ some false
  pub has_check_in : is_none o.check_in ≡ false
  pub ends_later : (d : ℕ) × (o.check_out ≡ some d) × (today < d)
  pub has_confirmation : is_missing o.confirmation_id ≡ false
  pub has_name : is_missing o.property_name ≡ false
  pub has_ref : is_missing o.property_ref ≡ false

Passes-IsHeld : (o : ReservationObservation) (today : ℕ) → Passes is_hold o today ↔ IsHeld o today
unfolding has_ended lifecycle_reasons is_missing is_hold
Passes-IsHeld o today = (λ h. ground arith, λ k. ground arith)

-- The reasons that `evaluate_eligibility` gives are all hold reasons exactly when the reservation
-- is upcoming, not known to be non-refundable, with known dates and a check-out after today, and
-- its confirmation number and property are known.
pub hold_reasons_iff :
    (o : ReservationObservation) (today : ℕ)
    → (all is_hold (eligibility_reasons o today) ≡ true) ↔ IsHeld o today
hold_reasons_iff o today =
    let passes = all-reasons is_hold o today in
    let facts = Passes-IsHeld o today in (λ h. facts.0 (passes.0 h), λ k. passes.1 (facts.1 k))

abbrev pub LetsCheck : Option SyncRow → Option ℕ → Type 0
LetsCheck none observed = Unit
LetsCheck (some s) observed =
    (s.completeness ≡ InventoryCompleteness.complete)
    ⊎ ((s.completeness ≡ InventoryCompleteness.incomplete)
        × (s.is_agentic ≡ true)
        × (observed ≡ some s.run_id))

-- A sync lets a reservation be checked exactly when there was none, when it was complete, or when
-- it was an incomplete agentic one that observed the reservation.
pub sync_blocks_checks_iff :
    (sync : Option SyncRow) (observed : Option ℕ)
    → (sync_blocks_checks sync observed ≡ false) ↔ LetsCheck sync observed
unfolding sync_blocks_checks
sync_blocks_checks_iff none observed = (λ _. tt, λ _. refl)
sync_blocks_checks_iff (some s) observed = (λ h. ground arith, λ k. ground arith)
