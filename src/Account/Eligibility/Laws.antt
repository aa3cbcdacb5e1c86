-- ===== src/Account/Eligibility/Laws.antt =====
-- What `evaluate_eligibility` (src/booksaver/domain/account_sync.py) accepts, and what its reasons say.
use booksaver_agent.Base.{
  ℕ, ◌≡◌, ◌↔◌, refl, true, false, some, List, [], ◌∷◌, ◌<◌, all, is_nil, is_none, arith,
}
use booksaver_agent.Account.Eligibility.{
  ReservationLifecycle, EligibilityStatus, EligibilityReason, ReservationObservation, is_missing,
  has_ended, lifecycle_reasons, eligibility_reasons, evaluate_eligibility,
}
use booksaver_agent.Account.Eligibility.Reasons.{Passes, all-reasons}

-- The facts of a reservation that is monitored.
pub record IsMonitorable (o : ReservationObservation) (today : ℕ) : Type 0 where
  pub upcoming : o.lifecycle ≡ ReservationLifecycle.upcoming
  pub refundable : o.refundable ≡ some true
  pub has_check_in : is_none o.check_in ≡ false
  pub ends_later : (d : ℕ) × (o.check_out ≡ some d) × (today < d)
  pub has_confirmation : is_missing o.confirmation_id ≡ false
  pub has_name : is_missing o.property_name ≡ false
  pub has_ref : is_missing o.property_ref ≡ false
  pub has_room : is_missing o.room_type ≡ false
  pub has_occupancy : is_none o.occupancy ≡ false
  pub has_total : is_none o.booked_total ≡ false

all-nil : (reasons : List EligibilityReason) → all (λ _. false) reasons ≡ is_nil reasons
all-nil [] = refl
all-nil (r ∷ reasons) = refl

Passes-IsMonitorable :
    (o : ReservationObservation) (today : ℕ) → Passes (λ _. false) o today ↔ IsMonitorable o today
unfolding has_ended lifecycle_reasons is_missing
Passes-IsMonitorable o today = (λ h. ground arith, λ k. ground arith)

evaluate_eligibility_status :
    (o : ReservationObservation) (today : ℕ)
    → ((evaluate_eligibility o today).status ≡ EligibilityStatus.eligible)
      ↔ (all (λ _. false) (eligibility_reasons o today) ≡ true)
unfolding evaluate_eligibility
evaluate_eligibility_status o today = ground (arith, all-nil (eligibility_reasons o today))

-- A reservation is eligible exactly when it is upcoming, refundable, with known dates and a
-- check-out after today, and its confirmation number, property, room, guests and total are known.
pub evaluate_eligibility_iff :
    (o : ReservationObservation) (today : ℕ)
    → ((evaluate_eligibility o today).status ≡ EligibilityStatus.eligible) ↔ IsMonitorable o today
evaluate_eligibility_iff o today =
    let status = evaluate_eligibility_status o today in
    let passes = all-reasons (λ _. false) o today in
    let facts = Passes-IsMonitorable o today in
    (λ h. facts.0 (passes.0 (status.0 h)), λ k. status.1 (passes.1 (facts.1 k)))
