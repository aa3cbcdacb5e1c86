-- ===== src/Account/Eligibility.antt =====
-- Which reservations of an account are monitored (src/booksaver/domain/account_sync.py). A date is
-- a number of days; the reasons are appended in the order of the checks.
pub mod Reasons
pub mod Laws
use booksaver_agent.Base.{
  ℕ, ◌≡◌, Bool, true, false, not, ◌&&◌, ◌||◌, Option, none, some, List, [], ◌∷◌, ◌++◌, leb, ◌==◌,
  any, is_nil, is_none, if◌then◌else◌, Result, ok, err, Error, value_error, raise_if, ◌>>◌,
}
use booksaver_agent.Base.Text.{Text, strip}
use booksaver_agent.Booking.{Money}

pub data ReservationLifecycle : Type 0 where
  upcoming current completed cancelled unknown absent : ReservationLifecycle

pub data EligibilityStatus : Type 0 where
  eligible ineligible : EligibilityStatus

pub data EligibilityReason : Type 0 where
  past_or_completed cancelled not_upcoming non_refundable : EligibilityReason
  refundability_unknown missing_confirmation missing_property : EligibilityReason
  missing_stay_dates missing_room_type missing_occupancy : EligibilityReason
  missing_booked_total not_observed : EligibilityReason

pub record EligibilityDecision : Type 0 where
  pub status : EligibilityStatus
  pub reasons : List EligibilityReason

-- The fields that the decision reads; the occupancy is read for its presence only.
pub record ReservationObservation : Type 0 where
  pub remote_id : Text
  pub lifecycle : ReservationLifecycle
  pub confirmation_id : Option Text
  pub property_name : Option Text
  pub property_ref : Option Text
  pub check_in : Option ℕ
  pub check_out : Option ℕ
  pub room_type : Option Text
  pub booked_total : Option Money
  pub refundable : Option Bool
  pub occupancy : Option ℕ

-- `check_out <= check_in`, where both are known.
unfoldable pub ends_too_early : Option ℕ → Option ℕ → Bool
ends_too_early (some check_in) (some check_out) = leb check_out check_in
ends_too_early _ _ = false

-- `ReservationObservation.__post_init__`
unfoldable pub check_observation : ReservationObservation → Result (Unit {0})
unfolding ends_too_early
check_observation o =
    raise_if (is_nil (strip o.remote_id)) value_error
    >> raise_if (ends_too_early o.check_in o.check_out) value_error

-- Python's `not` of an optional text.
unfoldable pub is_missing : Option Text → Bool
is_missing none = true
is_missing (some s) = is_nil s

unfoldable pub has_ended : Option ℕ → ℕ → Bool
has_ended none today = false
has_ended (some check_out) today = leb check_out today

unfoldable pub reason_number : EligibilityReason → ℕ
reason_number EligibilityReason.past_or_completed = 0
reason_number EligibilityReason.cancelled = 1
reason_number EligibilityReason.not_upcoming = 2
reason_number EligibilityReason.non_refundable = 3
reason_number EligibilityReason.refundability_unknown = 4
reason_number EligibilityReason.missing_confirmation = 5
reason_number EligibilityReason.missing_property = 6
reason_number EligibilityReason.missing_stay_dates = 7
reason_number EligibilityReason.missing_room_type = 8
reason_number EligibilityReason.missing_occupancy = 9
reason_number EligibilityReason.missing_booked_total = 10
reason_number EligibilityReason.not_observed = 11

-- `if c: reasons.append(reason)`
unfoldable pub append_if :
    Bool → EligibilityReason → List EligibilityReason → List EligibilityReason
append_if true reason reasons = reasons ++ reason ∷ []
append_if false reason reasons = reasons

-- `_append_once`
unfoldable pub append_once : EligibilityReason → List EligibilityReason → List EligibilityReason
append_once reason reasons =
    append_if (not (any (λ r. reason_number r == reason_number reason) reasons)) reason reasons

unfoldable pub lifecycle_reasons : ReservationLifecycle → List EligibilityReason
lifecycle_reasons ReservationLifecycle.absent = EligibilityReason.not_observed ∷ []
lifecycle_reasons ReservationLifecycle.cancelled = EligibilityReason.cancelled ∷ []
lifecycle_reasons ReservationLifecycle.completed = EligibilityReason.past_or_completed ∷ []
lifecycle_reasons ReservationLifecycle.upcoming = []
lifecycle_reasons ReservationLifecycle.current = EligibilityReason.not_upcoming ∷ []
lifecycle_reasons ReservationLifecycle.unknown = EligibilityReason.not_upcoming ∷ []

unfoldable pub ended_reasons : Bool → List EligibilityReason → List EligibilityReason
ended_reasons true reasons = append_once EligibilityReason.past_or_completed reasons
ended_reasons false reasons = reasons

unfoldable pub refund_reasons : Option Bool → List EligibilityReason → List EligibilityReason
refund_reasons (some true) reasons = reasons
refund_reasons (some false) reasons = append_if true EligibilityReason.non_refundable reasons
refund_reasons none reasons = append_if true EligibilityReason.refundability_unknown reasons

-- The reasons that `evaluate_eligibility` collects.
unfoldable pub eligibility_reasons : ReservationObservation → ℕ → List EligibilityReason
eligibility_reasons o today =
    let found = ended_reasons (has_ended o.check_out today) (lifecycle_reasons o.lifecycle) in
    let found = refund_reasons o.refundable found in
    let found =
      append_if (is_missing o.confirmation_id) EligibilityReason.missing_confirmation found in
    let found =
      append_if (is_missing o.property_name || is_missing o.property_ref)
        EligibilityReason.missing_property found in
    let found =
      append_if (is_none o.check_in || is_none o.check_out) EligibilityReason.missing_stay_dates
        found in
    let found = append_if (is_missing o.room_type) EligibilityReason.missing_room_type found in
    let found = append_if (is_none o.occupancy) EligibilityReason.missing_occupancy found in
    append_if (is_none o.booked_total) EligibilityReason.missing_booked_total found

unfoldable pub evaluate_eligibility : ReservationObservation → ℕ → EligibilityDecision
evaluate_eligibility o today =
    let reasons = eligibility_reasons o today in
    record {
      status = if is_nil reasons then EligibilityStatus.eligible else EligibilityStatus.ineligible;
      reasons = reasons;
    }
