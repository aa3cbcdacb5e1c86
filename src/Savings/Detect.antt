-- ===== src/Savings/Detect.antt =====
-- The equivalence gate and the price comparison (src/booksaver/domain/savings.py), on the part of
-- a check result (src/booksaver/domain/check_result.py) that they read. `str.lower` is a parameter,
-- as the Unicode tables are not modelled. A percentage is a number of hundredths of a percent.
pub mod Gate
pub mod Laws
use booksaver_agent.Base.{
  ℕ, ◌+◌, ◌-◌, ◌*◌, ◌/◌, Bool, true, false, not, ◌||◌, Option, none, some, leb, ◌==◌, if◌then◌else◌,
  Result, ok, err, Error, value_error, raise_if, ◌>>◌, is_none, is_some,
}
use booksaver_agent.Base.Text.{Text, text_eq, strip}
use booksaver_agent.Booking.{Money, Booking}

pub data CheckOutcome : Type 0 where
  success failure : CheckOutcome

pub record RefundIndicators : Type 0 where
  pub is_refundable : Option Bool

pub record ExtractedBookingFields : Type 0 where
  pub property_name : Option Text
  pub room_label : Option Text
  pub check_in : Option ℕ
  pub check_out : Option ℕ

pub record CheckResult : Type 0 where
  pub check_id : ℕ
  pub booking_id : ℕ
  pub checked_at : ℕ
  pub outcome : CheckOutcome
  pub live_price : Option Money
  pub refund_indicators : Option RefundIndicators
  pub extracted_fields : Option ExtractedBookingFields
  pub has_failure_reason : Bool
  pub has_terminal_diagnosis : Bool

abbrev pub is_success : CheckOutcome → Bool
is_success CheckOutcome.success = true
is_success CheckOutcome.failure = false

-- `CheckResult.__post_init__`, after the assisted diagnoses are accepted.
unfoldable pub check_result : CheckResult → Result (Unit {0})
check_result r = elim r.outcome [
  | CheckOutcome.success ↦
      raise_if (is_none r.live_price) value_error >> raise_if r.has_terminal_diagnosis value_error
  | CheckOutcome.failure ↦ raise_if (not r.has_failure_reason) value_error
]

pub data RejectionReason : Type 0 where
  dates_differ property_differs room_differs not_refundable : RejectionReason
  refundability_unknown currency_mismatch price_not_lower : RejectionReason

pub record SavingsOpportunity : Type 0 where
  pub opportunity_id : ℕ
  pub booking_id : ℕ
  pub check_id : ℕ
  pub baseline_price : Money
  pub live_price : Money
  pub amount_saved : Money
  pub percent_saved : ℕ
  pub validated_at : ℕ
  pub notified_at : Option ℕ

-- What `detect_savings` returns.
pub data Detection : Type 0 where
  saving : SavingsOpportunity → Detection
  rejected : RejectionReason → Detection

-- A value that was read and contradicts the booked one.
unfoldable pub differs_day : Option ℕ → ℕ → Bool
differs_day none booked = false
differs_day (some read) booked = not (read == booked)

unfoldable pub differs_text : (Text → Text) → Option Text → Text → Bool
differs_text lower none booked = false
differs_text lower (some read) booked = not (text_eq (lower (strip read)) (lower (strip booked)))

unfoldable pub contradiction :
    (Text → Text) → Booking → Option ExtractedBookingFields → Option RejectionReason
contradiction lower b none = none
contradiction lower b (some fields) =
    if differs_day fields.check_in b.check_in
    then some RejectionReason.dates_differ
    else if differs_day fields.check_out b.check_out
    then some RejectionReason.dates_differ
    else if differs_text lower fields.property_name b.property_name
    then some RejectionReason.property_differs
    else if differs_text lower fields.room_label b.room_label
    then some RejectionReason.room_differs
    else none

unfoldable pub refusal : Option RefundIndicators → Option RejectionReason
refusal none = some RejectionReason.refundability_unknown
refusal (some indicators) = elim indicators.is_refundable [
  | none ↦ some RejectionReason.refundability_unknown
  | some refundable ↦ if refundable then none else some RejectionReason.not_refundable
]

-- The first rejection of the two.
unfoldable pub first_of : Option RejectionReason → Option RejectionReason → Option RejectionReason
first_of none other = other
first_of (some reason) other = some reason

-- `evaluate_equivalence`: the verdict's rejection reason, none where it is equivalent.
unfoldable pub evaluate_equivalence : (Text → Text) → Booking → CheckResult → Option RejectionReason
evaluate_equivalence lower b r =
    first_of (contradiction lower b r.extracted_fields) (refusal r.refund_indicators)

-- `(saved / baseline * 100).quantize(Decimal("0.01"), rounding=ROUND_HALF_UP)`, exactly: the
-- division's 28 digits do not change it for a baseline below 10^24 units. A division by zero stops
-- at 0 here.
unfoldable pub percent_of : ℕ → ℕ → ℕ
percent_of saved baseline = (20000 * saved + baseline) / (2 * baseline)

unfoldable pub compare_prices : ℕ → Booking → CheckResult → Money → Detection
compare_prices opportunity_id b r live =
    let baseline = b.baseline_price in
    if not (text_eq live.currency baseline.currency)
    then rejected RejectionReason.currency_mismatch
    else if leb baseline.amount live.amount
    then rejected RejectionReason.price_not_lower
    else let saved = baseline.amount - live.amount in
      saving (record {
        opportunity_id = opportunity_id;
        booking_id = b.booking_id;
        check_id = r.check_id;
        baseline_price = baseline;
        live_price = live;
        amount_saved = record { amount = saved; currency = baseline.currency };
        percent_saved = percent_of saved baseline.amount;
        validated_at = r.checked_at;
        notified_at = none;
      })

unfoldable pub decide : Option RejectionReason → Detection → Detection
decide none compared = compared
decide (some reason) compared = rejected reason

-- The guard: a successful check with a live price.
unfoldable pub detect_from : CheckOutcome → Option Money → (Money → Detection) → Result Detection
detect_from CheckOutcome.failure price detect = err value_error
detect_from CheckOutcome.success none detect = err value_error
detect_from CheckOutcome.success (some live) detect = ok (detect live)

-- `detect_savings`, which names the opportunity by a fresh identifier.
unfoldable pub detect_savings : (Text → Text) → ℕ → Booking → CheckResult → Result Detection
detect_savings lower opportunity_id b r =
    detect_from r.outcome r.live_price
      (λ live. decide (evaluate_equivalence lower b r) (compare_prices opportunity_id b r live))
