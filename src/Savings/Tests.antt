-- ===== src/Savings/Tests.antt =====
-- The theorems on savings at one check of one reservation. The texts are in lower case already.
use booksaver_agent.Base.{
  arith, Option, List, Result, ◌+◌, ◌++◌, ◌==◌, if◌then◌else◌, ℕ, ◌<◌, ◌≡◌, ◌↔◌, refl, true, false,
  none, some, [], ◌∷◌, ok,
}
use booksaver_agent.Base.Text.{Text, text_eq, strip, lstrip, rstrip, is_space}
use booksaver_agent.Booking.{Money, Booking}
use booksaver_agent.Offer.MealPlan.{MealPlan}
use booksaver_agent.Savings.Detect.{
  CheckOutcome, CheckResult, SavingsOpportunity, Detection, saving, check_result, differs_day,
  differs_text, contradiction, refusal, first_of, evaluate_equivalence, percent_of, compare_prices,
  decide, detect_from, detect_savings,
}
use booksaver_agent.Savings.Detect.Laws.{
  IsOpportunity, detect_savings-IsOpportunity, detect_savings_complete,
}
use booksaver_agent.Savings.Detect.Gate.{AgreesFields, IsConfirmed, evaluate_equivalence-none}
use booksaver_agent.Savings.Pipeline.{Notifier, process}
use booksaver_agent.Savings.Pipeline.Laws.{Recorded, process-Recorded}

abbrev same_case : Text → Text
same_case s = s

abbrev pounds : ℕ → Money
pounds n = record { amount = n; currency = 71 ∷ 66 ∷ 80 ∷ [] }

abbrev reservation : Booking
reservation = record {
  booking_id = 1;
  property_name = 97 ∷ [];
  check_in = 10;
  check_out = 12;
  room_label = 98 ∷ [];
  baseline_price = pounds 300;
  meal_plan = MealPlan.unknown;
}

abbrev cheaper_check : CheckResult
cheaper_check = record {
  check_id = 7;
  booking_id = 1;
  checked_at = 5;
  outcome = CheckOutcome.success;
  live_price = some (pounds 200);
  refund_indicators = some (record { is_refundable = some true });
  extracted_fields = some (record {
    property_name = some (97 ∷ []);
    room_label = none;
    check_in = some 10;
    check_out = none;
  });
  has_failure_reason = false;
  has_terminal_diagnosis = false;
}

abbrev third_saved : SavingsOpportunity
third_saved = record {
  opportunity_id = 9;
  booking_id = 1;
  check_id = 7;
  baseline_price = pounds 300;
  live_price = pounds 200;
  amount_saved = pounds 100;
  percent_saved = 3333;
  validated_at = 5;
  notified_at = none;
}

detected : detect_savings same_case 9 reservation cheaper_check ≡ ok (saving third_saved)
unfolding detect_savings detect_from decide evaluate_equivalence first_of contradiction refusal
    differs_day differs_text compare_prices percent_of text_eq strip lstrip rstrip is_space
detected = refl

cheaper_check_valid : check_result cheaper_check ≡ ok tt
unfolding check_result
cheaper_check_valid = refl

detect_savings-IsOpportunity_example :
    (live : Money) × (cheaper_check.outcome ≡ CheckOutcome.success)
    × (cheaper_check.live_price ≡ some live)
    × IsOpportunity same_case reservation cheaper_check live third_saved
detect_savings-IsOpportunity_example =
    detect_savings-IsOpportunity same_case 9 reservation cheaper_check third_saved detected

detect_savings_complete_example :
    (live : Money) × (cheaper_check.live_price ≡ some live)
    × (d : Detection) × (detect_savings same_case 9 reservation cheaper_check ≡ ok d)
    × (AgreesFields same_case reservation cheaper_check.extracted_fields
        → IsConfirmed cheaper_check.refund_indicators
        → live.currency ≡ reservation.baseline_price.currency
        → live.amount < reservation.baseline_price.amount
        → (s : SavingsOpportunity) × (d ≡ saving s))
detect_savings_complete_example =
    detect_savings_complete same_case 9 reservation cheaper_check cheaper_check_valid refl

evaluate_equivalence-none_example :
    (evaluate_equivalence same_case reservation cheaper_check ≡ none) ↔ (
      AgreesFields same_case reservation cheaper_check.extracted_fields
      × IsConfirmed cheaper_check.refund_indicators)
evaluate_equivalence-none_example = evaluate_equivalence-none same_case reservation cheaper_check

abbrev ids_from_twenty : ℕ → ℕ
ids_from_twenty n = n + 20

abbrev one_reservation : ℕ → Option Booking
one_reservation booking_id = if booking_id == 1 then some reservation else none

-- Two channels, of which the first fails.
abbrev two_channels : Booking → Result (List Notifier)
two_channels b = ok (
    record { channel_name = 1; send = λ s c. false }
    ∷ record { channel_name = 2; send = λ s c. true }
    ∷ [])

process-Recorded_example :
    (added_rows : List SavingsOpportunity) × (outcome : Result (List SavingsOpportunity)) × (process
        same_case one_reservation two_channels ids_from_twenty
        (λ n. 30 + n)
        0
        (cheaper_check ∷ [])
        (third_saved ∷ [])
      ≡ ((third_saved ∷ []) ++ added_rows, outcome))
    × Recorded same_case one_reservation two_channels ids_from_twenty
        (λ n. 30 + n)
        0
        (cheaper_check ∷ [])
        added_rows
        outcome
process-Recorded_example =
    process-Recorded same_case one_reservation two_channels ids_from_twenty (λ n. 30 + n)
      (λ j k e. omega (arith, e)) (cheaper_check ∷ []) (third_saved ∷ [])
      (λ k. ((λ e. omega (arith, e)), tt)) (cheaper_check_valid, tt)
