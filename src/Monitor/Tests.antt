-- ===== src/Monitor/Tests.antt =====
-- The theorems on the limits at one user with two bookings.
use booksaver_agent.Base.{
  ℕ, ◌+◌, ◌≤◌, ◌≡◌, ◌≢◌, ◌↔◌, ◌⊎◌, ◌&&◌, ◌||◌, not, leb, true, false, some, ok, [], ◌∷◌, All,
  if◌then◌else◌,
}
use booksaver_agent.Monitor.FailureCodes.{
  TerminalBrowserReason, FailureCode, reason_value, code_value, failure_code_for_terminal,
}
use booksaver_agent.Monitor.FailureCodes.Laws.{failure_code_for_terminal-namesake}
use booksaver_agent.Browser.{OperatorAction}
use booksaver_agent.Browser.Diagnosis.{operator_action_for_reason}
use booksaver_agent.Booking.{Booking}
use booksaver_agent.Offer.MealPlan.{MealPlan}
use booksaver_agent.Monitor.Limits.{DailyCounter, CheckPlan, try_increment, build_check_plan}
use booksaver_agent.Monitor.Limits.{users_needing_capped_notice}
use booksaver_agent.Monitor.Limits.Notices.{users_needing_capped_notice_once}
use booksaver_agent.Monitor.Limits.Counter.{counted, try_increment_spent}
use booksaver_agent.Monitor.Limits.Loop.{of_user}
use booksaver_agent.Monitor.Limits.Plan.{build_check_plan-quota}
use booksaver_agent.Monitor.Failures.{FailureTracker, is_warned, after_check, after_check_lem}

abbrev yesterday : DailyCounter
yesterday = record { day = 3; counts = λ _. 9 }

abbrev stay : ℕ → Booking
stay n = record {
  booking_id = n;
  property_name = [];
  check_in = 10;
  check_out = 12;
  room_label = [];
  baseline_price = record { amount = 100; currency = [] };
  meal_plan = MealPlan.unknown;
}

abbrev no_warnings : FailureTracker
no_warnings = record { threshold = 3; warned = [] }

try_increment_spent_example :
    (((try_increment 4 1 5 2 yesterday).1 ≡ true) ↔ (counted 4 1 yesterday + 2 ≤ 5))
    × (counted 4 1 (try_increment 4 1 5 2 yesterday).0 ≡ (
        if (try_increment 4 1 5 2 yesterday).1
        then counted 4 1 yesterday + 2
        else counted 4 1 yesterday))
    × ((other : ℕ)
        → other ≢ 1
        → counted 4 other (try_increment 4 1 5 2 yesterday).0 ≡ counted 4 other yesterday)
try_increment_spent_example = try_increment_spent 4 1 5 2 yesterday

build_check_plan-quota_example :
    (plan : CheckPlan) × (build_check_plan (1 ∷ []) (λ _. stay 1 ∷ stay 2 ∷ []) (λ _. 4) 5
      ≡ some plan)
    × All (λ u. of_user u plan.ordered ≡ stay 1 ∷ []) (1 ∷ [])
build_check_plan-quota_example =
    build_check_plan-quota (λ _. stay 1 ∷ stay 2 ∷ []) (λ _. 4) 5 (1 ∷ [])

after_check_lem_example :
    (((after_check (λ _. 3) 1 false no_warnings).1 ≡ true)
      ↔ ((false ≡ false) × (3 ≤ 3) × (is_warned 1 no_warnings ≡ false)))
    × (is_warned 1 (after_check (λ _. 3) 1 false no_warnings).0
        ≡ (not false && (is_warned 1 no_warnings || leb 3 3)))
    × ((other : ℕ)
        → other ≢ 1
        → is_warned other (after_check (λ _. 3) 1 false no_warnings).0
          ≡ is_warned other no_warnings)
after_check_lem_example = after_check_lem (λ _. 3) 1 false no_warnings

failure_code_for_terminal-namesake_example :
    (((code : FailureCode) × (failure_code_for_terminal TerminalBrowserReason.time_limit ≡ ok code))
      ↔ ((TerminalBrowserReason.time_limit ≢ TerminalBrowserReason.postcondition_satisfied)
          × (TerminalBrowserReason.time_limit ≢ TerminalBrowserReason.code_verification_required)))
    × ((reason' : TerminalBrowserReason) (code : FailureCode)
        → code_value code ≡ reason_value reason'
        → (failure_code_for_terminal TerminalBrowserReason.time_limit ≡ ok code)
          ↔ (TerminalBrowserReason.time_limit ≡ reason'))
    × ((failure_code_for_terminal TerminalBrowserReason.time_limit ≡ ok FailureCode.auth_required)
        ↔ ((operator_action_for_reason TerminalBrowserReason.time_limit ≡ OperatorAction.connect)
            ⊎ (operator_action_for_reason TerminalBrowserReason.time_limit
                ≡ OperatorAction.complete_mfa)))
    × (((failure_code_for_terminal TerminalBrowserReason.time_limit
            ≡ ok FailureCode.dom_maintenance_required)
          ⊎ (failure_code_for_terminal TerminalBrowserReason.time_limit
              ≡ ok FailureCode.dom_ambiguity))
        ↔ (operator_action_for_reason TerminalBrowserReason.time_limit
            ≡ OperatorAction.maintain_code))
failure_code_for_terminal-namesake_example =
    failure_code_for_terminal-namesake TerminalBrowserReason.time_limit

users_needing_capped_notice_once_example :
    users_needing_capped_notice 4
      (1 ∷ 2 ∷ 1 ∷ [])
      (users_needing_capped_notice 4 (1 ∷ 2 ∷ 1 ∷ []) yesterday).0
    ≡ ((users_needing_capped_notice 4 (1 ∷ 2 ∷ 1 ∷ []) yesterday).0, [])
users_needing_capped_notice_once_example =
    users_needing_capped_notice_once 4 (1 ∷ 2 ∷ 1 ∷ []) yesterday
