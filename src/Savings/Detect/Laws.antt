-- ===== src/Savings/Detect/Laws.antt =====
-- What `detect_savings` (src/booksaver/domain/savings.py) promises of an opportunity.
use booksaver_agent.Base.{
  ℕ, ◌+◌, ◌-◌, ◌*◌, ◌≡◌, ◌≤◌, ◌<◌, refl, sym, ap, ◌∙◌, Option, none, some, Result, ok, arith,
}
use booksaver_agent.Base.Text.{Text, text_eq_iff}
use booksaver_agent.Booking.{Money, Booking}
use booksaver_agent.Savings.Detect.{
  CheckOutcome, CheckResult, RejectionReason, SavingsOpportunity, Detection, saving, check_result,
  evaluate_equivalence, decide, detect_from, percent_of, compare_prices, detect_savings,
}
use booksaver_agent.Savings.Detect.Gate.{AgreesFields, IsConfirmed, evaluate_equivalence-none}

-- The percentage is within half a hundredth of the exact one, and half of one is rounded up.
pub percent_of_bounds :
    (saved baseline : ℕ)
    → 0 < baseline
    → (20000 * saved < 2 * (baseline * percent_of saved baseline) + baseline)
      × (2 * (baseline * percent_of saved baseline) ≤ 20000 * saved + baseline)
unfolding percent_of
percent_of_bounds saved baseline h = grind arith

percent_of_le :
    (saved baseline : ℕ) → 0 < baseline → saved ≤ baseline → percent_of saved baseline ≤ 10000
unfolding percent_of
percent_of_le saved baseline h k = grind arith

-- What an opportunity promises of the reservation and the live price.
pub record IsOpportunity (lower : Text → Text) (b : Booking) (r : CheckResult) (live : Money)
    (s : SavingsOpportunity) : Type 0 where
  pub fields : AgreesFields lower b r.extracted_fields
  pub refundable : IsConfirmed r.refund_indicators
  pub same_currency : live.currency ≡ b.baseline_price.currency
  pub lower_price : live.amount < b.baseline_price.amount
  pub difference : live.amount + s.amount_saved.amount ≡ b.baseline_price.amount
  pub saved_currency : s.amount_saved.currency ≡ b.baseline_price.currency
  pub percent_low :
      20000 * s.amount_saved.amount
      < 2 * (b.baseline_price.amount * s.percent_saved) + b.baseline_price.amount
  pub percent_high :
      2 * (b.baseline_price.amount * s.percent_saved)
      ≤ 20000 * s.amount_saved.amount + b.baseline_price.amount
  pub of_booking : s.booking_id ≡ b.booking_id
  pub of_check : s.check_id ≡ r.check_id
  pub not_notified : s.notified_at ≡ none

compare_prices-saving :
    (lower : Text → Text) (opportunity_id : ℕ) (b : Booking) (r : CheckResult) (live : Money)
    (s : SavingsOpportunity)
    → evaluate_equivalence lower b r ≡ none
    → compare_prices opportunity_id b r live ≡ saving s
    → IsOpportunity lower b r live s
unfolding compare_prices
compare_prices-saving lower opportunity_id b r live s gate h =
    let same = text_eq_iff live.currency b.baseline_price.currency in
    let pass = (evaluate_equivalence-none lower b r).0 gate in
    let percent =
      percent_of_bounds (b.baseline_price.amount - live.amount) b.baseline_price.amount in
    ground (arith, same, pass, percent)

-- A successful check with a price is decided by the gate and the prices.
detect_decides :
    (lower : Text → Text) (opportunity_id : ℕ) (b : Booking) (r : CheckResult) (live : Money)
    → r.outcome ≡ CheckOutcome.success
    → r.live_price ≡ some live
    → detect_savings lower opportunity_id b r
      ≡ ok (decide (evaluate_equivalence lower b r) (compare_prices opportunity_id b r live))
unfolding detect_savings detect_from
detect_decides lower opportunity_id b r live e f =
    ap (λ c. detect_from c r.live_price compared) e
    ∙ ap (λ p. detect_from CheckOutcome.success p compared) f
  where
    compared : Money → Detection
    compared x = decide (evaluate_equivalence lower b r) (compare_prices opportunity_id b r x)

compare_prices-lower :
    (opportunity_id : ℕ) (b : Booking) (r : CheckResult) (live : Money)
    → live.currency ≡ b.baseline_price.currency
    → live.amount < b.baseline_price.amount
    → (s : SavingsOpportunity) × (compare_prices opportunity_id b r live ≡ saving s)
unfolding compare_prices
compare_prices-lower opportunity_id b r live c l =
    let same = (text_eq_iff live.currency b.baseline_price.currency).1 c in
    (
      record {
        opportunity_id = opportunity_id;
        booking_id = b.booking_id;
        check_id = r.check_id;
        baseline_price = b.baseline_price;
        live_price = live;
        amount_saved = record {
          amount = b.baseline_price.amount - live.amount;
          currency = b.baseline_price.currency;
        };
        percent_saved = percent_of (b.baseline_price.amount - live.amount) b.baseline_price.amount;
        validated_at = r.checked_at;
        notified_at = none;
      },
      ground (arith, same, l),
    )

-- An opportunity that `detect_savings` returns comes from a successful check; what was read does
-- not contradict the reservation, the offer is confirmed refundable, its price is strictly lower in
-- the same currency, the saving is the difference, and the percentage is right to half a hundredth.
pub detect_savings-IsOpportunity :
    (lower : Text → Text) (opportunity_id : ℕ) (b : Booking) (r : CheckResult)
    (s : SavingsOpportunity)
    → detect_savings lower opportunity_id b r ≡ ok (saving s)
    → (live : Money) × (r.outcome ≡ CheckOutcome.success)
      × (r.live_price ≡ some live)
      × IsOpportunity lower b r live s
unfolding detect_savings detect_from decide
detect_savings-IsOpportunity lower opportunity_id b r s h =
    by_outcome r.outcome r.live_price refl refl h
  where
    decided :
        (o : Option RejectionReason) (live : Money)
        → evaluate_equivalence lower b r ≡ o
        → ◌≡◌ {A = Result Detection}
            (ok (decide o (compare_prices opportunity_id b r live)))
            (ok (saving s))
        → IsOpportunity lower b r live s
    decided none live e k =
        compare_prices-saving lower opportunity_id b r live s e (ground (arith, k))
    decided (some reason) live e k = ground (arith, k)

    by_outcome :
        (c : CheckOutcome) (p : Option Money)
        → r.outcome ≡ c
        → r.live_price ≡ p
        → detect_savings lower opportunity_id b r ≡ ok (saving s)
        → (live : Money) × (r.outcome ≡ CheckOutcome.success)
          × (r.live_price ≡ some live)
          × IsOpportunity lower b r live s
    by_outcome CheckOutcome.failure p e f k = absurd (ground (arith, e, k))
    by_outcome CheckOutcome.success none e f k = absurd (ground (arith, e, f, k))
    by_outcome CheckOutcome.success (some live) e f k = (
      live,
      e,
      f,
      decided (evaluate_equivalence lower b r) live refl
          (sym (detect_decides lower opportunity_id b r live e f) ∙ k),
    )

-- A successful check whose result is well formed is always decided, and where the gate passes and
-- the price is strictly lower in the same currency the decision is an opportunity.
pub detect_savings_complete :
    (lower : Text → Text) (opportunity_id : ℕ) (b : Booking) (r : CheckResult)
    → check_result r ≡ ok tt
    → r.outcome ≡ CheckOutcome.success
    → (live : Money) × (r.live_price ≡ some live)
      × (d : Detection) × (detect_savings lower opportunity_id b r ≡ ok d)
      × (AgreesFields lower b r.extracted_fields
          → IsConfirmed r.refund_indicators
          → live.currency ≡ b.baseline_price.currency
          → live.amount < b.baseline_price.amount
          → (s : SavingsOpportunity) × (d ≡ saving s))
unfolding detect_savings detect_from check_result decide
detect_savings_complete lower opportunity_id b r valid done = by_price r.live_price refl
  where
    by_price :
        (p : Option Money)
        → r.live_price ≡ p
        → (live : Money) × (r.live_price ≡ some live)
          × (d : Detection) × (detect_savings lower opportunity_id b r ≡ ok d)
          × (AgreesFields lower b r.extracted_fields
              → IsConfirmed r.refund_indicators
              → live.currency ≡ b.baseline_price.currency
              → live.amount < b.baseline_price.amount
              → (s : SavingsOpportunity) × (d ≡ saving s))
    by_price none e = absurd (ground (arith, e, valid, done))
    by_price (some live) e = (
      live,
      e,
      decide (evaluate_equivalence lower b r) (compare_prices opportunity_id b r live),
      detect_decides lower opportunity_id b r live done e,
      λ f i c l.
          let (s, same) = compare_prices-lower opportunity_id b r live c l in
          (
            s,
            ap (λ o. decide o (compare_prices opportunity_id b r live))
                  ((evaluate_equivalence-none lower b r).1 (f, i))
                ∙ same,
          ),
    )
