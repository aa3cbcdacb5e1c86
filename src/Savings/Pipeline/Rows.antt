-- ===== src/Savings/Pipeline/Rows.antt =====
-- The identifier of an opportunity, and the row that is added and marked for it.
use booksaver_agent.Base.{
  ℕ, ◌≡◌, ◌≢◌, refl, true, false, Option, none, some, List, [], ◌∷◌, ◌++◌, any, ◌==◌, ok, All, inl,
  inr, arith, Option-cases, ok-injective,
}
use booksaver_agent.Base.Text.{Text}
use booksaver_agent.Booking.{Money, Booking}
use booksaver_agent.Savings.Detect.{
  CheckResult, CheckOutcome, SavingsOpportunity, Detection, RejectionReason, detect_savings,
  detect_from, decide, compare_prices, check_result, is_success, evaluate_equivalence,
}
use booksaver_agent.Savings.Pipeline.{add, with_notified_at, mark_notified}

pub compare-identity :
    (opportunity_id : ℕ) (b : Booking) (r : CheckResult) (live : Money) (s : SavingsOpportunity)
    → compare_prices opportunity_id b r live ≡ Detection.saving s
    → s.opportunity_id ≡ opportunity_id
unfolding compare_prices
compare-identity opportunity_id b r live s h = ground (arith, h)

-- An opportunity has the identifier that was drawn for it.
pub detect-identity :
    (lower : Text → Text) (opportunity_id : ℕ) (b : Booking) (r : CheckResult)
    (s : SavingsOpportunity)
    → detect_savings lower opportunity_id b r ≡ ok (Detection.saving s)
    → s.opportunity_id ≡ opportunity_id
unfolding detect_savings decide detect_from
detect-identity lower opportunity_id b r s h = from r.outcome r.live_price h
  where
    decided :
        (o : Option RejectionReason) (live : Money)
        → decide o (compare_prices opportunity_id b r live) ≡ Detection.saving s
        → s.opportunity_id ≡ opportunity_id
    decided none live k = compare-identity opportunity_id b r live s k
    decided (some reason) live k = cc

    from :
        (outcome : CheckOutcome) (price : Option Money)
        → detect_from outcome price (λ live.
          decide (evaluate_equivalence lower b r) (compare_prices opportunity_id b r live))
          ≡ ok (Detection.saving s)
        → s.opportunity_id ≡ opportunity_id
    from CheckOutcome.failure price k = cc
    from CheckOutcome.success none k = cc
    from CheckOutcome.success (some live) k =
        decided (evaluate_equivalence lower b r) live (ok-injective k)

-- A well-formed successful check is decided.
pub detect-returns :
    (lower : Text → Text) (opportunity_id : ℕ) (b : Booking) (r : CheckResult)
    → check_result r ≡ ok tt
    → is_success r.outcome ≡ true
    → (d : Detection) × (detect_savings lower opportunity_id b r ≡ ok d)
unfolding check_result detect_savings detect_from
detect-returns lower opportunity_id b r h k = elim (Option-cases r.live_price) [
  | inl e ↦ ground (arith, h, k, e)
  | inr (live, e) ↦ (
    decide (evaluate_equivalence lower b r) (compare_prices opportunity_id b r live),
    ground (arith, k, e),
  )
]

pub failure-undetected :
    (lower : Text → Text) (opportunity_id : ℕ) (b : Booking) (r : CheckResult)
    (s : SavingsOpportunity)
    → is_success r.outcome ≡ false
    → detect_savings lower opportunity_id b r ≢ ok (Detection.saving s)
unfolding detect_savings detect_from
failure-undetected lower opportunity_id b r s h e = ground (arith, h, e)

pub absent :
    (n : ℕ) (rows : List SavingsOpportunity)
    → All (λ row. row.opportunity_id ≢ n) rows
    → any (λ row. row.opportunity_id == n) rows ≡ false
absent n [] h = refl
absent n (row ∷ rows) h = ground (arith, h.0, absent n rows h.1)

pub added :
    (s : SavingsOpportunity) (rows : List SavingsOpportunity)
    → All (λ row. row.opportunity_id ≢ s.opportunity_id) rows
    → add s rows ≡ ok (rows ++ (s ∷ []))
unfolding add
added s rows h = let new = absent s.opportunity_id rows h in ground (arith, new)

-- Only the row that was added last is marked.
pub mark-last :
    (at : ℕ) (rows : List SavingsOpportunity) (s : SavingsOpportunity)
    → All (λ row. row.opportunity_id ≢ s.opportunity_id) rows
    → mark_notified s.opportunity_id at (rows ++ (s ∷ [])) ≡ rows ++ (with_notified_at at s ∷ [])
unfolding mark_notified
mark-last at [] s h = ground arith
mark-last at (row ∷ rows) s h = let ih = mark-last at rows s h.1 in ground (arith, ih, h.0)
