-- ===== src/Monitor/Failures.antt =====
-- The warning after repeated failures (src/booksaver/monitor/failure_tracker.py). The number of
-- consecutive failures comes from the check history, which is a parameter.
use booksaver_agent.Base.{
  ℕ, ◌≡◌, ◌≢◌, ◌↔◌, ◌≤◌, Bool, true, false, not, ◌&&◌, ◌||◌, List, [], ◌∷◌, ltb, leb, ◌==◌,
  if◌then◌else◌, any, filter, inl, inr, Result, ok, value_error, raise_if, ◌>>◌, arith, Bool-cases,
}

pub record FailureTracker : Type 0 where
  pub threshold : ℕ
  pub warned : List ℕ

unfoldable pub default_failure_threshold : ℕ
default_failure_threshold = 3

-- `FailureTracker.__init__`
unfoldable pub new_tracker : ℕ → Result FailureTracker
new_tracker threshold =
    raise_if (ltb threshold 1) value_error >> ok (record { threshold = threshold; warned = [] })

abbrev pub is_warned : ℕ → FailureTracker → Bool
is_warned booking_id tracker = any (λ w. booking_id == w) tracker.warned

-- `after_check`; the Boolean tells whether a warning was emitted.
unfoldable pub after_check : (ℕ → ℕ) → ℕ → Bool → FailureTracker → FailureTracker × Bool
after_check count_consecutive_failures booking_id succeeded tracker =
    if succeeded
    then (record tracker { warned = filter (λ w. not (booking_id == w)) tracker.warned }, false)
    else if leb tracker.threshold (count_consecutive_failures booking_id)
        && not (is_warned booking_id tracker)
    then (record tracker { warned = booking_id ∷ tracker.warned }, true)
    else (tracker, false)

discarded :
    (booking_id other : ℕ) (warned : List ℕ)
    → any (λ w. other == w) (filter (λ w. not (booking_id == w)) warned)
      ≡ (not (booking_id == other) && any (λ w. other == w) warned)
discarded booking_id other [] = ground arith
discarded booking_id other (w ∷ warned) =
    let ih = discarded booking_id other warned in
    elim (Bool-cases (booking_id == w)) [
      | inl e ↦ rw e (ground (arith, ih, e))
      | inr e ↦ rw e (ground (arith, ih, e))
    ]

-- A warning is emitted exactly for a failed check that reaches the threshold of a booking that has
-- not been warned of since its last success; after it the booking counts as warned of, and after a
-- success it does not. No other booking is affected.
pub after_check_lem :
    (failures : ℕ → ℕ) (booking_id : ℕ) (succeeded : Bool) (tracker : FailureTracker)
    → (((after_check failures booking_id succeeded tracker).1 ≡ true) ↔ (
        (succeeded ≡ false)
        × (tracker.threshold ≤ failures booking_id)
        × (is_warned booking_id tracker ≡ false)))
      × (is_warned booking_id (after_check failures booking_id succeeded tracker).0 ≡ (
          not succeeded
          && (is_warned booking_id tracker || leb tracker.threshold (failures booking_id))))
      × ((other : ℕ)
          → other ≢ booking_id
          → is_warned other (after_check failures booking_id succeeded tracker).0
            ≡ is_warned other tracker)
unfolding after_check
after_check_lem failures booking_id succeeded tracker =
    let own = discarded booking_id booking_id tracker.warned in
    (
      ground (arith),
      ground (arith, own),
      λ other h. let kept = discarded booking_id other tracker.warned in ground (arith, kept, h),
    )
