-- ===== src/Offer/Tests.antt =====
-- The theorems on offers at two candidates for one reservation.
use mathlib.Core.List.{Memᴰ}
use booksaver_agent.Base.{
  ℕ, ◌≡◌, ◌≢◌, ◌↔◌, refl, true, false, inl, inr, none, some, [], ◌∷◌, All, arith,
}
use booksaver_agent.Base.Text.{text_eq}
use booksaver_agent.Booking.{Money, Booking}
use booksaver_agent.Offer.MealPlan.{MealPlan, Clause, classify_clauses, at_least}
use booksaver_agent.Offer.MealPlan.Laws.{IsDenial, classify_clauses-none}
use booksaver_agent.Offer.Select.{
  OfferCandidate, match_confidence_threshold, exclusion_for, exclude_room, exclude_meals,
  exclude_currency, place, partition, cheaper, cheapest_from, cheapest, select_offer,
  currency_mismatches,
}
use booksaver_agent.Offer.Select.Laws.{
  IsBest, select_offer-IsBest, select_offer-some, currency_mismatches_iff,
}
use booksaver_agent.Offer.Select.Exclusion.{IsEquivalent, exclusion_for-none}

abbrev euros : ℕ → Money
euros n = record { amount = n; currency = 69 ∷ 85 ∷ 82 ∷ [] }

abbrev booked : Booking
booked = record {
  booking_id = 1;
  property_name = 65 ∷ [];
  check_in = 10;
  check_out = 12;
  room_label = 66 ∷ [];
  baseline_price = euros 100;
  meal_plan = MealPlan.breakfast;
}

abbrev candidate : ℕ → OfferCandidate
candidate n = record {
  room_label = 66 ∷ [];
  total = euros n;
  is_refundable = some true;
  cancellation_text = none;
  matches_room = true;
  match_confidence = match_confidence_threshold;
  meal_plan = MealPlan.half_board;
}

candidate-IsEquivalent : (n : ℕ) → IsEquivalent (candidate n) booked
unfolding at_least match_confidence_threshold
candidate-IsEquivalent n = record {
  refundable = refl;
  room = refl;
  confident = omega arith;
  meals = inr (inr refl);
}

chosen : (select_offer (candidate 90 ∷ candidate 80 ∷ []) booked).chosen ≡ some (candidate 80)
unfolding select_offer partition place cheapest cheapest_from cheaper exclusion_for exclude_room
    exclude_meals exclude_currency text_eq at_least match_confidence_threshold
chosen = refl

select_offer-IsBest_example : IsBest booked (candidate 90 ∷ candidate 80 ∷ []) (candidate 80)
select_offer-IsBest_example =
    select_offer-IsBest (candidate 90 ∷ candidate 80 ∷ []) booked (candidate 80) chosen

select_offer-some_example :
    (best : OfferCandidate) × ((select_offer (candidate 90 ∷ candidate 80 ∷ []) booked).chosen
      ≡ some best)
select_offer-some_example =
    select_offer-some (candidate 90 ∷ candidate 80 ∷ []) booked (candidate 90) (Memᴰ.head refl)
      (candidate-IsEquivalent 90) refl

exclusion_for-none_example : (exclusion_for (candidate 90) booked ≡ none) ↔ (
    IsEquivalent (candidate 90) booked
    × ((candidate 90).total.currency ≡ booked.baseline_price.currency))
exclusion_for-none_example = exclusion_for-none (candidate 90) booked

-- The same offer in pounds, which the selection excludes for its currency only.
abbrev in_pounds : OfferCandidate
in_pounds = record (candidate 90) { total = record { amount = 80; currency = 71 ∷ 66 ∷ 80 ∷ [] } }

in_pounds_listed :
    currency_mismatches (select_offer (candidate 90 ∷ in_pounds ∷ []) booked).excluded
    ≡ in_pounds ∷ []
unfolding currency_mismatches select_offer partition place exclusion_for exclude_room exclude_meals
    exclude_currency at_least match_confidence_threshold text_eq
in_pounds_listed = refl

currency_mismatches_iff_example :
    Memᴰ in_pounds
      (currency_mismatches (select_offer (candidate 90 ∷ in_pounds ∷ []) booked).excluded)
    ↔ (Memᴰ in_pounds (candidate 90 ∷ in_pounds ∷ [])
        × IsEquivalent in_pounds booked
        × (in_pounds.total.currency ≢ booked.baseline_price.currency))
currency_mismatches_iff_example =
    currency_mismatches_iff (candidate 90 ∷ in_pounds ∷ []) booked in_pounds

-- "breakfast not included"
abbrev no_breakfast : Clause
no_breakfast = record {
  named = none;
  breakfast = true;
  lunch = false;
  dinner = false;
  says_included = true;
  extra = false;
  negated = true;
  priced = false;
}

classify_clauses-none_example :
    (classify_clauses (no_breakfast ∷ []) ≡ MealPlan.none_included)
    ↔ ((no_breakfast ∷ [] ≢ []) × All IsDenial (no_breakfast ∷ []))
classify_clauses-none_example = classify_clauses-none (no_breakfast ∷ []) (inl refl, tt)
