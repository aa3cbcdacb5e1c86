-- ===== src/Offer/Select.antt =====
-- The choice of an offer (src/booksaver/domain/offer.py). A confidence is a number of the least
-- positive double, 2^-1074, of which every double that is not negative is a multiple.
pub mod Exclusion
pub mod Laws
use booksaver_agent.Base.{
  ℕ, suc, ◌^◌, ◌≡◌, refl, Bool, true, false, not, ◌&&◌, ◌||◌, Option, none, some, List, [], ◌∷◌,
  leb, ltb, ◌==◌, if◌then◌else◌,
}
use booksaver_agent.Base.Text.{Text, text_eq, strip}
use booksaver_agent.Booking.{Money, Booking}
use booksaver_agent.Offer.MealPlan.{MealPlan, at_least}

pub data ExclusionReason : Type 0 where
  not_refundable refundability_unknown room_mismatch low_match_confidence : ExclusionReason
  currency_mismatch meal_plan_worse meal_plan_unknown : ExclusionReason

-- `MATCH_CONFIDENCE_THRESHOLD`, 0.5
unfoldable pub match_confidence_threshold : ℕ
match_confidence_threshold = 2 ^ 1073

pub record OfferCandidate : Type 0 where
  pub room_label : Text
  pub total : Money
  pub is_refundable : Option Bool
  pub cancellation_text : Option Text
  pub matches_room : Bool
  pub match_confidence : ℕ
  pub meal_plan : MealPlan

pub record OfferSelection : Type 0 where
  pub chosen : Option OfferCandidate
  pub excluded : List (OfferCandidate × ExclusionReason)

-- `meal_plan in (MealPlan.UNKNOWN, MealPlan.NONE)`
abbrev pub is_unconstrained : MealPlan → Bool
is_unconstrained MealPlan.unknown = true
is_unconstrained MealPlan.none_included = true
is_unconstrained _ = false

abbrev pub is_unknown : MealPlan → Bool
is_unknown MealPlan.unknown = true
is_unknown _ = false

unfoldable pub exclude_currency : OfferCandidate → Booking → Option ExclusionReason
exclude_currency c b =
    if text_eq c.total.currency b.baseline_price.currency
    then none
    else some ExclusionReason.currency_mismatch

unfoldable pub exclude_meals : OfferCandidate → Booking → Option ExclusionReason
unfolding exclude_currency
exclude_meals c b =
    if is_unconstrained b.meal_plan
    then exclude_currency c b
    else if is_unknown c.meal_plan
    then some ExclusionReason.meal_plan_unknown
    else if at_least c.meal_plan b.meal_plan
    then exclude_currency c b
    else some ExclusionReason.meal_plan_worse

unfoldable pub exclude_room : OfferCandidate → Booking → Option ExclusionReason
unfolding exclude_meals
exclude_room c b =
    if not c.matches_room
    then some ExclusionReason.room_mismatch
    else if ltb c.match_confidence match_confidence_threshold
    then some ExclusionReason.low_match_confidence
    else exclude_meals c b

-- `_exclusion_for`
unfoldable pub exclusion_for : OfferCandidate → Booking → Option ExclusionReason
unfolding exclude_room
exclusion_for c b = elim c.is_refundable [
  | none ↦ some ExclusionReason.refundability_unknown
  | some refundable ↦ if refundable then exclude_room c b else some ExclusionReason.not_refundable
]

-- One turn of the loop: a candidate survives, or is kept with its reason.
unfoldable pub place :
    OfferCandidate
    → Option ExclusionReason
    → List OfferCandidate × List (OfferCandidate × ExclusionReason)
    → List OfferCandidate × List (OfferCandidate × ExclusionReason)
place c none (surviving, excluded) = (c ∷ surviving, excluded)
place c (some reason) (surviving, excluded) = (surviving, (c, reason) ∷ excluded)

-- The loop: the survivors, and the others with their reasons.
unfoldable pub partition :
    Booking → List OfferCandidate → List OfferCandidate × List (OfferCandidate × ExclusionReason)
partition b [] = ([], [])
partition b (c ∷ candidates) = place c (exclusion_for c b) (partition b candidates)

-- `min(surviving, key=…)`: the first of the least.
unfoldable pub cheaper : OfferCandidate → OfferCandidate → OfferCandidate
cheaper best c = if ltb c.total.amount best.total.amount then c else best

unfoldable pub cheapest_from : OfferCandidate → List OfferCandidate → OfferCandidate
cheapest_from best [] = best
cheapest_from best (c ∷ candidates) = cheapest_from (cheaper best c) candidates

unfoldable pub cheapest : List OfferCandidate → Option OfferCandidate
unfolding cheapest_from
cheapest [] = none
cheapest (c ∷ candidates) = some (cheapest_from c candidates)

unfoldable pub select_offer : List OfferCandidate → Booking → OfferSelection
select_offer candidates b =
    let (surviving, excluded) = partition b candidates in
    record { chosen = cheapest surviving; excluded = excluded }

-- `OfferSelection.currency_mismatches`
abbrev pub is_currency_mismatch : ExclusionReason → Bool
is_currency_mismatch ExclusionReason.currency_mismatch = true
is_currency_mismatch _ = false

unfoldable pub currency_mismatches : List (OfferCandidate × ExclusionReason) → List OfferCandidate
currency_mismatches [] = []
currency_mismatches ((c, reason) ∷ excluded) =
    let rest = currency_mismatches excluded in
    if is_currency_mismatch reason then c ∷ rest else rest
