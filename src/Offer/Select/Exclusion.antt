-- ===== src/Offer/Select/Exclusion.antt =====
-- Why an offer is set aside (`_exclusion_for` of src/booksaver/domain/offer.py), and where each goes.
use mathlib.Core.List.{Memᴰ}
use mathlib.Core.Option.{none-ne-some}
use booksaver_agent.Base.{
  ◌≤◌, ◌≡◌, ◌≢◌, ◌↔◌, refl, sym, ◌⊎◌, true, Option, none, some, List, [], ◌∷◌, arith, All,
}
use booksaver_agent.Base.Pairs.{All-weaken}
use booksaver_agent.Base.Text.{text_eq_iff}
use booksaver_agent.Booking.{Booking}
use booksaver_agent.Offer.MealPlan.{MealPlan, at_least}
use booksaver_agent.Offer.Select.{
  ExclusionReason, OfferCandidate, match_confidence_threshold, exclusion_for, partition, place,
}

-- Meals at least as good as the booked ones, where those are known to be included.
abbrev pub CoversMeals : OfferCandidate → Booking → Type 0
CoversMeals c b =
    (b.meal_plan ≡ MealPlan.unknown)
    ⊎ ((b.meal_plan ≡ MealPlan.none_included) ⊎ (at_least c.meal_plan b.meal_plan ≡ true))

-- What it takes to be equivalent to the reservation, apart from the currency.
pub record IsEquivalent (c : OfferCandidate) (b : Booking) : Type 0 where
  pub refundable : c.is_refundable ≡ some true
  pub room : c.matches_room ≡ true
  pub confident : match_confidence_threshold ≤ c.match_confidence
  pub meals : CoversMeals c b

-- An offer passes exactly when it is equivalent to the reservation and shown in its currency.
pub exclusion_for-none :
    (c : OfferCandidate) (b : Booking)
    → (exclusion_for c b ≡ none)
      ↔ (IsEquivalent c b × (c.total.currency ≡ b.baseline_price.currency))
unfolding exclusion_for at_least
exclusion_for-none c b =
    let same = text_eq_iff c.total.currency b.baseline_price.currency in
    (λ h. ground (arith, same), λ k. ground (arith, same))

-- An offer is set aside for its currency exactly when it is equivalent and in another one.
pub exclusion_for-currency :
    (c : OfferCandidate) (b : Booking)
    → (exclusion_for c b ≡ some ExclusionReason.currency_mismatch)
      ↔ (IsEquivalent c b × (c.total.currency ≢ b.baseline_price.currency))
unfolding exclusion_for at_least
exclusion_for-currency c b =
    let same = text_eq_iff c.total.currency b.baseline_price.currency in
    (λ h. ground (arith, same), λ k. ground (arith, same))

-- A candidate that survives has no reason against it.
pub partition-surviving :
    (b : Booking) (candidates : List OfferCandidate)
    → All (λ c. exclusion_for c b ≡ none) (partition b candidates).0
unfolding partition place
partition-surviving b [] = tt
partition-surviving b (c ∷ candidates) =
    go (exclusion_for c b) (partition b candidates) refl (partition-surviving b candidates)
  where
    go :
        (o : Option ExclusionReason)
        (p : List OfferCandidate × List (OfferCandidate × ExclusionReason))
        → exclusion_for c b ≡ o
        → All (λ c'. exclusion_for c' b ≡ none) p.0
        → All (λ c'. exclusion_for c' b ≡ none) (place c o p).0
    go none (s, x) e h = (e, h)
    go (some reason) (s, x) e h = h

-- Every candidate that passes is among the survivors, and every survivor is a candidate.
pub partition-mem :
    (b : Booking) (candidates : List OfferCandidate)
    → All (λ c. exclusion_for c b ≡ none → Memᴰ c (partition b candidates).0) candidates
unfolding partition place
partition-mem b [] = tt
partition-mem b (c ∷ candidates) = (
  first (exclusion_for c b) (partition b candidates),
  All-weaken (λ c'. exclusion_for c' b ≡ none → Memᴰ c' (partition b candidates).0)
      (λ c'.
        exclusion_for c' b ≡ none
        → Memᴰ c' (place c (exclusion_for c b) (partition b candidates)).0)
      candidates (λ c' h e. later c' (exclusion_for c b) (partition b candidates) (h e))
      (partition-mem b candidates),
)
  where
    first :
        (o : Option ExclusionReason)
        (p : List OfferCandidate × List (OfferCandidate × ExclusionReason))
        → o ≡ none
        → Memᴰ c (place c o p).0
    first none (s, x) e = Memᴰ.head refl
    first (some reason) (s, x) e = absurd (none-ne-some reason (sym e))

    later :
        (c' : OfferCandidate) (o : Option ExclusionReason)
        (p : List OfferCandidate × List (OfferCandidate × ExclusionReason))
        → Memᴰ c' p.0
        → Memᴰ c' (place c o p).0
    later c' none (s, x) m = Memᴰ.tail m
    later c' (some reason) (s, x) m = m

pub partition_from :
    (b : Booking) (candidates : List OfferCandidate) (c : OfferCandidate)
    → Memᴰ c (partition b candidates).0
    → Memᴰ c candidates
unfolding partition place
partition_from b [] c m = m
partition_from b (c' ∷ candidates) c m =
    go (exclusion_for c' b) (partition b candidates) m (partition_from b candidates c)
  where
    go :
        (o : Option ExclusionReason)
        (p : List OfferCandidate × List (OfferCandidate × ExclusionReason))
        → Memᴰ c (place c' o p).0
        → (Memᴰ c p.0 → Memᴰ c candidates)
        → Memᴰ c (c' ∷ candidates)
    go none (s, x) (Memᴰ.head e) f = Memᴰ.head e
    go none (s, x) (Memᴰ.tail n) f = Memᴰ.tail (f n)
    go (some reason) (s, x) n f = Memᴰ.tail (f n)
