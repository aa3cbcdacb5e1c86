-- ===== src/Offer/Select/Laws.antt =====
-- What `select_offer` (src/booksaver/domain/offer.py) chooses, and why the others are excluded.
use mathlib.Core.Path.{subst, ◌∙◌}
use mathlib.Core.List.{Memᴰ}
use mathlib.Core.Option.{none-ne-some, some-injective}
use booksaver_agent.Base.{
  ◌≤◌, ◌≡◌, ◌≢◌, ◌↔◌, refl, ap, sym, ◌⊎◌, inl, inr, Option, true, false, none, some, List, [], ◌∷◌,
  ltb, arith, All, Bool-cases,
}
use booksaver_agent.Base.Pairs.{All-mem, All-weaken}
use booksaver_agent.Booking.{Booking}
use booksaver_agent.Offer.Select.{
  ExclusionReason, OfferCandidate, exclusion_for, partition, cheaper, cheapest_from, cheapest,
  select_offer, currency_mismatches, place, is_currency_mismatch,
}
use booksaver_agent.Offer.Select.Exclusion.{
  IsEquivalent, exclusion_for-none, exclusion_for-currency, partition-surviving, partition-mem,
  partition_from,
}

abbrev IsLeast : OfferCandidate → OfferCandidate → Type 0
IsLeast least c = least.total.amount ≤ c.total.amount

cheapest_from-IsLeast :
    (best : OfferCandidate) (candidates : List OfferCandidate)
    → IsLeast (cheapest_from best candidates) best
      × All (IsLeast (cheapest_from best candidates)) candidates
unfolding cheapest_from cheaper
cheapest_from-IsLeast best [] = (omega arith, tt)
cheapest_from-IsLeast best (c ∷ candidates) =
    let (first, others) = cheapest_from-IsLeast (cheaper best c) candidates in
    (ground (arith, first), (ground (arith, first), others))

cheapest_from-mem :
    (best : OfferCandidate) (candidates : List OfferCandidate)
    → Memᴰ (cheapest_from best candidates) (best ∷ candidates)
unfolding cheapest_from cheaper
cheapest_from-mem best [] = Memᴰ.head refl
cheapest_from-mem best (c ∷ candidates) = elim (cheapest_from-mem (cheaper best c) candidates) [
  | Memᴰ.head p ↦ elim (either best c) [
    | inl e ↦ Memᴰ.head (p ∙ e)
    | inr e ↦ Memᴰ.tail (Memᴰ.head (p ∙ e))
  ]
  | Memᴰ.tail m ↦ Memᴰ.tail (Memᴰ.tail m)
]
  where
    either : (x y : OfferCandidate) → (cheaper x y ≡ x) ⊎ (cheaper x y ≡ y)
    either x y = elim (Bool-cases (ltb y.total.amount x.total.amount)) [
      | inl e ↦ inr (rw e refl)
      | inr e ↦ inl (rw e refl)
    ]

-- Of a list of survivors, the chosen one.
cheapest-IsLeast :
    (surviving : List OfferCandidate) (c : OfferCandidate)
    → cheapest surviving ≡ some c
    → Memᴰ c surviving × All (IsLeast c) surviving
unfolding cheapest
cheapest-IsLeast [] c h = absurd (none-ne-some c h)
cheapest-IsLeast (c' ∷ rest) c h =
    let same = some-injective (cheapest_from c' rest) c h in
    (
      subst (λ x. Memᴰ x (c' ∷ rest)) same (cheapest_from-mem c' rest),
      subst (λ x. All (IsLeast x) (c' ∷ rest)) same (cheapest_from-IsLeast c' rest),
    )

-- What `select_offer` promises of the offer that it chooses.
pub record IsBest (b : Booking) (candidates : List OfferCandidate) (c : OfferCandidate)
    : Type 0 where
  pub offered : Memᴰ c candidates
  pub equivalent : IsEquivalent c b
  pub same_currency : c.total.currency ≡ b.baseline_price.currency
  pub least :
      All
        (λ other.
          IsEquivalent other b
          → other.total.currency ≡ b.baseline_price.currency
          → c.total.amount ≤ other.total.amount)
        candidates

-- The offer that `select_offer` chooses is one of the candidates, is equivalent to the reservation
-- and in its currency, and no candidate that is both has a lower total.
pub select_offer-IsBest :
    (candidates : List OfferCandidate) (b : Booking) (c : OfferCandidate)
    → (select_offer candidates b).chosen ≡ some c
    → IsBest b candidates c
unfolding select_offer
select_offer-IsBest candidates b c h =
    let (member, least) = cheapest-IsLeast (partition b candidates).0 c h in
    let passes =
      All-mem (λ x. exclusion_for x b ≡ none) (partition b candidates).0
        (partition-surviving b candidates) member in
    let (equivalent, same) = (exclusion_for-none c b).0 passes in
    record {
      offered = partition_from b candidates c member;
      equivalent = equivalent;
      same_currency = same;
      least =
          All-weaken (λ x. exclusion_for x b ≡ none → Memᴰ x (partition b candidates).0)
            (λ x.
              IsEquivalent x b
              → x.total.currency ≡ b.baseline_price.currency
              → c.total.amount ≤ x.total.amount)
            candidates
            (λ x mem e same.
              All-mem (IsLeast c) (partition b candidates).0 least
                (mem ((exclusion_for-none x b).1 (e, same))))
            (partition-mem b candidates);
    }

cheapest-some :
    (surviving : List OfferCandidate) (c : OfferCandidate)
    → Memᴰ c surviving
    → (best : OfferCandidate) × (cheapest surviving ≡ some best)
unfolding cheapest
cheapest-some [] c m = elim m [ ]
cheapest-some (c' ∷ rest) c m = (cheapest_from c' rest, refl)

-- Where a candidate is equivalent to the reservation and in its currency, `select_offer` chooses an
-- offer.
pub select_offer-some :
    (candidates : List OfferCandidate) (b : Booking) (c : OfferCandidate)
    → Memᴰ c candidates
    → IsEquivalent c b
    → c.total.currency ≡ b.baseline_price.currency
    → (best : OfferCandidate) × ((select_offer candidates b).chosen ≡ some best)
unfolding select_offer
select_offer-some candidates b c m e same = cheapest-some (partition b candidates).0 c (
    All-mem (λ x. exclusion_for x b ≡ none → Memᴰ x (partition b candidates).0) candidates
      (partition-mem b candidates) m ((exclusion_for-none c b).1 (e, same)))

is_currency_mismatch-eq :
    (reason : ExclusionReason)
    → is_currency_mismatch reason ≡ true
    → reason ≡ ExclusionReason.currency_mismatch
is_currency_mismatch-eq reason e = ground (arith, e)

not_currency_mismatch :
    (reason : ExclusionReason)
    → is_currency_mismatch reason ≡ false
    → some reason ≢ some ExclusionReason.currency_mismatch
not_currency_mismatch reason e h = ground (arith, e, h)

-- What `currency_mismatches` keeps of one more turn of the loop.
currency_mismatches-place :
    (c c' : OfferCandidate) (o : Option ExclusionReason)
    (p : List OfferCandidate × List (OfferCandidate × ExclusionReason))
    → Memᴰ c (currency_mismatches (place c' o p).1) ↔ (
        ((c ≡ c') × (o ≡ some ExclusionReason.currency_mismatch))
        ⊎ Memᴰ c (currency_mismatches p.1))
unfolding currency_mismatches place
currency_mismatches-place c c' none (s, x) =
    (λ m. inr m, λ k. elim k [ inl e ↦ cc (e.1) | inr m ↦ m ])
currency_mismatches-place c c' (some reason) (s, x) =
    elim (Bool-cases (is_currency_mismatch reason)) [
      | inl e ↦
          let same = is_currency_mismatch-eq reason e in
          rw e (
            λ m. elim m [ Memᴰ.head p ↦ inl (p, ap some same) | Memᴰ.tail n ↦ inr n ],
            λ k. elim k [ inl p ↦ Memᴰ.head p.0 | inr n ↦ Memᴰ.tail n ],
          )
      | inr e ↦ rw e (
        λ m. inr m,
        λ k. elim k [ inl p ↦ absurd (not_currency_mismatch reason e p.1) | inr n ↦ n ],
      )
    ]

-- The offers that `currency_mismatches` lists are exactly the candidates that are equivalent to the
-- reservation and are not in its currency.
pub currency_mismatches_iff :
    (candidates : List OfferCandidate) (b : Booking) (c : OfferCandidate)
    → Memᴰ c (currency_mismatches (select_offer candidates b).excluded)
      ↔ (Memᴰ c candidates × IsEquivalent c b × (c.total.currency ≢ b.baseline_price.currency))
unfolding select_offer partition currency_mismatches
currency_mismatches_iff [] b c = (λ m. elim m [ ], λ k. elim k.0 [ ])
currency_mismatches_iff (c' ∷ rest) b c =
    let step = currency_mismatches-place c c' (exclusion_for c' b) (partition b rest) in
    let (found, kept) = currency_mismatches_iff rest b c in
    let (differs, marked) = exclusion_for-currency c' b in
    (
      λ m. elim (step.0 m) [
        | inl (same, e) ↦ (
          Memᴰ.head same,
          subst (λ x. IsEquivalent x b) (sym same) (differs e).0,
          subst (λ x. x.total.currency ≢ b.baseline_price.currency) (sym same) (differs e).1,
        )
        | inr n ↦ let (k, equivalent, other) = found n in (Memᴰ.tail k, equivalent, other)
      ],
      λ (m, equivalent, other). step.1 (elim m [
        | Memᴰ.head same ↦ inl (
          same,
          marked (
            subst (λ x. IsEquivalent x b) same equivalent,
            subst (λ x. x.total.currency ≢ b.baseline_price.currency) same other,
          ),
        )
        | Memᴰ.tail n ↦ inr (kept (n, equivalent, other))
      ]),
    )
