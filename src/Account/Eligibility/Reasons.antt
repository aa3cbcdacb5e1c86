-- ===== src/Account/Eligibility/Reasons.antt =====
-- The reasons of `evaluate_eligibility` (src/booksaver/domain/account_sync.py), under any test of them.
use booksaver_agent.Base.{
  ℕ, ◌≡◌, sym, ◌↔◌, refl, Bool, true, false, not, ◌&&◌, ◌||◌, Option, none, some, List, [], ◌∷◌,
  ◌++◌, all, is_none, ◌∙◌, ap,
}
use booksaver_agent.Account.Eligibility.{
  ReservationLifecycle, EligibilityReason, ReservationObservation, is_missing, has_ended,
  reason_number, append_if, append_once, lifecycle_reasons, ended_reasons, refund_reasons,
  eligibility_reasons,
}

and_true : (a : Bool) → (a && true) ≡ a
and_true true = refl
and_true false = refl

and_assoc : (a b c : Bool) → (a && (b && c)) ≡ ((a && b) && c)
and_assoc true b c = refl
and_assoc false b c = refl

and_same : (a : Bool) → (a && true) ≡ ((a && true) && a)
and_same true = refl
and_same false = refl

all-append_one :
    (p : EligibilityReason → Bool) (reason : EligibilityReason) (reasons : List EligibilityReason)
    → all p (reasons ++ reason ∷ []) ≡ (all p reasons && p reason)
all-append_one p reason [] = and_true (p reason)
all-append_one p reason (r ∷ reasons) =
    ap (λ b. p r && b) (all-append_one p reason reasons)
    ∙ and_assoc (p r) (all p reasons) (p reason)

-- The list of reasons passes a test when each check that fails has a reason that passes it.
all-append_if :
    (p : EligibilityReason → Bool) (c : Bool) (reason : EligibilityReason)
    (reasons : List EligibilityReason)
    → all p (append_if c reason reasons) ≡ (all p reasons && (not c || p reason))
unfolding append_if
all-append_if p true reason reasons = all-append_one p reason reasons
all-append_if p false reason reasons = sym (and_true (all p reasons))

all-ended :
    (p : EligibilityReason → Bool) (ended : Bool) (life : ReservationLifecycle)
    → all p (ended_reasons ended (lifecycle_reasons life))
      ≡ (all p (lifecycle_reasons life) && (not ended || p EligibilityReason.past_or_completed))
unfolding ended_reasons append_once append_if lifecycle_reasons reason_number
all-ended p false life = sym (and_true (all p (lifecycle_reasons life)))
all-ended p true ReservationLifecycle.upcoming = and_true (p EligibilityReason.past_or_completed)
all-ended p true ReservationLifecycle.current =
    all-append_one p EligibilityReason.past_or_completed (EligibilityReason.not_upcoming ∷ [])
all-ended p true ReservationLifecycle.completed = and_same (p EligibilityReason.past_or_completed)
all-ended p true ReservationLifecycle.cancelled =
    all-append_one p EligibilityReason.past_or_completed (EligibilityReason.cancelled ∷ [])
all-ended p true ReservationLifecycle.unknown =
    all-append_one p EligibilityReason.past_or_completed (EligibilityReason.not_upcoming ∷ [])
all-ended p true ReservationLifecycle.absent =
    all-append_one p EligibilityReason.past_or_completed (EligibilityReason.not_observed ∷ [])

-- The refund check alone has two reasons.
abbrev refund_passes : (EligibilityReason → Bool) → Option Bool → Bool
refund_passes p (some true) = true
refund_passes p (some false) = p EligibilityReason.non_refundable
refund_passes p none = p EligibilityReason.refundability_unknown

all-refund :
    (p : EligibilityReason → Bool) (refundable : Option Bool) (reasons : List EligibilityReason)
    → all p (refund_reasons refundable reasons) ≡ (all p reasons && refund_passes p refundable)
unfolding refund_reasons append_if
all-refund p (some true) reasons = sym (and_true (all p reasons))
all-refund p (some false) reasons = all-append_one p EligibilityReason.non_refundable reasons
all-refund p none reasons = all-append_one p EligibilityReason.refundability_unknown reasons

-- Each check of `evaluate_eligibility` passes, or its reason passes a test.
pub record Passes (p : EligibilityReason → Bool) (o : ReservationObservation) (today : ℕ)
    : Type 0 where
  pub lifecycle : all p (lifecycle_reasons o.lifecycle) ≡ true
  pub stay : (not (has_ended o.check_out today) || p EligibilityReason.past_or_completed) ≡ true
  pub refund : refund_passes p o.refundable ≡ true
  pub confirmation :
      (not (is_missing o.confirmation_id) || p EligibilityReason.missing_confirmation) ≡ true
  pub property :
      (not (is_missing o.property_name || is_missing o.property_ref)
        || p EligibilityReason.missing_property)
      ≡ true
  pub dates :
      (not (is_none o.check_in || is_none o.check_out) || p EligibilityReason.missing_stay_dates)
      ≡ true
  pub room : (not (is_missing o.room_type) || p EligibilityReason.missing_room_type) ≡ true
  pub guests : (not (is_none o.occupancy) || p EligibilityReason.missing_occupancy) ≡ true
  pub total : (not (is_none o.booked_total) || p EligibilityReason.missing_booked_total) ≡ true

and_split : (a b : Bool) → (a && b) ≡ true → (a ≡ true) × (b ≡ true)
and_split true b h = (refl, h)
and_split false b h = cc

split_if :
    (p : EligibilityReason → Bool) (c : Bool) (reason : EligibilityReason)
    (reasons : List EligibilityReason)
    → all p (append_if c reason reasons) ≡ true
    → (all p reasons ≡ true) × ((not c || p reason) ≡ true)
split_if p c reason reasons h =
    and_split (all p reasons) (not c || p reason) (sym (all-append_if p c reason reasons) ∙ h)

join_if :
    (p : EligibilityReason → Bool) (c : Bool) (reason : EligibilityReason)
    (reasons : List EligibilityReason)
    → all p reasons ≡ true
    → (not c || p reason) ≡ true
    → all p (append_if c reason reasons) ≡ true
join_if p c reason reasons h k =
    all-append_if p c reason reasons ∙ ap (λ a. a && (not c || p reason)) h ∙ k

-- The reasons pass a test exactly when each check passes or its own reason does.
pub all-reasons :
    (p : EligibilityReason → Bool) (o : ReservationObservation) (today : ℕ)
    → (all p (eligibility_reasons o today) ≡ true) ↔ Passes p o today
unfolding eligibility_reasons
all-reasons p o today = (apart, together)
  where
    ended : List EligibilityReason
    ended = ended_reasons (has_ended o.check_out today) (lifecycle_reasons o.lifecycle)

    refunded : List EligibilityReason
    refunded = refund_reasons o.refundable ended

    confirmed : List EligibilityReason
    confirmed =
        append_if (is_missing o.confirmation_id) EligibilityReason.missing_confirmation refunded

    named : List EligibilityReason
    named =
        append_if (is_missing o.property_name || is_missing o.property_ref)
          EligibilityReason.missing_property confirmed

    dated : List EligibilityReason
    dated =
        append_if (is_none o.check_in || is_none o.check_out) EligibilityReason.missing_stay_dates
          named

    roomed : List EligibilityReason
    roomed = append_if (is_missing o.room_type) EligibilityReason.missing_room_type dated

    occupied : List EligibilityReason
    occupied = append_if (is_none o.occupancy) EligibilityReason.missing_occupancy roomed

    apart : all p (eligibility_reasons o today) ≡ true → Passes p o today
    apart h =
        let (h, total) =
          split_if p (is_none o.booked_total) EligibilityReason.missing_booked_total occupied h in
        let (h, guests) =
          split_if p (is_none o.occupancy) EligibilityReason.missing_occupancy roomed h in
        let (h, room) =
          split_if p (is_missing o.room_type) EligibilityReason.missing_room_type dated h in
        let (h, dates) =
          split_if p (is_none o.check_in || is_none o.check_out)
            EligibilityReason.missing_stay_dates named h in
        let (h, property) =
          split_if p (is_missing o.property_name || is_missing o.property_ref)
            EligibilityReason.missing_property confirmed h in
        let (h, confirmation) =
          split_if p (is_missing o.confirmation_id) EligibilityReason.missing_confirmation refunded
            h in
        let (h, refund) =
          and_split (all p ended) (refund_passes p o.refundable)
            (sym (all-refund p o.refundable ended) ∙ h) in
        let (lifecycle, stay) =
          and_split (all p (lifecycle_reasons o.lifecycle))
            (not (has_ended o.check_out today) || p EligibilityReason.past_or_completed)
            (sym (all-ended p (has_ended o.check_out today) o.lifecycle) ∙ h) in
        record {
          lifecycle = lifecycle;
          stay = stay;
          refund = refund;
          confirmation = confirmation;
          property = property;
          dates = dates;
          room = room;
          guests = guests;
          total = total;
        }

    together : Passes p o today → all p (eligibility_reasons o today) ≡ true
    together k =
        join_if p (is_none o.booked_total) EligibilityReason.missing_booked_total occupied
          (join_if p (is_none o.occupancy) EligibilityReason.missing_occupancy roomed
            (join_if p (is_missing o.room_type) EligibilityReason.missing_room_type dated
              (join_if p (is_none o.check_in || is_none o.check_out)
                EligibilityReason.missing_stay_dates named
                (join_if p (is_missing o.property_name || is_missing o.property_ref)
                  EligibilityReason.missing_property confirmed
                  (join_if p (is_missing o.confirmation_id) EligibilityReason.missing_confirmation
                    refunded
                    (all-refund p o.refundable ended
                      ∙ ap (λ b. b && refund_passes p o.refundable)
                          (all-ended p (has_ended o.check_out today) o.lifecycle
                            ∙ ap
                                (λ b.
                                  b
                                  && (not (has_ended o.check_out today)
                                      || p EligibilityReason.past_or_completed))
                                k.lifecycle
                            ∙ k.stay)
                      ∙ k.refund)
                    k.confirmation)
                  k.property)
                k.dates)
              k.room)
            k.guests)
          k.total
