-- ===== src/Savings/Detect/Gate.antt =====
-- When the equivalence gate of src/booksaver/domain/savings.py lets an offer pass.
use mathlib.Core.Option.{none-ne-some}
use booksaver_agent.Base.{ℕ, ◌≡◌, ◌↔◌, refl, sym, true, false, Option, none, some, arith}
use booksaver_agent.Base.Text.{Text, text_eq_iff, strip}
use booksaver_agent.Booking.{Booking}
use booksaver_agent.Savings.Detect.{
  RefundIndicators, ExtractedBookingFields, CheckResult, RejectionReason, differs_day, differs_text,
  contradiction, refusal, evaluate_equivalence, first_of,
}

abbrev pub AgreesDay : Option ℕ → ℕ → Type 0
AgreesDay none booked = Unit
AgreesDay (some read) booked = read ≡ booked

abbrev pub AgreesText : (Text → Text) → Option Text → Text → Type 0
AgreesText lower none booked = Unit
AgreesText lower (some read) booked = lower (strip read) ≡ lower (strip booked)

abbrev pub AgreesFields : (Text → Text) → Booking → Option ExtractedBookingFields → Type 0
AgreesFields lower b none = Unit
AgreesFields lower b (some f) =
    AgreesDay f.check_in b.check_in
    × AgreesDay f.check_out b.check_out
    × AgreesText lower f.property_name b.property_name
    × AgreesText lower f.room_label b.room_label

abbrev pub IsConfirmed : Option RefundIndicators → Type 0
IsConfirmed none = ⊥
IsConfirmed (some i) = i.is_refundable ≡ some true

differs_day_iff :
    (read : Option ℕ) (booked : ℕ) → (differs_day read booked ≡ false) ↔ AgreesDay read booked
unfolding differs_day
differs_day_iff none booked = (λ _. tt, λ _. refl)
differs_day_iff (some read) booked = ground arith

differs_text_iff :
    (lower : Text → Text) (read : Option Text) (booked : Text)
    → (differs_text lower read booked ≡ false) ↔ AgreesText lower read booked
unfolding differs_text
differs_text_iff lower none booked = (λ _. tt, λ _. refl)
differs_text_iff lower (some read) booked =
    ground (arith, text_eq_iff (lower (strip read)) (lower (strip booked)))

contradiction-none :
    (lower : Text → Text) (b : Booking) (fields : Option ExtractedBookingFields)
    → (contradiction lower b fields ≡ none) ↔ AgreesFields lower b fields
unfolding contradiction
contradiction-none lower b none = (λ _. tt, λ _. refl)
contradiction-none lower b (some f) =
    let arrival = differs_day_iff f.check_in b.check_in in
    let departure = differs_day_iff f.check_out b.check_out in
    let name = differs_text_iff lower f.property_name b.property_name in
    let room = differs_text_iff lower f.room_label b.room_label in
    ground (arith, arrival, departure, name, room)

refusal-none : (i : Option RefundIndicators) → (refusal i ≡ none) ↔ IsConfirmed i
unfolding refusal
refusal-none none = ground arith
refusal-none (some i) = ground arith

-- The gate lets an offer pass exactly when nothing that was read contradicts the reservation and
-- the offer is confirmed to be refundable.
pub evaluate_equivalence-none :
    (lower : Text → Text) (b : Booking) (r : CheckResult)
    → (evaluate_equivalence lower b r ≡ none)
      ↔ (AgreesFields lower b r.extracted_fields × IsConfirmed r.refund_indicators)
unfolding evaluate_equivalence first_of
evaluate_equivalence-none lower b r =
    let fields = contradiction-none lower b r.extracted_fields in
    let refund = refusal-none r.refund_indicators in
    go (contradiction lower b r.extracted_fields) (refusal r.refund_indicators) fields refund
  where
    go :
        {A B : Type 0} (o p : Option RejectionReason)
        → (o ≡ none) ↔ A
        → (p ≡ none) ↔ B
        → (first_of o p ≡ none) ↔ (A × B)
    go none p f g = (λ h. (f.0 refl, g.0 h), λ k. g.1 k.1)
    go (some reason) p f g = (λ h. absurd (none-ne-some reason (sym h)), λ k. f.1 k.0)
