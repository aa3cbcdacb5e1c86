-- ===== src/Booking.antt =====
-- The reservation that is monitored, as far as the modelled components read it
-- (src/booksaver/domain/models.py and src/booksaver/domain/value_objects.py). An amount is a number
-- of a unit small enough for every amount at hand; a date is a number of days.
use booksaver_agent.Base.{ℕ}
use booksaver_agent.Base.Text.{Text}
use booksaver_agent.Offer.MealPlan.{MealPlan}

pub record Money : Type 0 where
  pub amount : ℕ
  pub currency : Text

pub record Booking : Type 0 where
  pub booking_id : ℕ
  pub property_name : Text
  pub check_in : ℕ
  pub check_out : ℕ
  pub room_label : Text
  pub baseline_price : Money
  pub meal_plan : MealPlan
