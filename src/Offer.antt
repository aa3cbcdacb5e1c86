-- ===== src/Offer.antt =====
-- Offers of one price check (src/booksaver/domain/offer.py, src/booksaver/domain/meal_plan.py).
mod Tests
pub mod MealPlan
pub mod Select
