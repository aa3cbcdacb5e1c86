-- ===== src/Offer/MealPlan.antt =====
-- The ranked meal plans of src/booksaver/domain/meal_plan.py, and the decision that
-- `classify_meal_text` takes from what its patterns found in each clause.
pub mod Laws
use booksaver_agent.Base.{
  ℕ, suc, ◌+◌, ◌≤◌, ◌<◌, ◌≡◌, ◌≢◌, refl, ◌↔◌, ◌⊎◌, inl, inr, Bool, true, false, not, ◌&&◌, ◌||◌,
  Option, none, some, List, [], ◌∷◌, arith, leb, ltb, ◌==◌, if◌then◌else◌, is_some, is_none, any,
}

pub data MealPlan : Type 0 where
  none_included breakfast half_board full_board all_inclusive unknown : MealPlan

-- `ranked.index(plan)`, for a plan of the list
unfoldable pub rank : MealPlan → Option ℕ
rank MealPlan.none_included = some 0
rank MealPlan.breakfast = some 1
rank MealPlan.half_board = some 2
rank MealPlan.full_board = some 3
rank MealPlan.all_inclusive = some 4
rank MealPlan.unknown = none

abbrev pub rank_at_least : Option ℕ → Option ℕ → Bool
rank_at_least (some a) (some b) = leb b a
rank_at_least _ _ = false

-- `MealPlan.at_least`
unfoldable pub at_least : MealPlan → MealPlan → Bool
unfolding rank
at_least plan booked = rank_at_least (rank plan) (rank booked)

-- On ranked plans `at_least` is a total order, and UNKNOWN is below and above none.
pub at_least_order :
    (p q r : MealPlan)
    → (at_least p p ≡ not (is_none (rank p)))
      × (at_least p q ≡ true → at_least q r ≡ true → at_least p r ≡ true)
      × (at_least p q ≡ true → at_least q p ≡ true → p ≡ q)
      × (p ≢ MealPlan.unknown
          → q ≢ MealPlan.unknown
          → (at_least p q ≡ true) ⊎ (at_least q p ≡ true))
      × (at_least p MealPlan.unknown ≡ false)
      × (at_least MealPlan.unknown p ≡ false)
unfolding at_least
at_least_order p q r = (
  ground arith,
  λ h k. ground arith,
  λ h k. ground arith,
  λ h k. ground arith,
  ground arith,
  ground arith,
)

-- What the patterns of the module found in one clause that mentions a meal.
pub record Clause : Type 0 where
  pub named : Option MealPlan  -- all-inclusive, full board or half board, the first that matches
  pub breakfast : Bool
  pub lunch : Bool
  pub dinner : Bool
  pub says_included : Bool  -- `_INCLUDED`
  pub extra : Bool  -- `_EXTRA`
  pub negated : Bool  -- `_NEGATED`
  pub priced : Bool  -- `_PRICE`

-- The accumulators of the loop. `plans` has one flag for each value that can enter the set.
pub record Found : Type 0 where
  pub breakfast : Bool
  pub lunch : Bool
  pub dinner : Bool
  pub half_board : Bool
  pub full_board : Bool
  pub all_inclusive : Bool
  pub stated_none : Bool
  pub unrecognized : Bool

abbrev pub nothing_found : Found
nothing_found = record {
  breakfast = false;
  lunch = false;
  dinner = false;
  half_board = false;
  full_board = false;
  all_inclusive = false;
  stated_none = false;
  unrecognized = false;
}

abbrev pub count_meals : Clause → ℕ
count_meals c =
    (if c.breakfast then 1 else 0) + (if c.lunch then 1 else 0) + (if c.dinner then 1 else 0)

-- `plans.add(named)`; only the three named plans are ever added here
abbrev pub add_plan : MealPlan → Found → Found
add_plan MealPlan.half_board f = record f { half_board = true }
add_plan MealPlan.full_board f = record f { full_board = true }
add_plan MealPlan.all_inclusive f = record f { all_inclusive = true }
add_plan _ f = f

abbrev pub add_named : Option MealPlan → Found → Found
add_named none f = f
add_named (some plan) f = add_plan plan f

-- The body of the loop for one clause that mentions a meal.
unfoldable pub read_clause : Clause → Found → Found
read_clause c f =
    let meals = count_meals c in
    let positive = is_some c.named || (ltb 0 meals && c.says_included) in
    if c.negated
    then (if is_some c.named || ltb 1 meals
        then record f { unrecognized = true }
        else record f { stated_none = true })
    else if positive && c.extra
    then record f { unrecognized = true }
    else if is_some c.named
    then add_named c.named f
    else if positive
    then record f {
      breakfast = f.breakfast || c.breakfast;
      lunch = f.lunch || c.lunch;
      dinner = f.dinner || c.dinner;
    }
    else if ltb 0 meals && (c.extra || c.priced)
    then record f { stated_none = true }
    else record f { unrecognized = true }

unfoldable pub read_clauses : List Clause → Found → Found
unfolding read_clause
read_clauses [] f = f
read_clauses (c ∷ clauses) f = read_clauses clauses (read_clause c f)

-- `_BY_MEALS.get(frozenset(included))`
abbrev pub by_meals : Bool → Bool → Bool → Option MealPlan
by_meals true false false = some MealPlan.breakfast
by_meals true false true = some MealPlan.half_board
by_meals true true true = some MealPlan.full_board
by_meals _ _ _ = none

-- The set `plans` with the plan of the included meals.
abbrev pub plan_set : Option MealPlan → Found → List MealPlan
plan_set meals f =
    let half = f.half_board || (elim meals [ some MealPlan.half_board ↦ true | _ ↦ false ]) in
    let full = f.full_board || (elim meals [ some MealPlan.full_board ↦ true | _ ↦ false ]) in
    let all = if f.all_inclusive then MealPlan.all_inclusive ∷ [] else [] in
    let fulls = if full then MealPlan.full_board ∷ all else all in
    let halves = if half then MealPlan.half_board ∷ fulls else fulls in
    elim meals [ some MealPlan.breakfast ↦ MealPlan.breakfast ∷ halves | _ ↦ halves ]

abbrev pub only_plan : List MealPlan → Bool → MealPlan
only_plan [] stated_none = if stated_none then MealPlan.none_included else MealPlan.unknown
only_plan (plan ∷ []) stated_none = plan
only_plan _ stated_none = MealPlan.unknown

-- What `classify_meal_text` returns after the loop.
unfoldable pub conclude : Found → MealPlan
conclude f =
    let meals = by_meals f.breakfast f.lunch f.dinner in
    let plan = only_plan (plan_set meals f) f.stated_none in
    if (f.breakfast || (f.lunch || f.dinner)) && is_none meals
    then MealPlan.unknown
    else if f.unrecognized
    then MealPlan.unknown
    else plan

-- `classify_meal_text`, from the clauses that mention a meal on.
unfoldable pub classify_clauses : List Clause → MealPlan
unfolding read_clauses conclude
classify_clauses clauses = conclude (read_clauses clauses nothing_found)
