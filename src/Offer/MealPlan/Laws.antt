-- ===== src/Offer/MealPlan/Laws.antt =====
-- When `classify_meal_text` (src/booksaver/domain/meal_plan.py) says that no meal is included.
use booksaver_agent.Base.{
  ◌≤◌, ◌<◌, ◌≡◌, ◌≢◌, ◌↔◌, refl, ◌⊎◌, true, false, ◌||◌, none, some, List, [], ◌∷◌, arith, All,
}
use booksaver_agent.Offer.MealPlan.{
  MealPlan, Clause, Found, nothing_found, count_meals, read_clause, read_clauses, conclude,
  classify_clauses,
}

-- A clause that denies at most one meal, or that names a meal as an extra or at a price without
-- saying that it is included.
abbrev pub IsDenial : Clause → Type 0
IsDenial c =
    (c.named ≡ none)
    × (((c.negated ≡ true) × (count_meals c ≤ 1))
        ⊎ ((c.negated ≡ false)
            × (0 < count_meals c)
            × (c.says_included ≡ false)
            × ((c.extra || c.priced) ≡ true)))

-- Nothing is included and nothing was unclear.
pub record IsBlank (f : Found) : Type 0 where
  pub no_breakfast : f.breakfast ≡ false
  pub no_lunch : f.lunch ≡ false
  pub no_dinner : f.dinner ≡ false
  pub no_half : f.half_board ≡ false
  pub no_full : f.full_board ≡ false
  pub no_all : f.all_inclusive ≡ false
  pub clear : f.unrecognized ≡ false

-- The three patterns name these plans alone.
abbrev pub IsNamedPlan : Clause → Type 0
IsNamedPlan c =
    (c.named ≡ none)
    ⊎ ((c.named ≡ some MealPlan.half_board)
        ⊎ ((c.named ≡ some MealPlan.full_board) ⊎ (c.named ≡ some MealPlan.all_inclusive)))

conclude-none :
    (f : Found) → conclude f ≡ MealPlan.none_included → IsBlank f × (f.stated_none ≡ true)
unfolding conclude
conclude-none f h = ground arith

read_clause-IsBlank :
    (c : Clause) (f : Found) → IsNamedPlan c → IsBlank (read_clause c f) → IsBlank f × IsDenial c
unfolding read_clause
read_clause-IsBlank c f n h = ground arith

read_clauses-IsBlank :
    (clauses : List Clause) (f : Found)
    → All IsNamedPlan clauses
    → IsBlank (read_clauses clauses f)
    → IsBlank f × All IsDenial clauses
unfolding read_clauses
read_clauses-IsBlank [] f n h = (h, tt)
read_clauses-IsBlank (c ∷ clauses) f n h =
    let (blank, denials) = read_clauses-IsBlank clauses (read_clause c f) n.1 h in
    let (before, denial) = read_clause-IsBlank c f n.0 blank in (before, (denial, denials))

read_clause-IsDenial :
    (c : Clause) (f : Found)
    → IsDenial c
    → IsBlank f
    → IsBlank (read_clause c f) × ((read_clause c f).stated_none ≡ true)
unfolding read_clause
read_clause-IsDenial c f d h = ground arith

read_clauses-IsDenial :
    (clauses : List Clause) (f : Found)
    → All IsDenial clauses
    → IsBlank f
    → f.stated_none ≡ true
    → IsBlank (read_clauses clauses f) × ((read_clauses clauses f).stated_none ≡ true)
unfolding read_clauses
read_clauses-IsDenial [] f d h stated = (h, stated)
read_clauses-IsDenial (c ∷ clauses) f d h stated =
    let (blank, stated') = read_clause-IsDenial c f d.0 h in
    read_clauses-IsDenial clauses (read_clause c f) d.1 blank stated'

conclude-IsBlank :
    (f : Found) → IsBlank f → f.stated_none ≡ true → conclude f ≡ MealPlan.none_included
unfolding conclude
conclude-IsBlank f h stated = ground arith

nothing_found-IsBlank : IsBlank nothing_found
nothing_found-IsBlank = ground arith

-- The wording is classified as including no meal exactly when there is a clause about meals and
-- every such clause denies a single meal, or names one as an extra or at a price without saying
-- that it is included.
pub classify_clauses-none :
    (clauses : List Clause)
    → All IsNamedPlan clauses
    → (classify_clauses clauses ≡ MealPlan.none_included) ↔ ((clauses ≢ []) × All IsDenial clauses)
unfolding classify_clauses
classify_clauses-none clauses n = (
  λ h.
      let (blank, stated) = conclude-none (read_clauses clauses nothing_found) h in
      (stated_nonempty clauses stated, (read_clauses-IsBlank clauses nothing_found n blank).1),
  λ k. denied clauses k.0 k.1,
)
  where
    stated_nonempty :
        (cs : List Clause) → (read_clauses cs nothing_found).stated_none ≡ true → cs ≢ []
    stated_nonempty [] k = cc
    stated_nonempty (c ∷ cs) k = λ e. cc

    denied :
        (cs : List Clause)
        → cs ≢ []
        → All IsDenial cs
        → conclude (read_clauses cs nothing_found) ≡ MealPlan.none_included
    denied [] ne d = absurd (ne refl)
    denied (c ∷ cs) ne d =
        let (blank, stated) = read_clause-IsDenial c nothing_found d.0 nothing_found-IsBlank in
        let (blank', stated') =
          read_clauses-IsDenial cs (read_clause c nothing_found) d.1 blank stated in
        conclude-IsBlank (read_clauses cs (read_clause c nothing_found)) blank' stated'
