-- ===== src/Schedule/Dispatcher/Horizon.antt =====
-- What the horizon of src/booksaver/application/schedule_dispatcher.py holds after it was ensured.
use mathlib.Core.List.{Memᴰ}
use mathlib.Core.Path.{subst}
use booksaver_agent.Base.{
  ℕ, ◌+◌, ◌*◌, ◌≡◌, refl, sym, ◌∙◌, inl, inr, true, false, Bool-cases, Option, some, List, [], ◌∷◌,
  ◌++◌, arith, All, ok, >>=-eq-ok, is_nil, filter,
}
use booksaver_agent.Base.Pairs.{
  All-weaken, All-×, All-filter, All-filter_test, Memᴰ-filter, All-mem', All-mem,
}
use booksaver_agent.Schedule.Slot.{utc_day, ScheduleSettings, ScheduledCheckSlot, new_slot}
use booksaver_agent.Schedule.Generate.{RandomBelow, generate_daily_slots}
use booksaver_agent.Schedule.Generate.Plan.{IsDailyPlan, generate_daily_slots-IsDailyPlan}
use booksaver_agent.Schedule.Store.Rows.{Table, load}
use booksaver_agent.Schedule.Store.RowLaws.{All-sort_by, Memᴰ-sort_by}
use booksaver_agent.Schedule.Store.Insert.{
  by_ordinal, of_day, day_rows, list_for_user_date, insert_daily_schedule, last_planned_before,
}
use booksaver_agent.Schedule.Store.InsertLaws.{
  insert-IsProposed, insert_checked-IsInserted, day_planned,
}
use booksaver_agent.Schedule.Dispatcher.{planned_of, plan_day, ensure_day, ensure_horizon}

-- The user's day has slots in the table.
abbrev pub HasDay : ℕ → ℕ → Table → Type 0
HasDay user_id date t = is_nil (day_rows user_id date t) ≡ false

-- Every row of the first table is in the second.
abbrev pub Grows : Table → Table → Type 0
Grows t t' = All (λ r. Memᴰ r t'.rows) t.rows

nonempty :
    (rows : List ScheduledCheckSlot) (r : ScheduledCheckSlot) → Memᴰ r rows → is_nil rows ≡ false
nonempty [] r m = elim m [ ]
nonempty (x ∷ rows) r m = refl

some_row :
    (P : ScheduledCheckSlot → Type 0) (rows : List ScheduledCheckSlot)
    → is_nil rows ≡ false
    → All P rows
    → (r : ScheduledCheckSlot) × P r
some_row P [] e h = cc
some_row P (r ∷ rows) e h = (r, h.0)

-- A day keeps its slots as the table grows.
HasDay-Grows :
    (user_id date : ℕ) (t t' : Table) → Grows t t' → HasDay user_id date t → HasDay user_id date t'
unfolding day_rows
HasDay-Grows user_id date t t' grows h =
    let test = of_day user_id date in
    let (r, (here, same_day)) =
      some_row (λ r. Memᴰ r t'.rows × (test r ≡ true)) (day_rows user_id date t) h
        (All-sort_by by_ordinal (λ r. Memᴰ r t'.rows × (test r ≡ true)) (filter test t.rows)
          (All-× (λ r. Memᴰ r t'.rows) (λ r. test r ≡ true) (filter test t.rows)
            (All-filter (λ r. Memᴰ r t'.rows) test t.rows grows) (All-filter_test test t.rows))) in
    nonempty (day_rows user_id date t') r
      (Memᴰ-sort_by by_ordinal (filter test t'.rows) (Memᴰ-filter test t'.rows here same_day))

Grows-refl : (t : Table) → Grows t t
Grows-refl t = All-mem' t.rows

Grows-trans : (s t u : Table) → Grows s t → Grows t u → Grows s u
Grows-trans s t u h k =
    All-weaken (λ r. Memᴰ r t.rows) (λ r. Memᴰ r u.rows) s.rows
      (λ r m. All-mem (λ x. Memᴰ x u.rows) t.rows k m) h

Grows-append :
    (t : Table) (more : List ScheduledCheckSlot) → Grows t (record t { rows = t.rows ++ more })
Grows-append t more = go t.rows
  where
    go : (rows : List ScheduledCheckSlot) → All (λ r. Memᴰ r (rows ++ more)) rows
    go [] = tt
    go (r ∷ rows) = (
      Memᴰ.head refl,
      All-weaken (λ x. Memᴰ x (rows ++ more)) (λ x. Memᴰ x (r ∷ rows ++ more)) rows
          (λ x m. Memᴰ.tail m) (go rows),
    )

load-nil :
    (rows listed : List ScheduledCheckSlot) → load rows ≡ ok listed → is_nil listed ≡ is_nil rows
unfolding load
load-nil [] [] h = refl
load-nil [] (s ∷ listed) h = cc
load-nil (r ∷ rows) listed h =
    let (s, first, more) = >>=-eq-ok (new_slot r) _ h in
    let (rest, others, joined) = >>=-eq-ok (load rows) _ more in ground (arith, joined)

insert-Grows :
    (slots : List ScheduledCheckSlot) (u d : ℕ) (t t' : Table) (listed : List ScheduledCheckSlot)
    → All (λ s. (s.user_id ≡ u) × (s.schedule_date ≡ d)) slots
    → insert_daily_schedule slots t ≡ ok (t', listed)
    → Grows t t' × HasDay u d t'
unfolding insert_daily_schedule
insert-Grows [] u d t t' listed mine h = absurd (ground (arith, h))
insert-Grows (first ∷ slots) u d t t' listed mine h =
    let inserted =
      insert_checked-IsInserted first slots t t' listed (insert-IsProposed first slots t h).1 in
    let planned = day_planned first slots t t' listed inserted in
    (
      elim inserted.change [
        | inl (same, there) ↦ subst (Grows t) (sym same) (Grows-refl t)
        | inr (empty, active, same) ↦ subst (Grows t) (sym same) (Grows-append t (first ∷ slots))
      ],
      subst (λ x. HasDay x d t') mine.0.0 (subst (λ x. HasDay first.user_id x t') mine.0.1 planned),
    )

-- A daily plan is one user's and one day's.
plan-mine :
    (settings : ScheduleSettings) (u d ordinal : ℕ) (previous : Option ℕ)
    (slots : List ScheduledCheckSlot)
    → IsDailyPlan settings u d ordinal previous slots
    → All (λ s. (s.user_id ≡ u) × (s.schedule_date ≡ d)) slots
plan-mine settings u d ordinal previous [] plan = tt
plan-mine settings u d ordinal previous (s ∷ slots) (first, rest) = (
  (first.of_user, first.on_date),
  plan-mine settings u d (ordinal + 1) (some s.planned_at) slots rest,
)

module _ (settings : ScheduleSettings) (randbelow : ℕ → ℕ → RandomBelow) where
  plan_day-Grows :
      (u d : ℕ) (t t' : Table)
      → plan_day settings randbelow u d t ≡ ok t'
      → Grows t t' × HasDay u d t'
  unfolding plan_day
  plan_day-Grows u d t t' h =
      let (prior, found, h) = >>=-eq-ok (last_planned_before u (d * utc_day) t) _ h in
      let (slots, made, h) =
        >>=-eq-ok (generate_daily_slots u d settings (randbelow u d) (planned_of prior)) _ h in
      let ((after, listed), inserted, h) = >>=-eq-ok (insert_daily_schedule slots t) _ h in
      let plan =
        generate_daily_slots-IsDailyPlan u d settings (randbelow u d) (planned_of prior) slots
          made in
      let same : after ≡ t' = ground (arith, h) in
      subst (λ x. Grows t x × HasDay u d x) same
        (insert-Grows slots u d t after listed
          (plan-mine settings u d 0 (planned_of prior) slots plan) inserted)

  ensure_day-Grows :
      (u d : ℕ) (t t' : Table)
      → ensure_day settings randbelow u d t ≡ ok t'
      → Grows t t' × HasDay u d t'
  unfolding ensure_day list_for_user_date
  ensure_day-Grows u d t t' h =
      let (listed, loaded, h) = >>=-eq-ok (load (day_rows u d t)) _ h in
      let same_nil = load-nil (day_rows u d t) listed loaded in
      elim (Bool-cases (is_nil listed)) [
        | inl empty ↦ plan_day-Grows u d t t' (rw empty at h)
        | inr there ↦
            let same : t ≡ t' = let k = rw there at h in ground (arith, k) in
            subst (λ x. Grows t x × HasDay u d x) same (Grows-refl t, sym same_nil ∙ there)
      ]

  -- Where `_ensure_horizon` returns, every one of the users has slots for today and for tomorrow,
  -- and no slot that was there is gone.
  pub ensure_horizon-HasDay :
      (user_ids : List ℕ) (today : ℕ) (t t' : Table)
      → ensure_horizon settings randbelow user_ids today t ≡ ok t'
      → Grows t t' × All (λ u. HasDay u today t' × HasDay u (today + 1) t') user_ids
  unfolding ensure_horizon
  ensure_horizon-HasDay [] today t t' h =
      let same : t ≡ t' = ground (arith, h) in (subst (Grows t) same (Grows-refl t), tt)
  ensure_horizon-HasDay (u ∷ user_ids) today t t' h =
      let (t1, first, h) = >>=-eq-ok (ensure_day settings randbelow u today t) _ h in
      let (t2, second, h) = >>=-eq-ok (ensure_day settings randbelow u (today + 1) t1) _ h in
      let (grows1, day1) = ensure_day-Grows u today t t1 first in
      let (grows2, day2) = ensure_day-Grows u (today + 1) t1 t2 second in
      let (grows3, others) = ensure_horizon-HasDay user_ids today t2 t' h in
      (
        Grows-trans t t1 t' grows1 (Grows-trans t1 t2 t' grows2 grows3),
        (
          (
            HasDay-Grows u today t1 t' (Grows-trans t1 t2 t' grows2 grows3) day1,
            HasDay-Grows u (today + 1) t2 t' grows3 day2,
          ),
          others,
        ),
      )
