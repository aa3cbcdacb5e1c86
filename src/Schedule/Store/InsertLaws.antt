-- ===== src/Schedule/Store/InsertLaws.antt =====
-- Planning a day (src/booksaver/infrastructure/persistence/scheduled_check_slots.py): what
-- `insert_daily_schedule` adds, and that it never plans a day twice.
use mathlib.Core.List.{Memᴰ}
use booksaver_agent.Base.{
  ◌≡◌, refl, sym, ap, ◌⊎◌, inl, inr, Bool, true, false, not, Bool-cases, List, [], ◌∷◌, ◌++◌, arith,
  ok, err, Result, any, filter, is_nil, ◌>>=◌, ◌>>◌, raise_if, value_error,
  incomplete_daily_schedule, Error,
}
use booksaver_agent.Base.Pairs.{Memᴰ-filter}
use booksaver_agent.Schedule.Slot.{ScheduledCheckSlot}
use booksaver_agent.Schedule.Store.Rows.{Table, load}
use booksaver_agent.Schedule.Store.RowLaws.{Memᴰ-sort_by}
use booksaver_agent.Schedule.Store.DueLoops.{ok-pair}
use booksaver_agent.Schedule.Store.Insert.{
  of_day, day_rows, list_for_user_date, counts_from, same_ordinals, is_pristine, is_increasing,
  insert_checked, insert_daily_schedule,
}

-- The checks that a proposed day has passed.
pub record IsProposed (first : ScheduledCheckSlot) (slots : List ScheduledCheckSlot) : Type 0 where
  pub counted : counts_from 0 (first ∷ slots) ≡ true
  pub one_day : any (λ s. not (of_day first.user_id first.schedule_date s)) (first ∷ slots) ≡ false
  pub pristine : any (λ s. not (is_pristine s)) (first ∷ slots) ≡ false
  pub increasing : is_increasing (first ∷ slots) ≡ true

insert_guards :
    (a b c d : Bool) (rest : Result (Table × List ScheduledCheckSlot))
    {x : Table × List ScheduledCheckSlot}
    → (raise_if (not a) value_error
        >> (raise_if b value_error
            >> (raise_if c value_error >> (raise_if (not d) value_error >> rest))))
      ≡ ok x
    → (a ≡ true) × (b ≡ false) × (c ≡ false) × (d ≡ true) × (rest ≡ ok x)
insert_guards a b c d rest h = ground arith

pub insert-IsProposed :
    (first : ScheduledCheckSlot) (slots : List ScheduledCheckSlot) (t : Table)
    {x : Table × List ScheduledCheckSlot}
    → insert_daily_schedule (first ∷ slots) t ≡ ok x
    → IsProposed first slots × (insert_checked first slots t ≡ ok x)
unfolding insert_daily_schedule
insert-IsProposed first slots t h =
    let (a, b, c, d, rest) =
      insert_guards (counts_from 0 (first ∷ slots))
        (any (λ s. not (of_day first.user_id first.schedule_date s)) (first ∷ slots))
        (any (λ s. not (is_pristine s)) (first ∷ slots)) (is_increasing (first ∷ slots))
        (insert_checked first slots t) h in
    (record { counted = a; one_day = b; pristine = c; increasing = d }, rest)

-- An insertion that returns found the day planned and changed nothing, or added the proposed slots
-- of an active user to a day without any; either way it lists the day's rows.
pub record IsInserted (first : ScheduledCheckSlot) (slots : List ScheduledCheckSlot) (t t' : Table)
    (listed : List ScheduledCheckSlot) : Type 0 where
  pub change :
      ((t' ≡ t) × (is_nil (day_rows first.user_id first.schedule_date t) ≡ false))
      ⊎ ((is_nil (day_rows first.user_id first.schedule_date t) ≡ true)
          × (t.active first.user_id ≡ true)
          × (t' ≡ record t { rows = t.rows ++ first ∷ slots }))
  pub lists : load (day_rows first.user_id first.schedule_date t') ≡ ok listed

abbrev with_table : Table → List ScheduledCheckSlot → Result (Table × List ScheduledCheckSlot)
with_table u listed = ok (u, listed)

listed_branch :
    (b : Bool) (e : Error) (u : Table) (r : Result (List ScheduledCheckSlot)) {t' : Table}
    {listed : List ScheduledCheckSlot}
    → (raise_if b e >> (r >>= with_table u)) ≡ with_table t' listed
    → (b ≡ false) × (t' ≡ u) × (r ≡ ok listed)
listed_branch true e u r h = cc
listed_branch false e u (ok l) h = let (a, b) = ok-pair h in (refl, sym a, ap ok b)
listed_branch false e u (err x) h = cc

not-false : (b : Bool) → not b ≡ false → b ≡ true
not-false true h = refl
not-false false h = cc

pub insert_checked-IsInserted :
    (first : ScheduledCheckSlot) (slots : List ScheduledCheckSlot) (t t' : Table)
    (listed : List ScheduledCheckSlot)
    → insert_checked first slots t ≡ ok (t', listed)
    → IsInserted first slots t t' listed
unfolding insert_checked list_for_user_date
insert_checked-IsInserted first slots t t' listed h =
    elim (Bool-cases (is_nil (day_rows first.user_id first.schedule_date t))) [
      | inl empty ↦
          let added = record t { rows = t.rows ++ first ∷ slots } in
          let (active, same, lists) =
            listed_branch (not (t.active first.user_id)) value_error added
              (load (day_rows first.user_id first.schedule_date added)) (rw empty at h) in
          record {
            change = inr (empty, not-false (t.active first.user_id) active, same);
            lists = rw same lists;
          }
      | inr there ↦
          let (_, same, lists) =
            listed_branch
              (not (same_ordinals (day_rows first.user_id first.schedule_date t) (first ∷ slots)))
              incomplete_daily_schedule t (load (day_rows first.user_id first.schedule_date t))
              (rw there at h) in
          record { change = inl (same, there); lists = rw same lists }
    ]

in_append :
    (first : ScheduledCheckSlot) (rows more : List ScheduledCheckSlot)
    → Memᴰ first (rows ++ first ∷ more)
in_append first [] more = Memᴰ.head refl
in_append first (r ∷ rows) more = Memᴰ.tail (in_append first rows more)

day_rows-first :
    (first : ScheduledCheckSlot) (t : Table) (more : List ScheduledCheckSlot)
    → Memᴰ first
        (day_rows first.user_id first.schedule_date (record t { rows = t.rows ++ first ∷ more }))
unfolding day_rows
day_rows-first first t more =
    Memᴰ-sort_by _ (filter (of_day first.user_id first.schedule_date) (t.rows ++ first ∷ more)) (
      Memᴰ-filter (of_day first.user_id first.schedule_date) (t.rows ++ first ∷ more)
        (in_append first t.rows more) (ground arith))

-- After an insertion the day has rows.
pub day_planned :
    (first : ScheduledCheckSlot) (slots : List ScheduledCheckSlot) (t t' : Table)
    (listed : List ScheduledCheckSlot)
    → IsInserted first slots t t' listed
    → is_nil (day_rows first.user_id first.schedule_date t') ≡ false
day_planned first slots t t' listed h = elim h.change [
  | inl (same, there) ↦ rw same there
  | inr (_, _, same) ↦ rw same (
      not_nil
        (day_rows first.user_id first.schedule_date (record t { rows = t.rows ++ first ∷ slots }))
        (day_rows-first first t slots))
]
  where
    not_nil : (rows : List ScheduledCheckSlot) → Memᴰ first rows → is_nil rows ≡ false
    not_nil [] m = elim m [ ]
    not_nil (r ∷ rows) m = refl

-- A day that has been planned is not planned again: whatever is proposed for it later, the table
-- stays, and the slots that are listed are the ones listed the first time.
pub insert_daily_schedule_stable :
    (first again : ScheduledCheckSlot) (slots others : List ScheduledCheckSlot) (t t' t'' : Table)
    (listed listed' : List ScheduledCheckSlot)
    → again.user_id ≡ first.user_id
    → again.schedule_date ≡ first.schedule_date
    → insert_daily_schedule (first ∷ slots) t ≡ ok (t', listed)
    → insert_daily_schedule (again ∷ others) t' ≡ ok (t'', listed')
    → (t'' ≡ t') × (listed' ≡ listed)
insert_daily_schedule_stable first again slots others t t' t'' listed listed' u d h k =
    let one =
      insert_checked-IsInserted first slots t t' listed (insert-IsProposed first slots t h).1 in
    let two =
      insert_checked-IsInserted again others t' t'' listed'
        (insert-IsProposed again others t' k).1 in
    let planned = day_planned first slots t t' listed one in
    elim two.change [
      | inl (same, _) ↦ (same, same_list one.lists (rw (u, d, same) at two.lists))
      | inr (empty, _, _) ↦ let empty' = rw (u, d) at empty in cc (empty', planned)
    ]
  where
    same_list :
        {r : Result (List ScheduledCheckSlot)} → r ≡ ok listed → r ≡ ok listed' → listed' ≡ listed
    same_list p q = cc
