-- ===== src/Schedule/Store/Insert.antt =====
-- Planning: `list_for_user_date`, `insert_daily_schedule` and `last_planned_before` of
-- src/booksaver/infrastructure/persistence/scheduled_check_slots.py.
use booksaver_agent.Base.{
  ℕ, ◌+◌, Bool, true, false, not, ◌&&◌, ◌||◌, Option, none, some, List, [], ◌∷◌, ◌++◌, ltb, ◌==◌,
  if◌then◌else◌, any, filter, is_nil, Result, ok, err, value_error, incomplete_daily_schedule,
  ◌>>=◌, ◌>>◌, raise_if, is_some,
}
use booksaver_agent.Schedule.Slot.{ScheduledCheckSlot, new_slot}
use booksaver_agent.Schedule.Store.Rows.{Table, is_planned, first_by, sort_by, load}

abbrev pub by_ordinal : ScheduledCheckSlot → ScheduledCheckSlot → Bool
by_ordinal r s = ltb r.ordinal s.ordinal

abbrev pub of_day : ℕ → ℕ → ScheduledCheckSlot → Bool
of_day user_id schedule_date r = r.user_id == user_id && r.schedule_date == schedule_date

unfoldable pub day_rows : ℕ → ℕ → Table → List ScheduledCheckSlot
day_rows user_id schedule_date t = sort_by by_ordinal (filter (of_day user_id schedule_date) t.rows)

unfoldable pub list_for_user_date : ℕ → ℕ → Table → Result (List ScheduledCheckSlot)
list_for_user_date user_id schedule_date t = load (day_rows user_id schedule_date t)

-- `tuple(slot.ordinal for slot in slots) == tuple(range(len(slots)))`, from `n` on
unfoldable pub counts_from : ℕ → List ScheduledCheckSlot → Bool
counts_from n [] = true
counts_from n (s ∷ slots) = s.ordinal == n && counts_from (n + 1) slots

-- `tuple(int(row["ordinal"]) for row in existing_rows) == expected_ordinals`
unfoldable pub same_ordinals : List ScheduledCheckSlot → List ScheduledCheckSlot → Bool
same_ordinals [] [] = true
same_ordinals (r ∷ rows) (s ∷ slots) = r.ordinal == s.ordinal && same_ordinals rows slots
same_ordinals _ _ = false

abbrev pub is_pristine : ScheduledCheckSlot → Bool
is_pristine s =
    is_planned s.status
    && not (is_some s.started_at || (is_some s.finished_at || is_some s.miss_reason))

-- `any(current.planned_at >= following.planned_at …)`, negated
unfoldable pub is_increasing : List ScheduledCheckSlot → Bool
is_increasing [] = true
is_increasing (s ∷ []) = true
is_increasing (s ∷ r ∷ slots) = ltb s.planned_at r.planned_at && is_increasing (r ∷ slots)

-- What the transaction does once the proposed slots have passed the checks.
unfoldable pub insert_checked :
    ScheduledCheckSlot → List ScheduledCheckSlot → Table → Result (Table × List ScheduledCheckSlot)
insert_checked first slots t =
    let existing = day_rows first.user_id first.schedule_date t in
    let proposed = first ∷ slots in
    if not (is_nil existing)
    then (do
      raise_if (not (same_ordinals existing proposed)) incomplete_daily_schedule
      loaded ← load existing
      ok (t, loaded))
    else (do
      raise_if (not (t.active first.user_id)) value_error
      let t' = record t { rows = t.rows ++ proposed }
      listed ← list_for_user_date first.user_id first.schedule_date t'
      ok (t', listed))

-- The slots that stay in the table are the persisted ones, if there are any for that day: a day
-- is never rolled again.
unfoldable pub insert_daily_schedule :
    List ScheduledCheckSlot → Table → Result (Table × List ScheduledCheckSlot)
insert_daily_schedule [] t = err value_error
insert_daily_schedule (first ∷ slots) t = do
  raise_if (not (counts_from 0 (first ∷ slots))) value_error
  raise_if (any (λ s. not (of_day first.user_id first.schedule_date s)) (first ∷ slots)) value_error
  raise_if (any (λ s. not (is_pristine s)) (first ∷ slots)) value_error
  raise_if (not (is_increasing (first ∷ slots))) value_error
  insert_checked first slots t

-- `ORDER BY planned_at DESC, ordinal DESC`
abbrev pub newest_first : ScheduledCheckSlot → ScheduledCheckSlot → Bool
newest_first r s =
    ltb s.planned_at r.planned_at || (r.planned_at == s.planned_at && ltb s.ordinal r.ordinal)

-- `self._row_to_slot(row) if row is not None else None`
abbrev pub load_option : Option ScheduledCheckSlot → Result (Option ScheduledCheckSlot)
load_option none = ok none
load_option (some r) = new_slot r >>= λ s. ok (some s)

unfoldable pub last_planned_before : ℕ → ℕ → Table → Result (Option ScheduledCheckSlot)
unfolding first_by new_slot
last_planned_before user_id instant t =
    load_option (
      first_by newest_first (filter (λ r. r.user_id == user_id && ltb r.planned_at instant) t.rows))
