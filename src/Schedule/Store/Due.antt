-- ===== src/Schedule/Store/Due.antt =====
-- `prepare_due` of src/booksaver/infrastructure/persistence/scheduled_check_slots.py: stale work is
-- closed, and at most one slot of each user is offered. An exception rolls the table back, so the
-- new table comes only with a result.
use booksaver_agent.Base.{
  ℕ, ◌+◌, ◌-◌, Bool, not, ◌&&◌, ◌||◌, Option, none, some, List, [], ◌∷◌, ltb, leb, ◌==◌,
  if◌then◌else◌, any, filter, Result, ok, value_error, overflow_error, ◌>>=◌, ◌>>◌, raise_if,
}
use booksaver_agent.Schedule.Slot.{MissReason, ScheduledCheckSlot, new_slot}
use booksaver_agent.Schedule.Store.Rows.{
  Table, is_planned, has_identity, update, mark_missed, latest_started, sort_by,
}

-- planned, due by `now`, and of no active user
abbrev pub is_orphaned : (ℕ → Bool) → ℕ → ScheduledCheckSlot → Bool
is_orphaned active now r = is_planned r.status && (leb r.planned_at now && not (active r.user_id))

abbrev pub is_stale : ℕ → ScheduledCheckSlot → Bool
is_stale cutoff r = is_planned r.status && ltb r.planned_at cutoff

abbrev pub is_due : (ℕ → Bool) → ℕ → ℕ → ScheduledCheckSlot → Bool
is_due active cutoff now r =
    is_planned r.status && (leb cutoff r.planned_at && (leb r.planned_at now && active r.user_id))

-- `ORDER BY user_id, planned_at DESC, ordinal DESC`
abbrev pub by_user_newest : ScheduledCheckSlot → ScheduledCheckSlot → Bool
by_user_newest r s =
    ltb r.user_id s.user_id
    || (r.user_id == s.user_id
        && (ltb s.planned_at r.planned_at
            || (r.planned_at == s.planned_at && ltb s.ordinal r.ordinal)))

-- `_miss_planned_row`
unfoldable pub miss_planned_row :
    ℕ → MissReason → ScheduledCheckSlot → List ScheduledCheckSlot → List ScheduledCheckSlot
miss_planned_row now reason row =
    update (λ r. has_identity row.identity r && is_planned r.status) (mark_missed now reason)

-- The loop over the due rows: the first of each user is kept, the others are superseded.
unfoldable pub split_newest :
    List ℕ → List ScheduledCheckSlot → List ScheduledCheckSlot × List ScheduledCheckSlot
split_newest seen [] = ([], [])
split_newest seen (r ∷ due) =
    let known = any (λ u. u == r.user_id) seen in
    let (newest, superseded) = split_newest (if known then seen else r.user_id ∷ seen) due in
    if known then (newest, r ∷ superseded) else (r ∷ newest, superseded)

unfoldable pub miss_all :
    ℕ → MissReason → List ScheduledCheckSlot → List ScheduledCheckSlot → List ScheduledCheckSlot
miss_all now reason [] rows = rows
miss_all now reason (r ∷ superseded) rows =
    miss_all now reason superseded (miss_planned_row now reason r rows)

pub data Spacing : Type 0 where
  claimable conflict wait : Spacing

-- The spacing of one offered row against the latest start of its user.
unfoldable pub judge : ℕ → ℕ → ℕ → ScheduledCheckSlot → Option ℕ → Spacing
judge now grace spacing slot none = claimable
judge now grace spacing slot (some latest) =
    if ltb (slot.planned_at + grace) (latest + spacing)
    then conflict
    else if leb (latest + spacing) now
    then claimable
    else wait

-- what the verdict does to the table and to the list of claimable slots
abbrev pub rows_after :
    Spacing → ℕ → ScheduledCheckSlot → List ScheduledCheckSlot → List ScheduledCheckSlot
rows_after conflict now row rows = miss_planned_row now MissReason.spacing_conflict row rows
rows_after _ now row rows = rows

abbrev pub offered_after :
    Spacing → ScheduledCheckSlot → List ScheduledCheckSlot → List ScheduledCheckSlot
offered_after claimable slot offered = slot ∷ offered
offered_after _ slot offered = offered

-- The loop over the newest rows.
unfoldable pub offer :
    ℕ
    → ℕ
    → ℕ
    → List ScheduledCheckSlot
    → List ScheduledCheckSlot
    → Result (List ScheduledCheckSlot × List ScheduledCheckSlot)
offer now grace spacing [] rows = ok (rows, [])
offer now grace spacing (row ∷ newest) rows = do
  slot ← new_slot row
  let verdict = judge now grace spacing slot (latest_started slot.user_id rows)
  rest ← offer now grace spacing newest (rows_after verdict now row rows)
  ok (rest.0, offered_after verdict slot rest.1)

-- `key=lambda slot: (slot.planned_at, slot.user_id, slot.ordinal)`
abbrev pub by_time : ScheduledCheckSlot → ScheduledCheckSlot → Bool
by_time r s =
    ltb r.planned_at s.planned_at
    || (r.planned_at == s.planned_at
        && (ltb r.user_id s.user_id || (r.user_id == s.user_id && ltb r.ordinal s.ordinal)))

-- The two updates that close rows of unavailable users and rows past their grace.
unfoldable pub close_stale : (ℕ → Bool) → ℕ → ℕ → List ScheduledCheckSlot → List ScheduledCheckSlot
close_stale active now cutoff rows =
    update (is_stale cutoff) (mark_missed now MissReason.grace_expired)
      (update (is_orphaned active now) (mark_missed now MissReason.user_unavailable) rows)

unfoldable pub due_rows : (ℕ → Bool) → ℕ → ℕ → List ScheduledCheckSlot → List ScheduledCheckSlot
due_rows active cutoff now rows = sort_by by_user_newest (filter (is_due active cutoff now) rows)

unfoldable pub prepare_due : ℕ → ℕ → ℕ → Table → Result (Table × List ScheduledCheckSlot)
prepare_due now grace minimum_spacing t = do
  raise_if (leb grace 0) value_error
  raise_if (leb minimum_spacing 0) value_error
  raise_if (ltb now grace) overflow_error
  let cutoff = now - grace
  let closed = close_stale t.active now cutoff t.rows
  let groups = split_newest [] (due_rows t.active cutoff now closed)
  let missed = miss_all now MissReason.superseded_catch_up groups.1 closed
  offered ← offer now grace minimum_spacing groups.0 missed
  ok (record t { rows = offered.0 }, sort_by by_time offered.1)
