-- ===== src/Schedule/Store/Claim.antt =====
-- The guarded updates of src/booksaver/infrastructure/persistence/scheduled_check_slots.py: `claim`,
-- `complete`, `miss`, `recover_running`, `prune_terminal`, and the reads of what comes next.
use booksaver_agent.Base.{
  ℕ, ◌+◌, ◌-◌, Bool, true, false, not, ◌&&◌, ◌||◌, Option, none, some, List, [], ◌∷◌, ltb, leb,
  ◌==◌, if◌then◌else◌, any, filter, Result, ok, value_error, overflow_error, ◌>>=◌, ◌>>◌, raise_if,
}
use booksaver_agent.Schedule.Slot.{
  SlotStatus, MissReason, SlotIdentity, ScheduledCheckSlot, new_slot,
}
use booksaver_agent.Schedule.Store.Rows.{
  Table, is_planned, is_running, has_identity, update, count, mark_missed, latest_started, first_by,
}
use booksaver_agent.Schedule.Store.Insert.{load_option}
use booksaver_agent.Schedule.Store.Due.{is_due}

-- the row of that key, if there is one
unfoldable pub find :
    (ScheduledCheckSlot → Bool) → List ScheduledCheckSlot → Option ScheduledCheckSlot
find p [] = none
find p (r ∷ rows) = let rest = find p rows in if p r then some r else rest

-- `newer_due`: a planned row of the same user in the same window that comes later
abbrev pub is_newer_due : ℕ → ℕ → ScheduledCheckSlot → ScheduledCheckSlot → Bool
is_newer_due cutoff now row r =
    r.user_id == row.user_id
    && (is_planned r.status
        && (leb cutoff r.planned_at
            && (leb r.planned_at now
                && (ltb row.planned_at r.planned_at
                    || (r.planned_at == row.planned_at && ltb row.ordinal r.ordinal)))))

-- `now - latest < minimum_spacing`. A start after `now` gives a negative difference.
abbrev pub too_soon : ℕ → ℕ → Option ℕ → Bool
too_soon now spacing none = false
too_soon now spacing (some latest) = ltb now (latest + spacing)

abbrev pub mark_running : ℕ → ScheduledCheckSlot → ScheduledCheckSlot
mark_running now r = record r {
  status = SlotStatus.running;
  started_at = some now;
  finished_at = none;
  miss_reason = none;
}

-- the update of a claim and the row that is read back
unfoldable pub start_row : SlotIdentity → ℕ → Table → Result (Table × Option ScheduledCheckSlot)
start_row identity now t =
    let claimed = λ (r : ScheduledCheckSlot). has_identity identity r && is_planned r.status in
    let t' = record t { rows = update claimed (mark_running now) t.rows } in
    if count claimed t.rows == 1
    then (do slot ← load_option (find (has_identity identity) t'.rows); ok (t', slot))
    else ok (t', none)

-- the claim of a row that was found
unfoldable pub claim_row :
    ℕ → ℕ → ℕ → ScheduledCheckSlot → Table → Result (Table × Option ScheduledCheckSlot)
claim_row now cutoff spacing row t =
    if any (is_newer_due cutoff now row) t.rows
    then ok (t, none)
    else if too_soon now spacing (latest_started row.user_id t.rows)
    then ok (t, none)
    else start_row row.identity now t

abbrev pub claim_found :
    ℕ → ℕ → ℕ → Option ScheduledCheckSlot → Table → Result (Table × Option ScheduledCheckSlot)
claim_found now cutoff spacing none t = ok (t, none)
claim_found now cutoff spacing (some row) t = claim_row now cutoff spacing row t

unfoldable pub claim : SlotIdentity → ℕ → ℕ → ℕ → Table → Result (Table × Option ScheduledCheckSlot)
claim identity now grace minimum_spacing t = do
  raise_if (leb grace 0) value_error
  raise_if (leb minimum_spacing 0) value_error
  raise_if (ltb now grace) overflow_error
  let cutoff = now - grace
  let row = find (λ r. has_identity identity r && is_due t.active cutoff now r) t.rows
  claim_found now cutoff minimum_spacing row t

-- An update by key and guard, and whether it changed exactly one row.
unfoldable pub guarded_update :
    (ScheduledCheckSlot → Bool) → (ScheduledCheckSlot → ScheduledCheckSlot) → Table → Table × Bool
unfolding update count
guarded_update p f t = (record t { rows = update p f t.rows }, count p t.rows == 1)

-- `started_at <= ?`, false on NULL
abbrev pub started_by : ℕ → Option ℕ → Bool
started_by now none = false
started_by now (some start) = leb start now

abbrev pub can_complete : SlotIdentity → ℕ → ScheduledCheckSlot → Bool
can_complete identity now r =
    has_identity identity r && (is_running r.status && started_by now r.started_at)

unfoldable pub complete : SlotIdentity → ℕ → Table → Table × Bool
unfolding guarded_update
complete identity now =
    guarded_update (can_complete identity now)
      (λ r. record r { status = SlotStatus.completed; finished_at = some now; miss_reason = none })

abbrev pub can_miss : SlotIdentity → ℕ → ScheduledCheckSlot → Bool
can_miss identity now r =
    has_identity identity r
    && ((is_planned r.status || is_running r.status) && leb r.planned_at now)

unfoldable pub miss : SlotIdentity → ℕ → MissReason → Table → Table × Bool
unfolding guarded_update
miss identity now reason = guarded_update (can_miss identity now) (mark_missed now reason)

unfoldable pub recover_running : ℕ → Table → Table × ℕ
unfolding update count
recover_running now t =
    let running = λ (r : ScheduledCheckSlot). is_running r.status in
    (
      record t { rows = update running (mark_missed now MissReason.recovered_running) t.rows },
      count running t.rows,
    )

-- `status IN ('completed', 'missed') AND finished_at < ?`
abbrev pub is_prunable : ℕ → ScheduledCheckSlot → Bool
is_prunable before r =
    (elim r.status [ SlotStatus.completed ↦ true | SlotStatus.missed ↦ true | _ ↦ false ])
    && (elim r.finished_at [ none ↦ false | some finish ↦ ltb finish before ])

unfoldable pub prune_terminal : ℕ → Table → Table × ℕ
unfolding count
prune_terminal before t = (
  record t { rows = filter (λ r. not (is_prunable before r)) t.rows },
  count (is_prunable before) t.rows,
)

abbrev pub is_upcoming : (ℕ → Bool) → ℕ → ScheduledCheckSlot → Bool
is_upcoming active now r = is_planned r.status && (leb now r.planned_at && active r.user_id)

-- `ORDER BY planned_at, ordinal`
abbrev pub oldest_first : ScheduledCheckSlot → ScheduledCheckSlot → Bool
oldest_first r s =
    ltb r.planned_at s.planned_at || (r.planned_at == s.planned_at && ltb r.ordinal s.ordinal)

unfoldable pub next_planned_for_user : ℕ → ℕ → Table → Result (Option ScheduledCheckSlot)
unfolding first_by new_slot
next_planned_for_user user_id now t = load_option (
    first_by oldest_first (filter (λ r. r.user_id == user_id && is_upcoming t.active now r) t.rows))

-- `MIN(planned_at)` over the upcoming rows
abbrev pub earlier : ℕ → Option ℕ → Option ℕ
earlier a none = some a
earlier a (some b) = if ltb b a then some b else some a

unfoldable pub min_planned : List ScheduledCheckSlot → Option ℕ
min_planned [] = none
min_planned (r ∷ rows) = earlier r.planned_at (min_planned rows)

unfoldable pub next_planned_at : ℕ → Table → Option ℕ
unfolding min_planned
next_planned_at now t = min_planned (filter (is_upcoming t.active now) t.rows)
