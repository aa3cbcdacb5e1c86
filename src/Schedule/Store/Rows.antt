-- ===== src/Schedule/Store/Rows.antt =====
-- The table `scheduled_check_slots` and what the SQL statements of
-- src/booksaver/infrastructure/persistence/scheduled_check_slots.py do to its rows. A row has the
-- fields of a slot, unchecked; the ISO texts of UTC instants are ordered as the instants are.
use booksaver_agent.Base.{
  ℕ, suc, Bool, true, false, ◌&&◌, Option, none, some, List, [], ◌∷◌, ltb, ◌==◌, if◌then◌else◌,
  Result, ok, ◌>>=◌,
}
use booksaver_agent.Schedule.Slot.{
  SlotStatus, MissReason, SlotIdentity, ScheduledCheckSlot, new_slot,
}

-- `users.access_state = 'active'` for a user that is there.
pub record Table : Type 0 where
  pub rows : List ScheduledCheckSlot
  pub active : ℕ → Bool

abbrev pub is_planned : SlotStatus → Bool
is_planned SlotStatus.planned = true
is_planned _ = false

abbrev pub is_running : SlotStatus → Bool
is_running SlotStatus.running = true
is_running _ = false

-- the primary key
abbrev pub has_identity : SlotIdentity → ScheduledCheckSlot → Bool
has_identity i r =
    r.user_id == i.user_id && (r.schedule_date == i.schedule_date && r.ordinal == i.ordinal)

-- `UPDATE … SET … WHERE …`, with the row count that it reports.
unfoldable pub update :
    (ScheduledCheckSlot → Bool)
    → (ScheduledCheckSlot → ScheduledCheckSlot)
    → List ScheduledCheckSlot
    → List ScheduledCheckSlot
update p f [] = []
update p f (r ∷ rows) = (if p r then f r else r) ∷ update p f rows

unfoldable pub count : (ScheduledCheckSlot → Bool) → List ScheduledCheckSlot → ℕ
count p [] = 0
count p (r ∷ rows) = let rest = count p rows in if p r then suc rest else rest

-- the columns that mark a row as missed
abbrev pub mark_missed : ℕ → MissReason → ScheduledCheckSlot → ScheduledCheckSlot
mark_missed now reason r = record r {
  status = SlotStatus.missed;
  finished_at = some now;
  miss_reason = some reason;
}

-- `SELECT MAX(started_at) … WHERE user_id = ? AND started_at IS NOT NULL`
abbrev pub later : Option ℕ → Option ℕ → Option ℕ
later none b = b
later (some a) none = some a
later (some a) (some b) = if ltb a b then some b else some a

unfoldable pub latest_started : ℕ → List ScheduledCheckSlot → Option ℕ
latest_started user_id [] = none
latest_started user_id (r ∷ rows) =
    later (if r.user_id == user_id then r.started_at else none) (latest_started user_id rows)

-- `ORDER BY … LIMIT 1`: the row that comes before every other.
unfoldable pub first_by :
    (ScheduledCheckSlot → ScheduledCheckSlot → Bool)
    → List ScheduledCheckSlot
    → Option ScheduledCheckSlot
first_by before [] = none
first_by before (r ∷ rows) = elim (first_by before rows) [
  | none ↦ some r
  | some best ↦ if before best r then some best else some r
]

-- `ORDER BY`, and Python's `sorted`: stable insertion.
unfoldable pub insert_by :
    (ScheduledCheckSlot → ScheduledCheckSlot → Bool)
    → ScheduledCheckSlot
    → List ScheduledCheckSlot
    → List ScheduledCheckSlot
insert_by before r [] = r ∷ []
insert_by before r (s ∷ rows) =
    let rest = insert_by before r rows in if before s r then s ∷ rest else r ∷ s ∷ rows

unfoldable pub sort_by :
    (ScheduledCheckSlot → ScheduledCheckSlot → Bool)
    → List ScheduledCheckSlot
    → List ScheduledCheckSlot
unfolding insert_by
sort_by before [] = []
sort_by before (r ∷ rows) = insert_by before r (sort_by before rows)

-- `tuple(self._row_to_slot(row) for row in rows)`: loading a row checks it.
unfoldable pub load : List ScheduledCheckSlot → Result (List ScheduledCheckSlot)
load [] = ok []
load (r ∷ rows) = do slot ← new_slot r; rest ← load rows; ok (slot ∷ rest)
