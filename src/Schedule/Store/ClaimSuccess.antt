-- ===== src/Schedule/Store/ClaimSuccess.antt =====
-- When a claim goes through (src/booksaver/infrastructure/persistence/scheduled_check_slots.py).
use mathlib.Core.List.{Memᴰ}
use booksaver_agent.Base.{
  ℕ, ◌-◌, ◌≤◌, ◌<◌, ◌≡◌, refl, sym, ap, ◌∙◌, inl, inr, Bool, true, false, Bool-cases, some, List,
  [], ◌∷◌, arith, All, ok, ◌&&◌, any,
}
use booksaver_agent.Base.Pairs.{All-weaken, Pairwise, All-mem}
use booksaver_agent.Schedule.Slot.{SlotIdentity, ScheduledCheckSlot}
use booksaver_agent.Schedule.Store.Rows.{
  Table, has_identity, update, count, is_planned, latest_started,
}
use booksaver_agent.Schedule.Store.RowLaws.{IsValidRow, IsDistinct, new_slot-IsValidRow}
use booksaver_agent.Schedule.Store.Lifecycle.{start-Evolves}
use booksaver_agent.Schedule.Store.Sound.{IsSound, key_of}
use booksaver_agent.Schedule.Store.Due.{is_due}
use booksaver_agent.Schedule.Store.Claim.{
  find, is_newer_due, too_soon, start_row, claim_row, claim_found, claim, mark_running,
}
use booksaver_agent.Schedule.Store.ClaimLaws.{IsClaim, started}

find_unique :
    (p : ScheduledCheckSlot → Bool) (rows : List ScheduledCheckSlot) (row : ScheduledCheckSlot)
    → Memᴰ row rows
    → p row ≡ true
    → All (λ r. p r ≡ true → r ≡ row) rows
    → find p rows ≡ some row
unfolding find
find_unique p [] row m h u = elim m [ ]
find_unique p (x ∷ rows) row (Memᴰ.head e) h u =
    let h' : p x ≡ true = rw (← e) h in rw h' (ap some (sym e))
find_unique p (x ∷ rows) row (Memᴰ.tail m) h u = elim (Bool-cases (p x)) [
  | inl e ↦ rw e (ap some (u.0 e))
  | inr e ↦ rw e (find_unique p rows row m h u.1)
]

count_none :
    (p : ScheduledCheckSlot → Bool) (rows : List ScheduledCheckSlot)
    → All (λ r. p r ≡ false) rows
    → count p rows ≡ 0
unfolding count
count_none p [] h = refl
count_none p (x ∷ rows) h = rw h.0 (count_none p rows h.1)

-- The key of a row picks no row that differs from it.
other_key :
    (row : ScheduledCheckSlot) (rows : List ScheduledCheckSlot)
    → All (IsDistinct row) rows
    → All (λ r. (has_identity row.identity r && is_planned r.status) ≡ false) rows
other_key row rows d = All-weaken (IsDistinct row) _ rows (λ r k. ground arith) d

count-started :
    (now : ℕ) (rows : List ScheduledCheckSlot) (row : ScheduledCheckSlot)
    → Pairwise IsDistinct rows
    → Memᴰ row rows
    → is_planned row.status ≡ true
    → count (started now row.identity) rows ≡ 1
unfolding count
count-started now [] row d m h = elim m [ ]
count-started now (x ∷ rows) row d (Memᴰ.head e) h =
    let apart : All (IsDistinct row) rows = rw e d.0 in
    let none_left = count_none (started now row.identity) rows (other_key row rows apart) in
    ground (arith, none_left, e, h)
count-started now (x ∷ rows) row d (Memᴰ.tail m) h =
    let apart = All-mem (IsDistinct x) rows d.0 m in
    let others = count-started now rows row d.1 m h in ground (arith, others, apart)

find-started :
    (now : ℕ) (rows : List ScheduledCheckSlot) (row : ScheduledCheckSlot)
    → Pairwise IsDistinct rows
    → Memᴰ row rows
    → is_planned row.status ≡ true
    → find (has_identity row.identity) (update (started now row.identity) (mark_running now) rows)
      ≡ some (mark_running now row)
unfolding find update
find-started now [] row d m h = elim m [ ]
find-started now (x ∷ rows) row d (Memᴰ.head e) h =
    let planned : is_planned x.status ≡ true = rw (← e) h in rw e (ground (arith, planned))
find-started now (x ∷ rows) row d (Memᴰ.tail m) h =
    let apart = All-mem (IsDistinct x) rows d.0 m in
    let others = find-started now rows row d.1 m h in ground (arith, others, apart)

-- The start of a valid planned row returns that row, running.
pub start_row_lem :
    (now : ℕ) (t : Table) (row : ScheduledCheckSlot)
    → IsSound t.rows
    → Memᴰ row t.rows
    → is_planned row.status ≡ true
    → row.planned_at ≤ now
    → start_row row.identity now t
      ≡ ok (
        record t { rows = update (started now row.identity) (mark_running now) t.rows },
        some (mark_running now row),
      )
unfolding start_row
start_row_lem now t row sound m planned due =
    let counted = count-started now t.rows row sound.distinct m planned in
    let valid = All-mem IsValidRow t.rows sound.valid m in
    let loaded =
      new_slot-IsValidRow (mark_running now row) (start-Evolves now row planned due valid).1 in
    rw counted (rw (find-started now t.rows row sound.distinct m planned) (rw loaded))

pub claim_guards :
    (identity : SlotIdentity) (now grace spacing : ℕ) (t : Table)
    → 0 < grace
    → 0 < spacing
    → grace ≤ now
    → claim identity now grace spacing t
      ≡ claim_found now
          (now - grace)
          spacing
          (find (λ r. has_identity identity r && is_due t.active (now - grace) now r) t.rows)
          t
unfolding claim
claim_guards identity now grace spacing t g s past = ground arith

claim_row_lem :
    (now cutoff spacing : ℕ) (t : Table) (row : ScheduledCheckSlot)
    → any (is_newer_due cutoff now row) t.rows ≡ false
    → too_soon now spacing (latest_started row.user_id t.rows) ≡ false
    → claim_row now cutoff spacing row t ≡ start_row row.identity now t
unfolding claim_row
claim_row_lem now cutoff spacing t row newest spaced = rw (newest, spaced)

-- On a sound table, with a grace and a spacing that are not 0 and a grace that does not reach before
-- the first instant, the claim of a row that is due, the newest due one of its user and far enough
-- from the user's last start marks it as running since `now` and returns it.
pub claim_success :
    (now grace spacing : ℕ) (t : Table) (row : ScheduledCheckSlot)
    → 0 < grace
    → 0 < spacing
    → grace ≤ now
    → IsSound t.rows
    → IsClaim row.identity now (now - grace) spacing t row
    → claim row.identity now grace spacing t
      ≡ ok (
        record t { rows = update (started now row.identity) (mark_running now) t.rows },
        some (mark_running now row),
      )
claim_success now grace spacing t row g s past sound c =
    claim_guards row.identity now grace spacing t g s past
    ∙ rw found (claim_row_lem now (now - grace) spacing t row c.newest c.spaced)
    ∙ start_row_lem now t row sound c.in_table (planned c.due) (due_by c.due)
  where
    planned : is_due t.active (now - grace) now row ≡ true → is_planned row.status ≡ true
    planned d = ground arith

    due_by : is_due t.active (now - grace) now row ≡ true → row.planned_at ≤ now
    due_by d = ground arith

    found :
        find (λ r. has_identity row.identity r && is_due t.active (now - grace) now r) t.rows
        ≡ some row
    found =
        find_unique (λ r. has_identity row.identity r && is_due t.active (now - grace) now r) t.rows
          row c.in_table (ground (arith, c.of_key, c.due))
          (All-weaken (λ r. has_identity row.identity r ≡ true → r ≡ row) _ t.rows
            (λ r k h. k (ground arith)) (key_of t.rows row sound.distinct c.in_table))
