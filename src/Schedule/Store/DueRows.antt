-- ===== src/Schedule/Store/DueRows.antt =====
-- The updates of `prepare_due` (src/booksaver/infrastructure/persistence/scheduled_check_slots.py),
-- row by row, and its choice of each user's newest row.
use mathlib.Core.List.{Memᴰ}
use booksaver_agent.Base.{
  ℕ, ◌≤◌, ◌≡◌, refl, inl, inr, Bool, true, false, Bool-cases, List, [], ◌∷◌, arith, All,
}
use booksaver_agent.Base.Pairs.{Zip, Zip-trans, All-Zip, All-weaken, All-of_each}
use booksaver_agent.Schedule.Slot.{MissReason, ScheduledCheckSlot}
use booksaver_agent.Schedule.Store.Rows.{
  has_identity, update, is_planned, mark_missed, latest_started,
}
use booksaver_agent.Schedule.Store.RowLaws.{update-Zip}
use booksaver_agent.Schedule.Store.Lifecycle.{
  Follows, Evolves, Evolves-trans, miss_planned-Evolves, SameStart, SameStart-trans,
}
use booksaver_agent.Schedule.Store.Sound.{IsDueKey}
use booksaver_agent.Schedule.Store.ClaimLaws.{update-Evolves}
use booksaver_agent.Schedule.Store.Due.{is_orphaned, is_stale, miss_planned_row, close_stale}

pub close_stale-Zip :
    (active : ℕ → Bool) (now cutoff : ℕ) (rows : List ScheduledCheckSlot)
    → cutoff ≤ now
    → Zip Evolves rows (close_stale active now cutoff rows)
unfolding close_stale
close_stale-Zip active now cutoff rows past =
    let first =
      update (is_orphaned active now) (mark_missed now MissReason.user_unavailable) rows in
    Zip-trans Evolves rows first
      (update (is_stale cutoff) (mark_missed now MissReason.grace_expired) first) Evolves-trans
      (update-Evolves (is_orphaned active now) _ rows (
        All-of_each _ rows λ r h.
          miss_planned-Evolves now MissReason.user_unavailable r (ground arith) (ground arith)))
      (update-Evolves (is_stale cutoff) _ first (
        All-of_each _ first
          λ r h. miss_planned-Evolves now MissReason.grace_expired r (ground arith) (ground arith)))

pub miss_planned_row-Zip :
    (now : ℕ) (reason : MissReason) (row : ScheduledCheckSlot) (rows : List ScheduledCheckSlot)
    → IsDueKey now rows row
    → Zip Evolves rows (miss_planned_row now reason row rows)
unfolding miss_planned_row
miss_planned_row-Zip now reason row rows due = update-Evolves _ (mark_missed now reason) rows (
    All-weaken (λ r. has_identity row.identity r ≡ true → r.planned_at ≤ now) _ rows
      (λ r k h. miss_planned-Evolves now reason r (ground arith) (k (ground arith))) due)

-- No row of that key is planned.
abbrev pub IsClosedKey : List ScheduledCheckSlot → ScheduledCheckSlot → Type 0
IsClosedKey rows row =
    All (λ r. has_identity row.identity r ≡ true → is_planned r.status ≡ false) rows

pub miss_planned_row-IsClosedKey :
    (now : ℕ) (reason : MissReason) (row : ScheduledCheckSlot) (rows : List ScheduledCheckSlot)
    → IsClosedKey (miss_planned_row now reason row rows) row
unfolding miss_planned_row update
miss_planned_row-IsClosedKey now reason row [] = tt
miss_planned_row-IsClosedKey now reason row (r ∷ rows) =
    (λ h. ground arith, miss_planned_row-IsClosedKey now reason row rows)

pub IsClosedKey-Follows :
    (rows rows' : List ScheduledCheckSlot) (row : ScheduledCheckSlot)
    → Zip Follows rows rows'
    → IsClosedKey rows row
    → IsClosedKey rows' row
IsClosedKey-Follows rows rows' row z h =
    All-Zip Follows (λ r. has_identity row.identity r ≡ true → is_planned r.status ≡ false)
      (λ r. has_identity row.identity r ≡ true → is_planned r.status ≡ false) rows rows'
      (λ r r' f k e. still r r' f (k (rw (← f.same_key) e))) z h
  where
    still :
        (r r' : ScheduledCheckSlot)
        → Follows r r'
        → is_planned r.status ≡ false
        → is_planned r'.status ≡ false
    still r r' f k = elim (Bool-cases (is_planned r'.status)) [
      | inl e ↦ rw (f.not_replanned e) k
      | inr e ↦ e
    ]

-- A row of another key stays in the table.
pub Memᴰ-miss_planned_row :
    (now : ℕ) (reason : MissReason) (row : ScheduledCheckSlot) (rows : List ScheduledCheckSlot)
    {s : ScheduledCheckSlot}
    → has_identity row.identity s ≡ false
    → Memᴰ s rows
    → Memᴰ s (miss_planned_row now reason row rows)
unfolding miss_planned_row update
Memᴰ-miss_planned_row now reason row [] h m = elim m [ ]
Memᴰ-miss_planned_row now reason row (x ∷ rows) {s} h (Memᴰ.head e) =
    Memᴰ.head (ground (arith, e, h))
Memᴰ-miss_planned_row now reason row (x ∷ rows) h (Memᴰ.tail m) =
    Memᴰ.tail (Memᴰ-miss_planned_row now reason row rows h m)

pub latest_started-SameStart :
    (user_id : ℕ) (rows rows' : List ScheduledCheckSlot)
    → Zip SameStart rows rows'
    → latest_started user_id rows' ≡ latest_started user_id rows
unfolding latest_started
latest_started-SameStart user_id [] [] z = refl
latest_started-SameStart user_id (r ∷ rows) (r' ∷ rows') z =
    rw (z.0.0, z.0.1) (rw (latest_started-SameStart user_id rows rows' z.1))
latest_started-SameStart user_id [] (r' ∷ rows') z = absurd z
latest_started-SameStart user_id (r ∷ rows) [] z = absurd z

pub miss_planned_row-SameStart :
    (now : ℕ) (reason : MissReason) (row : ScheduledCheckSlot) (rows : List ScheduledCheckSlot)
    → Zip SameStart rows (miss_planned_row now reason row rows)
unfolding miss_planned_row
miss_planned_row-SameStart now reason row rows =
    update-Zip SameStart _ (mark_missed now reason) rows
      (All-of_each _ rows λ r. (λ _. (refl, refl), λ _. (refl, refl)))

pub close_stale-SameStart :
    (active : ℕ → Bool) (now cutoff : ℕ) (rows : List ScheduledCheckSlot)
    → Zip SameStart rows (close_stale active now cutoff rows)
unfolding close_stale
close_stale-SameStart active now cutoff rows =
    let first =
      update (is_orphaned active now) (mark_missed now MissReason.user_unavailable) rows in
    Zip-trans SameStart rows first
      (update (is_stale cutoff) (mark_missed now MissReason.grace_expired) first) SameStart-trans
      (update-Zip SameStart _ (mark_missed now MissReason.user_unavailable) rows
        (All-of_each _ rows λ r. (λ _. (refl, refl), λ _. (refl, refl))))
      (update-Zip SameStart _ (mark_missed now MissReason.grace_expired) first
        (All-of_each _ first λ r. (λ _. (refl, refl), λ _. (refl, refl))))
