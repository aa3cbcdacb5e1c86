-- ===== src/Schedule/Store/ClaimEffect.antt =====
-- What a successful claim does (src/booksaver/infrastructure/persistence/scheduled_check_slots.py):
-- one planned row starts, at a distance from every other start of its user.
use booksaver_agent.Base.{
  ℕ, ◌+◌, ◌-◌, ◌≤◌, ◌≡◌, refl, ◌⊎◌, inl, inr, true, false, Option, none, some, List, [], ◌∷◌, arith,
  All, if◌then◌else◌, ◌==◌, ok,
}
use booksaver_agent.Base.Pairs.{
  Zip, Zip-refl, All-weaken, All-of_each, Pairwise, Pairwise-Zip, Pairwise-All, Pairwise-×,
}
use booksaver_agent.Schedule.Slot.{SlotIdentity, ScheduledCheckSlot}
use booksaver_agent.Schedule.Store.Rows.{Table, has_identity, update, later, latest_started}
use booksaver_agent.Schedule.Store.RowLaws.{IsDistinct, update-Zip}
use booksaver_agent.Schedule.Store.Lifecycle.{Evolves, Evolves-refl, start-Evolves}
use booksaver_agent.Schedule.Store.Sound.{IsSound, IsDueKey-mem}
use booksaver_agent.Schedule.Store.Due.{is_due}
use booksaver_agent.Schedule.Store.Claim.{too_soon, start_row, claim, mark_running}
use booksaver_agent.Schedule.Store.ClaimLaws.{started, claim_cases, update-Evolves}

-- Whatever a start returns, its rows are the updated ones.
pub rows-start_row :
    (identity : SlotIdentity) (now : ℕ) (t t' : Table) (slot : Option ScheduledCheckSlot)
    → start_row identity now t ≡ ok (t', slot)
    → (t'.rows ≡ update (started now identity) (mark_running now) t.rows) × (t'.active ≡ t.active)
unfolding start_row
rows-start_row identity now t t' slot h = ground arith

-- Two starts of one user lie at least `spacing` apart.
abbrev pub IsApart : ℕ → ScheduledCheckSlot → ScheduledCheckSlot → Type 0
IsApart spacing r s =
    r.user_id ≡ s.user_id
    → (a b : ℕ) → r.started_at ≡ some a
    → s.started_at ≡ some b
    → (a + spacing ≤ b) ⊎ (b + spacing ≤ a)

abbrev StartedBefore : ℕ → ℕ → ℕ → ScheduledCheckSlot → Type 0
StartedBefore now spacing user_id r =
    r.user_id ≡ user_id → (a : ℕ) → r.started_at ≡ some a → a + spacing ≤ now

too_soon-later :
    (now spacing : ℕ) (a b : Option ℕ)
    → too_soon now spacing (later a b) ≡ false
    → (too_soon now spacing a ≡ false) × (too_soon now spacing b ≡ false)
too_soon-later now spacing a b h = ground arith

pub started_before :
    (now spacing user_id : ℕ) (rows : List ScheduledCheckSlot)
    → too_soon now spacing (latest_started user_id rows) ≡ false
    → All (StartedBefore now spacing user_id) rows
unfolding latest_started
started_before now spacing user_id [] h = tt
started_before now spacing user_id (r ∷ rows) h =
    let (here, rest) =
      too_soon-later now spacing (if r.user_id == user_id then r.started_at else none)
        (latest_started user_id rows) h in
    (
      λ of_user a at. ground (arith, here, of_user, at),
      started_before now spacing user_id rows rest,
    )

pub claim-Zip :
    (identity : SlotIdentity) (now grace spacing : ℕ) (t t' : Table)
    (slot : Option ScheduledCheckSlot)
    → IsSound t.rows
    → claim identity now grace spacing t ≡ ok (t', slot)
    → Zip Evolves t.rows t'.rows
claim-Zip identity now grace spacing t t' slot sound h =
    elim (claim_cases identity now grace spacing t t' slot h) [
      | inl (same, _) ↦ rw same (Zip-refl Evolves t.rows Evolves-refl)
      | inr (row, found, start) ↦
          let (rows, _) = rows-start_row row.identity now t t' slot start in
          rw rows (
            update-Evolves (started now row.identity) (mark_running now) t.rows (
              All-weaken (λ r. has_identity row.identity r ≡ true → r.planned_at ≤ now)
                (λ r. started now row.identity r ≡ true → Evolves r (mark_running now r)) t.rows
                (λ r k e. start-Evolves now r (ground arith) (k (ground arith)))
                (IsDueKey-mem now t.rows row sound.distinct found.in_table (due_by row found.due))))
    ]
  where
    due_by :
        (row : ScheduledCheckSlot)
        → is_due t.active (now - grace) now row ≡ true
        → row.planned_at ≤ now
    due_by row d = ground arith

-- What a start does to one row, as far as the spacing is concerned.
abbrev pub Starts : ℕ → SlotIdentity → ScheduledCheckSlot → ScheduledCheckSlot → Type 0
Starts now identity r r' =
    (r'.user_id ≡ r.user_id)
    × ((r'.started_at ≡ r.started_at)
        ⊎ ((r'.started_at ≡ some now) × (has_identity identity r ≡ true)))

pub start-Starts :
    (now : ℕ) (identity : SlotIdentity) (rows : List ScheduledCheckSlot)
    → Zip (Starts now identity) rows (update (started now identity) (mark_running now) rows)
start-Starts now identity rows =
    update-Zip (Starts now identity) (started now identity) (mark_running now) rows
      (All-of_each _ rows λ r. (λ _. (refl, inl refl), λ h. (refl, inr (refl, ground arith))))

Starts-IsApart :
    (now spacing : ℕ) (row r r' s s' : ScheduledCheckSlot)
    → Starts now row.identity r r'
    → Starts now row.identity s s'
    → ((StartedBefore now spacing row.user_id r × StartedBefore now spacing row.user_id s)
        × (IsDistinct r s × IsApart spacing r s))
    → IsApart spacing r' s'
Starts-IsApart now spacing row r r' s s' (u, inl f) (w, inl g) (before, (distinct, apart)) same a b
      ea eb =
    apart (cc (u, w)) a b (cc (f, ea)) (cc (g, eb))
Starts-IsApart now spacing row r r' s s' (u, inr f) (w, inl g) (before, (distinct, apart)) same a b
      ea eb =
    let gap = before.1 (ground arith) b (cc (g, eb)) in ground arith
Starts-IsApart now spacing row r r' s s' (u, inl f) (w, inr g) (before, (distinct, apart)) same a b
      ea eb =
    let gap = before.0 (ground arith) a (cc (f, ea)) in ground arith
Starts-IsApart now spacing row r r' s s' (u, inr f) (w, inr g) (before, (distinct, apart)) same a b
      ea eb =
    ground arith

-- On a sound table in which any two starts of a user lie at least the spacing apart, a claim that
-- returns leaves them so.
pub claim-IsApart :
    (identity : SlotIdentity) (now grace spacing : ℕ) (t t' : Table)
    (slot : Option ScheduledCheckSlot)
    → IsSound t.rows
    → Pairwise (IsApart spacing) t.rows
    → claim identity now grace spacing t ≡ ok (t', slot)
    → Pairwise (IsApart spacing) t'.rows
claim-IsApart identity now grace spacing t t' slot sound apart h =
    elim (claim_cases identity now grace spacing t t' slot h) [
      | inl (same, _) ↦ rw same apart
      | inr (row, found, start) ↦
          let (rows, _) = rows-start_row row.identity now t t' slot start in
          rw rows (
            Pairwise-Zip (Starts now row.identity)
              (λ r s.
                (StartedBefore now spacing row.user_id r × StartedBefore now spacing row.user_id s)
                × (IsDistinct r s × IsApart spacing r s))
              (IsApart spacing) t.rows (update (started now row.identity) (mark_running now) t.rows)
              (λ r r' s s' f g k. Starts-IsApart now spacing row r r' s s' f g k)
              (start-Starts now row.identity t.rows)
              (Pairwise-×
                (λ r s.
                  StartedBefore now spacing row.user_id r × StartedBefore now spacing row.user_id s)
                (λ r s. IsDistinct r s × IsApart spacing r s) t.rows
                (Pairwise-All (StartedBefore now spacing row.user_id) t.rows
                  (started_before now spacing row.user_id t.rows found.spaced))
                (Pairwise-× IsDistinct (IsApart spacing) t.rows sound.distinct apart)))
    ]
