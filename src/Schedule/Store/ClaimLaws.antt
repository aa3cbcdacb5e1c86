-- ===== src/Schedule/Store/ClaimLaws.antt =====
-- `claim`, `complete`, `miss` and `recover_running` of
-- src/booksaver/infrastructure/persistence/scheduled_check_slots.py, row by row.
use mathlib.Core.List.{Memᴰ}
use booksaver_agent.Base.{
  ℕ, ◌-◌, ◌≡◌, refl, ◌⊎◌, inl, inr, Bool, true, false, Bool-cases, Option, none, some, List, [],
  ◌∷◌, arith, All, ok, ◌&&◌, any,
}
use booksaver_agent.Base.Pairs.{Zip, All-weaken, All-of_each}
use booksaver_agent.Schedule.Slot.{SlotIdentity, MissReason, ScheduledCheckSlot}
use booksaver_agent.Schedule.Store.Rows.{
  Table, has_identity, update, is_planned, is_running, mark_missed, latest_started,
}
use booksaver_agent.Schedule.Store.RowLaws.{update-Zip}
use booksaver_agent.Schedule.Store.Lifecycle.{
  Evolves, Evolves-refl, miss_planned-Evolves, miss_running-Evolves, complete-Evolves, SameStart,
}
use booksaver_agent.Schedule.Store.Due.{is_due}
use booksaver_agent.Schedule.Store.Claim.{
  find, is_newer_due, too_soon, start_row, claim_row, claim_found, claim, started_by, can_complete,
  complete, can_miss, miss, recover_running,
}

pub find-some :
    (p : ScheduledCheckSlot → Bool) (rows : List ScheduledCheckSlot) (r : ScheduledCheckSlot)
    → find p rows ≡ some r
    → Memᴰ r rows × (p r ≡ true)
unfolding find
find-some p [] r h = cc
find-some p (x ∷ rows) r h = elim (Bool-cases (p x)) [
  | inl e ↦ let same : x ≡ r = ground (arith, h, e) in (Memᴰ.head (rw same), rw (← same) e)
  | inr e ↦ let (m, q) = find-some p rows r (ground (arith, h, e)) in (Memᴰ.tail m, q)
]

-- No running row started after `now`: the clock has not been set back.
abbrev pub IsClockAhead : ℕ → List ScheduledCheckSlot → Type 0
IsClockAhead now rows =
    All (λ r. is_running r.status ≡ true → started_by now r.started_at ≡ true) rows

pub update-Evolves :
    (p : ScheduledCheckSlot → Bool) (f : ScheduledCheckSlot → ScheduledCheckSlot)
    (rows : List ScheduledCheckSlot)
    → All (λ r. p r ≡ true → Evolves r (f r)) rows
    → Zip Evolves rows (update p f rows)
update-Evolves p f rows h = update-Zip Evolves p f rows (
    All-weaken (λ r. p r ≡ true → Evolves r (f r))
      (λ r. (p r ≡ false → Evolves r r) × (p r ≡ true → Evolves r (f r))) rows
      (λ r k. (λ _. Evolves-refl r, k)) h)

pub complete-Zip :
    (identity : SlotIdentity) (now : ℕ) (t : Table)
    → Zip Evolves t.rows (complete identity now t).0.rows
unfolding complete
complete-Zip identity now t = update-Evolves (can_complete identity now) _ t.rows (
    All-of_each (λ r. can_complete identity now r ≡ true → Evolves r _) t.rows
      λ r h. complete-Evolves now r (ground arith) (ground arith))

pub complete-SameStart :
    (identity : SlotIdentity) (now : ℕ) (t : Table)
    → Zip SameStart t.rows (complete identity now t).0.rows
unfolding complete
complete-SameStart identity now t =
    update-Zip SameStart (can_complete identity now) _ t.rows
      (All-of_each _ t.rows λ r. (λ _. (refl, refl), λ _. (refl, refl)))

pub miss-Zip :
    (identity : SlotIdentity) (now : ℕ) (reason : MissReason) (t : Table)
    → IsClockAhead now t.rows
    → Zip Evolves t.rows (miss identity now reason t).0.rows
unfolding miss
miss-Zip identity now reason t ahead =
    update-Evolves (can_miss identity now) (mark_missed now reason) t.rows (
      All-weaken (λ r. is_running r.status ≡ true → started_by now r.started_at ≡ true)
        (λ r. can_miss identity now r ≡ true → Evolves r (mark_missed now reason r)) t.rows
        (λ r k h. elim (Bool-cases (is_running r.status)) [
          | inl e ↦ miss_running-Evolves now reason r e (k e)
          | inr e ↦ miss_planned-Evolves now reason r (ground arith) (ground arith)
        ])
        ahead)

pub recover_running-Zip :
    (now : ℕ) (t : Table)
    → IsClockAhead now t.rows
    → Zip Evolves t.rows (recover_running now t).0.rows
unfolding recover_running
recover_running-Zip now t ahead =
    update-Evolves (λ r. is_running r.status) (mark_missed now MissReason.recovered_running) t.rows
      (All-weaken (λ r. is_running r.status ≡ true → started_by now r.started_at ≡ true)
        (λ r.
          is_running r.status ≡ true → Evolves r (mark_missed now MissReason.recovered_running r))
        t.rows (λ r k h. miss_running-Evolves now MissReason.recovered_running r h (k h)) ahead)

-- The row that a claim starts, and what the claim found before it did so.
pub record IsClaim (identity : SlotIdentity) (now cutoff spacing : ℕ) (t : Table)
    (row : ScheduledCheckSlot) : Type 0 where
  pub in_table : Memᴰ row t.rows
  pub of_key : has_identity identity row ≡ true
  pub due : is_due t.active cutoff now row ≡ true
  pub newest : any (is_newer_due cutoff now row) t.rows ≡ false
  pub spaced : too_soon now spacing (latest_started row.user_id t.rows) ≡ false

abbrev pub started : ℕ → SlotIdentity → ScheduledCheckSlot → Bool
started now identity r = has_identity identity r && is_planned r.status

-- A claim that returns left the table alone, or found a claimable row and started its key.
abbrev pub ClaimOutcome :
    SlotIdentity → ℕ → ℕ → ℕ → Table → Table → Option ScheduledCheckSlot → Type 0
ClaimOutcome identity now cutoff spacing t t' slot =
    ((t' ≡ t) × (slot ≡ none))
    ⊎ ((row : ScheduledCheckSlot) × IsClaim identity now cutoff spacing t row
        × (start_row row.identity now t ≡ ok (t', slot)))

claim_row_cases :
    (now cutoff spacing : ℕ) (row : ScheduledCheckSlot) (t t' : Table)
    (slot : Option ScheduledCheckSlot)
    → claim_row now cutoff spacing row t ≡ ok (t', slot)
    → ((t' ≡ t) × (slot ≡ none))
      ⊎ ((any (is_newer_due cutoff now row) t.rows ≡ false)
          × (too_soon now spacing (latest_started row.user_id t.rows) ≡ false)
          × (start_row row.identity now t ≡ ok (t', slot)))
unfolding claim_row
claim_row_cases now cutoff spacing row t t' slot h =
    elim (Bool-cases (any (is_newer_due cutoff now row) t.rows)) [
      | inl newer ↦ let h' = rw newer at h in inl (cc, cc)
      | inr newest ↦ elim (Bool-cases (too_soon now spacing (latest_started row.user_id t.rows))) [
        | inl soon ↦ let h' = rw (newest, soon) at h in inl (cc, cc)
        | inr apart ↦ inr (newest, apart, rw (newest, apart) at h)
      ]
    ]

pub claim_cases :
    (identity : SlotIdentity) (now grace spacing : ℕ) (t t' : Table)
    (slot : Option ScheduledCheckSlot)
    → claim identity now grace spacing t ≡ ok (t', slot)
    → ClaimOutcome identity now (now - grace) spacing t t' slot
claim_cases identity now grace spacing t t' slot h =
    found (find (λ r. has_identity identity r && is_due t.active (now - grace) now r) t.rows) refl
      (unguarded h)
  where
    unguarded :
        claim identity now grace spacing t ≡ ok (t', slot)
        → claim_found now
            (now - grace)
            spacing
            (find (λ r. has_identity identity r && is_due t.active (now - grace) now r) t.rows)
            t
          ≡ ok (t', slot)
    unguarded k = unfold claim in ground (arith, k)

    found :
        (row : Option ScheduledCheckSlot)
        → find (λ r. has_identity identity r && is_due t.active (now - grace) now r) t.rows ≡ row
        → claim_found now (now - grace) spacing row t ≡ ok (t', slot)
        → ClaimOutcome identity now (now - grace) spacing t t' slot
    found none e k = inl (cc, cc)
    found (some row) e k =
        let (m, test) =
          find-some (λ r. has_identity identity r && is_due t.active (now - grace) now r) t.rows row
            e in
        elim (claim_row_cases now (now - grace) spacing row t t' slot k) [
          | inl same ↦ inl same
          | inr (newest, apart, start) ↦ inr (
            row,
            record {
              in_table = m;
              of_key = ground (arith, test);
              due = ground (arith, test);
              newest = newest;
              spaced = apart;
            },
            start,
          )
        ]
