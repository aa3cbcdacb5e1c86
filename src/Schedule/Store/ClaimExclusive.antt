-- ===== src/Schedule/Store/ClaimExclusive.antt =====
-- What a claim that went through keeps out until the spacing is over
-- (src/booksaver/infrastructure/persistence/scheduled_check_slots.py).
use mathlib.Core.List.{Memᴰ}
use booksaver_agent.Base.{
  ℕ, ◌+◌, ◌-◌, ◌≤◌, ◌<◌, ◌≡◌, ◌∙◌, inl, inr, Bool, true, Bool-cases, Option, none, some,
  Option-cases, List, [], ◌∷◌, arith, ok, ◌&&◌, any,
}
use booksaver_agent.Schedule.Slot.{SlotIdentity, ScheduledCheckSlot}
use booksaver_agent.Schedule.Store.Rows.{
  Table, has_identity, update, is_planned, later, latest_started,
}
use booksaver_agent.Schedule.Store.Due.{is_due}
use booksaver_agent.Schedule.Store.Claim.{
  find, is_newer_due, too_soon, claim_row, claim, mark_running,
}
use booksaver_agent.Schedule.Store.ClaimLaws.{find-some, claim_cases, started}
use booksaver_agent.Schedule.Store.ClaimSuccess.{claim_guards}
use booksaver_agent.Schedule.Store.ClaimEffect.{rows-start_row}

too_soon-first :
    (now spacing : ℕ) (a b : Option ℕ)
    → too_soon now spacing a ≡ true
    → too_soon now spacing (later a b) ≡ true
too_soon-first now spacing a b h = ground (arith, h)

too_soon-rest :
    (now spacing : ℕ) (a b : Option ℕ)
    → too_soon now spacing b ≡ true
    → too_soon now spacing (later a b) ≡ true
too_soon-rest now spacing a b h = ground (arith, h)

-- A planned row that was started counts for its user until the spacing is over.
latest_started-update :
    (now now' spacing : ℕ) (rows : List ScheduledCheckSlot) (row : ScheduledCheckSlot)
    → Memᴰ row rows
    → is_planned row.status ≡ true
    → now' < now + spacing
    → too_soon now' spacing
        (latest_started row.user_id (update (started now row.identity) (mark_running now) rows))
      ≡ true
unfolding latest_started update
latest_started-update now now' spacing [] row m planned early = elim m [ ]
latest_started-update now now' spacing (r ∷ rows) row (Memᴰ.head e) planned early = rw e (
    let mine : is_planned r.status ≡ true = rw (← e) planned in
    let rest = latest_started r.user_id (update (started now r.identity) (mark_running now) rows) in
    let first = too_soon-first now' spacing (some now) rest (ground (arith, early)) in
    ground (arith, mine, first))
latest_started-update now now' spacing (r ∷ rows) row (Memᴰ.tail m) planned early =
    too_soon-rest now' spacing _ _ (latest_started-update now now' spacing rows row m planned early)

claim_row-refused :
    (now cutoff spacing : ℕ) (row : ScheduledCheckSlot) (t : Table)
    → too_soon now spacing (latest_started row.user_id t.rows) ≡ true
    → claim_row now cutoff spacing row t ≡ ok (t, none)
unfolding claim_row
claim_row-refused now cutoff spacing row t h =
    elim (Bool-cases (any (is_newer_due cutoff now row) t.rows)) [
      | inl newer ↦ rw newer
      | inr newest ↦ rw (newest, h)
    ]

refused :
    (other : SlotIdentity) (now grace spacing : ℕ) (t : Table)
    → 0 < grace
    → 0 < spacing
    → grace ≤ now
    → too_soon now spacing (latest_started other.user_id t.rows) ≡ true
    → claim other now grace spacing t ≡ ok (t, none)
refused other now grace spacing t g s past soon =
    claim_guards other now grace spacing t g s past ∙ elim (Option-cases (find p t.rows)) [
      | inl e ↦ rw e
      | inr (row, e) ↦
          let (_, test) = find-some p t.rows row e in
          let same : row.user_id ≡ other.user_id = ground (arith, test) in
          rw e (claim_row-refused now (now - grace) spacing row t (rw same soon))
    ]
  where
    p : ScheduledCheckSlot → Bool
    p r = has_identity other r && is_due t.active (now - grace) now r

-- On the table that a claim which returned a slot has left, no claim of the same user goes through
-- before the spacing is over, of that slot or of another: it leaves the table alone and returns
-- nothing, provided that its grace and the spacing are not 0 and the grace does not reach before the
-- first instant.
pub claim-exclusive :
    (identity other : SlotIdentity) (now now' grace grace' spacing : ℕ) (t t' : Table)
    (slot : ScheduledCheckSlot)
    → claim identity now grace spacing t ≡ ok (t', some slot)
    → other.user_id ≡ identity.user_id
    → 0 < grace'
    → 0 < spacing
    → grace' ≤ now'
    → now' < now + spacing
    → claim other now' grace' spacing t' ≡ ok (t', none)
claim-exclusive identity other now now' grace grace' spacing t t' slot h user g s past early =
    elim (claim_cases identity now grace spacing t t' (some slot) h) [
      | inl (_, nothing) ↦ cc nothing
      | inr (row, found, start) ↦
          let (rows, _) = rows-start_row row.identity now t t' (some slot) start in
          let planned : is_planned row.status ≡ true = ground (arith, found.due) in
          let same : other.user_id ≡ row.user_id = ground (arith, found.of_key, user) in
          refused other now' grace' spacing t' g s past (
            rw same (
              rw rows
                (latest_started-update now now' spacing t.rows row found.in_table planned early)))
    ]
