-- ===== src/Schedule/Store/Offered.antt =====
-- What the slots that `prepare_due` returns are worth: each of them can be claimed at once
-- (src/booksaver/infrastructure/persistence/scheduled_check_slots.py).
use booksaver_agent.Base.{ℕ, ◌-◌, ◌≡◌, sym, ap, some, List, All, ok}
use mathlib.Core.Path.{subst}
use booksaver_agent.Base.Pairs.{All-weaken}
use booksaver_agent.Schedule.Slot.{ScheduledCheckSlot}
use booksaver_agent.Schedule.Store.Rows.{Table, update}
use booksaver_agent.Schedule.Store.RowLaws.{All-sort_by}
use booksaver_agent.Schedule.Store.Sound.{IsSound, Evolves-IsSound}
use booksaver_agent.Schedule.Store.Due.{prepare_due, by_time}
use booksaver_agent.Schedule.Store.DueLaws.{prepare_due_cases, offered_rows, offer-IsClaim}
use booksaver_agent.Schedule.Store.Claim.{claim, mark_running}
use booksaver_agent.Schedule.Store.ClaimLaws.{IsClaim, started}
use booksaver_agent.Schedule.Store.ClaimSuccess.{claim_success}

-- The claim of a slot succeeds and returns the slot, running since `now`.
abbrev pub IsClaimable : ℕ → ℕ → ℕ → Table → ScheduledCheckSlot → Type 0
IsClaimable now grace spacing t s =
    claim s.identity now grace spacing t
    ≡ ok (
      record t { rows = update (started now s.identity) (mark_running now) t.rows },
      some (mark_running now s),
    )

-- On a sound table, a call of `prepare_due` that returns leaves a sound table, and each slot that
-- it returns can be claimed at the same instant: the claim succeeds, marks that row as running
-- since then and returns it.
pub prepare_due-IsClaimable :
    (now grace spacing : ℕ) (t t' : Table) (slots : List ScheduledCheckSlot)
    → IsSound t.rows
    → prepare_due now grace spacing t ≡ ok (t', slots)
    → IsSound t'.rows × All (IsClaimable now grace spacing t') slots
prepare_due-IsClaimable now grace spacing t t' slots sound h =
    let (g, s, past, (offered, offers, same_slots, same_access)) =
      prepare_due_cases now grace spacing t t' slots h in
    let sound' =
      Evolves-IsSound t.rows t'.rows sound
        (offered_rows now grace spacing t past sound t'.rows offered offers) in
    let claims = offer-IsClaim now grace spacing t past sound t'.rows offered offers in
    let same : record t { rows = t'.rows } ≡ t' =
      ap (λ active. record t' { active = active }) (sym same_access) in
    (
      sound',
      subst (λ l. All (IsClaimable now grace spacing t') l) (sym same_slots)
          (All-sort_by by_time (IsClaimable now grace spacing t') offered (
            All-weaken _ (IsClaimable now grace spacing t') offered
              (λ r c.
                claim_success now grace spacing t' r g s past sound'
                  (subst (λ u. IsClaim r.identity now (now - grace) spacing u r) same c))
              claims)),
    )
