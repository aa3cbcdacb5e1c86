-- ===== src/Schedule/Store/Lifecycle.antt =====
-- How one row may change: the lifecycle of a slot, kept by every statement of
-- src/booksaver/infrastructure/persistence/scheduled_check_slots.py.
use booksaver_agent.Base.{ℕ, ◌≤◌, ◌≡◌, refl, true, none, some, arith}
use booksaver_agent.Schedule.Slot.{
  SlotStatus, MissReason, ScheduledCheckSlot, check_slot, is_terminal,
}
use booksaver_agent.Schedule.Store.Rows.{is_planned, is_running, mark_missed}
use booksaver_agent.Schedule.Store.RowLaws.{IsValidRow}
use booksaver_agent.Schedule.Store.Claim.{mark_running, started_by}

-- `r'` may be what `r` becomes: the key and the plan stay, a closed row is not touched, a start is
-- not lost or moved, and no row is planned again.
pub record Follows (r r' : ScheduledCheckSlot) : Type 0 where
  pub same_key : r'.identity ≡ r.identity
  pub same_plan : r'.planned_at ≡ r.planned_at
  pub closed_stays : is_terminal r ≡ true → r' ≡ r
  pub start_stays : (at : ℕ) → r.started_at ≡ some at → r'.started_at ≡ some at
  pub not_replanned : is_planned r'.status ≡ true → r' ≡ r

pub Follows-refl : (r : ScheduledCheckSlot) → Follows r r
Follows-refl r = record {
  same_key = refl;
  same_plan = refl;
  closed_stays = λ _. refl;
  start_stays = λ at h. h;
  not_replanned = λ _. refl;
}

pub Follows-trans : (r s t : ScheduledCheckSlot) → Follows r s → Follows s t → Follows r t
unfolding is_terminal
Follows-trans r s t p q = record {
  same_key = cc (p.same_key, q.same_key);
  same_plan = cc (p.same_plan, q.same_plan);
  closed_stays = λ h.
      let e = p.closed_stays h in let f : is_terminal s ≡ true = rw e h in cc (e, q.closed_stays f);
  start_stays = λ at h. q.start_stays at (p.start_stays at h);
  not_replanned = λ h.
      let e = q.not_replanned h in
      let f : is_planned s.status ≡ true = rw (← e) h in cc (e, p.not_replanned f);
}

-- A valid row becomes a valid row that follows it.
abbrev pub Evolves : ScheduledCheckSlot → ScheduledCheckSlot → Type 0
Evolves r r' = IsValidRow r → Follows r r' × IsValidRow r'

pub Evolves-refl : (r : ScheduledCheckSlot) → Evolves r r
Evolves-refl r v = (Follows-refl r, v)

pub Evolves-trans : (r s t : ScheduledCheckSlot) → Evolves r s → Evolves s t → Evolves r t
Evolves-trans r s t p q v = let (f, w) = p v in let (g, x) = q w in (Follows-trans r s t f g, x)

pub miss_planned-Evolves :
    (now : ℕ) (reason : MissReason) (r : ScheduledCheckSlot)
    → is_planned r.status ≡ true
    → r.planned_at ≤ now
    → Evolves r (mark_missed now reason r)
unfolding check_slot is_terminal
miss_planned-Evolves now reason r p h v = (
  record {
    same_key = refl;
    same_plan = refl;
    closed_stays = ground arith;
    start_stays = λ at e. e;
    not_replanned = ground arith;
  },
  ground arith,
)

pub miss_running-Evolves :
    (now : ℕ) (reason : MissReason) (r : ScheduledCheckSlot)
    → is_running r.status ≡ true
    → started_by now r.started_at ≡ true
    → Evolves r (mark_missed now reason r)
unfolding check_slot is_terminal
miss_running-Evolves now reason r p h v = (
  record {
    same_key = refl;
    same_plan = refl;
    closed_stays = ground arith;
    start_stays = λ at e. e;
    not_replanned = ground arith;
  },
  ground arith,
)

pub complete-Evolves :
    (now : ℕ) (r : ScheduledCheckSlot)
    → is_running r.status ≡ true
    → started_by now r.started_at ≡ true
    → Evolves r
        (record r { status = SlotStatus.completed; finished_at = some now; miss_reason = none })
unfolding check_slot is_terminal
complete-Evolves now r p h v = (
  record {
    same_key = refl;
    same_plan = refl;
    closed_stays = ground arith;
    start_stays = λ at e. e;
    not_replanned = ground arith;
  },
  ground arith,
)

pub start-Evolves :
    (now : ℕ) (r : ScheduledCheckSlot)
    → is_planned r.status ≡ true
    → r.planned_at ≤ now
    → Evolves r (mark_running now r)
unfolding check_slot is_terminal
start-Evolves now r p h v = (
  record {
    same_key = refl;
    same_plan = refl;
    closed_stays = ground arith;
    start_stays = λ at e. ground arith;
    not_replanned = ground arith;
  },
  ground arith,
)

-- The start columns, which no miss touches.
abbrev pub SameStart : ScheduledCheckSlot → ScheduledCheckSlot → Type 0
SameStart r r' = (r'.identity ≡ r.identity) × (r'.started_at ≡ r.started_at)

pub SameStart-trans : (r s t : ScheduledCheckSlot) → SameStart r s → SameStart s t → SameStart r t
SameStart-trans r s t p q = (cc (p.0, q.0), cc (p.1, q.1))

pub SameStart-refl : (r : ScheduledCheckSlot) → SameStart r r
SameStart-refl r = (refl, refl)
