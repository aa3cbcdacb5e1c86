-- ===== src/Schedule/Store/History.antt =====
-- The repository over time (src/booksaver/infrastructure/persistence/scheduled_check_slots.py): its
-- calls in any order, at instants that do not go back, each committed or rolled back whole.
use booksaver_agent.Base.{
  ℕ, ◌≤◌, ◌≡◌, refl, inl, inr, Bool, true, not, Option-cases, Option, some, List, [], ◌∷◌, arith,
  All, All-append, ok,
}
use booksaver_agent.Base.Pairs.{
  Zip, All-Zip, All-weaken, All-filter, All-×, All-of_each, Pairwise, Pairwise-Zip, Pairwise-filter,
}
use booksaver_agent.Schedule.Slot.{SlotIdentity, MissReason, ScheduledCheckSlot, check_slot}
use booksaver_agent.Schedule.Store.Rows.{Table, update, mark_missed, is_running}
use booksaver_agent.Schedule.Store.RowLaws.{IsValidRow, IsDistinct, update-Zip}
use booksaver_agent.Schedule.Store.Lifecycle.{Evolves, SameStart}
use booksaver_agent.Schedule.Store.Sound.{IsSound, Evolves-IsSound}
use booksaver_agent.Schedule.Store.Insert.{insert_daily_schedule, is_pristine}
use booksaver_agent.Schedule.Store.InsertLaws.{insert-IsProposed, insert_checked-IsInserted}
use booksaver_agent.Schedule.Store.InsertSound.{insert-IsSound, any-false}
use booksaver_agent.Schedule.Store.Due.{prepare_due}
use booksaver_agent.Schedule.Store.DueLaws.{prepare_due_cases, offered_rows, offered_starts}
use booksaver_agent.Schedule.Store.Claim.{
  claim, complete, miss, recover_running, prune_terminal, started_by, can_miss, is_prunable,
  mark_running,
}
use booksaver_agent.Schedule.Store.ClaimLaws.{
  IsClockAhead, complete-SameStart, complete-Zip, miss-Zip, recover_running-Zip, claim_cases,
  started,
}
use booksaver_agent.Schedule.Store.ClaimEffect.{
  IsApart, claim-Zip, claim-IsApart, rows-start_row, Starts, start-Starts,
}

-- One committed call at `now`; `access` is a change of users' access by the rest of the program.
pub data Step (grace spacing now : ℕ) : Table → Table → Type 0 where
  plan :
      {t t' : Table} (first : ScheduledCheckSlot) (slots listed : List ScheduledCheckSlot)
      → All IsValidRow (first ∷ slots)
      → insert_daily_schedule (first ∷ slots) t ≡ ok (t', listed)
      → Step grace spacing now t t'
  prepare :
      {t t' : Table} (slots : List ScheduledCheckSlot)
      → prepare_due now grace spacing t ≡ ok (t', slots)
      → Step grace spacing now t t'
  start :
      {t t' : Table} (identity : SlotIdentity) (slot : Option ScheduledCheckSlot)
      → claim identity now grace spacing t ≡ ok (t', slot)
      → Step grace spacing now t t'
  finish :
      {t : Table} (identity : SlotIdentity) → Step grace spacing now t (complete identity now t).0
  give_up :
      {t : Table} (identity : SlotIdentity) (reason : MissReason)
      → Step grace spacing now t (miss identity now reason t).0
  recover : {t : Table} → Step grace spacing now t (recover_running now t).0
  prune : {t : Table} (before : ℕ) → Step grace spacing now t (prune_terminal before t).0
  access : {t : Table} (active : ℕ → Bool) → Step grace spacing now t (record t { active = active })

-- No row has started after `now`.
abbrev pub IsPast : ℕ → ScheduledCheckSlot → Type 0
IsPast now r = (a : ℕ) → r.started_at ≡ some a → a ≤ now

pub record Inv (spacing now : ℕ) (t : Table) : Type 0 where
  pub sound : IsSound t.rows
  pub apart : Pairwise (IsApart spacing) t.rows
  pub past : All (IsPast now) t.rows

running_started :
    (now : ℕ) (r : ScheduledCheckSlot)
    → IsValidRow r
    → IsPast now r
    → is_running r.status ≡ true
    → started_by now r.started_at ≡ true
unfolding check_slot
running_started now r v p h = elim (Option-cases r.started_at) [
  | inl e ↦ ground (arith, v, h, e)
  | inr (a, e) ↦ let early = p a e in ground arith
]

module _ (grace spacing last now : ℕ) (on : last ≤ now) where
  later-IsPast : (rows : List ScheduledCheckSlot) → All (IsPast last) rows → All (IsPast now) rows
  later-IsPast rows h =
      All-weaken (IsPast last) (IsPast now) rows
        (λ r p a e. let early = p a e in omega (arith, early)) h

  clock_ahead : (t : Table) → Inv spacing last t → IsClockAhead now t.rows
  clock_ahead t inv =
      All-weaken (λ r. IsValidRow r × IsPast now r)
        (λ r. is_running r.status ≡ true → started_by now r.started_at ≡ true) t.rows
        (λ r k h. running_started now r k.0 k.1 h)
        (All-× IsValidRow (IsPast now) t.rows inv.sound.valid (later-IsPast t.rows inv.past))

  -- A change that starts no row keeps the invariant.
  calm-Inv :
      (t t' : Table)
      → Inv spacing last t
      → Zip Evolves t.rows t'.rows
      → Zip SameStart t.rows t'.rows
      → Inv spacing now t'
  calm-Inv t t' inv evolved same = record {
    sound = Evolves-IsSound t.rows t'.rows inv.sound evolved;
    apart =
        Pairwise-Zip SameStart (IsApart spacing) (IsApart spacing) t.rows t'.rows
          (λ r r' s s' f g k e a b ea eb. k (cc (e, f.0, g.0)) a b (cc (ea, f.1)) (cc (eb, g.1)))
          same inv.apart;
    past =
        All-Zip SameStart (IsPast now) (IsPast now) t.rows t'.rows
          (λ r r' f p a e. p a (cc (e, f.1))) same (later-IsPast t.rows inv.past);
  }

  missed_starts :
      (p : ScheduledCheckSlot → Bool) (reason : MissReason) (rows : List ScheduledCheckSlot)
      → Zip SameStart rows (update p (mark_missed now reason) rows)
  missed_starts p reason rows =
      update-Zip SameStart p (mark_missed now reason) rows
        (All-of_each _ rows λ r. (λ _. (refl, refl), λ _. (refl, refl)))

  plan-Inv :
      (t t' : Table) (first : ScheduledCheckSlot) (slots listed : List ScheduledCheckSlot)
      → Inv spacing last t
      → All IsValidRow (first ∷ slots)
      → insert_daily_schedule (first ∷ slots) t ≡ ok (t', listed)
      → Inv spacing now t'
  plan-Inv t t' first slots listed inv valid h =
      let (sound, apart) =
        insert-IsSound spacing first slots t t' listed valid inv.sound inv.apart h in
      let (proposed, body) = insert-IsProposed first slots t h in
      record {
        sound = sound;
        apart = apart;
        past = elim (insert_checked-IsInserted first slots t t' listed body).change [
          | inl (same, _) ↦ rw same (later-IsPast t.rows inv.past)
          | inr (_, _, same) ↦ rw same (
              All-append (IsPast now) t.rows (first ∷ slots) (later-IsPast t.rows inv.past) (
                All-weaken (λ s. is_pristine s ≡ true) (IsPast now) (first ∷ slots)
                  (λ s k a e. ground arith)
                  (any-false is_pristine (first ∷ slots) proposed.pristine)))
        ];
      }

  start-Inv :
      (t t' : Table) (identity : SlotIdentity) (slot : Option ScheduledCheckSlot)
      → Inv spacing last t
      → claim identity now grace spacing t ≡ ok (t', slot)
      → Inv spacing now t'
  start-Inv t t' identity slot inv h = record {
    sound =
        Evolves-IsSound t.rows t'.rows inv.sound
          (claim-Zip identity now grace spacing t t' slot inv.sound h);
    apart = claim-IsApart identity now grace spacing t t' slot inv.sound inv.apart h;
    past = elim (claim_cases identity now grace spacing t t' slot h) [
      | inl (same, _) ↦ rw same (later-IsPast t.rows inv.past)
      | inr (row, _, started_row) ↦ rw ((rows-start_row row.identity now t t' slot started_row).0) (
          All-Zip (Starts now row.identity) (IsPast now) (IsPast now) t.rows
            (update (started now row.identity) (mark_running now) t.rows)
            (λ r r' f p a e. started_now row.identity r r' f p a e)
            (start-Starts now row.identity t.rows) (later-IsPast t.rows inv.past))
    ];
  }
    where
      started_now :
          (key : SlotIdentity) (r r' : ScheduledCheckSlot)
          → Starts now key r r'
          → IsPast now r
          → IsPast now r'
      started_now key r r' (u, inl same) p a e = p a (cc (e, same))
      started_now key r r' (u, inr (same, _)) p a e = ground arith

  -- Every committed call keeps the table sound and the starts of each user spaced.
  pub Step-Inv :
      (t t' : Table) → Inv spacing last t → Step grace spacing now t t' → Inv spacing now t'
  unfolding prune_terminal
  Step-Inv t t' inv (plan first slots listed valid h) = plan-Inv t t' first slots listed inv valid h
  Step-Inv t t' inv (prepare slots h) =
      let (_, _, past, (offered, offers, _, _)) =
        prepare_due_cases now grace spacing t t' slots h in
      calm-Inv t t' inv (offered_rows now grace spacing t past inv.sound t'.rows offered offers)
        (offered_starts now grace spacing t past inv.sound t'.rows offered offers)
  Step-Inv t t' inv (start identity slot h) = start-Inv t t' identity slot inv h
  Step-Inv t _ inv (finish identity) =
      calm-Inv t (complete identity now t).0 inv (complete-Zip identity now t)
        (complete-SameStart identity now t)
  Step-Inv t _ inv (give_up identity reason) =
      calm-Inv t (miss identity now reason t).0 inv
        (miss-Zip identity now reason t (clock_ahead t inv))
        (unfold miss in missed_starts (can_miss identity now) reason t.rows)
  Step-Inv t _ inv recover =
      calm-Inv t (recover_running now t).0 inv (recover_running-Zip now t (clock_ahead t inv)) (
        unfold recover_running in
        missed_starts (λ r. is_running r.status) MissReason.recovered_running t.rows)
  Step-Inv t _ inv (prune before) =
      let kept = λ (r : ScheduledCheckSlot). not (is_prunable before r) in
      record {
        sound = record {
          valid = All-filter IsValidRow kept t.rows inv.sound.valid;
          distinct = Pairwise-filter IsDistinct kept t.rows inv.sound.distinct;
        };
        apart = Pairwise-filter (IsApart spacing) kept t.rows inv.apart;
        past = All-filter (IsPast now) kept t.rows (later-IsPast t.rows inv.past);
      }
  Step-Inv t _ inv (access active) = record {
    sound = inv.sound;
    apart = inv.apart;
    past = later-IsPast t.rows inv.past;
  }

-- The tables that are reached from an empty one.
pub data Reach (grace spacing : ℕ) : ℕ → Table → Type 0 where
  empty : (active : ℕ → Bool) → Reach grace spacing 0 (record { rows = []; active = active })
  next :
      {last now : ℕ} {t t' : Table}
      → Reach grace spacing last t
      → last ≤ now
      → Step grace spacing now t t'
      → Reach grace spacing now t'

-- Whatever calls the program makes from an empty table, in whatever order, at instants that do not
-- go back: every row would load, no key stands twice, any two starts of one user lie at least the
-- spacing apart, and no row has started after the last instant.
pub Reach-Inv : {grace spacing now : ℕ} {t : Table} → Reach grace spacing now t → Inv spacing now t
Reach-Inv (empty active) = record {
  sound = record { valid = tt; distinct = tt };
  apart = tt;
  past = tt;
}
Reach-Inv {grace} {spacing} (next {last} {now} {t} {t'} r on s) =
    Step-Inv grace spacing last now on t t' (Reach-Inv r) s
