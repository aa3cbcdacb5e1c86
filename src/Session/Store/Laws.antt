-- ===== src/Session/Store/Laws.antt =====
-- What a claim of maintenance keeps out.
use booksaver_agent.Base.{
  ℕ, zero, suc, ◌+◌, ◌≤◌, ◌<◌, ◌≡◌, ◌≢◌, refl, sym, ap, ◌∙◌, true, false, not, ◌||◌, Option, none,
  some, ltb, ok, arith, inl, inr, Bool-cases, Option-cases, >>=-eq-ok,
}
use booksaver_agent.Base.Text.{Text, text_eq, text_eq_iff}
use booksaver_agent.Session.{
  SessionVerificationResult, UserSessionSnapshot, check_maintenance, maintenance_due_at,
}
use booksaver_agent.Session.Store.{
  OwnerFiles, save, snapshot, active_snapshot, claim_current, claim_maintenance, claimed_state,
  retry_delay, at_most_four, with_maintenance, is_revision, saved_as, complete_current,
  complete_maintenance, is_active_status, is_attempt,
}

-- How long after a claim the next one may come, by the number of failures before it: a quarter of an
-- hour, an hour, six hours, and from the fourth failure on a day.
abbrev pub backoff : ℕ → ℕ
backoff zero = 900000000
backoff (suc zero) = 3600000000
backoff (suc (suc zero)) = 21600000000
backoff _ = 86400000000

retry_delay-backoff : (failures : ℕ) → retry_delay (at_most_four (suc failures)) ≡ backoff failures
unfolding retry_delay
retry_delay-backoff zero = refl
retry_delay-backoff (suc zero) = refl
retry_delay-backoff (suc (suc zero)) = refl
retry_delay-backoff (suc (suc (suc failures))) = ground arith

saved-active :
    (s : UserSessionSnapshot) (files files' : OwnerFiles)
    → is_active_status s.metadata.status ≡ true
    → save s files ≡ ok files'
    → active_snapshot files' ≡ some s
unfolding save active_snapshot snapshot
saved-active s files files' active h = ground (arith, active, h)

found-active :
    (files : OwnerFiles) (s : UserSessionSnapshot)
    → active_snapshot files ≡ some s
    → is_active_status s.metadata.status ≡ true
unfolding active_snapshot
found-active files s h = ground (arith, h)

-- What was there before a claim that was granted, and what is there after it.
pub record IsClaimed (attempt_id : Text) (revision at : ℕ) (files files' : OwnerFiles)
    (s : UserSessionSnapshot) : Type 0 where
  pub current : UserSessionSnapshot
  pub before : active_snapshot files ≡ some current
  pub revised : is_revision revision current ≡ true
  pub due : maintenance_due_at current.metadata at ≤ at
  pub claimed :
      s ≡ with_maintenance (claimed_state attempt_id at current.metadata.maintenance) current
  pub after : active_snapshot files' ≡ some s

claim_current-IsClaimed :
    (attempt_id : Text) (revision at : ℕ) (current : UserSessionSnapshot)
    (files files' : OwnerFiles) (s : UserSessionSnapshot)
    → active_snapshot files ≡ some current
    → claim_current attempt_id revision at current files ≡ ok (files', some s)
    → IsClaimed attempt_id revision at files files' s
unfolding claim_current
claim_current-IsClaimed attempt_id revision at current files files' s e h =
    let state = claimed_state attempt_id at current.metadata.maintenance in
    let made = with_maintenance state current in
    elim (Bool-cases
      (not (is_revision revision current) || ltb at (maintenance_due_at current.metadata at))) [
        | inl k ↦ cc (h, k)
        | inr k ↦
            let (final, valid, rest) =
              >>=-eq-ok {B = OwnerFiles × Option UserSessionSnapshot} (check_maintenance state)
                (λ u. saved_as made files) {last = (files', some s)} (ground (arith, h, k)) in
            let (after, saved, same) =
              >>=-eq-ok {B = OwnerFiles × Option UserSessionSnapshot} (save made files)
                (λ f. ok (f, some made)) rest in
            let active = saved-active made files after (found-active files current e) saved in
            record {
              current = current;
              before = e;
              revised = ground (arith, k);
              due = ground (arith, k);
              claimed = cc same;
              after = cc (active, same);
            }
      ]

pub claim-IsClaimed :
    (attempt_id : Text) (revision at : ℕ) (files files' : OwnerFiles) (s : UserSessionSnapshot)
    → claim_maintenance attempt_id revision at files ≡ ok (files', some s)
    → IsClaimed attempt_id revision at files files' s
unfolding claim_maintenance
claim-IsClaimed attempt_id revision at files files' s h =
    elim (Option-cases (active_snapshot files)) [
      | inl e ↦ cc (h, e)
      | inr (current, e) ↦
          claim_current-IsClaimed attempt_id revision at current files files' s e (cc (h, e))
    ]

claimed_due :
    (attempt_id : Text) (at at' : ℕ) (current : UserSessionSnapshot)
    → maintenance_due_at
        (with_maintenance
          (claimed_state attempt_id at current.metadata.maintenance)
          current).metadata
        at'
      ≡ at + backoff current.metadata.maintenance.consecutive_failures
unfolding maintenance_due_at claimed_state
claimed_due attempt_id at at' current =
    ap (λ d. at + d) (retry_delay-backoff current.metadata.maintenance.consecutive_failures)

claimed_attempt :
    (attempt_id other : Text) (at : ℕ) (current : UserSessionSnapshot)
    → other ≢ attempt_id
    → is_attempt other
        (with_maintenance (claimed_state attempt_id at current.metadata.maintenance) current)
      ≡ false
unfolding claimed_state
claimed_attempt attempt_id other at current h =
    let same = (text_eq_iff attempt_id other).0 in
    elim (Bool-cases (text_eq attempt_id other)) [ inl e ↦ absurd (h (sym (same e))) | inr e ↦ e ]

refused_early :
    (other : Text) (revision at : ℕ) (s : UserSessionSnapshot) (files : OwnerFiles)
    → active_snapshot files ≡ some s
    → at < maintenance_due_at s.metadata at
    → claim_maintenance other revision at files ≡ ok (files, none)
unfolding claim_maintenance claim_current
refused_early other revision at s files e h = ground (arith, e, h)

refused_stale :
    (other : Text) (revision : ℕ) (result : SessionVerificationResult) (at : ℕ)
    (s : UserSessionSnapshot) (files : OwnerFiles)
    → active_snapshot files ≡ some s
    → is_attempt other s ≡ false
    → complete_maintenance other revision result at files ≡ ok (files, none)
unfolding complete_maintenance complete_current
refused_stale other revision result at s files e h = ground (arith, e, h)

-- A claim is only granted on an active session of the expected revision that is due. From then on the
-- session is due again after the back-off for its failures before the claim: a quarter of an hour, an
-- hour, six hours, and from the fourth failure on a day. Until then every other claim, on whatever
-- revision, is refused without a change, and so is, at any instant, the result of any other attempt.
pub claim_maintenance-exclusive :
    (attempt_id : Text) (revision at : ℕ) (files files' : OwnerFiles) (s : UserSessionSnapshot)
    → claim_maintenance attempt_id revision at files ≡ ok (files', some s)
    → (current : UserSessionSnapshot) × (active_snapshot files ≡ some current)
      × (is_revision revision current ≡ true)
      × (maintenance_due_at current.metadata at ≤ at)
      × ((now : ℕ)
          → maintenance_due_at s.metadata now
            ≡ at + backoff current.metadata.maintenance.consecutive_failures)
      × ((other : Text) (expected now : ℕ)
          → now < at + backoff current.metadata.maintenance.consecutive_failures
          → claim_maintenance other expected now files' ≡ ok (files', none))
      × ((other : Text) (expected : ℕ) (result : SessionVerificationResult) (now : ℕ)
          → other ≢ attempt_id
          → complete_maintenance other expected result now files' ≡ ok (files', none))
claim_maintenance-exclusive attempt_id revision at files files' s h =
    let c = claim-IsClaimed attempt_id revision at files files' s h in
    let due : (now : ℕ)
        → maintenance_due_at s.metadata now
          ≡ at + backoff c.current.metadata.maintenance.consecutive_failures =
      λ now.
        ap (λ t. maintenance_due_at t.metadata now) c.claimed
        ∙ claimed_due attempt_id at now c.current in
    (
      c.current,
      c.before,
      c.revised,
      c.due,
      due,
      λ other expected now early.
          refused_early other expected now s files' c.after
            (let d = due now in omega (arith, d, early)),
      λ other expected result now different.
          refused_stale other expected result now s files' c.after (
            ap (is_attempt other) c.claimed
            ∙ claimed_attempt attempt_id other at c.current different),
    )
