-- ===== src/Session/Store/Kept.antt =====
-- What every write keeps, every operation of the store keeps.
use booksaver_agent.Base.{
  ℕ, ◌≡◌, refl, ap, Bool, true, false, not, ◌&&◌, ◌||◌, Option, none, some, List, ltb, ◌==◌,
  is_some, if◌then◌else◌, ok, value_error, raise_if-eq-ok, ◌>>=◌, arith, inl, inr, Bool-cases,
  Option-cases, >>=-eq-ok, ok-injective,
}
use mathlib.Core.Path.{subst}
use booksaver_agent.Base.Text.{Text}
use booksaver_agent.Session.{
  SessionStatus, SessionVerificationOutcome, SessionVerificationResult, UserSessionSnapshot,
  check_maintenance, check_metadata, refreshed, maintenance_due_at,
}
use booksaver_agent.Session.Store.{
  SessionNotice, notice_reason, send_notice, claim_session_notice, OwnerFiles, save, snapshot,
  active_snapshot, ready_snapshot, claim_current, claim_maintenance, claimed_state,
  with_maintenance, is_revision, saved_as, complete_authenticated, complete_current,
  complete_maintenance, without_attempt, compare_and_replace, replace_current, mark_reauth_required,
  is_attempt, is_untimely,
}
use booksaver_agent.Session.Store.Sound.{
  Accepted, IsSound, active-Accepted, snapshot-Accepted, noticed-Accepted, ready-Accepted,
  without_attempt-Accepted, refreshed-Accepted,
}

-- A property that every write keeps, through each operation.
module _ (files : OwnerFiles) (P : OwnerFiles → Type 0) (sound : IsSound files) (kept : P files)
    (written : (s : UserSessionSnapshot) (files' : OwnerFiles)
      → Accepted s
      → save s files ≡ ok files'
      → P files') where
  -- A call that writes and returns has written.
  saved_as_kept :
      {A : Type 0} (s : UserSessionSnapshot) (a : A) (files' : OwnerFiles) (a' : A)
      → Accepted s
      → ◌>>=◌ {B = OwnerFiles × A} (save s files) (λ after. ok (after, a)) ≡ ok (files', a')
      → P files'
  saved_as_kept {A = A} s a files' a' accepted h =
      let (after, saved, same) = >>=-eq-ok {B = OwnerFiles × A} (save s files) (λ f. ok (f, a)) h in
      subst P (ap (λ p. p.0) (ok-injective same)) (written s after accepted saved)

  claim_current_kept :
      (attempt_id : Text) (revision at : ℕ) (s : UserSessionSnapshot) (files' : OwnerFiles)
      (claimed : Option UserSessionSnapshot)
      → Accepted s
      → claim_current attempt_id revision at s files ≡ ok (files', claimed)
      → P files'
  unfolding claim_current check_metadata
  claim_current_kept attempt_id revision at s files' claimed a h =
      let state = claimed_state attempt_id at s.metadata.maintenance in
      elim (Bool-cases
        (not (is_revision revision s) || ltb at (maintenance_due_at s.metadata at))) [
          | inl e ↦ subst P (cc (h, e)) kept
          | inr e ↦
              let (final, valid, rest) =
                >>=-eq-ok {B = OwnerFiles × Option UserSessionSnapshot} (check_maintenance state)
                  (λ u. saved_as (with_maintenance state s) files) (ground (arith, h, e)) in
              saved_as_kept (with_maintenance state s) (some (with_maintenance state s)) files'
                claimed (a.0, valid) rest
        ]

  pub claim_kept :
      (attempt_id : Text) (revision at : ℕ) (files' : OwnerFiles)
      (claimed : Option UserSessionSnapshot)
      → claim_maintenance attempt_id revision at files ≡ ok (files', claimed)
      → P files'
  unfolding claim_maintenance
  claim_kept attempt_id revision at files' claimed h = elim (Option-cases (active_snapshot files)) [
    | inl e ↦ subst P (cc (h, e)) kept
    | inr (s, e) ↦
        claim_current_kept attempt_id revision at s files' claimed (active-Accepted files s sound e)
          (cc (h, e))
  ]

  authenticated_kept :
      (cookies : Option (List ℕ)) (verified_at : Option ℕ) (at : ℕ) (s : UserSessionSnapshot)
      (files' : OwnerFiles) (final : Option UserSessionSnapshot)
      → complete_authenticated cookies verified_at at s files ≡ ok (files', final)
      → P files'
  unfolding complete_authenticated
  authenticated_kept none verified_at at s files' final h = cc
  authenticated_kept (some cookies) none at s files' final h = cc
  authenticated_kept (some cookies) (some v) at s files' final h =
      elim (Bool-cases (is_untimely s.metadata.maintenance.last_attempt_at v at)) [
        | inl e ↦ subst P (cc (h, e)) kept
        | inr e ↦
            saved_as_kept (refreshed cookies v none s) (some (refreshed cookies v none s)) files'
              final (refreshed-Accepted cookies v s) (ground (arith, h, e))
      ]

  complete_current_kept :
      (attempt_id : Text) (revision : ℕ) (result : SessionVerificationResult) (at : ℕ)
      (s : UserSessionSnapshot) (files' : OwnerFiles) (final : Option UserSessionSnapshot)
      → Accepted s
      → complete_current attempt_id revision result at s files ≡ ok (files', final)
      → P files'
  unfolding complete_current
  complete_current_kept attempt_id revision result at s files' final a h =
      elim (Bool-cases (not (is_revision revision s) || not (is_attempt attempt_id s))) [
        | inl e ↦ subst P (cc (h, e)) kept
        | inr e ↦ go result.outcome refl (λ status. without_attempt-Accepted status s a) e
      ]
    where
      rest :
          (status : SessionStatus)
          → Accepted (without_attempt status s)
          → saved_as (without_attempt status s) files ≡ ok (files', final)
          → P files'
      rest status accepted e =
          saved_as_kept (without_attempt status s) (some (without_attempt status s)) files' final
            accepted e

      go :
          (outcome : SessionVerificationOutcome)
          → result.outcome ≡ outcome
          → ((status : SessionStatus) → Accepted (without_attempt status s))
          → (not (is_revision revision s) || not (is_attempt attempt_id s)) ≡ false
          → P files'
      go SessionVerificationOutcome.authenticated o f e =
          authenticated_kept result.cookies result.verified_at at s files' final
            (ground (arith, h, e, o))
      go SessionVerificationOutcome.signed_out o f e =
          rest SessionStatus.requires_reauth (f SessionStatus.requires_reauth)
            (ground (arith, h, e, o))
      go SessionVerificationOutcome.interaction_required o f e =
          rest SessionStatus.requires_reauth (f SessionStatus.requires_reauth)
            (ground (arith, h, e, o))
      go SessionVerificationOutcome.retry_later o f e =
          rest s.metadata.status (f s.metadata.status) (ground (arith, h, e, o))

  pub complete_kept :
      (attempt_id : Text) (revision : ℕ) (result : SessionVerificationResult) (at : ℕ)
      (files' : OwnerFiles) (final : Option UserSessionSnapshot)
      → complete_maintenance attempt_id revision result at files ≡ ok (files', final)
      → P files'
  unfolding complete_maintenance
  complete_kept attempt_id revision result at files' final h =
      elim (Option-cases (active_snapshot files)) [
        | inl e ↦ subst P (cc (h, e)) kept
        | inr (s, e) ↦
            complete_current_kept attempt_id revision result at s files' final
              (active-Accepted files s sound e) (cc (h, e))
      ]

  pub mark_kept :
      (revision now : ℕ) (files' : OwnerFiles) (marked : Bool)
      → mark_reauth_required revision now files ≡ ok (files', marked)
      → P files'
  unfolding mark_reauth_required
  mark_kept revision now files' marked h = elim (Option-cases (ready_snapshot now files)) [
    | inl e ↦ subst P (cc (h, e)) kept
    | inr (s, e) ↦ elim (Bool-cases (is_revision revision s)) [
      | inr other ↦ subst P (cc (h, e, other)) kept
      | inl same ↦
          saved_as_kept (without_attempt SessionStatus.requires_reauth s) true files' marked
            (without_attempt-Accepted SessionStatus.requires_reauth s
              (ready-Accepted now files s sound e))
            (cc (h, e, same))
    ]
  ]

  send_kept :
      (reason : Option SessionNotice) (at : ℕ) (s : UserSessionSnapshot) (files' : OwnerFiles)
      (sent : Option SessionNotice)
      → Accepted s
      → send_notice reason at s files ≡ ok (files', sent)
      → P files'
  unfolding send_notice
  send_kept none at s files' sent a h = subst P (cc h) kept
  send_kept (some reason) at s files' sent a h =
      saved_as_kept
        (with_maintenance (record (s.metadata.maintenance) { notice_sent_at = some at }) s)
        (some reason) files' sent (noticed-Accepted at s a) h

  pub notice_kept :
      (revision at : ℕ) (files' : OwnerFiles) (sent : Option SessionNotice)
      → claim_session_notice revision at files ≡ ok (files', sent)
      → P files'
  unfolding claim_session_notice
  notice_kept revision at files' sent h = elim (Option-cases (snapshot files)) [
    | inl e ↦ subst P (cc (h, e)) kept
    | inr (s, e) ↦
        elim (Bool-cases
          (not (is_revision revision s) || is_some s.metadata.maintenance.notice_sent_at)) [
            | inl no_claim ↦ subst P (cc (h, e, no_claim)) kept
            | inr claimed ↦
                send_kept
                  (notice_reason s.metadata.status s.metadata.maintenance.failure_started_at at) at
                  s files' sent (snapshot-Accepted files s sound e) (cc (h, e, claimed))
          ]
  ]

  replace_current_kept :
      (revision : ℕ) (s : UserSessionSnapshot) (current : Option UserSessionSnapshot)
      (files' : OwnerFiles) (replaced : Bool)
      → Accepted s
      → replace_current revision s current files ≡ ok (files', replaced)
      → P files'
  unfolding replace_current
  replace_current_kept revision s none files' replaced a h = subst P (cc h) kept
  replace_current_kept revision s (some current) files' replaced a h =
      elim (Bool-cases (is_revision revision current)) [
        | inl same ↦ saved_as_kept s true files' replaced a (cc (h, same))
        | inr other ↦ subst P (cc (h, other)) kept
      ]

  pub replace_kept :
      (owner revision now : ℕ) (s : UserSessionSnapshot) (files' : OwnerFiles) (replaced : Bool)
      → Accepted s
      → compare_and_replace owner revision s now files ≡ ok (files', replaced)
      → P files'
  unfolding compare_and_replace
  replace_kept owner revision now s files' replaced a h =
      let (owned, rest) =
        raise_if-eq-ok {B = OwnerFiles × Bool} (not (s.metadata.owner_user_id == owner)) value_error
          _ h in
      elim (Bool-cases (is_revision revision s)) [
        | inl same ↦
            replace_current_kept revision s
              (if s.metadata.continuity_version == 1 && is_some s.metadata.validated_at
                then active_snapshot files
                else ready_snapshot now files)
              files' replaced a (ground (arith, rest, same))
        | inr other ↦ subst P (cc (rest, other)) kept
      ]
