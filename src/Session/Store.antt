-- ===== src/Session/Store.antt =====
-- EncryptedUserSessionRepository of
-- src/booksaver/infrastructure/persistence/encrypted_session_store.py for one owner, whose lock every
-- operation holds, with `RETRY_DELAYS` of src/booksaver/domain/session_maintenance.py. Encryption and
-- the file format are not modelled: a bundle is a snapshot, or cannot be read. Every call is given
-- the clock's instant and the identifier that it draws.
pub mod Kept
pub mod Sound
pub mod Laws
pub mod History
pub mod Completion
use booksaver_agent.Base.{
  ℕ, suc, ◌+◌, ◌*◌, Bool, true, false, not, ◌&&◌, ◌||◌, Option, none, some, List, [], ◌∷◌, ltb, leb,
  ◌==◌, is_none, is_some, if◌then◌else◌, Result, ok, err, Error, value_error, raise_if, ◌>>=◌, ◌>>◌,
}
use booksaver_agent.Base.Text.{Text, text_eq}
use booksaver_agent.Session.{
  SessionStatus, SessionVerificationOutcome, SessionVerificationResult, SessionMaintenanceState,
  UserSessionHealth, UserSessionSnapshot, SessionUnavailableReason, SessionResolution,
  check_maintenance, health, is_ready, maintenance_due_at, refreshed,
}

pub data Bundle : Type 0 where
  readable : UserSessionSnapshot → Bundle
  unreadable : Bundle

-- The owner's session file and the marker of revocation.
pub record OwnerFiles : Type 0 where
  pub session : Option Bundle
  pub revoked : Bool

abbrev pub is_active_status : SessionStatus → Bool
is_active_status SessionStatus.active = true
is_active_status _ = false

abbrev pub is_unreadable : Option Bundle → Bool
is_unreadable (some Bundle.unreadable) = true
is_unreadable _ = false

-- `_save_unlocked`
unfoldable pub save : UserSessionSnapshot → OwnerFiles → Result OwnerFiles
save s files =
    raise_if files.revoked Error.session_revoked
    >> raise_if (is_unreadable files.session) value_error
    >> ok (record files { session = some (Bundle.readable s) })

abbrev pub content : Option Bundle → Option UserSessionSnapshot
content (some (Bundle.readable s)) = some s
content _ = none

-- `_snapshot_unlocked`
unfoldable pub snapshot : OwnerFiles → Option UserSessionSnapshot
snapshot files = if files.revoked then none else content files.session

abbrev pub keep_if :
    (UserSessionSnapshot → Bool) → Option UserSessionSnapshot → Option UserSessionSnapshot
keep_if p none = none
keep_if p (some s) = if p s then some s else none

-- `_active_snapshot_unlocked`, and `load_for_maintenance`
unfoldable pub active_snapshot : OwnerFiles → Option UserSessionSnapshot
active_snapshot files = keep_if (λ s. is_active_status s.metadata.status) (snapshot files)

-- `_ready_snapshot_unlocked`
unfoldable pub ready_snapshot : ℕ → OwnerFiles → Option UserSessionSnapshot
ready_snapshot now files = keep_if (λ s. is_ready (health s.metadata now)) (content files.session)

-- `resolve`
unfoldable pub resolve : ℕ → OwnerFiles → SessionResolution
resolve now files = elim files.session [
  | none ↦ unavailable SessionUnavailableReason.missing
  | some Bundle.unreadable ↦ unavailable SessionUnavailableReason.invalid
  | some (Bundle.readable s) ↦ elim (health s.metadata now) [
    | UserSessionHealth.expired ↦ unavailable SessionUnavailableReason.expired
    | UserSessionHealth.reauth_required ↦ unavailable SessionUnavailableReason.reauth_required
    | _ ↦ record { snapshot = some s; unavailable_reason = none }
  ]
]
  where
    unavailable : SessionUnavailableReason → SessionResolution
    unavailable reason = record { snapshot = none; unavailable_reason = some reason }

abbrev pub of_minutes : ℕ → ℕ
of_minutes n = n * 60 * 1000000

-- `RETRY_DELAYS[count - 1]`
unfoldable pub retry_delay : ℕ → ℕ
retry_delay count =
    if leb count 1
    then of_minutes 15
    else if count == 2
    then of_minutes 60
    else if count == 3
    then of_minutes 360
    else of_minutes 1440

-- `min(count, len(RETRY_DELAYS))`
abbrev pub at_most_four : ℕ → ℕ
at_most_four count = if ltb 4 count then 4 else count

abbrev pub or_instant : Option ℕ → ℕ → ℕ
or_instant none at = at
or_instant (some earlier) at = earlier

unfoldable pub claimed_state : Text → ℕ → SessionMaintenanceState → SessionMaintenanceState
claimed_state attempt_id at prior =
    let count = at_most_four (suc prior.consecutive_failures) in
    record {
      next_attempt_at = some (at + retry_delay count);
      last_attempt_at = some at;
      failure_started_at = some (or_instant prior.failure_started_at at);
      consecutive_failures = count;
      attempt_id = some attempt_id;
      notice_sent_at = prior.notice_sent_at;
    }

abbrev pub with_maintenance : SessionMaintenanceState → UserSessionSnapshot → UserSessionSnapshot
with_maintenance state s = record s { metadata = record (s.metadata) { maintenance = state } }

abbrev pub is_revision : ℕ → UserSessionSnapshot → Bool
is_revision expected_revision s = s.metadata.revision_id == expected_revision

-- A write and what the call returns after it.
abbrev pub saved_as :
    UserSessionSnapshot → OwnerFiles → Result (OwnerFiles × Option UserSessionSnapshot)
saved_as s files = save s files >>= λ after. ok (after, some s)

-- The claim, for the active snapshot that is there.
unfoldable pub claim_current :
    Text
    → ℕ
    → ℕ
    → UserSessionSnapshot
    → OwnerFiles
    → Result (OwnerFiles × Option UserSessionSnapshot)
claim_current attempt_id expected_revision at current files =
    let state = claimed_state attempt_id at current.metadata.maintenance in
    if not (is_revision expected_revision current)
      || ltb at (maintenance_due_at current.metadata at)
    then ok (files, none)
    else check_maintenance state >> saved_as (with_maintenance state current) files

unfoldable pub claim_maintenance :
    Text → ℕ → ℕ → OwnerFiles → Result (OwnerFiles × Option UserSessionSnapshot)
claim_maintenance attempt_id expected_revision at files = elim (active_snapshot files) [
  | none ↦ ok (files, none)
  | some current ↦ claim_current attempt_id expected_revision at current files
]

abbrev pub is_attempt : Text → UserSessionSnapshot → Bool
is_attempt attempt_id s = elim s.metadata.maintenance.attempt_id [
  | none ↦ false
  | some current ↦ text_eq current attempt_id
]

-- `not started <= verified_at <= at`
abbrev pub is_untimely : Option ℕ → ℕ → ℕ → Bool
is_untimely none verified_at at = true
is_untimely (some started) verified_at at = ltb verified_at started || ltb at verified_at

abbrev pub without_attempt : SessionStatus → UserSessionSnapshot → UserSessionSnapshot
without_attempt status s = record s {
  metadata = record (s.metadata) {
    status = status;
    maintenance = record (s.metadata.maintenance) { attempt_id = none };
  };
}

abbrev pub status_after : SessionVerificationOutcome → SessionStatus → SessionStatus
status_after SessionVerificationOutcome.signed_out status = SessionStatus.requires_reauth
status_after SessionVerificationOutcome.interaction_required status = SessionStatus.requires_reauth
status_after _ status = status

-- The authenticated case; its assertion holds for a result that its constructor accepts.
unfoldable pub complete_authenticated :
    Option (List ℕ)
    → Option ℕ
    → ℕ
    → UserSessionSnapshot
    → OwnerFiles
    → Result (OwnerFiles × Option UserSessionSnapshot)
complete_authenticated (some cookies) (some verified_at) at current files =
    if is_untimely current.metadata.maintenance.last_attempt_at verified_at at
    then ok (files, none)
    else saved_as (refreshed cookies verified_at none current) files
complete_authenticated _ _ at current files = err value_error

unfoldable pub complete_current :
    Text
    → ℕ
    → SessionVerificationResult
    → ℕ
    → UserSessionSnapshot
    → OwnerFiles
    → Result (OwnerFiles × Option UserSessionSnapshot)
complete_current attempt_id expected_revision result at current files =
    if not (is_revision expected_revision current) || not (is_attempt attempt_id current)
    then ok (files, none)
    else elim result.outcome [
      | SessionVerificationOutcome.authenticated ↦
          complete_authenticated result.cookies result.verified_at at current files
      | outcome ↦
          saved_as (without_attempt (status_after outcome current.metadata.status) current) files
    ]

unfoldable pub complete_maintenance :
    Text
    → ℕ
    → SessionVerificationResult
    → ℕ
    → OwnerFiles
    → Result (OwnerFiles × Option UserSessionSnapshot)
complete_maintenance attempt_id expected_revision result at files = elim (active_snapshot files) [
  | none ↦ ok (files, none)
  | some current ↦ complete_current attempt_id expected_revision result at current files
]

pub data SessionNotice : Type 0 where
  signed_out unverified : SessionNotice

-- `UNCERTAINTY_NOTICE_AFTER`, 48 hours
unfoldable pub uncertainty_notice_after : ℕ
uncertainty_notice_after = 48 * 3600 * 1000000

abbrev pub is_uncertain : Option ℕ → ℕ → Bool
is_uncertain none at = false
is_uncertain (some started) at = leb (started + uncertainty_notice_after) at

unfoldable pub notice_reason : SessionStatus → Option ℕ → ℕ → Option SessionNotice
notice_reason SessionStatus.requires_reauth failure_started_at at = some SessionNotice.signed_out
notice_reason SessionStatus.expired failure_started_at at = some SessionNotice.signed_out
notice_reason SessionStatus.active failure_started_at at =
    if is_uncertain failure_started_at at then some SessionNotice.unverified else none

-- The end of `claim_session_notice`: the mark, where there is a reason.
unfoldable pub send_notice :
    Option SessionNotice
    → ℕ
    → UserSessionSnapshot
    → OwnerFiles
    → Result (OwnerFiles × Option SessionNotice)
send_notice none at s files = ok (files, none)
send_notice (some reason) at s files =
    save (with_maintenance (record (s.metadata.maintenance) { notice_sent_at = some at }) s) files
    >>= λ after. ok (after, some reason)

unfoldable pub claim_session_notice :
    ℕ → ℕ → OwnerFiles → Result (OwnerFiles × Option SessionNotice)
claim_session_notice expected_revision at files = elim (snapshot files) [
  | none ↦ ok (files, none)
  | some s ↦
      if not (is_revision expected_revision s) || is_some s.metadata.maintenance.notice_sent_at
      then ok (files, none)
      else send_notice
          (notice_reason s.metadata.status s.metadata.maintenance.failure_started_at at) at s files
]

-- The write of `compare_and_replace`, over the current snapshot that it finds.
unfoldable pub replace_current :
    ℕ → UserSessionSnapshot → Option UserSessionSnapshot → OwnerFiles → Result (OwnerFiles × Bool)
replace_current expected_revision s none files = ok (files, false)
replace_current expected_revision s (some current) files =
    if is_revision expected_revision current
    then (save s files >>= λ after. ok (after, true))
    else ok (files, false)

unfoldable pub compare_and_replace :
    ℕ → ℕ → UserSessionSnapshot → ℕ → OwnerFiles → Result (OwnerFiles × Bool)
compare_and_replace owner_user_id expected_revision s now files =
    raise_if (not (s.metadata.owner_user_id == owner_user_id)) value_error
    >> (if not (is_revision expected_revision s)
        then ok (files, false)
        else replace_current expected_revision s
            (if s.metadata.continuity_version == 1 && is_some s.metadata.validated_at
              then active_snapshot files
              else ready_snapshot now files)
            files)

unfoldable pub mark_reauth_required : ℕ → ℕ → OwnerFiles → Result (OwnerFiles × Bool)
mark_reauth_required expected_revision now files = elim (ready_snapshot now files) [
  | none ↦ ok (files, false)
  | some s ↦
      if is_revision expected_revision s
      then (save (without_attempt SessionStatus.requires_reauth s) files >>= λ after.
          ok (after, true))
      else ok (files, false)
]

unfoldable pub delete : OwnerFiles → OwnerFiles × Bool
delete files = (record files { session = none }, is_some files.session)

unfoldable pub revoke : OwnerFiles → OwnerFiles × Bool
revoke files = (record { session = none; revoked = true }, is_some files.session)
