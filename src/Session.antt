-- ===== src/Session.antt =====
-- Stored Booking.com sessions and the timing of their maintenance
-- (src/booksaver/domain/user_session.py, src/booksaver/domain/session_maintenance.py and
-- src/booksaver/domain/session.py). An instant is a number of microseconds in UTC, so that the
-- checks for an aware UTC instant always pass; cookies are bytes.
mod Tests
pub mod Laws
pub mod Store
use booksaver_agent.Base.{
  ℕ, ◌+◌, ◌*◌, Bool, true, false, not, ◌&&◌, ◌||◌, Option, none, some, List, [], leb, ltb, ◌==◌,
  is_nil, is_none, is_some, if◌then◌else◌, Result, ok, err, value_error, raise_if, ◌>>◌, length,
}

pub data SessionStatus : Type 0 where
  active expired requires_reauth : SessionStatus

pub data SessionVerificationOutcome : Type 0 where
  authenticated signed_out interaction_required retry_later : SessionVerificationOutcome

pub record SessionVerificationResult : Type 0 where
  pub outcome : SessionVerificationOutcome
  pub cookies : Option (List ℕ)
  pub verified_at : Option ℕ

-- `not isinstance(self.cookies, bytes) or not self.cookies`
unfoldable pub no_cookies : Option (List ℕ) → Bool
no_cookies none = true
no_cookies (some bytes) = is_nil bytes

-- `SessionVerificationResult.__post_init__`
unfoldable pub check_verification : SessionVerificationResult → Result (Unit {0})
check_verification r = elim r.outcome [
  | SessionVerificationOutcome.authenticated ↦
      raise_if (no_cookies r.cookies || is_none r.verified_at) value_error
  | _ ↦ raise_if (is_some r.cookies || is_some r.verified_at) value_error
]

-- `VERIFICATION_INTERVAL`, 24 hours
unfoldable pub verification_interval : ℕ
verification_interval = 24 * 3600 * 1000000

pub record SessionMaintenanceState : Type 0 where
  pub next_attempt_at : Option ℕ
  pub last_attempt_at : Option ℕ
  pub failure_started_at : Option ℕ
  pub consecutive_failures : ℕ
  pub attempt_id : Option (List ℕ)
  pub notice_sent_at : Option ℕ

unfoldable pub bad_attempt : Option (List ℕ) → Bool
bad_attempt none = false
bad_attempt (some identity) = ltb (length identity) 1 || ltb 100 (length identity)

-- `SessionMaintenanceState.__post_init__`
unfoldable pub check_maintenance : SessionMaintenanceState → Result (Unit {0})
check_maintenance m =
    raise_if (ltb 4 m.consecutive_failures) value_error
    >> raise_if (bad_attempt m.attempt_id) value_error
    >> raise_if
        (ltb 0 m.consecutive_failures
          && (is_none m.last_attempt_at || is_none m.failure_started_at))
        value_error
    >> raise_if (is_some m.attempt_id && m.consecutive_failures == 0) value_error

pub data UserSessionHealth : Type 0 where
  missing ready expired reauth_required invalid : UserSessionHealth

pub record UserSessionMetadata : Type 0 where
  pub owner_user_id : ℕ
  pub revision_id : ℕ
  pub imported_at : ℕ
  pub expires_at : Option ℕ
  pub status : SessionStatus
  pub validated_at : Option ℕ
  pub continuity_version : ℕ
  pub maintenance : SessionMaintenanceState

-- `UserSessionMetadata.__post_init__`
unfoldable pub check_metadata : UserSessionMetadata → Result (Unit {0})
check_metadata m = raise_if (ltb 1 m.continuity_version) value_error

abbrev pub fresh_maintenance : SessionMaintenanceState
fresh_maintenance = record {
  next_attempt_at = none;
  last_attempt_at = none;
  failure_started_at = none;
  consecutive_failures = 0;
  attempt_id = none;
  notice_sent_at = none;
}

-- `UserSessionMetadata.imported`, which names the revision by a fresh identifier.
unfoldable pub imported : ℕ → ℕ → ℕ → Option ℕ → Result UserSessionMetadata
imported revision_id owner_user_id imported_at expires_at =
    raise_if (leb owner_user_id 0) value_error
    >> ok (record {
      owner_user_id = owner_user_id;
      revision_id = revision_id;
      imported_at = imported_at;
      expires_at = expires_at;
      status = SessionStatus.active;
      validated_at = none;
      continuity_version = 0;
      maintenance = fresh_maintenance;
    })

unfoldable pub reaches_expiry : Option ℕ → ℕ → Bool
reaches_expiry none now = false
reaches_expiry (some expires_at) now = leb expires_at now

unfoldable pub health : UserSessionMetadata → ℕ → UserSessionHealth
health m now = elim m.status [
  | SessionStatus.requires_reauth ↦ UserSessionHealth.reauth_required
  | SessionStatus.expired ↦ UserSessionHealth.expired
  | SessionStatus.active ↦
      if m.continuity_version == 0 && reaches_expiry m.expires_at now
      then UserSessionHealth.expired
      else UserSessionHealth.ready
]

unfoldable pub is_ready : UserSessionHealth → Bool
is_ready UserSessionHealth.ready = true
is_ready _ = false

unfoldable pub maintenance_due_at : UserSessionMetadata → ℕ → ℕ
maintenance_due_at m now = elim m.maintenance.next_attempt_at [
  | some at ↦ at
  | none ↦ elim m.validated_at [
    | none ↦ m.imported_at
    | some at ↦ if is_ready (health m now) then at + verification_interval else m.imported_at
  ]
]

pub record UserSessionSnapshot : Type 0 where
  pub metadata : UserSessionMetadata
  pub cookies : List ℕ

unfoldable pub refreshed : List ℕ → ℕ → Option ℕ → UserSessionSnapshot → UserSessionSnapshot
refreshed cookies validated_at expires_at s = record {
  metadata = record (s.metadata) {
    status = SessionStatus.active;
    validated_at = some validated_at;
    expires_at = expires_at;
    continuity_version = 1;
    maintenance = record fresh_maintenance {
      next_attempt_at = some (validated_at + verification_interval);
      last_attempt_at = s.metadata.maintenance.last_attempt_at;
    };
  };
  cookies = cookies;
}

pub data SessionUnavailableReason : Type 0 where
  missing expired reauth_required invalid access_revoked : SessionUnavailableReason

pub record SessionResolution : Type 0 where
  pub snapshot : Option UserSessionSnapshot
  pub unavailable_reason : Option SessionUnavailableReason

-- `SessionResolution.__post_init__`
unfoldable pub check_resolution : SessionResolution → Result (Unit {0})
check_resolution r = elim r.snapshot [
  | none ↦ raise_if (is_none r.unavailable_reason) value_error
  | some _ ↦ raise_if (is_some r.unavailable_reason) value_error
]
