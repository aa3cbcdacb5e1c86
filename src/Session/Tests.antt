-- ===== src/Session/Tests.antt =====
-- The theorems on sessions at one imported session, and on the store at its files.
use booksaver_agent.Base.{◌+◌, ◌≡◌, ◌≢◌, ◌↔◌, ◌⊎◌, none, some, [], ◌∷◌, ok}
use booksaver_agent.Session.{
  SessionStatus, UserSessionHealth, UserSessionSnapshot, fresh_maintenance, verification_interval,
  check_maintenance, check_metadata, health, maintenance_due_at, refreshed,
}
use booksaver_agent.Session.Laws.{NotReached, health_ready, refreshed-ready}
use booksaver_agent.Base.{ℕ, ◌≤◌, ◌<◌, true, false, refl, arith}
use booksaver_agent.Base.Text.{Text}
use booksaver_agent.Session.{SessionVerificationOutcome, SessionVerificationResult, bad_attempt}
use booksaver_agent.Session.Store.{resolve}
use booksaver_agent.Session.Store.Completion.{complete_maintenance-claim_maintenance}
use booksaver_agent.Session.Store.{
  Bundle, OwnerFiles, with_maintenance, claim_maintenance, claim_current, claimed_state,
  active_snapshot, snapshot, retry_delay, save, is_revision, complete_maintenance,
}
use booksaver_agent.Session.Store.Laws.{backoff, claim_maintenance-exclusive}
use booksaver_agent.Session.Store.Sound.{Accepted, Loads}
use booksaver_agent.Session.Store.History.{Step, Steps, Steps-IsSound}

abbrev imported_session : UserSessionSnapshot
imported_session = record {
  metadata = record {
    owner_user_id = 1;
    revision_id = 2;
    imported_at = 5;
    expires_at = some 9;
    status = SessionStatus.expired;
    validated_at = none;
    continuity_version = 0;
    maintenance = fresh_maintenance;
  };
  cookies = 1 ∷ [];
}

health_ready_example : (health imported_session.metadata 8 ≡ UserSessionHealth.ready) ↔ (
    (imported_session.metadata.status ≡ SessionStatus.active)
    × ((imported_session.metadata.continuity_version ≢ 0)
        ⊎ NotReached imported_session.metadata.expires_at 8))
health_ready_example = health_ready imported_session.metadata 8

refreshed-ready_example :
    (check_metadata (refreshed (1 ∷ []) 20 none imported_session).metadata ≡ ok tt)
    × (check_maintenance (refreshed (1 ∷ []) 20 none imported_session).metadata.maintenance ≡ ok tt)
    × (health (refreshed (1 ∷ []) 20 none imported_session).metadata 100 ≡ UserSessionHealth.ready)
    × (maintenance_due_at (refreshed (1 ∷ []) 20 none imported_session).metadata 100
        ≡ 20 + verification_interval)
refreshed-ready_example = refreshed-ready (1 ∷ []) 20 none imported_session 100

abbrev active_session : UserSessionSnapshot
active_session = record imported_session {
  metadata = record (imported_session.metadata) { status = SessionStatus.active };
}

abbrev kept_files : OwnerFiles
kept_files = record { session = some (Bundle.readable active_session); revoked = false }

abbrev claimed_session : UserSessionSnapshot
claimed_session =
    with_maintenance
      (record {
        next_attempt_at = some 900000100;
        last_attempt_at = some 100;
        failure_started_at = some 100;
        consecutive_failures = 1;
        attempt_id = some (65 ∷ []);
        notice_sent_at = none;
      })
      active_session

abbrev claimed_files : OwnerFiles
claimed_files = record { session = some (Bundle.readable claimed_session); revoked = false }

is_claimed : claim_maintenance (65 ∷ []) 2 100 kept_files ≡ ok (claimed_files, some claimed_session)
unfolding claim_maintenance claim_current claimed_state active_snapshot snapshot maintenance_due_at
    retry_delay check_maintenance bad_attempt save
is_claimed = refl

claim_maintenance-exclusive_example :
    (current : UserSessionSnapshot) × (active_snapshot kept_files ≡ some current)
    × (is_revision 2 current ≡ true)
    × (maintenance_due_at current.metadata 100 ≤ 100)
    × ((now : ℕ)
        → maintenance_due_at claimed_session.metadata now
          ≡ 100 + backoff current.metadata.maintenance.consecutive_failures)
    × ((other : Text) (expected now : ℕ)
        → now < 100 + backoff current.metadata.maintenance.consecutive_failures
        → claim_maintenance other expected now claimed_files ≡ ok (claimed_files, none))
    × ((other : Text) (expected : ℕ) (result : SessionVerificationResult) (now : ℕ)
        → other ≢ 65 ∷ []
        → complete_maintenance other expected result now claimed_files ≡ ok (claimed_files, none))
claim_maintenance-exclusive_example =
    claim_maintenance-exclusive (65 ∷ []) 2 100 kept_files claimed_files claimed_session is_claimed

active-Accepted : Accepted active_session
unfolding check_metadata check_maintenance bad_attempt
active-Accepted = (refl, refl)

Steps-IsSound_example :
    Loads claimed_files × (false ≡ true → (false ≡ true) × (claimed_files.session ≡ none))
Steps-IsSound_example =
    Steps-IsSound kept_files claimed_files active-Accepted
      (Steps.next Steps.start (Step.claim (65 ∷ []) 2 100 (some claimed_session) is_claimed))

abbrev signed_in : SessionVerificationResult
signed_in = record {
  outcome = SessionVerificationOutcome.authenticated;
  cookies = some (7 ∷ []);
  verified_at = some 150;
}

complete_maintenance-claim_maintenance_example :
    (files'' : OwnerFiles) × (fresh : UserSessionSnapshot) × (complete_maintenance
        (65 ∷ [])
        2
        signed_in
        200
        claimed_files
      ≡ ok (files'', some fresh))
    × (fresh.cookies ≡ 7 ∷ [])
    × ((now : ℕ)
        → (resolve now files'' ≡ record { snapshot = some fresh; unavailable_reason = none })
          × (maintenance_due_at fresh.metadata now ≡ 150 + verification_interval))
complete_maintenance-claim_maintenance_example =
    complete_maintenance-claim_maintenance (65 ∷ []) 2 100 200 150 (7 ∷ []) signed_in kept_files
      claimed_files claimed_session is_claimed refl refl refl (omega arith) (omega arith)
