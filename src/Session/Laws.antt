-- ===== src/Session/Laws.antt =====
-- When a stored session is usable and when it is next verified.
use booksaver_agent.Base.{ℕ, ◌+◌, ◌≡◌, ◌≢◌, ◌↔◌, ◌⊎◌, ◌<◌, Option, none, some, List, ok, arith}
use booksaver_agent.Session.{
  SessionStatus, UserSessionHealth, UserSessionMetadata, UserSessionSnapshot, verification_interval,
  check_maintenance, bad_attempt, check_metadata, reaches_expiry, health, maintenance_due_at,
  refreshed,
}

abbrev pub NotReached : Option ℕ → ℕ → Type 0
NotReached none now = Unit
NotReached (some expires_at) now = now < expires_at

-- A session is usable exactly when it is active and, unless a check has confirmed it since its
-- import, its cookies have not reached their expiry.
pub health_ready :
    (m : UserSessionMetadata) (now : ℕ)
    → (health m now ≡ UserSessionHealth.ready) ↔ (
        (m.status ≡ SessionStatus.active)
        × ((m.continuity_version ≢ 0) ⊎ NotReached m.expires_at now))
unfolding health reaches_expiry
health_ready m now = (λ h. ground arith, λ k. ground arith)

-- A verified session is well formed, stays usable at every later instant, whatever the expiry of its
-- cookies, and is next verified a day after it was verified.
pub refreshed-ready :
    (cookies : List ℕ) (validated_at : ℕ) (expires_at : Option ℕ) (s : UserSessionSnapshot)
    (now : ℕ)
    → (check_metadata (refreshed cookies validated_at expires_at s).metadata ≡ ok tt)
      × (check_maintenance (refreshed cookies validated_at expires_at s).metadata.maintenance
          ≡ ok tt)
      × (health (refreshed cookies validated_at expires_at s).metadata now
          ≡ UserSessionHealth.ready)
      × (maintenance_due_at (refreshed cookies validated_at expires_at s).metadata now
          ≡ validated_at + verification_interval)
unfolding health reaches_expiry refreshed check_metadata check_maintenance bad_attempt
    maintenance_due_at
refreshed-ready cookies validated_at expires_at s now =
    (ground arith, ground arith, ground arith, ground arith)
