-- ===== src/Session/Store/Completion.antt =====
-- A maintenance run from its claim to its result.
use mathlib.Core.Path.{subst}
use booksaver_agent.Base.{ℕ, ◌+◌, ◌≤◌, ◌≡◌, refl, sym, true, false, none, some, List, ok, arith}
use booksaver_agent.Base.Text.{Text, text_eq_iff}
use booksaver_agent.Session.{
  SessionVerificationOutcome, SessionVerificationResult, UserSessionSnapshot, UserSessionHealth,
  verification_interval, health, maintenance_due_at, refreshed,
}
use booksaver_agent.Session.Laws.{refreshed-ready}
use booksaver_agent.Session.Store.{
  Bundle, OwnerFiles, save, snapshot, active_snapshot, resolve, claim_maintenance, claimed_state,
  with_maintenance, is_revision, is_attempt, complete_authenticated, complete_current,
  complete_maintenance,
}
use booksaver_agent.Session.Store.Laws.{claim-IsClaimed}

-- What a session has to be for the result of an attempt to be taken.
record IsAwaiting (attempt_id : Text) (revision at : ℕ) (s : UserSessionSnapshot) : Type 0 where
  revised : is_revision revision s ≡ true
  attempted : is_attempt attempt_id s ≡ true
  since : s.metadata.maintenance.last_attempt_at ≡ some at

claimed-IsAwaiting :
    (attempt_id : Text) (revision at : ℕ) (current : UserSessionSnapshot)
    → is_revision revision current ≡ true
    → IsAwaiting attempt_id revision at
        (with_maintenance (claimed_state attempt_id at current.metadata.maintenance) current)
unfolding claimed_state
claimed-IsAwaiting attempt_id revision at current h = record {
  revised = h;
  attempted = (text_eq_iff attempt_id attempt_id).1 refl;
  since = refl;
}

-- The files after the result.
abbrev stored : UserSessionSnapshot → OwnerFiles → OwnerFiles
stored s files = record files { session = some (Bundle.readable s) }

saved :
    (s fresh : UserSessionSnapshot) (files : OwnerFiles)
    → active_snapshot files ≡ some s
    → (save fresh files ≡ ok (stored fresh files)) × (files.revoked ≡ false)
unfolding save active_snapshot snapshot
saved s fresh files h = (ground (arith, h), ground (arith, h))

completed :
    (attempt_id : Text) (revision at at' verified_at : ℕ) (cookies : List ℕ)
    (result : SessionVerificationResult) (files : OwnerFiles) (s : UserSessionSnapshot)
    → active_snapshot files ≡ some s
    → IsAwaiting attempt_id revision at s
    → result.outcome ≡ SessionVerificationOutcome.authenticated
    → result.cookies ≡ some cookies
    → result.verified_at ≡ some verified_at
    → at ≤ verified_at
    → verified_at ≤ at'
    → complete_maintenance attempt_id revision result at' files
      ≡ ok (
        stored (refreshed cookies verified_at none s) files,
        some (refreshed cookies verified_at none s),
      )
unfolding complete_maintenance complete_current complete_authenticated
completed attempt_id revision at at' verified_at cookies result files s e w authenticated given
      timed early late =
    let done = (saved s (refreshed cookies verified_at none s) files e).0 in
    let revised = w.revised in
    let attempted = w.attempted in
    let since = w.since in
    ground (arith, e, revised, attempted, since, authenticated, given, timed, early, late, done)

resolved :
    (now : ℕ) (s : UserSessionSnapshot) (files : OwnerFiles)
    → health s.metadata now ≡ UserSessionHealth.ready
    → resolve now (stored s files) ≡ record { snapshot = some s; unavailable_reason = none }
unfolding resolve
resolved now s files h = ground (arith, h)

-- The authenticated result of the attempt that holds the claim, verified after the claim and handed in
-- after that, is taken: the session is the refreshed one with the new cookies, a resolution finds it
-- from then on, at whatever instant, and its next verification is a day after this one.
pub complete_maintenance-claim_maintenance :
    (attempt_id : Text) (revision at at' verified_at : ℕ) (cookies : List ℕ)
    (result : SessionVerificationResult) (files files' : OwnerFiles) (s : UserSessionSnapshot)
    → claim_maintenance attempt_id revision at files ≡ ok (files', some s)
    → result.outcome ≡ SessionVerificationOutcome.authenticated
    → result.cookies ≡ some cookies
    → result.verified_at ≡ some verified_at
    → at ≤ verified_at
    → verified_at ≤ at'
    → (files'' : OwnerFiles) × (fresh : UserSessionSnapshot) × (complete_maintenance attempt_id
          revision result at' files'
        ≡ ok (files'', some fresh))
      × (fresh.cookies ≡ cookies)
      × ((now : ℕ)
          → (resolve now files'' ≡ record { snapshot = some fresh; unavailable_reason = none })
            × (maintenance_due_at fresh.metadata now ≡ verified_at + verification_interval))
complete_maintenance-claim_maintenance attempt_id revision at at' verified_at cookies result files
      files' s h authenticated given timed early late =
    let c = claim-IsClaimed attempt_id revision at files files' s h in
    let fresh = refreshed cookies verified_at none s in
    let awaiting =
      subst (IsAwaiting attempt_id revision at) (sym c.claimed)
        (claimed-IsAwaiting attempt_id revision at c.current c.revised) in
    (
      stored fresh files',
      fresh,
      completed attempt_id revision at at' verified_at cookies result files' s c.after awaiting
          authenticated given timed early late,
      same_cookies,
      λ now.
          let (_, _, ready, due) = refreshed-ready cookies verified_at none s now in
          (resolved now fresh files' ready, due),
    )
  where
    same_cookies : (refreshed cookies verified_at none s).cookies ≡ cookies
    same_cookies = unfold refreshed in refl
