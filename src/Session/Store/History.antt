-- ===== src/Session/Store/History.antt =====
-- The files of one owner over time: the repository's operations in any order.
use booksaver_agent.Base.{
  ℕ, ◌≡◌, refl, Bool, true, false, Option, none, some, ok, inl, inr, Bool-cases,
}
use booksaver_agent.Base.Text.{Text}
use booksaver_agent.Session.{SessionVerificationResult, UserSessionSnapshot}
use booksaver_agent.Session.Store.{
  SessionNotice, claim_session_notice, Bundle, OwnerFiles, save, claim_maintenance,
  complete_maintenance, compare_and_replace, mark_reauth_required, delete, revoke,
}
use booksaver_agent.Session.Store.Sound.{
  Accepted, IsKept, IsSound, Loads, IsSound-Loads, save-IsSound,
}
use booksaver_agent.Session.Store.Kept.{
  claim_kept, complete_kept, replace_kept, mark_kept, notice_kept,
}

-- One call of the repository. What the constructors of a snapshot and of a result refuse is never
-- passed to it.
pub data Step (files : OwnerFiles) : OwnerFiles → Type 0 where
  store :
      {files' : OwnerFiles} (s : UserSessionSnapshot)
      → Accepted s
      → save s files ≡ ok files'
      → Step files files'
  claim :
      {files' : OwnerFiles} (attempt_id : Text) (revision at : ℕ)
      (claimed : Option UserSessionSnapshot)
      → claim_maintenance attempt_id revision at files ≡ ok (files', claimed)
      → Step files files'
  complete :
      {files' : OwnerFiles} (attempt_id : Text) (revision : ℕ) (result : SessionVerificationResult)
      (at : ℕ) (final : Option UserSessionSnapshot)
      → complete_maintenance attempt_id revision result at files ≡ ok (files', final)
      → Step files files'
  replace :
      {files' : OwnerFiles} (owner revision now : ℕ) (s : UserSessionSnapshot) (replaced : Bool)
      → Accepted s
      → compare_and_replace owner revision s now files ≡ ok (files', replaced)
      → Step files files'
  mark :
      {files' : OwnerFiles} (revision now : ℕ) (marked : Bool)
      → mark_reauth_required revision now files ≡ ok (files', marked)
      → Step files files'
  notify :
      {files' : OwnerFiles} (revision at : ℕ) (sent : Option SessionNotice)
      → claim_session_notice revision at files ≡ ok (files', sent)
      → Step files files'
  erase : Step files (delete files).0
  purge : Step files (revoke files).0

pub data Steps : OwnerFiles → OwnerFiles → Type 0 where
  start : {files : OwnerFiles} → Steps files files
  next :
      {files files' files'' : OwnerFiles}
      → Steps files files'
      → Step files' files''
      → Steps files files''

step_kept :
    (files files' : OwnerFiles) (P : OwnerFiles → Type 0)
    → IsSound files
    → P files
    → ((s : UserSessionSnapshot) (f : OwnerFiles) → Accepted s → save s files ≡ ok f → P f)
    → P (delete files).0
    → P (revoke files).0
    → Step files files'
    → P files'
step_kept files files' P k p w e r (Step.store s a h) = w s files' a h
step_kept files files' P k p w e r (Step.claim attempt_id revision at claimed h) =
    claim_kept files P k p w attempt_id revision at files' claimed h
step_kept files files' P k p w e r (Step.complete attempt_id revision result at final h) =
    complete_kept files P k p w attempt_id revision result at files' final h
step_kept files files' P k p w e r (Step.replace owner revision now s replaced a h) =
    replace_kept files P k p w owner revision now s files' replaced a h
step_kept files files' P k p w e r (Step.mark revision now marked h) =
    mark_kept files P k p w revision now files' marked h
step_kept files files' P k p w e r (Step.notify revision at sent h) =
    notice_kept files P k p w revision at files' sent h
step_kept files files' P k p w e r Step.erase = e
step_kept files files' P k p w e r Step.purge = r

Step-IsSound : (files files' : OwnerFiles) → IsSound files → Step files files' → IsSound files'
unfolding delete revoke
Step-IsSound files files' k step =
    step_kept files files' IsSound k k (λ s f a h. save-IsSound s files f a h)
      (erased files.revoked) tt step
  where
    erased : (r : Bool) → IsKept r none
    erased r = tt

save-revoked :
    (s : UserSessionSnapshot) (files f : OwnerFiles) → save s files ≡ ok f → files.revoked ≡ false
unfolding save
save-revoked s files f h = elim (Bool-cases files.revoked) [ inl e ↦ cc (h, e) | inr e ↦ e ]

Step-revoked :
    (files files' : OwnerFiles)
    → IsSound files
    → files.revoked ≡ true
    → Step files files'
    → files'.revoked ≡ true
unfolding delete revoke
Step-revoked files files' k r step =
    step_kept files files' (λ f. f.revoked ≡ true) k r
      (λ s f a h. let open_file = save-revoked s files f h in cc (open_file, r)) r refl step

no_session : (r : Bool) (session : Option Bundle) → IsKept r session → r ≡ true → session ≡ none
no_session r none k e = refl
no_session true (some bundle) k e = absurd k
no_session false (some bundle) k e = cc

history :
    (files files' : OwnerFiles)
    → IsSound files
    → Steps files files'
    → IsSound files' × (files.revoked ≡ true → (files'.revoked ≡ true) × (files'.session ≡ none))
history files files' k Steps.start = (k, λ r. (r, no_session files.revoked files.session k r))
history files files'' k (Steps.next {files' = files'} steps step) =
    let (sound, gone) = history files files' k steps in
    let final = Step-IsSound files' files'' sound step in
    (
      final,
      λ r.
          let still = Step-revoked files' files'' sound (gone r).0 step in
          (still, no_session files''.revoked files''.session final still),
    )

-- From files with an accepted session or none, and whatever calls are made in whatever order, a
-- session that is there can be loaded again: the bundle is readable, the load returns its snapshot,
-- the version is known and its count of failures, its attempt and their instants fit together. Once
-- the owner is revoked there is no session, and no later call, a login that was under way included,
-- makes one.
pub Steps-IsSound :
    (files files' : OwnerFiles)
    → IsSound files
    → Steps files files'
    → Loads files' × (files.revoked ≡ true → (files'.revoked ≡ true) × (files'.session ≡ none))
Steps-IsSound files files' k steps =
    let (sound, gone) = history files files' k steps in (IsSound-Loads files' sound, gone)
