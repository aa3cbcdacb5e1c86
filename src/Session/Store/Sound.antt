-- ===== src/Session/Store/Sound.antt =====
-- What is kept of an owner's files, and that a write and the changes of a snapshot keep it.
use booksaver_agent.Base.{
  ℕ, ◌≡◌, ◌≢◌, refl, Bool, true, false, Option, none, some, List, ok, arith, inl, inr, Bool-cases,
}
use mathlib.Core.Path.{subst}
use booksaver_agent.Session.{
  SessionStatus, UserSessionSnapshot, check_maintenance, check_metadata, bad_attempt, refreshed,
}
use booksaver_agent.Session.Laws.{refreshed-ready}
use booksaver_agent.Session.Store.{
  Bundle, OwnerFiles, save, content, snapshot, active_snapshot, ready_snapshot, with_maintenance,
  without_attempt, is_unreadable,
}

-- What the constructors of a snapshot's metadata accept.
abbrev pub Accepted : UserSessionSnapshot → Type 0
Accepted s =
    (check_metadata s.metadata ≡ ok tt) × (check_maintenance s.metadata.maintenance ≡ ok tt)

abbrev pub IsKept : Bool → Option Bundle → Type 0
IsKept revoked none = Unit
IsKept true (some bundle) = ⊥
IsKept false (some Bundle.unreadable) = ⊥
IsKept false (some (Bundle.readable s)) = Accepted s

-- No session is left of a revoked owner, and a session that is there is a readable bundle of what the
-- constructors accept.
abbrev pub IsSound : OwnerFiles → Type 0
IsSound files = IsKept files.revoked files.session

pub save-IsSound :
    (s : UserSessionSnapshot) (files files' : OwnerFiles)
    → Accepted s
    → save s files ≡ ok files'
    → IsSound files'
unfolding save
save-IsSound s files files' a h = go files.revoked refl
  where
    go : (r : Bool) → files.revoked ≡ r → IsSound files'
    go true e = cc (h, e)
    go false e = elim (Bool-cases (is_unreadable files.session)) [
      | inl broken ↦ ground (arith, h, e, broken)
      | inr fine ↦
          let made : OwnerFiles = record { session = some (Bundle.readable s); revoked = false } in
          subst IsSound {x = made} (ground (arith, h, e, fine)) a
    ]

pub content-Accepted :
    (files : OwnerFiles) (s : UserSessionSnapshot)
    → IsSound files
    → content files.session ≡ some s
    → Accepted s
content-Accepted files s k h = go files.revoked files.session k h
  where
    go :
        (r : Bool) (session : Option Bundle)
        → IsKept r session
        → content session ≡ some s
        → Accepted s
    go r none k h = cc
    go true (some bundle) k h = absurd k
    go false (some Bundle.unreadable) k h = absurd k
    go false (some (Bundle.readable t)) k h = subst Accepted {x = t} {y = s} (cc h) k

-- What a load gives back: a session that is there is found, as the constructors accept it.
abbrev pub Loads : OwnerFiles → Type 0
Loads files =
    (files.session ≢ none)
    → (s : UserSessionSnapshot) × (files.session ≡ some (Bundle.readable s))
      × (snapshot files ≡ some s)
      × Accepted s

pub IsSound-Loads : (files : OwnerFiles) → IsSound files → Loads files
unfolding snapshot
IsSound-Loads files k = go files.revoked files.session refl refl k
  where
    go :
        (r : Bool) (session : Option Bundle)
        → files.revoked ≡ r
        → files.session ≡ session
        → IsKept r session
        → Loads files
    go r none d e k = λ h. absurd (h e)
    go true (some bundle) d e k = absurd k
    go false (some Bundle.unreadable) d e k = absurd k
    go false (some (Bundle.readable s)) d e k = λ h. (s, e, ground (arith, d, e), k)

pub active-Accepted :
    (files : OwnerFiles) (s : UserSessionSnapshot)
    → IsSound files
    → active_snapshot files ≡ some s
    → Accepted s
unfolding active_snapshot snapshot
active-Accepted files s k h = content-Accepted files s k (ground (arith, h))

pub snapshot-Accepted :
    (files : OwnerFiles) (s : UserSessionSnapshot)
    → IsSound files
    → snapshot files ≡ some s
    → Accepted s
unfolding snapshot
snapshot-Accepted files s k h = content-Accepted files s k (ground (arith, h))

pub noticed-Accepted :
    (at : ℕ) (s : UserSessionSnapshot)
    → Accepted s
    → Accepted (with_maintenance (record (s.metadata.maintenance) { notice_sent_at = some at }) s)
unfolding check_metadata check_maintenance bad_attempt
noticed-Accepted at s a = (ground (arith, a), ground (arith, a))

pub ready-Accepted :
    (now : ℕ) (files : OwnerFiles) (s : UserSessionSnapshot)
    → IsSound files
    → ready_snapshot now files ≡ some s
    → Accepted s
unfolding ready_snapshot
ready-Accepted now files s k h = content-Accepted files s k (ground (arith, h))

pub without_attempt-Accepted :
    (status : SessionStatus) (s : UserSessionSnapshot)
    → Accepted s
    → Accepted (without_attempt status s)
unfolding check_metadata check_maintenance bad_attempt
without_attempt-Accepted status s a = (ground (arith, a), ground (arith, a))

pub refreshed-Accepted :
    (cookies : List ℕ) (at : ℕ) (s : UserSessionSnapshot) → Accepted (refreshed cookies at none s)
refreshed-Accepted cookies at s =
    let facts = refreshed-ready cookies at none s 0 in (facts.0, facts.1)
