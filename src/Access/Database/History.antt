-- ===== src/Access/Database/History.antt =====
-- The database over time: the operations in any order, each committed or rolled back whole.
use booksaver_agent.Base.{ℕ, ◌≡◌, Bool, Option, [], ok}
use mathlib.Core.Path.{subst, sym}
use booksaver_agent.Base.Text.{Text}
use booksaver_agent.Access.{User, UserRole, UserAccessState, InviteCode}
use booksaver_agent.Access.Database.{
  Database, ensure_owner_user, get_or_create_by_telegram_id, set_access_state, link_telegram_id,
  set_telegram_username, purge, issue, redeem,
}
use booksaver_agent.Access.Database.Laws.{IsConsistent}
use booksaver_agent.Access.Database.Updates.{
  ensure_owner_user-same, first-IsConsistent, get_or_create-IsConsistent,
  set_access_state-IsConsistent, link_telegram_id-IsConsistent, set_telegram_username-IsConsistent,
}
use booksaver_agent.Access.Database.Purge.{
  purge-IsConsistent, issue-IsConsistent, redeem-IsConsistent,
}

pub data Step : Database → Database → Type 0 where
  connect :
      {db db' : Database} (now user_id : ℕ)
      → ensure_owner_user now db ≡ ok (db', user_id)
      → Step db db'
  create :
      {db db' : Database} (now telegram_user_id : ℕ) (role : UserRole) (u : User)
      → get_or_create_by_telegram_id now telegram_user_id role db ≡ ok (db', u)
      → Step db db'
  access :
      {db db' : Database} (user_id : ℕ) (access_state : UserAccessState)
      → set_access_state user_id access_state db ≡ ok db'
      → Step db db'
  link :
      {db db' : Database} (user_id telegram_user_id : ℕ)
      → link_telegram_id user_id telegram_user_id db ≡ ok db'
      → Step db db'
  rename :
      {db db' : Database} (user_id : ℕ) (username : Option Text) (changed : Bool)
      → set_telegram_username user_id username db ≡ ok (db', changed)
      → Step db db'
  delete : {db db' : Database} (user_id : ℕ) → purge user_id db ≡ ok db' → Step db db'
  invite :
      {db db' : Database} (code : Text) (now issued_by : ℕ) (expires_at : Option ℕ)
      (issued : InviteCode)
      → issue code now issued_by expires_at db ≡ ok (db', issued)
      → Step db db'
  spend :
      {db db' : Database} (code : Text) (used_by now : ℕ) (redeemed : Option InviteCode)
      → redeem code used_by now db ≡ ok (db', redeemed)
      → Step db db'

abbrev pub empty_database : Database
empty_database = record { users = []; last_user_id = 0; invites = [] }

-- What the operations lead to from the first connection to a new file.
pub data Reach : Database → Type 0 where
  first :
      {db : Database} (now user_id : ℕ)
      → ensure_owner_user now empty_database ≡ ok (db, user_id)
      → Reach db
  next : {db db' : Database} → Reach db → Step db db' → Reach db'

pub Step-IsConsistent : (db db' : Database) → Step db db' → IsConsistent db → IsConsistent db'
Step-IsConsistent db db' (Step.connect now n h) c =
    subst IsConsistent (sym (ensure_owner_user-same now db db' n h c)) c
Step-IsConsistent db db' (Step.create now t role u h) c =
    get_or_create-IsConsistent now t role db db' u h c
Step-IsConsistent db db' (Step.access n state h) c =
    set_access_state-IsConsistent n state db db' h c
Step-IsConsistent db db' (Step.link n t h) c = link_telegram_id-IsConsistent n t db db' h c
Step-IsConsistent db db' (Step.rename n name changed h) c =
    set_telegram_username-IsConsistent n name db db' changed h c
Step-IsConsistent db db' (Step.delete n h) c = purge-IsConsistent n db db' h c
Step-IsConsistent db db' (Step.invite code now by until i h) c =
    issue-IsConsistent code now by until db db' i h c
Step-IsConsistent db db' (Step.spend code by now i h) c =
    redeem-IsConsistent code by now db db' i h c

-- Whatever the operations and their order from a new file on, there is exactly one owner, no two
-- users share a key or a telegram identity, no two invite codes are equal, and every user that a code
-- names, who issued it or who used it, is there.
pub Reach-IsConsistent : (db : Database) → Reach db → IsConsistent db
Reach-IsConsistent db (Reach.first now user_id h) = first-IsConsistent now db user_id h
Reach-IsConsistent db (Reach.next {db = before} r step) =
    Step-IsConsistent before db step (Reach-IsConsistent before r)
