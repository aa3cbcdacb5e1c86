-- ===== src/Access.antt =====
-- Who may use the Telegram bot (src/booksaver/domain/user.py,
-- src/booksaver/infrastructure/telegram/access.py, and the users and invite codes of
-- src/booksaver/infrastructure/persistence/sqlite_store.py). Identities and instants are numbers:
-- identities are only compared for equality, and a negative one (a group's) stands for any other.
mod Tests
pub mod Database
pub mod Gate
pub mod RateLimiter
use booksaver_agent.Base.{ℕ, Bool, true, false, ◌&&◌, Option, none, some, List, ltb, is_some}
use booksaver_agent.Base.Text.{Text}

pub data UserRole : Type 0 where
  owner user : UserRole

pub data UserAccessState : Type 0 where
  active revoked : UserAccessState

pub record User : Type 0 where
  pub user_id : ℕ
  pub telegram_user_id : Option ℕ
  pub role : UserRole
  pub access_state : UserAccessState
  pub created_at : ℕ
  pub telegram_username : Option Text

abbrev pub is_owner_role : UserRole → Bool
is_owner_role UserRole.owner = true
is_owner_role UserRole.user = false

abbrev pub is_active_state : UserAccessState → Bool
is_active_state UserAccessState.active = true
is_active_state UserAccessState.revoked = false

-- `User.is_owner`
unfoldable pub is_owner : User → Bool
is_owner u = is_owner_role u.role

-- `User.is_active`
unfoldable pub is_active : User → Bool
is_active u = is_active_state u.access_state

pub record InviteCode : Type 0 where
  pub code : Text
  pub issued_by : ℕ
  pub issued_at : ℕ
  pub expires_at : Option ℕ
  pub used_by : Option ℕ
  pub used_at : Option ℕ

-- `InviteCode.is_used`
unfoldable pub is_used : InviteCode → Bool
is_used i = is_some i.used_by

abbrev pub is_past : Option ℕ → ℕ → Bool
is_past none now = false
is_past (some expires_at) now = ltb expires_at now

-- `InviteCode.is_expired`
unfoldable pub is_expired : InviteCode → ℕ → Bool
is_expired i now = is_past i.expires_at now
