-- ===== src/Access/Gate.antt =====
-- AccessControl of src/booksaver/infrastructure/telegram/access.py: the decision on one message, on
-- the database that it opens. `_owner_linked` is kept per process; the mode is a legacy argument.
pub mod Laws
pub mod Admission
pub mod SingleUse
use booksaver_agent.Base.{
  ℕ, Bool, true, false, not, ◌&&◌, ◌||◌, Option, none, some, [], ◌∷◌, ◌==◌, is_nil, is_none,
  if◌then◌else◌, Result, ok, err, ◌>>=◌,
}
use booksaver_agent.Base.Text.{Text, text_eq, strip}
use booksaver_agent.Access.{UserRole, User, is_active, InviteCode, is_used, is_expired}
use booksaver_agent.Access.Database.{
  Database, get_owner, get_by_telegram_id, get_or_create_by_telegram_id, link_telegram_id,
  set_telegram_username, get_invite, redeem, lstrip_at, or_none,
}

pub record AccessControl : Type 0 where
  pub owner_chat_id : ℕ
  pub owner_linked : Bool
  pub database : Database

unfoldable pub is_owner_chat : ℕ → AccessControl → Bool
is_owner_chat chat_id gate = chat_id == gate.owner_chat_id

-- `_normalize_username`
unfoldable pub normalize_username : Option Text → Option Text
normalize_username none = none
normalize_username (some username) = or_none (strip (lstrip_at (strip username)))

-- What is kept of a call whose exceptions are swallowed.
abbrev pub best_effort {ℓ} : {A : Type ℓ} → A → Result A → A
best_effort before (err _) = before
best_effort before (ok after) = after

-- `_set_username_best_effort`
unfoldable pub set_username_best_effort : ℕ → Option Text → Database → Database
set_username_best_effort user_id username db =
    best_effort db
      (set_telegram_username user_id (normalize_username username) db >>= λ set. ok (set.0))

-- The owner's row that was found, linked where it has no identity yet.
unfoldable pub link_found : ℕ → Database → Option User → AccessControl → AccessControl
link_found telegram_user_id database none gate = record gate { database = database }
link_found telegram_user_id database (some u) gate =
    if is_none u.telegram_user_id
    then (elim (link_telegram_id u.user_id telegram_user_id database) [
      | err _ ↦ record gate { database = database }
      | ok linked ↦ record gate { database = linked; owner_linked = true }
    ])
    else record gate { database = database; owner_linked = true }

-- `_ensure_owner_linked`
unfoldable pub ensure_owner_linked : ℕ → ℕ → AccessControl → AccessControl
ensure_owner_linked now telegram_user_id gate =
    if gate.owner_linked then gate else elim (get_owner now gate.database) [
      | err _ ↦ gate
      | ok found ↦ link_found telegram_user_id found.0 found.1 gate
    ]

abbrev pub set_username : ℕ → Option Text → AccessControl → AccessControl
set_username user_id username gate = record gate {
  database = set_username_best_effort user_id username gate.database;
}

-- `_refresh_authorized_username`
unfoldable pub refresh_authorized_username : ℕ → Option Text → AccessControl → AccessControl
refresh_authorized_username telegram_user_id username gate =
    elim (get_by_telegram_id telegram_user_id gate.database) [
      | none ↦ gate
      | some u ↦ set_username u.user_id username gate
    ]

unfoldable pub is_valid : InviteCode → ℕ → Bool
is_valid i now = not (is_used i) && not (is_expired i now)

-- What follows `redeem`.
unfoldable pub welcome :
    User → Option Text → AccessControl → Option InviteCode → AccessControl × Bool
welcome new_user username gate none = (gate, false)
welcome new_user username gate (some _) = (set_username new_user.user_id username gate, true)

-- A stranger with a code that is known and valid: the row first, then the redemption.
unfoldable pub admit : ℕ → ℕ → Text → Option Text → AccessControl → Result (AccessControl × Bool)
admit now telegram_user_id code username gate =
    get_or_create_by_telegram_id now telegram_user_id UserRole.user gate.database >>= λ created.
    redeem code created.1.user_id now created.0 >>= λ redeemed.
    ok (welcome created.1 username (record gate { database = redeemed.0 }) redeemed.1)

unfoldable pub authorize_stranger :
    ℕ → ℕ → Text → Option Text → AccessControl → Result (AccessControl × Bool)
authorize_stranger now telegram_user_id code username gate = elim (get_invite code gate.database) [
  | none ↦ ok (gate, false)
  | some i ↦
      if is_valid i now then admit now telegram_user_id code username gate else ok (gate, false)
]

abbrev pub start_command : Text
start_command = 47 ∷ 115 ∷ 116 ∷ 97 ∷ 114 ∷ 116 ∷ []

unfoldable pub authorize :
    ℕ → ℕ → ℕ → Text → Text → Option Text → AccessControl → Result (AccessControl × Bool)
authorize now telegram_user_id chat_id command args username gate =
    if is_owner_chat chat_id gate
    then ok (
      refresh_authorized_username telegram_user_id username
          (ensure_owner_linked now telegram_user_id gate),
      true,
    )
    else elim (get_by_telegram_id telegram_user_id gate.database) [
      | some u ↦
          if is_active u then ok (set_username u.user_id username gate, true) else ok (gate, false)
      | none ↦
          if text_eq command start_command && not (is_nil (strip args))
          then authorize_stranger now telegram_user_id (strip args) username gate
          else ok (gate, false)
    ]

pub data AccessRefusalReason : Type 0 where
  unknown revoked : AccessRefusalReason

unfoldable pub refusal_reason : ℕ → AccessControl → AccessRefusalReason
refusal_reason telegram_user_id gate = elim (get_by_telegram_id telegram_user_id gate.database) [
  | none ↦ AccessRefusalReason.unknown
  | some u ↦ if is_active u then AccessRefusalReason.unknown else AccessRefusalReason.revoked
]

unfoldable pub is_active_telegram_user : ℕ → AccessControl → Bool
is_active_telegram_user telegram_user_id gate =
    telegram_user_id == gate.owner_chat_id
    || (elim (get_by_telegram_id telegram_user_id gate.database) [
      | none ↦ false
      | some u ↦ is_active u
    ])
