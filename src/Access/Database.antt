-- ===== src/Access/Database.antt =====
-- The tables `users` and `invite_codes` with their constraints, and the operations of
-- SqliteUserRepository and SqliteInviteCodeRepository on them
-- (src/booksaver/infrastructure/persistence/sqlite_store.py and schema.sql beside it). An operation
-- commits whole or raises and leaves the tables as they were. The other tables are not part of the
-- state, and neither is the rejection by one of their foreign keys.
pub mod Rows
pub mod Laws
pub mod Updates
pub mod History
pub mod Purge
use booksaver_agent.Base.{
  ℕ, suc, Bool, true, false, not, ◌&&◌, ◌||◌, Option, none, some, List, [], ◌∷◌, ◌++◌, map, ◌==◌,
  is_nil, is_none, is_some, if◌then◌else◌, Result, ok, err, Error, ◌>>=◌, ◌>>◌, raise_if, any,
  filter, find_first,
}
use booksaver_agent.Base.Text.{Text, text_eq, strip}
use booksaver_agent.Access.{
  UserRole, UserAccessState, User, is_owner_role, is_owner, is_active, InviteCode, is_used,
  is_expired,
}

-- `last_user_id` is the sequence of the AUTOINCREMENT key.
pub record Database : Type 0 where
  pub users : List User
  pub last_user_id : ℕ
  pub invites : List InviteCode

-- `user_id = ?`
abbrev pub has_id : ℕ → User → Bool
has_id user_id u = u.user_id == user_id

abbrev pub equals : ℕ → Option ℕ → Bool
equals a none = false
equals a (some b) = b == a

-- `telegram_user_id = ?`
abbrev pub has_telegram_id : ℕ → User → Bool
has_telegram_id telegram_user_id u = equals telegram_user_id u.telegram_user_id

unfoldable pub get_by_id : ℕ → Database → Option User
get_by_id user_id db = find_first (has_id user_id) db.users

unfoldable pub get_by_telegram_id : ℕ → Database → Option User
get_by_telegram_id telegram_user_id db = find_first (has_telegram_id telegram_user_id) db.users

abbrev pub is_taken : Option ℕ → List User → Bool
is_taken none users = false
is_taken (some telegram_user_id) users = any (has_telegram_id telegram_user_id) users

-- The `INSERT` of a user with the next key, under the unique telegram identity and owner.
unfoldable pub insert_user : ℕ → Option ℕ → UserRole → Database → Result (Database × User)
insert_user now telegram_user_id role db =
    let created : User = record {
      user_id = suc db.last_user_id;
      telegram_user_id = telegram_user_id;
      role = role;
      access_state = UserAccessState.active;
      created_at = now;
      telegram_username = none;
    } in
    raise_if (is_taken telegram_user_id db.users || (is_owner_role role && any is_owner db.users))
      Error.integrity_error
    >> ok (
      record db { users = db.users ++ (created ∷ []); last_user_id = suc db.last_user_id },
      created,
    )

-- `_ensure_owner_user`
unfoldable pub ensure_owner_user : ℕ → Database → Result (Database × ℕ)
ensure_owner_user now db = elim (find_first is_owner db.users) [
  | some u ↦ ok (db, u.user_id)
  | none ↦
      insert_user now none UserRole.owner db >>= λ inserted. ok (inserted.0, inserted.1.user_id)
]

-- `get_owner`
unfoldable pub get_owner : ℕ → Database → Result (Database × Option User)
get_owner now db = elim (find_first is_owner db.users) [
  | some u ↦ ok (db, some u)
  | none ↦ ensure_owner_user now db >>= λ ensured. ok (ensured.0, get_by_id ensured.1 ensured.0)
]

unfoldable pub get_or_create_by_telegram_id : ℕ → ℕ → UserRole → Database → Result (Database × User)
get_or_create_by_telegram_id now telegram_user_id role db =
    elim (get_by_telegram_id telegram_user_id db) [
      | some existing ↦ ok (db, existing)
      | none ↦ insert_user now (some telegram_user_id) role db
    ]

-- `UPDATE users SET … WHERE …`
unfoldable pub update_users : (User → Bool) → (User → User) → Database → Database
update_users chosen change db = record db {
  users = map (λ u. if chosen u then change u else u) db.users;
}

unfoldable pub set_access_state : ℕ → UserAccessState → Database → Result Database
set_access_state user_id access_state db =
    raise_if (not (any (has_id user_id) db.users)) Error.key_error
    >> ok (update_users (has_id user_id) (λ u. record u { access_state = access_state }) db)

-- The key is unique, so it fails where a row is chosen and another has the identity.
unfoldable pub link_telegram_id : ℕ → ℕ → Database → Result Database
link_telegram_id user_id telegram_user_id db =
    let chosen : User → Bool = λ u. has_id user_id u && is_none u.telegram_user_id in
    raise_if (any chosen db.users && is_taken (some telegram_user_id) db.users)
      Error.integrity_error
    >> ok (update_users chosen (λ u. record u { telegram_user_id = some telegram_user_id }) db)

-- `s.lstrip("@")`
unfoldable pub lstrip_at : Text → Text
lstrip_at [] = []
lstrip_at (c ∷ s) = if c == 64 then lstrip_at s else c ∷ s

-- `s or None`
abbrev pub or_none : Text → Option Text
or_none [] = none
or_none (c ∷ s) = some (c ∷ s)

abbrev pub same_username : Option Text → Option Text → Bool
same_username none none = true
same_username (some a) (some b) = text_eq a b
same_username _ _ = false

abbrev pub normalized_username : Option Text → Option Text
normalized_username none = none
normalized_username (some name) = or_none (lstrip_at (strip name))

unfoldable pub set_telegram_username : ℕ → Option Text → Database → Result (Database × Bool)
set_telegram_username user_id telegram_username db = elim (get_by_id user_id db) [
  | none ↦ err Error.key_error
  | some u ↦
      let normalized = normalized_username telegram_username in
      if same_username u.telegram_username normalized
      then ok (db, false)
      else ok (
        update_users (has_id user_id) (λ u. record u { telegram_username = normalized }) db,
        true,
      )
]

-- The deletions, once the user is found. Clearing `issued_by` breaks its NOT NULL constraint where a
-- code is left that the user issued.
unfoldable pub purge_found : ℕ → User → Database → Result Database
purge_found user_id u db =
    let invites = filter (λ i. not (equals user_id i.used_by)) db.invites in
    raise_if (is_owner u) Error.value_error
    >> (raise_if (any (λ i. i.issued_by == user_id) invites) Error.integrity_error
        >> ok (record db {
          users = filter (λ v. not (has_id user_id v)) db.users;
          invites = invites;
        }))

unfoldable pub purge : ℕ → Database → Result Database
purge user_id db = elim (get_by_id user_id db) [
  | none ↦ err Error.key_error
  | some u ↦ purge_found user_id u db
]

-- `list_active`, before the order by creation
unfoldable pub list_active : Database → List User
list_active db = filter is_active db.users

-- `code = ?`
abbrev pub has_code : Text → InviteCode → Bool
has_code code i = text_eq i.code code

-- `get` of SqliteInviteCodeRepository
unfoldable pub get_invite : Text → Database → Option InviteCode
get_invite code db = find_first (has_code code) db.invites

-- `issue`, given the text that `secrets.token_urlsafe` draws.
unfoldable pub issue : Text → ℕ → ℕ → Option ℕ → Database → Result (Database × InviteCode)
issue code now issued_by expires_at db =
    let issued : InviteCode = record {
      code = code;
      issued_by = issued_by;
      issued_at = now;
      expires_at = expires_at;
      used_by = none;
      used_at = none;
    } in
    raise_if (any (has_code code) db.invites || not (any (has_id issued_by) db.users))
      Error.integrity_error
    >> ok (record db { invites = db.invites ++ (issued ∷ []) }, issued)

-- `UPDATE invite_codes SET … WHERE …`
unfoldable pub update_invites :
    (InviteCode → Bool) → (InviteCode → InviteCode) → Database → Database
update_invites chosen change db = record db {
  invites = map (λ i. if chosen i then change i else i) db.invites;
}

abbrev pub is_redeemable : Text → InviteCode → Bool
is_redeemable code i = has_code code i && is_none i.used_by

abbrev pub spend : ℕ → ℕ → InviteCode → InviteCode
spend used_by now i = record i { used_by = some used_by; used_at = some now }

-- The second part of `redeem`: the guarded update and what it reports.
unfoldable pub redeem_found : Text → ℕ → ℕ → Database → Result (Database × Option InviteCode)
redeem_found code used_by now db =
    raise_if (any (is_redeemable code) db.invites && not (any (has_id used_by) db.users))
      Error.integrity_error
    >> (if any (is_redeemable code) db.invites
        then (let updated = update_invites (is_redeemable code) (spend used_by now) db in
            ok (updated, get_invite code updated))
        else ok (db, none))

unfoldable pub redeem : Text → ℕ → ℕ → Database → Result (Database × Option InviteCode)
redeem code used_by now db = elim (get_invite code db) [
  | none ↦ ok (db, none)
  | some i ↦
      if is_used i || is_expired i now then ok (db, none) else redeem_found code used_by now db
]
