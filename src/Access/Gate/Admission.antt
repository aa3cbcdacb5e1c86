-- ===== src/Access/Gate/Admission.antt =====
-- What admitting a stranger does to the tables.
use booksaver_agent.Base.{
  ℕ, suc, ◌≡◌, refl, true, false, Option, none, some, List, [], ◌∷◌, ◌++◌, map, arith, inl, inr,
  Bool-cases, ok, if◌then◌else◌, find_first, any,
}
use booksaver_agent.Base.Text.{Text}
use booksaver_agent.Access.{User, UserRole, UserAccessState, InviteCode, is_used, is_expired}
use booksaver_agent.Access.Database.{
  Database, get_by_telegram_id, get_or_create_by_telegram_id, get_invite, insert_user, redeem,
  redeem_found, has_id, has_telegram_id, is_taken, is_redeemable, update_invites, spend, has_code,
}
use booksaver_agent.Access.Database.Laws.{HasUser, find_first-none, any-append}
use booksaver_agent.Access.Gate.{AccessControl, admit, welcome, set_username}

abbrev pub newcomer : ℕ → ℕ → Database → User
newcomer now telegram_user_id db = record {
  user_id = suc db.last_user_id;
  telegram_user_id = some telegram_user_id;
  role = UserRole.user;
  access_state = UserAccessState.active;
  created_at = now;
  telegram_username = none;
}

abbrev pub with_user : User → Database → Database
with_user u db = record db { users = db.users ++ (u ∷ []); last_user_id = u.user_id }

-- The tables once the stranger has a row and the code is spent.
abbrev pub after_admission : ℕ → ℕ → Text → Database → Database
after_admission now telegram_user_id code db =
    update_invites (is_redeemable code) (spend (suc db.last_user_id) now)
      (with_user (newcomer now telegram_user_id db) db)

untaken :
    (t : ℕ) (db : Database) → get_by_telegram_id t db ≡ none → is_taken (some t) db.users ≡ false
unfolding get_by_telegram_id
untaken t db h = find_first-none (has_telegram_id t) db.users h

create-newcomer :
    (now telegram_user_id : ℕ) (db : Database)
    → get_by_telegram_id telegram_user_id db ≡ none
    → get_or_create_by_telegram_id now telegram_user_id UserRole.user db
      ≡ ok (with_user (newcomer now telegram_user_id db) db, newcomer now telegram_user_id db)
unfolding get_or_create_by_telegram_id insert_user
create-newcomer now t db h = let free = untaken t db h in ground (arith, h, free)

module _ (code : Text) (used_by now : ℕ) where
  redeemable :
      (invites : List InviteCode) (i : InviteCode)
      → find_first (has_code code) invites ≡ some i
      → is_used i ≡ false
      → (any (is_redeemable code) invites ≡ true)
        × (find_first
              (has_code code)
              (map (λ j. if is_redeemable code j then spend used_by now j else j) invites)
            ≡ some (spend used_by now i))
  unfolding is_used
  redeemable [] i h k = cc
  redeemable (j ∷ invites) i h k =
      let ih = redeemable invites i in
      elim (Bool-cases (has_code code j)) [
        | inl e ↦ (ground (arith, h, k, e), ground (arith, h, k, e))
        | inr e ↦ (ground (arith, h, k, e, ih), ground (arith, h, k, e, ih))
      ]

  pub found_redeemable :
      (db : Database) (i : InviteCode)
      → get_invite code db ≡ some i
      → is_used i ≡ false
      → (any (is_redeemable code) db.invites ≡ true)
        × (get_invite code (update_invites (is_redeemable code) (spend used_by now) db)
            ≡ some (spend used_by now i))
  unfolding get_invite update_invites
  found_redeemable db i h unused = redeemable db.invites i h unused

  redeem-valid :
      (i : InviteCode) (db : Database)
      → get_invite code db ≡ some i
      → is_used i ≡ false
      → is_expired i now ≡ false
      → HasUser db.users used_by
      → redeem code used_by now db
        ≡ ok
            (update_invites (is_redeemable code) (spend used_by now) db, some (spend used_by now i))
  unfolding redeem redeem_found
  redeem-valid i db h unused current user_there =
      let both = found_redeemable db i h unused in
      ground (arith, h, unused, current, both, user_there)

pub admit-valid :
    (now telegram_user_id : ℕ) (code : Text) (username : Option Text) (gate : AccessControl)
    (i : InviteCode)
    → get_by_telegram_id telegram_user_id gate.database ≡ none
    → get_invite code gate.database ≡ some i
    → is_used i ≡ false
    → is_expired i now ≡ false
    → admit now telegram_user_id code username gate
      ≡ ok (
        set_username
            (suc gate.database.last_user_id)
            username
            (record gate { database = after_admission now telegram_user_id code gate.database }),
        true,
      )
unfolding admit welcome get_invite
admit-valid now t code username gate i h known unused current =
    let u = newcomer now t gate.database in
    let made = with_user u gate.database in
    let there : HasUser made.users u.user_id =
      ground (arith, any-append (has_id u.user_id) gate.database.users (u ∷ [])) in
    rw
      (
        create-newcomer now t gate.database h,
        redeem-valid code u.user_id now i made known unused current there,
      )
      refl
