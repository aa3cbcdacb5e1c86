-- ===== src/Access/Database/Updates.antt =====
-- The operations on the tables keep them well formed.
use booksaver_agent.Base.{
  ℕ, suc, ◌≡◌, refl, ap, Bool, false, ◌&&◌, Option, none, some, List, [], ◌∷◌, ◌++◌, map,
  if◌then◌else◌, any, filter, find_first, All, All-append, arith, inl, inr, Bool-cases, length, ok,
  raise_if, ◌>>◌, raise_if-eq-ok, ok-injective, is_none, Option-cases, Error,
}
use booksaver_agent.Base.Pairs.{
  Pairwise, Pairwise-append, All-weaken, All-of_each, All-×, Pairwise-×, Pairwise-All,
}
use mathlib.Core.Path.{subst}
use booksaver_agent.Base.Text.{Text}
use booksaver_agent.Access.{User, UserRole, UserAccessState, is_owner}
use booksaver_agent.Access.Database.{
  Database, has_id, has_telegram_id, is_taken, insert_user, ensure_owner_user, get_owner,
  get_or_create_by_telegram_id, update_users, set_access_state, link_telegram_id,
  set_telegram_username, get_by_id, get_by_telegram_id, same_username, normalized_username,
}
use booksaver_agent.Access.Database.Laws.{
  IsApart, IsLinked, IsKeyed, IsConsistent, Pairwise-map, map-same, any-append,
  length-filter-append, any-false-All, find_first-none,
}
use booksaver_agent.Access.Database.Rows.{
  IsLinked-mono, rows-IsConsistent, update_users-IsConsistent,
}

no_owner : (users : List User) → any is_owner users ≡ false → length (filter is_owner users) ≡ 0
no_owner [] h = refl
no_owner (u ∷ users) h = ground (arith, no_owner users)

not_taken :
    (telegram_user_id : Option ℕ) (users : List User)
    → is_taken telegram_user_id users ≡ false
    → All (λ u. (t : ℕ) → u.telegram_user_id ≡ some t → telegram_user_id ≡ some t → ⊥) users
not_taken none users h =
    All-of_each (λ u. (t : ℕ) → u.telegram_user_id ≡ some t → none ≡ some t → ⊥) users
      (λ u t e f. cc)
not_taken (some a) users h =
    All-weaken (λ u. has_telegram_id a u ≡ false)
      (λ u. (t : ℕ) → u.telegram_user_id ≡ some t → some a ≡ some t → ⊥) users
      (λ u k t e f. ground (arith, k, e, f)) (any-false-All (has_telegram_id a) users h)

fresh :
    (created : User) (db : Database)
    → created.user_id ≡ suc db.last_user_id
    → is_taken created.telegram_user_id db.users ≡ false
    → IsConsistent db
    → All (λ u. All (IsApart u) (created ∷ [])) db.users
fresh created db e h c =
    All-weaken
      (λ u.
        IsKeyed db.last_user_id u
        × ((t : ℕ) → u.telegram_user_id ≡ some t → created.telegram_user_id ≡ some t → ⊥))
      (λ u. All (IsApart u) (created ∷ [])) db.users
      (λ u k. ((λ same. let small = k.0 in omega (arith, small, same, e), k.1), tt))
      (All-× (IsKeyed db.last_user_id) _ db.users c.keyed
        (not_taken created.telegram_user_id db.users h))

added-IsConsistent :
    (created : User) (db : Database)
    → created.user_id ≡ suc db.last_user_id
    → created.role ≡ UserRole.user
    → is_taken created.telegram_user_id db.users ≡ false
    → IsConsistent db
    → IsConsistent
        (record db { users = db.users ++ (created ∷ []); last_user_id = suc db.last_user_id })
unfolding is_owner
added-IsConsistent created db e r h c = record {
  keyed =
      All-append (IsKeyed (suc db.last_user_id)) db.users (created ∷ [])
        (All-weaken (IsKeyed db.last_user_id) (IsKeyed (suc db.last_user_id)) db.users
          (λ u k. omega (arith, k)) c.keyed)
        (omega (arith, e), tt);
  apart = Pairwise-append IsApart db.users (created ∷ []) c.apart (tt, tt) (fresh created db e h c);
  one_owner = ground (arith, length-filter-append is_owner db.users (created ∷ []), c.one_owner, r);
  linked =
      All-weaken (IsLinked db.users) (IsLinked (db.users ++ (created ∷ []))) db.invites
        (IsLinked-mono db.users (db.users ++ (created ∷ []))
          (λ n k. ground (arith, any-append (has_id n) db.users (created ∷ []), k)))
        c.linked;
  distinct = c.distinct;
}

-- A call that returns has passed its check, and has returned what it computes.
pub returned :
    (P : Database → Type 0) (checked : Bool) (e : Error) (made : Database) {db' : Database}
    → (raise_if checked e >> ok made) ≡ ok db'
    → (checked ≡ false → P made)
    → P db'
returned P checked e made h holds =
    let (passed, same) = raise_if-eq-ok checked e (ok made) h in
    subst P (ok-injective same) (holds passed)

pub returned_pair {ℓ} :
    {A : Type ℓ} (P : Database → Type 0) (checked : Bool) (e : Error) (made : Database) (a : A)
    {db' : Database} {a' : A}
    → ◌>>◌ {B = Database × A} (raise_if checked e) (ok (made, a)) ≡ ok (db', a')
    → (checked ≡ false → P made)
    → P db'
returned_pair {A = A} P checked e made a h holds =
    let (passed, same) = raise_if-eq-ok {B = Database × A} checked e (ok (made, a)) h in
    subst P (ap (λ p. p.0) (ok-injective same)) (holds passed)

insert_user-IsConsistent :
    (now : ℕ) (telegram_user_id : Option ℕ) (role : UserRole) (db db' : Database) (u : User)
    → insert_user now telegram_user_id role db ≡ ok (db', u)
    → IsConsistent db
    → IsConsistent db'
unfolding insert_user
insert_user-IsConsistent now telegram_user_id UserRole.user db db' u h c =
    returned_pair IsConsistent _ Error.integrity_error _ _ h
      (λ passed. added-IsConsistent _ db refl refl (ground (arith, passed)) c)
insert_user-IsConsistent now telegram_user_id UserRole.owner db db' u h c =
    returned_pair IsConsistent _ Error.integrity_error _ _ h (λ passed. absurd (
      let none_left = no_owner db.users (ground (arith, passed)) in
      let one = c.one_owner in ground (arith, none_left, one)))

has_owner : (db : Database) → IsConsistent db → find_first is_owner db.users ≡ none → ⊥
has_owner db c e =
    let none_left = no_owner db.users (find_first-none is_owner db.users e) in
    let one = c.one_owner in omega (arith, none_left, one)

pub ensure_owner_user-same :
    (now : ℕ) (db db' : Database) (user_id : ℕ)
    → ensure_owner_user now db ≡ ok (db', user_id)
    → IsConsistent db
    → db' ≡ db
unfolding ensure_owner_user
ensure_owner_user-same now db db' user_id h c = elim (Option-cases (find_first is_owner db.users)) [
  | inl e ↦ absurd (has_owner db c e)
  | inr (u, e) ↦ cc (h, e)
]

-- The first row of a fresh database.
pub first-IsConsistent :
    (now : ℕ) (db' : Database) (user_id : ℕ)
    → ensure_owner_user now (record { users = []; last_user_id = 0; invites = [] })
      ≡ ok (db', user_id)
    → IsConsistent db'
unfolding ensure_owner_user insert_user is_owner
first-IsConsistent now db' user_id h =
    let first : User = record {
      user_id = 1;
      telegram_user_id = none;
      role = UserRole.owner;
      access_state = UserAccessState.active;
      created_at = now;
      telegram_username = none;
    } in
    let made : Database = record { users = first ∷ []; last_user_id = 1; invites = [] } in
    subst IsConsistent {x = made} (cc h) (record {
      keyed = (omega arith, tt);
      apart = (tt, tt);
      one_owner = refl;
      linked = tt;
      distinct = tt;
    })

pub get_or_create-IsConsistent :
    (now telegram_user_id : ℕ) (role : UserRole) (db db' : Database) (u : User)
    → get_or_create_by_telegram_id now telegram_user_id role db ≡ ok (db', u)
    → IsConsistent db
    → IsConsistent db'
unfolding get_or_create_by_telegram_id
get_or_create-IsConsistent now telegram_user_id role db db' u h c =
    elim (Option-cases (get_by_telegram_id telegram_user_id db)) [
      | inl e ↦ insert_user-IsConsistent now (some telegram_user_id) role db db' u (cc (h, e)) c
      | inr (v, e) ↦ subst IsConsistent (cc (h, e)) c
    ]

pub set_access_state-IsConsistent :
    (user_id : ℕ) (access_state : UserAccessState) (db db' : Database)
    → set_access_state user_id access_state db ≡ ok db'
    → IsConsistent db
    → IsConsistent db'
unfolding set_access_state
set_access_state-IsConsistent user_id access_state db db' h c =
    returned IsConsistent _ Error.key_error _ h (λ passed.
      update_users-IsConsistent _ _ db
        (record { same_id = λ u. refl; same_telegram_id = λ u. refl; same_role = λ u. refl }) c)

-- A database that has its owner is opened as it is.
pub get_owner-same :
    (now : ℕ) (db db' : Database) (u : Option User)
    → get_owner now db ≡ ok (db', u)
    → IsConsistent db
    → db' ≡ db
unfolding get_owner
get_owner-same now db db' u h c = elim (Option-cases (find_first is_owner db.users)) [
  | inl e ↦ absurd (has_owner db c e)
  | inr (v, e) ↦ cc (h, e)
]

pub set_telegram_username-IsConsistent :
    (user_id : ℕ) (username : Option Text) (db db' : Database) (changed : Bool)
    → set_telegram_username user_id username db ≡ ok (db', changed)
    → IsConsistent db
    → IsConsistent db'
unfolding set_telegram_username
set_telegram_username-IsConsistent user_id username db db' changed h c =
    elim (Option-cases (get_by_id user_id db)) [
      | inl e ↦ cc (h, e)
      | inr (u, e) ↦
          elim (Bool-cases (same_username u.telegram_username (normalized_username username))) [
            | inl same ↦ subst IsConsistent (cc (h, e, same)) c
            | inr other ↦ subst IsConsistent (cc (h, e, other)) (
                update_users-IsConsistent (has_id user_id)
                  (λ v. record v { telegram_username = normalized_username username }) db
                  (record {
                    same_id = λ u. refl;
                    same_telegram_id = λ u. refl;
                    same_role = λ u. refl;
                  })
                  c)
          ]
    ]

-- Of two rows, one at most is chosen, so a new identity stays unique.
link-IsApart :
    (user_id t : ℕ) (u v : User)
    → IsApart u v
    → has_telegram_id t u ≡ false
    → has_telegram_id t v ≡ false
    → IsApart
        (if has_id user_id u && is_none u.telegram_user_id
          then record u { telegram_user_id = some t }
          else u)
        (if has_id user_id v && is_none v.telegram_user_id
          then record v { telegram_user_id = some t }
          else v)
link-IsApart user_id t u v h hu hv = (
  λ e. ground (arith, h.0, e),
  λ t' e f. (let clash = h.1 t' in ground (arith, h.0, clash, hu, hv, e, f)),
)

unfoldable link_row : ℕ → ℕ → User → User
link_row user_id t u =
    if has_id user_id u && is_none u.telegram_user_id
    then record u { telegram_user_id = some t }
    else u

linked-IsApart :
    (user_id t : ℕ) (users : List User)
    → Pairwise IsApart users
    → (any (λ u. has_id user_id u && is_none u.telegram_user_id) users && is_taken (some t) users)
      ≡ false
    → Pairwise IsApart (map (link_row user_id t) users)
unfolding link_row
linked-IsApart user_id t users apart h =
    let chosen : User → Bool = λ u. has_id user_id u && is_none u.telegram_user_id in
    elim (Bool-cases (any chosen users)) [
      | inl e ↦
          Pairwise-map
            (λ u v. IsApart u v × ((has_telegram_id t u ≡ false) × (has_telegram_id t v ≡ false)))
            IsApart (link_row user_id t) users (λ u v k. link-IsApart user_id t u v k.0 k.1.0 k.1.1)
            (Pairwise-× IsApart
              (λ u v. (has_telegram_id t u ≡ false) × (has_telegram_id t v ≡ false)) users apart
              (Pairwise-All (λ u. has_telegram_id t u ≡ false) users
                (any-false-All (has_telegram_id t) users (ground (arith, h, e)))))
      | inr e ↦
          rw
            (map-same (link_row user_id t) users (
              All-weaken (λ u. chosen u ≡ false) (λ u. link_row user_id t u ≡ u) users
                (λ u k. rw k refl) (any-false-All chosen users e)))
            apart
    ]

pub link_telegram_id-IsConsistent :
    (user_id telegram_user_id : ℕ) (db db' : Database)
    → link_telegram_id user_id telegram_user_id db ≡ ok db'
    → IsConsistent db
    → IsConsistent db'
unfolding link_telegram_id link_row update_users
link_telegram_id-IsConsistent user_id t db db' h c =
    returned IsConsistent _ Error.integrity_error _ h (λ passed.
      rows-IsConsistent (link_row user_id t) db (λ u. ground arith) (λ u. ground arith)
        (linked-IsApart user_id t db.users c.apart passed) c)
