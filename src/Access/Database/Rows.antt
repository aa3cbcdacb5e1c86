-- ===== src/Access/Database/Rows.antt =====
-- Changes of rows that keep the keys and the roles keep the tables well formed.
use booksaver_agent.Base.{ℕ, ◌≡◌, Bool, List, map, if◌then◌else◌, arith}
use booksaver_agent.Base.Pairs.{Pairwise, All-weaken}
use booksaver_agent.Access.{User, is_owner, InviteCode}
use booksaver_agent.Access.Database.{Database, has_id, update_users}
use booksaver_agent.Access.Database.Laws.{
  IsApart, HasUser, IsLinked, IsKeyed, IsConsistent, All-map, Pairwise-map, any-map,
  length-filter-map,
}

-- A change that keeps what the constraints are about.
pub record Keeps (change : User → User) : Type 0 where
  pub same_id : (u : User) → (change u).user_id ≡ u.user_id
  pub same_telegram_id : (u : User) → (change u).telegram_user_id ≡ u.telegram_user_id
  pub same_role : (u : User) → (change u).role ≡ u.role

pub IsLinked-mono :
    (users users' : List User)
    → ((n : ℕ) → HasUser users n → HasUser users' n)
    → (i : InviteCode) → IsLinked users i
    → IsLinked users' i
IsLinked-mono users users' h i k = (h i.issued_by k.0, λ u e. h u (k.1 u e))

pub HasUser-map :
    (f : User → User) (same : (u : User) → (f u).user_id ≡ u.user_id) (users : List User) (n : ℕ)
    → HasUser users n
    → HasUser (map f users) n
HasUser-map f same users n h = rw (any-map (has_id n) f (λ u. rw (same u)) users) h

-- A change of the rows that keeps the keys and the roles, once the identities are known to differ.
pub rows-IsConsistent :
    (f : User → User) (db : Database)
    → ((u : User) → (f u).user_id ≡ u.user_id)
    → ((u : User) → (f u).role ≡ u.role)
    → Pairwise IsApart (map f db.users)
    → IsConsistent db
    → IsConsistent (record db { users = map f db.users })
unfolding is_owner
rows-IsConsistent f db same_id same_role apart c = record {
  keyed =
      All-map (IsKeyed db.last_user_id) (IsKeyed db.last_user_id) f db.users
        (λ u h. rw (same_id u) h) c.keyed;
  apart = apart;
  one_owner = rw (length-filter-map is_owner f (λ u. rw (same_role u)) db.users) c.one_owner;
  linked =
      All-weaken (IsLinked db.users) (IsLinked (map f db.users)) db.invites
        (IsLinked-mono db.users (map f db.users) (HasUser-map f same_id db.users)) c.linked;
  distinct = c.distinct;
}

pub map-IsConsistent :
    (f : User → User) (db : Database)
    → Keeps f
    → IsConsistent db
    → IsConsistent (record db { users = map f db.users })
map-IsConsistent f db keeps c =
    rows-IsConsistent f db keeps.same_id keeps.same_role
      (Pairwise-map IsApart IsApart f db.users
        (λ u v h. (
          rw (keeps.same_id u, keeps.same_id v) h.0,
          λ t. rw (keeps.same_telegram_id u, keeps.same_telegram_id v) (h.1 t),
        ))
        c.apart)
      c

pub chosen-Keeps :
    (chosen : User → Bool) (change : User → User)
    → Keeps change
    → Keeps (λ u. if chosen u then change u else u)
chosen-Keeps chosen change k = record {
  same_id = λ u. ground (arith, k.same_id u);
  same_telegram_id = λ u. ground (arith, k.same_telegram_id u);
  same_role = λ u. ground (arith, k.same_role u);
}

pub update_users-IsConsistent :
    (chosen : User → Bool) (change : User → User) (db : Database)
    → Keeps change
    → IsConsistent db
    → IsConsistent (update_users chosen change db)
unfolding update_users
update_users-IsConsistent chosen change db keeps c =
    map-IsConsistent (λ u. if chosen u then change u else u) db (chosen-Keeps chosen change keeps) c
