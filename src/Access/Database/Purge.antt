-- ===== src/Access/Database/Purge.antt =====
-- Purging a user, and the operations on invite codes, keep the tables well formed.
use booksaver_agent.Base.{
  ℕ, ◌≡◌, ◌≢◌, refl, sym, ◌∙◌, Bool, true, false, not, ◌&&◌, ◌||◌, Option, some, List, [], ◌∷◌,
  if◌then◌else◌, any, filter, find_first, All, All-append, arith, inl, inr, Bool-cases, length, ok,
  raise_if-eq-ok, Option-cases, ◌==◌, Error,
}
use booksaver_agent.Base.Pairs.{
  Pairwise, Pairwise-append, Pairwise-filter, All-filter, All-filter_test, All-weaken,
}
use mathlib.Core.Path.{subst}
use booksaver_agent.Base.Text.{Text, text_eq_iff}
use booksaver_agent.Access.{User, is_owner, InviteCode, is_used, is_expired}
use booksaver_agent.Access.Database.{
  Database, has_id, equals, get_by_id, purge, purge_found, issue, redeem, redeem_found,
  update_invites, is_redeemable, spend, has_code, get_invite,
}
use booksaver_agent.Access.Database.Laws.{
  IsApart, HasUser, IsLinked, IsKeyed, IsConsistent, All-map, Pairwise-map, any-false-All,
}
use booksaver_agent.Access.Database.Updates.{returned, returned_pair}

-- The row that a key finds is the only one that has the key.
found_role :
    (user_id : ℕ) (users : List User) (u : User)
    → Pairwise IsApart users
    → find_first (has_id user_id) users ≡ some u
    → All (λ v. has_id user_id v ≡ true → is_owner v ≡ is_owner u) users
found_role user_id [] u h e = tt
found_role user_id (v ∷ users) u h e = elim (Bool-cases (has_id user_id v)) [
  | inl same ↦
      let now : v ≡ u = ground (arith, e, same) in
      (
        λ k. rw now refl,
        All-weaken (IsApart v) (λ w. has_id user_id w ≡ true → is_owner w ≡ is_owner u) users
            (λ w apart k. absurd (apart.0 (ground (arith, same, k)))) h.0,
      )
  | inr other ↦ (λ k. cc, found_role user_id users u h.1 (ground (arith, e, other)))
]

-- Deleting rows none of which is an owner's keeps the number of owners.
kept_owners :
    (user_id : ℕ) (users : List User)
    → All (λ v. has_id user_id v ≡ true → is_owner v ≡ false) users
    → length (filter is_owner (filter (λ v. not (has_id user_id v)) users))
      ≡ length (filter is_owner users)
kept_owners user_id [] h = refl
kept_owners user_id (v ∷ users) h =
    let ih = kept_owners user_id users h.1 in
    elim (Bool-cases (has_id user_id v)) [
      | inl same ↦ let plain = h.0 same in ground (arith, ih, same, plain)
      | inr other ↦ ground (arith, ih, other)
    ]

kept_user :
    (user_id n : ℕ) (users : List User)
    → n ≢ user_id
    → HasUser users n
    → HasUser (filter (λ v. not (has_id user_id v)) users) n
kept_user user_id n [] d h = cc
kept_user user_id n (v ∷ users) d h = elim (Bool-cases (has_id user_id v)) [
  | inl same ↦ ground (arith, h, d, same, kept_user user_id n users d)
  | inr other ↦ ground (arith, h, d, other, kept_user user_id n users d)
]

purged-IsLinked :
    (user_id : ℕ) (users : List User) (invites : List InviteCode)
    → All (IsLinked users) invites
    → All (λ i. not (equals user_id i.used_by) ≡ true) invites
    → any (λ i. i.issued_by == user_id) invites ≡ false
    → All (IsLinked (filter (λ v. not (has_id user_id v)) users)) invites
purged-IsLinked user_id users [] h k none_issued = tt
purged-IsLinked user_id users (i ∷ invites) h k none_issued = (
  (
    kept_user user_id i.issued_by users (λ e. ground (arith, none_issued, e)) h.0.0,
    λ u e. kept_user user_id u users (λ same. ground (arith, k.0, e, same)) (h.0.1 u e),
  ),
  purged-IsLinked user_id users invites h.1 k.1 (ground (arith, none_issued)),
)

purged-IsConsistent :
    (user_id : ℕ) (u : User) (db : Database)
    → get_by_id user_id db ≡ some u
    → is_owner u ≡ false
    → any (λ i. i.issued_by == user_id) (filter (λ i. not (equals user_id i.used_by)) db.invites)
      ≡ false
    → IsConsistent db
    → IsConsistent (record db {
      users = filter (λ v. not (has_id user_id v)) db.users;
      invites = filter (λ i. not (equals user_id i.used_by)) db.invites;
    })
unfolding get_by_id
purged-IsConsistent user_id u db e plain none_issued c =
    let unused : InviteCode → Bool = λ i. not (equals user_id i.used_by) in
    let others : User → Bool = λ v. not (has_id user_id v) in
    record {
      keyed = All-filter (IsKeyed db.last_user_id) others db.users c.keyed;
      apart = Pairwise-filter IsApart others db.users c.apart;
      one_owner =
          rw
            (kept_owners user_id db.users (
              All-weaken (λ v. has_id user_id v ≡ true → is_owner v ≡ is_owner u)
                (λ v. has_id user_id v ≡ true → is_owner v ≡ false) db.users
                (λ v k same. cc (k same, plain)) (found_role user_id db.users u c.apart e)))
            c.one_owner;
      linked =
          purged-IsLinked user_id db.users (filter unused db.invites)
            (All-filter (IsLinked db.users) unused db.invites c.linked)
            (All-filter_test unused db.invites) none_issued;
      distinct = Pairwise-filter (λ i j. i.code ≢ j.code) unused db.invites c.distinct;
    }

purge_found-IsConsistent :
    (user_id : ℕ) (u : User) (db db' : Database)
    → purge_found user_id u db ≡ ok db'
    → get_by_id user_id db ≡ some u
    → IsConsistent db
    → IsConsistent db'
unfolding purge_found
purge_found-IsConsistent user_id u db db' h e c =
    let (plain, rest) = raise_if-eq-ok (is_owner u) Error.value_error _ h in
    returned IsConsistent _ Error.integrity_error _ rest
      (λ passed. purged-IsConsistent user_id u db e plain passed c)

pub purge-IsConsistent :
    (user_id : ℕ) (db db' : Database)
    → purge user_id db ≡ ok db'
    → IsConsistent db
    → IsConsistent db'
unfolding purge
purge-IsConsistent user_id db db' h c = elim (Option-cases (get_by_id user_id db)) [
  | inl e ↦ cc (h, e)
  | inr (u, e) ↦ purge_found-IsConsistent user_id u db db' (cc (h, e)) e c
]

code_differs : (code : Text) (i : InviteCode) → has_code code i ≡ false → i.code ≢ code
code_differs code i h e = let same = (text_eq_iff i.code code).1 e in ground (arith, same, h)

pub issue-IsConsistent :
    (code : Text) (now issued_by : ℕ) (expires_at : Option ℕ) (db db' : Database) (i : InviteCode)
    → issue code now issued_by expires_at db ≡ ok (db', i)
    → IsConsistent db
    → IsConsistent db'
unfolding issue
issue-IsConsistent code now issued_by expires_at db db' i h c =
    returned_pair IsConsistent _ Error.integrity_error _ _ h λ passed. record {
      keyed = c.keyed;
      apart = c.apart;
      one_owner = c.one_owner;
      linked =
          All-append (IsLinked db.users) db.invites _ c.linked
            ((ground (arith, passed), λ u e. cc), tt);
      distinct =
          Pairwise-append (λ j k. j.code ≢ k.code) db.invites _ c.distinct (tt, tt)
            (All-weaken (λ j. has_code code j ≡ false) _ db.invites
              (λ j k. (code_differs code j k, tt))
              (any-false-All (has_code code) db.invites (ground (arith, passed))));
    }

spend-IsLinked :
    (chosen : Bool) (used_by now : ℕ) (users : List User) (i : InviteCode)
    → HasUser users used_by
    → IsLinked users i
    → IsLinked users (if chosen then spend used_by now i else i)
spend-IsLinked true used_by now users i h k = (k.0, λ u e. subst (HasUser users) (cc e) h)
spend-IsLinked false used_by now users i h k = k

code-spend :
    (chosen : Bool) (used_by now : ℕ) (i : InviteCode)
    → (if chosen then spend used_by now i else i).code ≡ i.code
code-spend true used_by now i = refl
code-spend false used_by now i = refl

spent-IsConsistent :
    (code : Text) (used_by now : ℕ) (db : Database)
    → HasUser db.users used_by
    → IsConsistent db
    → IsConsistent (update_invites (is_redeemable code) (spend used_by now) db)
unfolding update_invites
spent-IsConsistent code used_by now db h c =
    let change : InviteCode → InviteCode =
      λ i. if is_redeemable code i then spend used_by now i else i in
    record {
      keyed = c.keyed;
      apart = c.apart;
      one_owner = c.one_owner;
      linked =
          All-map (IsLinked db.users) (IsLinked db.users) change db.invites
            (λ i k. spend-IsLinked (is_redeemable code i) used_by now db.users i h k) c.linked;
      distinct =
          Pairwise-map (λ i j. i.code ≢ j.code) (λ i j. i.code ≢ j.code) change db.invites
            (λ i j k e. k (
              sym (code-spend (is_redeemable code i) used_by now i)
              ∙ e
              ∙ code-spend (is_redeemable code j) used_by now j))
            c.distinct;
    }

redeem_found-IsConsistent :
    (code : Text) (used_by now : ℕ) (db db' : Database) (i : Option InviteCode)
    → redeem_found code used_by now db ≡ ok (db', i)
    → IsConsistent db
    → IsConsistent db'
unfolding redeem_found
redeem_found-IsConsistent code used_by now db db' i h c =
    let (known, rest) =
      raise_if-eq-ok {B = Database × Option InviteCode}
        (any (is_redeemable code) db.invites && not (any (has_id used_by) db.users))
        Error.integrity_error _ h in
    elim (Bool-cases (any (is_redeemable code) db.invites)) [
      | inl e ↦
          subst IsConsistent (ground (arith, rest, e))
            (spent-IsConsistent code used_by now db (ground (arith, known, e)) c)
      | inr e ↦ subst IsConsistent (ground (arith, rest, e)) c
    ]

pub redeem-IsConsistent :
    (code : Text) (used_by now : ℕ) (db db' : Database) (i : Option InviteCode)
    → redeem code used_by now db ≡ ok (db', i)
    → IsConsistent db
    → IsConsistent db'
unfolding redeem
redeem-IsConsistent code used_by now db db' i h c = elim (Option-cases (get_invite code db)) [
  | inl e ↦ subst IsConsistent (cc (h, e)) c
  | inr (found, e) ↦ elim (Bool-cases (is_used found || is_expired found now)) [
    | inl spent ↦ subst IsConsistent (cc (h, e, spent)) c
    | inr valid ↦ redeem_found-IsConsistent code used_by now db db' i (cc (h, e, valid)) c
  ]
]
