-- ===== src/Access/Database/Laws.antt =====
-- What the tables keep: the well-formed database, and lists under the updates of their rows.
use booksaver_agent.Base.{
  ℕ, ◌+◌, ◌≤◌, ◌≡◌, ◌≢◌, refl, Bool, true, false, ◌||◌, none, some, List, [], ◌∷◌, ◌++◌, map, any,
  filter, find_first, All, arith, length,
}
use booksaver_agent.Base.Pairs.{Pairwise}
use booksaver_agent.Access.{User, is_owner, InviteCode}
use booksaver_agent.Access.Database.{Database, has_id}

-- Different rows have different keys and different telegram identities.
abbrev pub IsApart : User → User → Type 0
IsApart u v =
    (u.user_id ≢ v.user_id)
    × ((t : ℕ) → u.telegram_user_id ≡ some t → v.telegram_user_id ≡ some t → ⊥)

abbrev pub HasUser : List User → ℕ → Type 0
HasUser users user_id = any (has_id user_id) users ≡ true

-- The users that a code names are there.
abbrev pub IsLinked : List User → InviteCode → Type 0
IsLinked users i = HasUser users i.issued_by × ((u : ℕ) → i.used_by ≡ some u → HasUser users u)

abbrev pub IsKeyed : ℕ → User → Type 0
IsKeyed last u = u.user_id ≤ last

pub record IsConsistent (db : Database) : Type 0 where
  pub keyed : All (IsKeyed db.last_user_id) db.users
  pub apart : Pairwise IsApart db.users
  pub one_owner : length (filter is_owner db.users) ≡ 1
  pub linked : All (IsLinked db.users) db.invites
  pub distinct : Pairwise (λ i j. i.code ≢ j.code) db.invites

module _ {ℓ} {A : Type ℓ} where
  pub All-map :
      (P Q : A → Type 0) (f : A → A) (xs : List A)
      → ((x : A) → P x → Q (f x))
      → All P xs
      → All Q (map f xs)
  All-map P Q f [] h k = tt
  All-map P Q f (x ∷ xs) h k = (h x k.0, All-map P Q f xs h k.1)

  pub Pairwise-map :
      (R S : A → A → Type 0) (f : A → A) (xs : List A)
      → ((x y : A) → R x y → S (f x) (f y))
      → Pairwise R xs
      → Pairwise S (map f xs)
  Pairwise-map R S f [] h k = tt
  Pairwise-map R S f (x ∷ xs) h k =
      (All-map (R x) (S (f x)) f xs (h x) k.0, Pairwise-map R S f xs h k.1)

  pub map-same : (f : A → A) (xs : List A) → All (λ x. f x ≡ x) xs → map f xs ≡ xs
  map-same f [] h = refl
  map-same f (x ∷ xs) h = rw (h.0, map-same f xs h.1)

  -- A test that the change of the rows keeps.
  module _ (p : A → Bool) (f : A → A) (keeps : (x : A) → p (f x) ≡ p x) where
    pub any-map : (xs : List A) → any p (map f xs) ≡ any p xs
    any-map [] = refl
    any-map (x ∷ xs) = rw (keeps x, any-map xs)

    pub length-filter-map : (xs : List A) → length (filter p (map f xs)) ≡ length (filter p xs)
    length-filter-map [] = refl
    length-filter-map (x ∷ xs) = ground (arith, keeps x, length-filter-map xs)

  pub any-append : (p : A → Bool) (xs ys : List A) → any p (xs ++ ys) ≡ (any p xs || any p ys)
  any-append p [] ys = refl
  any-append p (x ∷ xs) ys = ground (arith, any-append p xs ys)

  pub length-filter-append :
      (p : A → Bool) (xs ys : List A)
      → length (filter p (xs ++ ys)) ≡ length (filter p xs) + length (filter p ys)
  length-filter-append p [] ys = omega arith
  length-filter-append p (x ∷ xs) ys = ground (arith, length-filter-append p xs ys)

  pub any-false-All : (p : A → Bool) (xs : List A) → any p xs ≡ false → All (λ x. p x ≡ false) xs
  any-false-All p [] h = tt
  any-false-All p (x ∷ xs) h = (ground (arith, h), any-false-All p xs (ground (arith, h)))

  -- Nothing passes exactly when no first element does.
  pub any-find_first :
      (p : A → Bool) (xs : List A) (x : A)
      → find_first p xs ≡ some x
      → (p x ≡ true) × (any p xs ≡ true)
  any-find_first p [] x h = cc
  any-find_first p (y ∷ xs) x h = ground (arith, h, any-find_first p xs x)

  pub find_first-none : (p : A → Bool) (xs : List A) → find_first p xs ≡ none → any p xs ≡ false
  find_first-none p [] h = refl
  find_first-none p (x ∷ xs) h = ground (arith, find_first-none p xs)
