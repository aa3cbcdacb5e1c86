-- ===== src/Access/Gate/SingleUse.antt =====
-- A code admits one stranger, who then counts as active.
use booksaver_agent.Base.{
  ℕ, suc, ◌≡◌, ◌≢◌, ◌⊎◌, refl, ◌∙◌, sym, ap, Bool, true, false, Option, none, some, List, [], ◌∷◌,
  ◌++◌, map, arith, inl, inr, Bool-cases, Option-cases, ok, if◌then◌else◌, find_first,
}
use booksaver_agent.Base.Text.{Text, text_eq_iff, strip}
use booksaver_agent.Access.{User, is_active, InviteCode, is_used}
use booksaver_agent.Access.Database.{
  Database, get_by_id, get_by_telegram_id, get_invite, has_id, has_telegram_id, has_code, spend,
  update_invites, update_users, set_telegram_username, same_username, normalized_username,
}
use booksaver_agent.Access.Gate.{
  AccessControl, is_owner_chat, is_valid, authorize, start_command, set_username,
  set_username_best_effort, normalize_username, is_active_telegram_user,
}
use booksaver_agent.Access.Gate.Admission.{after_admission, newcomer, with_user, found_redeemable}
use booksaver_agent.Access.Gate.Laws.{Admits, authorize-Answers, authorize-invited, not_nil}

abbrev active_in : ℕ → List User → Bool
active_in t users = elim (find_first (has_telegram_id t) users) [
  | none ↦ false
  | some u ↦ is_active u
]

active_in-map :
    (t : ℕ) (f : User → User) (users : List User)
    → ((u : User)
        → ((f u).telegram_user_id ≡ u.telegram_user_id) × ((f u).access_state ≡ u.access_state))
    → active_in t (map f users) ≡ active_in t users
unfolding is_active
active_in-map t f [] keeps = refl
active_in-map t f (u ∷ users) keeps =
    let ih = active_in-map t f users keeps in let same = keeps u in ground (arith, ih, same)

active_in-append :
    (now t : ℕ) (db : Database) (users : List User)
    → find_first (has_telegram_id t) users ≡ none
    → active_in t (users ++ (newcomer now t db ∷ [])) ≡ true
unfolding is_active
active_in-append now t db [] h = ground arith
active_in-append now t db (u ∷ users) h = ground (arith, h, active_in-append now t db users)

rename_cases :
    (n : ℕ) (username : Option Text) (db : Database)
    → (set_username_best_effort n username db ≡ db)
      ⊎ ((name : Option Text) × (set_username_best_effort n username db
            ≡ update_users (has_id n) (λ u. record u { telegram_username = name }) db))
unfolding set_username_best_effort set_telegram_username
rename_cases n username db =
    let name = normalized_username (normalize_username username) in
    elim (Option-cases (get_by_id n db)) [
      | inl e ↦ inl (ground (arith, e))
      | inr (u, e) ↦ elim (Bool-cases (same_username u.telegram_username name)) [
        | inl same ↦ inl (ground (arith, e, same))
        | inr other ↦ inr (name, ground (arith, e, other))
      ]
    ]

renamed :
    (n : ℕ) (username : Option Text) (db : Database) (t : ℕ)
    → ((set_username_best_effort n username db).invites ≡ db.invites)
      × (active_in t (set_username_best_effort n username db).users ≡ active_in t db.users)
unfolding update_users
renamed n username db t = elim (rename_cases n username db) [
  | inl e ↦ (ap (λ d. d.invites) e, ap (λ d. active_in t d.users) e)
  | inr (name, e) ↦ (
    ap (λ d. d.invites) e,
    ap (λ d. active_in t d.users) e
        ∙ active_in-map t (λ u. if has_id n u then record u { telegram_username = name } else u)
            db.users (λ u. (ground arith, ground arith)),
  )
]

refused_code :
    {now t chat_id : ℕ} {command args : Text} {gate : AccessControl}
    → Admits now t chat_id command args gate
    → chat_id ≢ gate.owner_chat_id
    → get_by_telegram_id t gate.database ≡ none
    → ((i : InviteCode) → get_invite (strip args) gate.database ≡ some i → is_used i ≡ true)
    → ⊥
refused_code (Admits.owner near) far e spent = far near
refused_code (Admits.known u k _) far e spent = cc (k, e)
refused_code (Admits.invited i _ _ _ found unused _) far e spent =
    let used = spent i found in cc (used, unused)

module _ (now t chat_id : ℕ) (command args : Text) (username : Option Text)
    (gate after : AccessControl) (far : chat_id ≢ gate.owner_chat_id)
    (e : get_by_telegram_id t gate.database ≡ none)
    (h : authorize now t chat_id command args username gate ≡ ok (after, true)) where
  abbrev made : AccessControl
  made =
      set_username (suc gate.database.last_user_id) username
        (record gate { database = after_admission now t (strip args) gate.database })

  not_near : is_owner_chat chat_id gate ≡ false
  unfolding is_owner_chat
  not_near = ground (arith, far)

  -- By which code the stranger came in, and what is left.
  from_policy :
      Admits now t chat_id command args gate
      → (i : InviteCode) × (get_invite (strip args) gate.database ≡ some i)
        × (is_used i ≡ false)
        × (made ≡ after)
  unfolding is_valid
  from_policy (Admits.owner near) = absurd (far near)
  from_policy (Admits.known u k _) = cc (k, e)
  from_policy (Admits.invited i _ started text found unused current) =
      let s = (text_eq_iff command start_command).1 started in
      let n = not_nil (strip args) text in
      let run =
        authorize-invited now t chat_id command args username gate not_near e (ground (arith, s, n))
          i found (ground (arith, unused, current)) in
      (i, found, unused, cc (run, h))

  admission :
      (i : InviteCode) × (get_invite (strip args) gate.database ≡ some i)
      × (is_used i ≡ false)
      × (made ≡ after)
  admission =
      let (final, answer, returns, policy, _) =
        authorize-Answers now t chat_id command args username gate in
      from_policy (policy.0 (cc (returns, h)))

  spent_after :
      (i : InviteCode) → get_invite (strip args) after.database ≡ some i → is_used i ≡ true
  unfolding get_invite is_used update_invites
  spent_after i k =
      let (j, found, unused, same) = admission in
      let db = gate.database in
      let left = after_admission now t (strip args) db in
      let codes : after.database.invites ≡ left.invites =
        ap (λ g. g.database.invites) (sym same)
        ∙ (renamed (suc db.last_user_id) username left t).0 in
      let row =
        found_redeemable (strip args) (suc db.last_user_id) now (with_user (newcomer now t db) db) j
          found unused in
      let it : some i ≡ some (spend (suc db.last_user_id) now j) =
        sym k ∙ ap (λ codes. find_first (has_code (strip args)) codes) codes ∙ row.1 in
      ground (arith, it)

  active_after : active_in t after.database.users ≡ true
  unfolding get_by_telegram_id update_invites
  active_after =
      let (j, found, unused, same) = admission in
      ap (λ g. active_in t g.database.users) (sym same)
      ∙ (renamed (suc gate.database.last_user_id) username
          (after_admission now t (strip args) gate.database) t).1
      ∙ active_in-append now t gate.database gate.database.users e

-- A stranger who is let in counts as active from then on, and the code that was given is spent: no
-- message of any other stranger with the same code, at any instant, is answered by yes.
pub authorize-single_use :
    (now telegram_user_id chat_id : ℕ) (command args : Text) (username : Option Text)
    (gate after : AccessControl)
    → chat_id ≢ gate.owner_chat_id
    → get_by_telegram_id telegram_user_id gate.database ≡ none
    → authorize now telegram_user_id chat_id command args username gate ≡ ok (after, true)
    → (is_active_telegram_user telegram_user_id after ≡ true)
      × ((now' other chat' : ℕ) (command' args' : Text)
          → chat' ≢ after.owner_chat_id
          → get_by_telegram_id other after.database ≡ none
          → strip args' ≡ strip args
          → Admits now' other chat' command' args' after
          → ⊥)
unfolding is_active_telegram_user get_by_telegram_id
authorize-single_use now t chat_id command args username gate after far e h = (
  let active = active_after now t chat_id command args username gate after far e h in
      ground (arith, active),
  λ now' other chat' command' args' away unknown same policy.
      refused_code policy away unknown (λ i k.
        spent_after now t chat_id command args username gate after far e h i (cc (k, same))),
)
