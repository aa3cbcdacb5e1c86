-- ===== src/Access/Gate/Laws.antt =====
-- The decision on a message, against the policy that it implements.
use booksaver_agent.Base.{
  ℕ, suc, ◌≡◌, ◌≢◌, ◌↔◌, refl, ◌∙◌, Bool, true, false, not, ◌&&◌, Option, none, some, [], ◌∷◌,
  arith, inl, inr, Bool-cases, Option-cases, ok, is_nil, Result,
}
use booksaver_agent.Base.Text.{Text, text_eq, text_eq_iff, strip}
use booksaver_agent.Access.{User, is_active, InviteCode, is_used, is_expired}
use booksaver_agent.Access.Database.{get_by_telegram_id, get_invite}
use booksaver_agent.Access.Gate.{
  AccessControl, is_owner_chat, is_valid, authorize, authorize_stranger, start_command,
  set_username, refresh_authorized_username, ensure_owner_linked,
}
use booksaver_agent.Access.Gate.Admission.{admit-valid, after_admission}

-- Who may proceed: whoever writes from the owner's chat, a known active user, and a stranger who
-- sends /start with a code that is known, unused and not expired.
pub data Admits (now telegram_user_id chat_id : ℕ) (command args : Text) (gate : AccessControl)
    : Type 0 where
  owner : chat_id ≡ gate.owner_chat_id → Admits now telegram_user_id chat_id command args gate
  known :
      (u : User)
      → get_by_telegram_id telegram_user_id gate.database ≡ some u
      → is_active u ≡ true
      → Admits now telegram_user_id chat_id command args gate
  invited :
      (i : InviteCode)
      → get_by_telegram_id telegram_user_id gate.database ≡ none
      → command ≡ start_command
      → strip args ≢ []
      → get_invite (strip args) gate.database ≡ some i
      → is_used i ≡ false
      → is_expired i now ≡ false
      → Admits now telegram_user_id chat_id command args gate

pub not_nil : (s : Text) → s ≢ [] → is_nil s ≡ false
not_nil [] h = absurd (h refl)
not_nil (c ∷ s) h = refl

given_text : (s : Text) → is_nil s ≡ false → s ≢ []
given_text [] h = cc
given_text (c ∷ s) h = λ e. cc

-- What a call returns and to whom: the answer true exactly where `P` holds, and otherwise no change.
abbrev pub Answers : AccessControl → Result (AccessControl × Bool) → Type 0 → Type 0
Answers gate call P =
    (after : AccessControl) × (answer : Bool) × (call ≡ ok (after, answer))
    × ((answer ≡ true) ↔ P)
    × (answer ≡ false → after ≡ gate)

module _ (now telegram_user_id chat_id : ℕ) (command args : Text) (username : Option Text)
    (gate : AccessControl) where
  abbrev Goal : Type 0
  Goal =
      Answers gate (authorize now telegram_user_id chat_id command args username gate)
        (Admits now telegram_user_id chat_id command args gate)

  answered :
      (after : AccessControl)
      → authorize now telegram_user_id chat_id command args username gate ≡ ok (after, true)
      → Admits now telegram_user_id chat_id command args gate
      → Goal
  answered after e p = (after, true, e, (λ _. p, λ _. refl), λ h. cc)

  refused :
      authorize now telegram_user_id chat_id command args username gate ≡ ok (gate, false)
      → (Admits now telegram_user_id chat_id command args gate → ⊥)
      → Goal
  refused e p = (gate, false, e, (λ h. cc, λ q. absurd (p q)), λ h. refl)

  abbrev Denied : Type 0
  Denied = Admits now telegram_user_id chat_id command args gate → ⊥

  denied_revoked :
      (u : User)
      → is_owner_chat chat_id gate ≡ false
      → get_by_telegram_id telegram_user_id gate.database ≡ some u
      → is_active u ≡ false
      → Denied
  unfolding is_owner_chat
  denied_revoked u far e revoked (Admits.owner h) = ground (arith, far, h)
  denied_revoked u far e revoked (Admits.known v h k) = ground (arith, h, k, e, revoked)
  denied_revoked u far e revoked (Admits.invited i h _ _ _ _ _) = cc (h, e)

  module _ (far : is_owner_chat chat_id gate ≡ false)
      (e : get_by_telegram_id telegram_user_id gate.database ≡ none) where
    denied_command : (text_eq command start_command && not (is_nil (strip args))) ≡ false → Denied
    unfolding is_owner_chat
    denied_command refuses (Admits.owner h) = ground (arith, far, h)
    denied_command refuses (Admits.known v h k) = cc (h, e)
    denied_command refuses (Admits.invited i h started given _ _ _) =
        let same = (text_eq_iff command start_command).1 started in
        let text = not_nil (strip args) given in ground (arith, refuses, same, text)

    denied_code :
        ((i : InviteCode) → get_invite (strip args) gate.database ≡ some i → is_valid i now ≡ false)
        → Denied
    unfolding is_owner_chat is_valid
    denied_code refuses (Admits.owner h) = ground (arith, far, h)
    denied_code refuses (Admits.known v h k) = cc (h, e)
    denied_code refuses (Admits.invited i h _ _ found unused current) =
        let invalid = refuses i found in ground (arith, invalid, unused, current)

    started_stranger :
        (text_eq command start_command && not (is_nil (strip args))) ≡ true
        → authorize now telegram_user_id chat_id command args username gate
          ≡ authorize_stranger now telegram_user_id (strip args) username gate
    unfolding authorize
    started_stranger h = ground (arith, far, e, h)

    pub authorize-invited :
        (text_eq command start_command && not (is_nil (strip args))) ≡ true
        → (i : InviteCode) → get_invite (strip args) gate.database ≡ some i
        → is_valid i now ≡ true
        → authorize now telegram_user_id chat_id command args username gate
          ≡ ok (
            set_username (suc gate.database.last_user_id) username (record gate {
              database = after_admission now telegram_user_id (strip args) gate.database;
            }),
            true,
          )
    unfolding authorize_stranger is_valid
    authorize-invited h i found valid =
        started_stranger h
        ∙ ground (arith, found, valid)
        ∙ admit-valid now telegram_user_id (strip args) username gate i e found
            (ground (arith, valid)) (ground (arith, valid))

    with_code : (text_eq command start_command && not (is_nil (strip args))) ≡ true → Goal
    unfolding authorize_stranger is_valid
    with_code h = elim (Option-cases (get_invite (strip args) gate.database)) [
      | inl missing ↦
          refused (started_stranger h ∙ ground (arith, missing))
            (denied_code λ i k. cc (k, missing))
      | inr (i, found) ↦ elim (Bool-cases (is_valid i now)) [
        | inl valid ↦
            let invited =
              Admits.invited i e ((text_eq_iff command start_command).0 (ground (arith, h)))
                (given_text (strip args) (ground (arith, h))) found (ground (arith, valid))
                (ground (arith, valid)) in
            answered _ (authorize-invited h i found valid) invited
        | inr invalid ↦
            refused (started_stranger h ∙ ground (arith, found, invalid))
              (denied_code λ j k. ground (arith, k, found, invalid))
      ]
    ]

    stranger : Goal
    unfolding authorize
    stranger = elim (Bool-cases (text_eq command start_command && not (is_nil (strip args)))) [
      | inl h ↦ with_code h
      | inr h ↦ refused (ground (arith, far, e, h)) (denied_command h)
    ]

  known_user :
      (u : User)
      → is_owner_chat chat_id gate ≡ false
      → get_by_telegram_id telegram_user_id gate.database ≡ some u
      → Goal
  unfolding authorize
  known_user u far e = elim (Bool-cases (is_active u)) [
    | inl active ↦
        answered (set_username u.user_id username gate) (ground (arith, far, e, active))
          (Admits.known u e active)
    | inr revoked ↦ refused (ground (arith, far, e, revoked)) (denied_revoked u far e revoked)
  ]

-- A message is always answered, by yes exactly where the policy admits its sender: neither an
-- unexpected constraint of the tables nor a lost redemption intervenes. A refusal changes nothing, so
-- that a refused attempt uses up no code.
pub authorize-Answers :
    (now telegram_user_id chat_id : ℕ) (command args : Text) (username : Option Text)
    (gate : AccessControl)
    → Answers gate
        (authorize now telegram_user_id chat_id command args username gate)
        (Admits now telegram_user_id chat_id command args gate)
unfolding authorize is_owner_chat
authorize-Answers now t chat_id command args username gate =
    elim (Bool-cases (is_owner_chat chat_id gate)) [
      | inl near ↦
          answered now t chat_id command args username gate
            (refresh_authorized_username t username (ensure_owner_linked now t gate))
            (ground (arith, near)) (Admits.owner (ground (arith, near)))
      | inr far ↦ elim (Option-cases (get_by_telegram_id t gate.database)) [
        | inl e ↦ stranger now t chat_id command args username gate far e
        | inr (u, e) ↦ known_user now t chat_id command args username gate u far e
      ]
    ]
