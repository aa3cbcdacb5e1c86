-- ===== src/Access/Tests.antt =====
-- The theorems on access at a small database: an owner, one user and one code.
use booksaver_agent.Base.{
  ◌≡◌, ◌≢◌, ◌≤◌, refl, true, false, none, some, [], ◌∷◌, ok, length, filter, arith, ℕ,
}
use booksaver_agent.Base.Text.{Text, strip, text_eq, lstrip, rstrip, is_space}
use booksaver_agent.Access.{User, UserRole, UserAccessState, is_used, is_expired}
use booksaver_agent.Access.Database.{
  Database, ensure_owner_user, insert_user, get_by_telegram_id, get_invite,
  get_or_create_by_telegram_id, redeem, redeem_found, update_invites, set_telegram_username,
  get_by_id,
}
use booksaver_agent.Access.Database.Laws.{IsConsistent}
use booksaver_agent.Access.Database.History.{Reach, Reach-IsConsistent}
use booksaver_agent.Access.Gate.{
  AccessControl, authorize, start_command, is_active_telegram_user, is_owner_chat,
  authorize_stranger, is_valid, admit, welcome, set_username_best_effort, normalize_username,
}
use booksaver_agent.Access.Gate.Laws.{Admits, Answers, authorize-Answers}
use booksaver_agent.Access.Gate.SingleUse.{authorize-single_use}
use booksaver_agent.Access.RateLimiter.{RateLimiter}
use booksaver_agent.Access.RateLimiter.Laws.{admitted, within, admitted_bound}

abbrev owner_row : User
owner_row = record {
  user_id = 1;
  telegram_user_id = none;
  role = UserRole.owner;
  access_state = UserAccessState.active;
  created_at = 10;
  telegram_username = none;
}

abbrev small_database : Database
small_database = record {
  users = owner_row ∷ [];
  last_user_id = 1;
  invites =
      record {
        code = 65 ∷ [];
        issued_by = 1;
        issued_at = 11;
        expires_at = some 20;
        used_by = none;
        used_at = none;
      }
      ∷ [];
}

abbrev small_gate : AccessControl
small_gate = record { owner_chat_id = 100; owner_linked = false; database = small_database }

abbrev first_database : Database
first_database = record { users = owner_row ∷ []; last_user_id = 1; invites = [] }

abbrev first_reached : Reach first_database
unfolding ensure_owner_user insert_user
first_reached = Reach.first 10 1 refl

Reach-IsConsistent_example : IsConsistent first_database
Reach-IsConsistent_example = Reach-IsConsistent first_database first_reached

authorize-Answers_example :
    Answers small_gate
      (authorize 15 7 7 start_command (32 ∷ 65 ∷ []) none small_gate)
      (Admits 15 7 7 start_command (32 ∷ 65 ∷ []) small_gate)
authorize-Answers_example = authorize-Answers 15 7 7 start_command (32 ∷ 65 ∷ []) none small_gate

abbrev welcomed : AccessControl
welcomed = record small_gate {
  database = record {
    users =
        owner_row
        ∷ record {
          user_id = 2;
          telegram_user_id = some 7;
          role = UserRole.user;
          access_state = UserAccessState.active;
          created_at = 15;
          telegram_username = none;
        }
        ∷ [];
    last_user_id = 2;
    invites =
        record {
          code = 65 ∷ [];
          issued_by = 1;
          issued_at = 11;
          expires_at = some 20;
          used_by = some 2;
          used_at = some 15;
        }
        ∷ [];
  };
}

is_welcomed : authorize 15 7 7 start_command (32 ∷ 65 ∷ []) none small_gate ≡ ok (welcomed, true)
unfolding authorize is_owner_chat get_by_telegram_id text_eq strip lstrip rstrip is_space
    authorize_stranger get_invite is_valid is_used is_expired admit get_or_create_by_telegram_id
    insert_user redeem redeem_found welcome update_invites set_username_best_effort
    set_telegram_username get_by_id normalize_username
is_welcomed = refl

is_unknown : get_by_telegram_id 7 small_database ≡ none
unfolding get_by_telegram_id
is_unknown = refl

authorize-single_use_example :
    (is_active_telegram_user 7 welcomed ≡ true)
    × ((now' other chat' : ℕ) (command' args' : Text)
        → chat' ≢ 100
        → get_by_telegram_id other welcomed.database ≡ none
        → strip args' ≡ strip (32 ∷ 65 ∷ [])
        → Admits now' other chat' command' args' welcomed
        → ⊥)
authorize-single_use_example =
    authorize-single_use 15 7 7 start_command (32 ∷ 65 ∷ []) none small_gate welcomed (omega arith)
      is_unknown is_welcomed

abbrev one_per_hour : RateLimiter
one_per_hour = record { max_events = 1; window = 3600; hits = λ _. [] }

admitted_bound_example :
    length
      (filter (within 5 3600) (admitted 1 ((1, 5) ∷ (2, 6) ∷ (1, 7) ∷ (1, 3605) ∷ []) one_per_hour))
    ≤ 1
admitted_bound_example =
    admitted_bound 5 1 ((1, 5) ∷ (2, 6) ∷ (1, 7) ∷ (1, 3605) ∷ []) one_per_hour (
      (omega arith, (omega arith, (omega arith, tt))),
      ((omega arith, (omega arith, tt)), ((omega arith, tt), (tt, tt))),
    )
