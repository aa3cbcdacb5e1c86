-- ===== src/Browser/Members.antt =====
-- The members of the enumerations: a fact about each of a list of them all, and their numbers.
use booksaver_agent.Base.{ℕ, zero, suc, ◌≡◌, refl, Option, none, some, List, [], ◌∷◌, All}
use booksaver_agent.Browser.{DomStepId, PageState, step_number, state_number, all_steps, all_states}

pub each_state : (P : PageState → Type 0) (s : PageState) → All P all_states → P s
each_state P PageState.observation_unavailable h = h.0
each_state P PageState.authentication_required h = h.1.0
each_state P PageState.mfa_required h = h.1.1.0
each_state P PageState.captcha h = h.1.1.1.0
each_state P PageState.bot_wall h = h.1.1.1.1.0
each_state P PageState.external h = h.1.1.1.1.1.0
each_state P PageState.prohibited h = h.1.1.1.1.1.1.0
each_state P PageState.authenticated_candidate h = h.1.1.1.1.1.1.1.0
each_state P PageState.verified_authenticated h = h.1.1.1.1.1.1.1.1.0
each_state P PageState.inventory h = h.1.1.1.1.1.1.1.1.1.0
each_state P PageState.search_results h = h.1.1.1.1.1.1.1.1.1.1.0
each_state P PageState.property h = h.1.1.1.1.1.1.1.1.1.1.1.0
each_state P PageState.unsupported h = h.1.1.1.1.1.1.1.1.1.1.1.1.0
each_state P PageState.ambiguous h = h.1.1.1.1.1.1.1.1.1.1.1.1.1.0

pub each_step : (P : DomStepId → Type 0) (step_id : DomStepId) → All P all_steps → P step_id
each_step P DomStepId.remote_auth_session_capture h = h.0
each_step P DomStepId.session_validation h = h.1.0
each_step P DomStepId.inventory_entry h = h.1.1.0
each_step P DomStepId.inventory_readiness h = h.1.1.1.0
each_step P DomStepId.inventory_scope h = h.1.1.1.1.0
each_step P DomStepId.inventory_pagination h = h.1.1.1.1.1.0
each_step P DomStepId.inventory_detail h = h.1.1.1.1.1.1.0
each_step P DomStepId.inventory_extraction h = h.1.1.1.1.1.1.1.0
each_step P DomStepId.inventory_completeness h = h.1.1.1.1.1.1.1.1.0
each_step P DomStepId.price_search_query_submission h = h.1.1.1.1.1.1.1.1.1.0
each_step P DomStepId.price_search_results h = h.1.1.1.1.1.1.1.1.1.1.0
each_step P DomStepId.price_consent_overlay h = h.1.1.1.1.1.1.1.1.1.1.1.0
each_step P DomStepId.price_property_locate h = h.1.1.1.1.1.1.1.1.1.1.1.1.0
each_step P DomStepId.price_property_open h = h.1.1.1.1.1.1.1.1.1.1.1.1.1.0
each_step P DomStepId.price_context_verify h = h.1.1.1.1.1.1.1.1.1.1.1.1.1.1.0
each_step P DomStepId.price_room_rate_readiness h = h.1.1.1.1.1.1.1.1.1.1.1.1.1.1.1.0
each_step P DomStepId.price_currency_align h = h.1.1.1.1.1.1.1.1.1.1.1.1.1.1.1.1.0
each_step P DomStepId.price_snapshot h = h.1.1.1.1.1.1.1.1.1.1.1.1.1.1.1.1.1.0
each_step P DomStepId.price_offer_extraction h = h.1.1.1.1.1.1.1.1.1.1.1.1.1.1.1.1.1.1.0

nth : {A : Type 0} → ℕ → List A → Option A
nth n [] = none
nth zero (x ∷ xs) = some x
nth (suc n) (x ∷ xs) = nth n xs

pub step_number-injective : (a b : DomStepId) → step_number a ≡ step_number b → a ≡ b
unfolding step_number nth
step_number-injective a b e =
    let back : (s : DomStepId) → nth (step_number s) all_steps ≡ some s = λ s.
      each_step (λ t. nth (step_number t) all_steps ≡ some t) s
        (
          refl,
          (
            refl,
            (
              refl,
              (
                refl,
                (
                  refl,
                  (
                    refl,
                    (
                      refl,
                      (
                        refl,
                        (
                          refl,
                          (
                            refl,
                            (
                              refl,
                              (refl, (refl, (refl, (refl, (refl, (refl, (refl, (refl, tt)))))))),
                            ),
                          ),
                        ),
                      ),
                    ),
                  ),
                ),
              ),
            ),
          ),
        ) in
    cc (back a, back b, e)

pub state_number-injective : (a b : PageState) → state_number a ≡ state_number b → a ≡ b
unfolding state_number nth
state_number-injective a b e =
    let back : (s : PageState) → nth (state_number s) all_states ≡ some s = λ s.
      each_state (λ t. nth (state_number t) all_states ≡ some t) s
        (
          refl,
          (
            refl,
            (
              refl,
              (
                refl,
                (refl, (refl, (refl, (refl, (refl, (refl, (refl, (refl, (refl, (refl, tt)))))))))),
              ),
            ),
          ),
        ) in
    cc (back a, back b, e)
