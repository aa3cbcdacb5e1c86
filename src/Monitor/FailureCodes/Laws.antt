-- ===== src/Monitor/FailureCodes/Laws.antt =====
-- What the names of terminal reasons and of failure codes say about the mapping between them.
use Prim.Native.String.{String}
use text.Mathlib.Text.{◌==◌}
use booksaver_agent.Base.{
  arith, ◌≡◌, ◌≢◌, ◌↔◌, ◌⊎◌, refl, inl, inr, Option, none, some, List, [], ◌∷◌, if◌then◌else◌, ok,
  err, Error, Result-cases, sym, ap, ◌∙◌,
}
use booksaver_agent.Browser.{OperatorAction}
use booksaver_agent.Browser.Diagnosis.{operator_action_for_reason}
use booksaver_agent.Monitor.FailureCodes.{
  TerminalBrowserReason, FailureCode, reason_value, code_value, failure_code_for_terminal,
}

-- The code that bears the name of a reason, if there is one.
abbrev namesake : TerminalBrowserReason → Option FailureCode
namesake TerminalBrowserReason.bot_wall = some FailureCode.bot_wall
namesake TerminalBrowserReason.observation_unavailable = some FailureCode.observation_unavailable
namesake TerminalBrowserReason.provider_authentication = some FailureCode.provider_authentication
namesake TerminalBrowserReason.provider_unavailable = some FailureCode.provider_unavailable
namesake TerminalBrowserReason.provider_rate_limit = some FailureCode.provider_rate_limit
namesake TerminalBrowserReason.caller_revoked = some FailureCode.caller_revoked
namesake TerminalBrowserReason.time_limit = some FailureCode.time_limit
namesake TerminalBrowserReason.job_cost_limit = some FailureCode.job_cost_limit
namesake TerminalBrowserReason.daily_cost_limit = some FailureCode.daily_cost_limit
namesake TerminalBrowserReason.model_pricing_unavailable =
    some FailureCode.model_pricing_unavailable
namesake TerminalBrowserReason.model_profile_unqualified =
    some FailureCode.model_profile_unqualified
namesake TerminalBrowserReason.model_not_approved = some FailureCode.model_not_approved
namesake TerminalBrowserReason.invalid_provider_response =
    some FailureCode.invalid_provider_response
namesake TerminalBrowserReason.currency_mismatch = some FailureCode.currency_mismatch
namesake TerminalBrowserReason.infrastructure_failure = some FailureCode.infrastructure_failure
namesake TerminalBrowserReason.cost_accounting_error = some FailureCode.cost_accounting_error
namesake TerminalBrowserReason.clock_rollback = some FailureCode.clock_rollback
namesake _ = none

abbrev reason_of : FailureCode → Option TerminalBrowserReason
reason_of FailureCode.bot_wall = some TerminalBrowserReason.bot_wall
reason_of FailureCode.observation_unavailable = some TerminalBrowserReason.observation_unavailable
reason_of FailureCode.provider_authentication = some TerminalBrowserReason.provider_authentication
reason_of FailureCode.provider_unavailable = some TerminalBrowserReason.provider_unavailable
reason_of FailureCode.provider_rate_limit = some TerminalBrowserReason.provider_rate_limit
reason_of FailureCode.caller_revoked = some TerminalBrowserReason.caller_revoked
reason_of FailureCode.time_limit = some TerminalBrowserReason.time_limit
reason_of FailureCode.job_cost_limit = some TerminalBrowserReason.job_cost_limit
reason_of FailureCode.daily_cost_limit = some TerminalBrowserReason.daily_cost_limit
reason_of FailureCode.model_pricing_unavailable =
    some TerminalBrowserReason.model_pricing_unavailable
reason_of FailureCode.model_profile_unqualified =
    some TerminalBrowserReason.model_profile_unqualified
reason_of FailureCode.model_not_approved = some TerminalBrowserReason.model_not_approved
reason_of FailureCode.invalid_provider_response =
    some TerminalBrowserReason.invalid_provider_response
reason_of FailureCode.currency_mismatch = some TerminalBrowserReason.currency_mismatch
reason_of FailureCode.infrastructure_failure = some TerminalBrowserReason.infrastructure_failure
reason_of FailureCode.cost_accounting_error = some TerminalBrowserReason.cost_accounting_error
reason_of FailureCode.clock_rollback = some TerminalBrowserReason.clock_rollback
reason_of _ = none

abbrev all_codes : List FailureCode
all_codes =
    FailureCode.navigation_error ∷ FailureCode.auth_required ∷ FailureCode.extraction_failed
    ∷ FailureCode.llm_error ∷ FailureCode.timeout ∷ FailureCode.unknown
    ∷ FailureCode.occupancy_missing ∷ FailureCode.step_failed ∷ FailureCode.property_not_found
    ∷ FailureCode.no_equivalent_offer ∷ FailureCode.currency_mismatch ∷ FailureCode.bot_wall
    ∷ FailureCode.agent_gave_up ∷ FailureCode.agent_no_progress ∷ FailureCode.blocked_action
    ∷ FailureCode.budget_exceeded ∷ FailureCode.user_key_invalid
    ∷ FailureCode.user_check_limit_reached ∷ FailureCode.observation_unavailable
    ∷ FailureCode.provider_authentication ∷ FailureCode.provider_unavailable
    ∷ FailureCode.provider_rate_limit ∷ FailureCode.caller_revoked ∷ FailureCode.time_limit
    ∷ FailureCode.job_cost_limit ∷ FailureCode.daily_cost_limit
    ∷ FailureCode.model_pricing_unavailable ∷ FailureCode.model_profile_unqualified
    ∷ FailureCode.model_not_approved ∷ FailureCode.invalid_provider_response
    ∷ FailureCode.cost_accounting_error ∷ FailureCode.clock_rollback ∷ FailureCode.dom_ambiguity
    ∷ FailureCode.dom_maintenance_required ∷ FailureCode.infrastructure_failure ∷ []

abbrev find_code : String → List FailureCode → Option FailureCode
unfolding code_value
find_code name [] = none
find_code name (code ∷ codes) = if code_value code == name then some code else find_code name codes

find-code_value : (code : FailureCode) → find_code (code_value code) all_codes ≡ some code
unfolding code_value
find-code_value FailureCode.navigation_error = refl
find-code_value FailureCode.auth_required = refl
find-code_value FailureCode.extraction_failed = refl
find-code_value FailureCode.llm_error = refl
find-code_value FailureCode.timeout = refl
find-code_value FailureCode.unknown = refl
find-code_value FailureCode.occupancy_missing = refl
find-code_value FailureCode.step_failed = refl
find-code_value FailureCode.property_not_found = refl
find-code_value FailureCode.no_equivalent_offer = refl
find-code_value FailureCode.currency_mismatch = refl
find-code_value FailureCode.bot_wall = refl
find-code_value FailureCode.agent_gave_up = refl
find-code_value FailureCode.agent_no_progress = refl
find-code_value FailureCode.blocked_action = refl
find-code_value FailureCode.budget_exceeded = refl
find-code_value FailureCode.user_key_invalid = refl
find-code_value FailureCode.user_check_limit_reached = refl
find-code_value FailureCode.observation_unavailable = refl
find-code_value FailureCode.provider_authentication = refl
find-code_value FailureCode.provider_unavailable = refl
find-code_value FailureCode.provider_rate_limit = refl
find-code_value FailureCode.caller_revoked = refl
find-code_value FailureCode.time_limit = refl
find-code_value FailureCode.job_cost_limit = refl
find-code_value FailureCode.daily_cost_limit = refl
find-code_value FailureCode.model_pricing_unavailable = refl
find-code_value FailureCode.model_profile_unqualified = refl
find-code_value FailureCode.model_not_approved = refl
find-code_value FailureCode.invalid_provider_response = refl
find-code_value FailureCode.cost_accounting_error = refl
find-code_value FailureCode.clock_rollback = refl
find-code_value FailureCode.dom_ambiguity = refl
find-code_value FailureCode.dom_maintenance_required = refl
find-code_value FailureCode.infrastructure_failure = refl

find-reason_value :
    (reason : TerminalBrowserReason) → find_code (reason_value reason) all_codes ≡ namesake reason
unfolding reason_value code_value
find-reason_value TerminalBrowserReason.postcondition_satisfied = refl
find-reason_value TerminalBrowserReason.code_verification_required = refl
find-reason_value TerminalBrowserReason.authentication_required = refl
find-reason_value TerminalBrowserReason.mfa_required = refl
find-reason_value TerminalBrowserReason.bot_wall = refl
find-reason_value TerminalBrowserReason.blocked_destination = refl
find-reason_value TerminalBrowserReason.prohibited_action = refl
find-reason_value TerminalBrowserReason.unsupported_page = refl
find-reason_value TerminalBrowserReason.observation_unavailable = refl
find-reason_value TerminalBrowserReason.provider_authentication = refl
find-reason_value TerminalBrowserReason.provider_unavailable = refl
find-reason_value TerminalBrowserReason.provider_rate_limit = refl
find-reason_value TerminalBrowserReason.caller_revoked = refl
find-reason_value TerminalBrowserReason.time_limit = refl
find-reason_value TerminalBrowserReason.job_cost_limit = refl
find-reason_value TerminalBrowserReason.daily_cost_limit = refl
find-reason_value TerminalBrowserReason.model_pricing_unavailable = refl
find-reason_value TerminalBrowserReason.model_profile_unqualified = refl
find-reason_value TerminalBrowserReason.model_not_approved = refl
find-reason_value TerminalBrowserReason.invalid_provider_response = refl
find-reason_value TerminalBrowserReason.explicit_unavailable = refl
find-reason_value TerminalBrowserReason.property_context_mismatch = refl
find-reason_value TerminalBrowserReason.currency_mismatch = refl
find-reason_value TerminalBrowserReason.candidates_rejected = refl
find-reason_value TerminalBrowserReason.popup_refused = refl
find-reason_value TerminalBrowserReason.infrastructure_failure = refl
find-reason_value TerminalBrowserReason.code_maintenance_required = refl
find-reason_value TerminalBrowserReason.deterministic_rejection = refl
find-reason_value TerminalBrowserReason.unresolved_ambiguity = refl
find-reason_value TerminalBrowserReason.cost_accounting_error = refl
find-reason_value TerminalBrowserReason.clock_rollback = refl

namesake-reason_of :
    (reason : TerminalBrowserReason) (code : FailureCode)
    → namesake reason ≡ some code
    → (reason_of code ≡ some reason) × (failure_code_for_terminal reason ≡ ok code)
unfolding failure_code_for_terminal
namesake-reason_of reason code h = (ground (arith, h), ground (arith, h))

given-reason_of :
    (reason reason' : TerminalBrowserReason) (code : FailureCode)
    → failure_code_for_terminal reason ≡ ok code
    → reason_of code ≡ some reason'
    → reason ≡ reason'
unfolding failure_code_for_terminal
given-reason_of reason reason' code h k = ground (arith, h, k)

same_name :
    (reason : TerminalBrowserReason) (code : FailureCode)
    → code_value code ≡ reason_value reason
    → namesake reason ≡ some code
same_name reason code e =
    sym (find-reason_value reason)
    ∙ ap (λ name. find_code name all_codes) (sym e)
    ∙ find-code_value code

shared_name :
    (reason reason' : TerminalBrowserReason) (code : FailureCode)
    → code_value code ≡ reason_value reason'
    → (failure_code_for_terminal reason ≡ ok code) ↔ (reason ≡ reason')
shared_name reason reason' code e =
    let (back, given) = namesake-reason_of reason' code (same_name reason' code e) in
    (
      λ h. given-reason_of reason reason' code h back,
      λ same. ap failure_code_for_terminal same ∙ given,
    )

has_code :
    (reason : TerminalBrowserReason)
    → reason ≢ TerminalBrowserReason.postcondition_satisfied
    → reason ≢ TerminalBrowserReason.code_verification_required
    → (code : FailureCode) × (failure_code_for_terminal reason ≡ ok code)
unfolding failure_code_for_terminal
has_code reason satisfied required = elim (Result-cases (failure_code_for_terminal reason)) [
  | inl found ↦ found
  | inr (e, raised) ↦
      absurd (elim (raising reason e raised) [ inl p ↦ satisfied p | inr p ↦ required p ])
]
  where
    raising :
        (r : TerminalBrowserReason) (e : Error)
        → failure_code_for_terminal r ≡ err e
        → (r ≡ TerminalBrowserReason.postcondition_satisfied)
          ⊎ (r ≡ TerminalBrowserReason.code_verification_required)
    raising r e h = ground (arith, h)

asks_sign_in :
    (reason : TerminalBrowserReason)
    → (failure_code_for_terminal reason ≡ ok FailureCode.auth_required) ↔ (
        (operator_action_for_reason reason ≡ OperatorAction.connect)
        ⊎ (operator_action_for_reason reason ≡ OperatorAction.complete_mfa))
unfolding failure_code_for_terminal operator_action_for_reason
asks_sign_in reason = (λ h. ground (arith, h), λ h. ground (arith, h))

asks_maintenance :
    (reason : TerminalBrowserReason)
    → ((failure_code_for_terminal reason ≡ ok FailureCode.dom_maintenance_required)
        ⊎ (failure_code_for_terminal reason ≡ ok FailureCode.dom_ambiguity))
      ↔ (operator_action_for_reason reason ≡ OperatorAction.maintain_code)
unfolding failure_code_for_terminal operator_action_for_reason
asks_maintenance reason = (λ h. ground (arith, h), λ h. ground (arith, h))

-- A terminal reason has a failure code exactly where it is not one of the two states in which the run
-- goes on. A failure code with the name of a terminal reason is the code of that reason and of no
-- other. The codes agree with the guidance for the operator: that of a required sign-in is given
-- exactly where the operator is told to connect or to complete the second factor, and those of the
-- page structure exactly where the operator is told to maintain the code.
pub failure_code_for_terminal-namesake :
    (reason : TerminalBrowserReason)
    → (((code : FailureCode) × (failure_code_for_terminal reason ≡ ok code)) ↔ (
        (reason ≢ TerminalBrowserReason.postcondition_satisfied)
        × (reason ≢ TerminalBrowserReason.code_verification_required)))
      × ((reason' : TerminalBrowserReason) (code : FailureCode)
          → code_value code ≡ reason_value reason'
          → (failure_code_for_terminal reason ≡ ok code) ↔ (reason ≡ reason'))
      × ((failure_code_for_terminal reason ≡ ok FailureCode.auth_required) ↔ (
          (operator_action_for_reason reason ≡ OperatorAction.connect)
          ⊎ (operator_action_for_reason reason ≡ OperatorAction.complete_mfa)))
      × (((failure_code_for_terminal reason ≡ ok FailureCode.dom_maintenance_required)
            ⊎ (failure_code_for_terminal reason ≡ ok FailureCode.dom_ambiguity))
          ↔ (operator_action_for_reason reason ≡ OperatorAction.maintain_code))
unfolding failure_code_for_terminal
failure_code_for_terminal-namesake reason = (
  (
    λ (code, h). (λ e. ground (arith, h, e), λ e. ground (arith, h, e)),
    λ (satisfied, required). has_code reason satisfied required,
  ),
  λ reason' code e. shared_name reason reason' code e,
  asks_sign_in reason,
  asks_maintenance reason,
)
