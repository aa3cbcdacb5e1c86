-- ===== src/Monitor/FailureCodes.antt =====
-- How a browser's terminal reason (src/booksaver/domain/browser_resilience.py) becomes the failure
-- code of a check (src/booksaver/domain/check_result.py).
pub mod Laws
use Prim.Native.String.{String}
use booksaver_agent.Base.{Bool, true, false, Result, ok, err, value_error}

pub data TerminalBrowserReason : Type 0 where
  postcondition_satisfied code_verification_required authentication_required mfa_required :
      TerminalBrowserReason
  bot_wall blocked_destination prohibited_action unsupported_page : TerminalBrowserReason
  observation_unavailable provider_authentication provider_unavailable provider_rate_limit :
      TerminalBrowserReason
  caller_revoked time_limit job_cost_limit daily_cost_limit : TerminalBrowserReason
  model_pricing_unavailable model_profile_unqualified model_not_approved invalid_provider_response :
      TerminalBrowserReason
  explicit_unavailable property_context_mismatch currency_mismatch candidates_rejected :
      TerminalBrowserReason
  popup_refused infrastructure_failure code_maintenance_required deterministic_rejection :
      TerminalBrowserReason
  unresolved_ambiguity cost_accounting_error clock_rollback : TerminalBrowserReason

pub data FailureCode : Type 0 where
  navigation_error auth_required extraction_failed llm_error : FailureCode
  timeout unknown occupancy_missing step_failed : FailureCode
  property_not_found no_equivalent_offer currency_mismatch bot_wall : FailureCode
  agent_gave_up agent_no_progress blocked_action budget_exceeded : FailureCode
  user_key_invalid user_check_limit_reached observation_unavailable provider_authentication :
      FailureCode
  provider_unavailable provider_rate_limit caller_revoked time_limit : FailureCode
  job_cost_limit daily_cost_limit model_pricing_unavailable model_profile_unqualified : FailureCode
  model_not_approved invalid_provider_response cost_accounting_error clock_rollback : FailureCode
  dom_ambiguity dom_maintenance_required infrastructure_failure : FailureCode

-- The values of the two enumerations.
unfoldable pub reason_value : TerminalBrowserReason → String
reason_value TerminalBrowserReason.postcondition_satisfied = "postcondition_satisfied"
reason_value TerminalBrowserReason.code_verification_required = "code_verification_required"
reason_value TerminalBrowserReason.authentication_required = "authentication_required"
reason_value TerminalBrowserReason.mfa_required = "mfa_required"
reason_value TerminalBrowserReason.bot_wall = "bot_wall"
reason_value TerminalBrowserReason.blocked_destination = "blocked_destination"
reason_value TerminalBrowserReason.prohibited_action = "prohibited_action"
reason_value TerminalBrowserReason.unsupported_page = "unsupported_page"
reason_value TerminalBrowserReason.observation_unavailable = "observation_unavailable"
reason_value TerminalBrowserReason.provider_authentication = "provider_authentication"
reason_value TerminalBrowserReason.provider_unavailable = "provider_unavailable"
reason_value TerminalBrowserReason.provider_rate_limit = "provider_rate_limit"
reason_value TerminalBrowserReason.caller_revoked = "caller_revoked"
reason_value TerminalBrowserReason.time_limit = "time_limit"
reason_value TerminalBrowserReason.job_cost_limit = "job_cost_limit"
reason_value TerminalBrowserReason.daily_cost_limit = "daily_cost_limit"
reason_value TerminalBrowserReason.model_pricing_unavailable = "model_pricing_unavailable"
reason_value TerminalBrowserReason.model_profile_unqualified = "model_profile_unqualified"
reason_value TerminalBrowserReason.model_not_approved = "model_not_approved"
reason_value TerminalBrowserReason.invalid_provider_response = "invalid_provider_response"
reason_value TerminalBrowserReason.explicit_unavailable = "explicit_unavailable"
reason_value TerminalBrowserReason.property_context_mismatch = "property_context_mismatch"
reason_value TerminalBrowserReason.currency_mismatch = "currency_mismatch"
reason_value TerminalBrowserReason.candidates_rejected = "candidates_rejected"
reason_value TerminalBrowserReason.popup_refused = "popup_refused"
reason_value TerminalBrowserReason.infrastructure_failure = "infrastructure_failure"
reason_value TerminalBrowserReason.code_maintenance_required = "code_maintenance_required"
reason_value TerminalBrowserReason.deterministic_rejection = "deterministic_rejection"
reason_value TerminalBrowserReason.unresolved_ambiguity = "unresolved_ambiguity"
reason_value TerminalBrowserReason.cost_accounting_error = "cost_accounting_error"
reason_value TerminalBrowserReason.clock_rollback = "clock_rollback"

unfoldable pub code_value : FailureCode → String
code_value FailureCode.navigation_error = "navigation_error"
code_value FailureCode.auth_required = "auth_required"
code_value FailureCode.extraction_failed = "extraction_failed"
code_value FailureCode.llm_error = "llm_error"
code_value FailureCode.timeout = "timeout"
code_value FailureCode.unknown = "unknown"
code_value FailureCode.occupancy_missing = "occupancy_missing"
code_value FailureCode.step_failed = "step_failed"
code_value FailureCode.property_not_found = "property_not_found"
code_value FailureCode.no_equivalent_offer = "no_equivalent_offer"
code_value FailureCode.currency_mismatch = "currency_mismatch"
code_value FailureCode.bot_wall = "bot_wall"
code_value FailureCode.agent_gave_up = "agent_gave_up"
code_value FailureCode.agent_no_progress = "agent_no_progress"
code_value FailureCode.blocked_action = "blocked_action"
code_value FailureCode.budget_exceeded = "budget_exceeded"
code_value FailureCode.user_key_invalid = "user_key_invalid"
code_value FailureCode.user_check_limit_reached = "user_check_limit_reached"
code_value FailureCode.observation_unavailable = "observation_unavailable"
code_value FailureCode.provider_authentication = "provider_authentication"
code_value FailureCode.provider_unavailable = "provider_unavailable"
code_value FailureCode.provider_rate_limit = "provider_rate_limit"
code_value FailureCode.caller_revoked = "caller_revoked"
code_value FailureCode.time_limit = "time_limit"
code_value FailureCode.job_cost_limit = "job_cost_limit"
code_value FailureCode.daily_cost_limit = "daily_cost_limit"
code_value FailureCode.model_pricing_unavailable = "model_pricing_unavailable"
code_value FailureCode.model_profile_unqualified = "model_profile_unqualified"
code_value FailureCode.model_not_approved = "model_not_approved"
code_value FailureCode.invalid_provider_response = "invalid_provider_response"
code_value FailureCode.cost_accounting_error = "cost_accounting_error"
code_value FailureCode.clock_rollback = "clock_rollback"
code_value FailureCode.dom_ambiguity = "dom_ambiguity"
code_value FailureCode.dom_maintenance_required = "dom_maintenance_required"
code_value FailureCode.infrastructure_failure = "infrastructure_failure"

-- `failure_code_for_terminal`
unfoldable pub failure_code_for_terminal : TerminalBrowserReason → Result FailureCode
failure_code_for_terminal TerminalBrowserReason.postcondition_satisfied = err value_error
failure_code_for_terminal TerminalBrowserReason.code_verification_required = err value_error
failure_code_for_terminal TerminalBrowserReason.authentication_required =
    ok FailureCode.auth_required
failure_code_for_terminal TerminalBrowserReason.mfa_required = ok FailureCode.auth_required
failure_code_for_terminal TerminalBrowserReason.bot_wall = ok FailureCode.bot_wall
failure_code_for_terminal TerminalBrowserReason.blocked_destination = ok FailureCode.blocked_action
failure_code_for_terminal TerminalBrowserReason.prohibited_action = ok FailureCode.blocked_action
failure_code_for_terminal TerminalBrowserReason.unsupported_page =
    ok FailureCode.dom_maintenance_required
failure_code_for_terminal TerminalBrowserReason.observation_unavailable =
    ok FailureCode.observation_unavailable
failure_code_for_terminal TerminalBrowserReason.provider_authentication =
    ok FailureCode.provider_authentication
failure_code_for_terminal TerminalBrowserReason.provider_unavailable =
    ok FailureCode.provider_unavailable
failure_code_for_terminal TerminalBrowserReason.provider_rate_limit =
    ok FailureCode.provider_rate_limit
failure_code_for_terminal TerminalBrowserReason.caller_revoked = ok FailureCode.caller_revoked
failure_code_for_terminal TerminalBrowserReason.time_limit = ok FailureCode.time_limit
failure_code_for_terminal TerminalBrowserReason.job_cost_limit = ok FailureCode.job_cost_limit
failure_code_for_terminal TerminalBrowserReason.daily_cost_limit = ok FailureCode.daily_cost_limit
failure_code_for_terminal TerminalBrowserReason.model_pricing_unavailable =
    ok FailureCode.model_pricing_unavailable
failure_code_for_terminal TerminalBrowserReason.model_profile_unqualified =
    ok FailureCode.model_profile_unqualified
failure_code_for_terminal TerminalBrowserReason.model_not_approved =
    ok FailureCode.model_not_approved
failure_code_for_terminal TerminalBrowserReason.invalid_provider_response =
    ok FailureCode.invalid_provider_response
failure_code_for_terminal TerminalBrowserReason.explicit_unavailable =
    ok FailureCode.no_equivalent_offer
failure_code_for_terminal TerminalBrowserReason.property_context_mismatch =
    ok FailureCode.step_failed
failure_code_for_terminal TerminalBrowserReason.currency_mismatch = ok FailureCode.currency_mismatch
failure_code_for_terminal TerminalBrowserReason.candidates_rejected =
    ok FailureCode.no_equivalent_offer
failure_code_for_terminal TerminalBrowserReason.popup_refused = ok FailureCode.blocked_action
failure_code_for_terminal TerminalBrowserReason.infrastructure_failure =
    ok FailureCode.infrastructure_failure
failure_code_for_terminal TerminalBrowserReason.code_maintenance_required =
    ok FailureCode.dom_maintenance_required
failure_code_for_terminal TerminalBrowserReason.deterministic_rejection = ok FailureCode.step_failed
failure_code_for_terminal TerminalBrowserReason.unresolved_ambiguity = ok FailureCode.dom_ambiguity
failure_code_for_terminal TerminalBrowserReason.cost_accounting_error =
    ok FailureCode.cost_accounting_error
failure_code_for_terminal TerminalBrowserReason.clock_rollback = ok FailureCode.clock_rollback

-- A state of the browser in which the run goes on.
unfoldable pub is_under_way : TerminalBrowserReason → Bool
is_under_way TerminalBrowserReason.postcondition_satisfied = true
is_under_way TerminalBrowserReason.code_verification_required = true
is_under_way _ = false
