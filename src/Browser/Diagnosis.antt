-- ===== src/Browser/Diagnosis.antt =====
-- The final diagnosis of a browser run, the guidance that goes with it and the resolution of a page
-- state (src/booksaver/domain/browser_resilience.py). The checks that a value belongs to its
-- enumeration are met by the types; a confidence is a number of hundredths.
pub mod Laws
use booksaver_agent.Base.{
  ℕ, Bool, true, false, not, ◌&&◌, ◌||◌, Option, none, some, List, [], ◌∷◌, ◌==◌, any, is_some, ltb,
  Result, ok, err, value_error, raise_if, ◌>>◌, if◌then◌else◌,
}
use booksaver_agent.Base.Text.{Text, text_eq}
use booksaver_agent.Monitor.FailureCodes.{TerminalBrowserReason, is_under_way}
use booksaver_agent.Browser.{
  DomStepId, PageState, EvidenceCategory, OperatorAction, DiagnosisProvenance, ModelStopReason,
  action_number, state_number, is_code_verifiable, is_safe_code,
}
use booksaver_agent.Browser.Classify.{PageStateClassification, is_deterministic}

pub record TerminalBrowserDiagnosis : Type 0 where
  pub reason : TerminalBrowserReason
  pub step_id : DomStepId
  pub provenance : DiagnosisProvenance
  pub confidence : ℕ
  pub evidence : EvidenceCategory → Bool
  pub operator_action : OperatorAction
  pub code_maintenance_required : Bool
  pub model_stop_reason : Option ModelStopReason

-- The provenances of a decision that no model made.
unfoldable pub is_conclusive : DiagnosisProvenance → Bool
is_conclusive DiagnosisProvenance.deterministic = true
is_conclusive DiagnosisProvenance.code_verifier_diagnosed = true
is_conclusive DiagnosisProvenance.policy_stop = true
is_conclusive DiagnosisProvenance.provider_stop = true
is_conclusive DiagnosisProvenance.budget_stop = true
is_conclusive DiagnosisProvenance.infrastructure_stop = true
is_conclusive _ = false

unfoldable pub may_request_maintenance : DiagnosisProvenance → Bool
may_request_maintenance DiagnosisProvenance.code_verifier_diagnosed = true
may_request_maintenance DiagnosisProvenance.sonnet_diagnosed = true
may_request_maintenance DiagnosisProvenance.opus_diagnosed = true
may_request_maintenance _ = false

unfoldable pub is_recovered : DiagnosisProvenance → Bool
is_recovered DiagnosisProvenance.sonnet_recovered = true
is_recovered DiagnosisProvenance.opus_recovered = true
is_recovered _ = false

unfoldable pub may_succeed : DiagnosisProvenance → Bool
may_succeed DiagnosisProvenance.deterministic = true
may_succeed DiagnosisProvenance.sonnet_recovered = true
may_succeed DiagnosisProvenance.opus_recovered = true
may_succeed _ = false

unfoldable pub is_satisfied : TerminalBrowserReason → Bool
is_satisfied TerminalBrowserReason.postcondition_satisfied = true
is_satisfied _ = false

unfoldable pub is_maintenance : TerminalBrowserReason → Bool
is_maintenance TerminalBrowserReason.code_maintenance_required = true
is_maintenance _ = false

abbrev pub same_bool : Bool → Bool → Bool
same_bool true b = b
same_bool false b = not b

unfoldable pub operator_action_for_reason : TerminalBrowserReason → OperatorAction
operator_action_for_reason TerminalBrowserReason.authentication_required = OperatorAction.connect
operator_action_for_reason TerminalBrowserReason.mfa_required = OperatorAction.complete_mfa
operator_action_for_reason TerminalBrowserReason.observation_unavailable =
    OperatorAction.retry_later
operator_action_for_reason TerminalBrowserReason.bot_wall = OperatorAction.retry_later
operator_action_for_reason TerminalBrowserReason.provider_authentication =
    OperatorAction.retry_later
operator_action_for_reason TerminalBrowserReason.provider_unavailable = OperatorAction.retry_later
operator_action_for_reason TerminalBrowserReason.provider_rate_limit = OperatorAction.retry_later
operator_action_for_reason TerminalBrowserReason.caller_revoked = OperatorAction.retry_later
operator_action_for_reason TerminalBrowserReason.time_limit = OperatorAction.retry_later
operator_action_for_reason TerminalBrowserReason.job_cost_limit = OperatorAction.retry_later
operator_action_for_reason TerminalBrowserReason.daily_cost_limit = OperatorAction.retry_later
operator_action_for_reason TerminalBrowserReason.model_pricing_unavailable =
    OperatorAction.retry_later
operator_action_for_reason TerminalBrowserReason.model_profile_unqualified =
    OperatorAction.retry_later
operator_action_for_reason TerminalBrowserReason.model_not_approved = OperatorAction.retry_later
operator_action_for_reason TerminalBrowserReason.invalid_provider_response =
    OperatorAction.retry_later
operator_action_for_reason TerminalBrowserReason.cost_accounting_error = OperatorAction.retry_later
operator_action_for_reason TerminalBrowserReason.clock_rollback = OperatorAction.retry_later
operator_action_for_reason TerminalBrowserReason.infrastructure_failure = OperatorAction.retry_later
operator_action_for_reason TerminalBrowserReason.unsupported_page = OperatorAction.maintain_code
operator_action_for_reason TerminalBrowserReason.unresolved_ambiguity = OperatorAction.maintain_code
operator_action_for_reason TerminalBrowserReason.code_maintenance_required =
    OperatorAction.maintain_code
operator_action_for_reason _ = OperatorAction.none

unfoldable pub provenance_for_terminal : TerminalBrowserReason → DiagnosisProvenance
provenance_for_terminal TerminalBrowserReason.provider_authentication =
    DiagnosisProvenance.provider_stop
provenance_for_terminal TerminalBrowserReason.provider_unavailable =
    DiagnosisProvenance.provider_stop
provenance_for_terminal TerminalBrowserReason.provider_rate_limit =
    DiagnosisProvenance.provider_stop
provenance_for_terminal TerminalBrowserReason.time_limit = DiagnosisProvenance.budget_stop
provenance_for_terminal TerminalBrowserReason.job_cost_limit = DiagnosisProvenance.budget_stop
provenance_for_terminal TerminalBrowserReason.daily_cost_limit = DiagnosisProvenance.budget_stop
provenance_for_terminal TerminalBrowserReason.model_pricing_unavailable =
    DiagnosisProvenance.budget_stop
provenance_for_terminal TerminalBrowserReason.cost_accounting_error =
    DiagnosisProvenance.budget_stop
provenance_for_terminal TerminalBrowserReason.clock_rollback = DiagnosisProvenance.budget_stop
provenance_for_terminal TerminalBrowserReason.authentication_required =
    DiagnosisProvenance.deterministic
provenance_for_terminal TerminalBrowserReason.mfa_required = DiagnosisProvenance.deterministic
provenance_for_terminal TerminalBrowserReason.bot_wall = DiagnosisProvenance.deterministic
provenance_for_terminal TerminalBrowserReason.blocked_destination =
    DiagnosisProvenance.deterministic
provenance_for_terminal TerminalBrowserReason.prohibited_action = DiagnosisProvenance.deterministic
provenance_for_terminal TerminalBrowserReason.explicit_unavailable =
    DiagnosisProvenance.deterministic
provenance_for_terminal _ = DiagnosisProvenance.policy_stop

-- `TerminalBrowserDiagnosis.__post_init__`
unfoldable pub check_diagnosis : TerminalBrowserDiagnosis → Result (Unit {0})
check_diagnosis d =
    raise_if (ltb 100 d.confidence) value_error
    >> raise_if (is_conclusive d.provenance && not (d.confidence == 100)) value_error
    >> raise_if (not (same_bool d.code_maintenance_required (is_maintenance d.reason))) value_error
    >> raise_if (is_maintenance d.reason && not (may_request_maintenance d.provenance)) value_error
    >> raise_if (is_recovered d.provenance && not (is_satisfied d.reason)) value_error
    >> raise_if (is_satisfied d.reason && not (may_succeed d.provenance)) value_error
    >> raise_if
        (not
          (action_number d.operator_action == action_number (operator_action_for_reason d.reason)))
        value_error

-- `validate_assisted_diagnoses`
unfoldable pub validate_assisted_diagnoses : List TerminalBrowserDiagnosis → Result (Unit {0})
validate_assisted_diagnoses diagnoses =
    raise_if
      (any
        (λ d.
          not (is_satisfied d.reason)
          || (not (is_recovered d.provenance) || d.code_maintenance_required))
        diagnoses)
      value_error

pub record CodeVerificationReceipt : Type 0 where
  pub step_id : DomStepId
  pub verified_state : PageState
  pub observation_id : Text
  pub verified_at : ℕ
  pub verifier : Text

-- `CodeVerificationReceipt.__post_init__`
unfoldable pub check_receipt : CodeVerificationReceipt → Result (Unit {0})
check_receipt r =
    raise_if (not (is_code_verifiable r.verified_state)) value_error
    >> raise_if (not (is_safe_code r.observation_id)) value_error
    >> raise_if (not (is_safe_code r.verifier)) value_error

pub record PageStateResolution : Type 0 where
  pub classification : Option PageStateClassification
  pub terminal_reason : TerminalBrowserReason
  pub verification_receipt : Option CodeVerificationReceipt
  pub model_stop_reason : Option ModelStopReason

-- The checks of a receipt that comes with a resolution.
unfoldable pub check_proof :
    Option PageStateClassification → Option CodeVerificationReceipt → Result (Unit {0})
check_proof classification none = ok tt
check_proof none (some r) = err value_error
check_proof (some c) (some r) =
    raise_if (not (is_deterministic c.source)) value_error
    >> raise_if (not (text_eq c.observation_id r.observation_id)) value_error
    >> raise_if (not (state_number c.state == state_number r.verified_state)) value_error

-- `PageStateResolution.__post_init__`
unfoldable pub check_page_resolution : PageStateResolution → Result (Unit {0})
check_page_resolution r =
    check_proof r.classification r.verification_receipt
    >> raise_if (is_some r.model_stop_reason && is_under_way r.terminal_reason) value_error
