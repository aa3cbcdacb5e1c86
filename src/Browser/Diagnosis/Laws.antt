-- ===== src/Browser/Diagnosis/Laws.antt =====
-- Which diagnoses a reason determines by itself.
use booksaver_agent.Base.{
  err, if◌then◌else◌, ◌≡◌, ◌≢◌, ◌↔◌, Bool, ◌||◌, Option, ok, value_error, arith,
}
use booksaver_agent.Monitor.FailureCodes.{TerminalBrowserReason}
use booksaver_agent.Browser.{DomStepId, EvidenceCategory, ModelStopReason, action_number}
use booksaver_agent.Browser.Diagnosis.{
  TerminalBrowserDiagnosis, check_diagnosis, is_conclusive, may_request_maintenance, is_recovered,
  may_succeed, is_satisfied, is_maintenance, operator_action_for_reason, provenance_for_terminal,
}

-- The diagnosis that a reason determines: its provenance, its guidance and its maintenance flag, with
-- full confidence.
unfoldable pub diagnosis_of :
    TerminalBrowserReason
    → DomStepId
    → (EvidenceCategory → Bool)
    → Option ModelStopReason
    → TerminalBrowserDiagnosis
diagnosis_of reason step_id evidence stop = record {
  reason = reason;
  step_id = step_id;
  provenance = provenance_for_terminal reason;
  confidence = 100;
  evidence = evidence;
  operator_action = operator_action_for_reason reason;
  code_maintenance_required = is_maintenance reason;
  model_stop_reason = stop;
}

made_of_reason :
    (reason : TerminalBrowserReason) (step_id : DomStepId) (evidence : EvidenceCategory → Bool)
    (stop : Option ModelStopReason)
    → check_diagnosis (diagnosis_of reason step_id evidence stop)
      ≡ (if is_satisfied reason || is_maintenance reason then err value_error else ok tt)
unfolding check_diagnosis diagnosis_of is_maintenance is_satisfied provenance_for_terminal
    is_conclusive may_request_maintenance is_recovered may_succeed operator_action_for_reason
    action_number
made_of_reason reason step_id evidence stop = ground arith

-- A diagnosis that is made of its reason alone passes the checks of its constructor exactly where the
-- reason is neither a success nor a request for maintenance: these two always need a provenance of
-- their own.
pub check_diagnosis_iff :
    (reason : TerminalBrowserReason) (step_id : DomStepId) (evidence : EvidenceCategory → Bool)
    (stop : Option ModelStopReason)
    → (check_diagnosis (diagnosis_of reason step_id evidence stop) ≡ ok tt) ↔ (
        (reason ≢ TerminalBrowserReason.postcondition_satisfied)
        × (reason ≢ TerminalBrowserReason.code_maintenance_required))
unfolding is_maintenance is_satisfied
check_diagnosis_iff reason step_id evidence stop =
    let made = made_of_reason reason step_id evidence stop in
    (
      λ h. (λ e. ground (arith, h, made, e), λ e. ground (arith, h, made, e)),
      λ h. ground (arith, made, h),
    )
