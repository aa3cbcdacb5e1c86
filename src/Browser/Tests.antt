-- ===== src/Browser/Tests.antt =====
-- The theorems on browser steps at one page and one receipt.
use booksaver_agent.Base.{◌≡◌, ◌↔◌, refl, Bool, true, false, none, some, [], ok}
use booksaver_agent.Base.Text.{text_eq}
use booksaver_agent.Monitor.FailureCodes.{TerminalBrowserReason}
use booksaver_agent.Browser.{
  DomStepId, PageState, PageStateSource, EvidenceCategory, OperatorAction, text_of, state_number,
  is_safe_code, is_protected, is_code_verifiable,
}
use booksaver_agent.Browser.Classify.{
  FreshPageObservation, PageStateClassification, check_observation, has_duplicate, classify,
}
use booksaver_agent.Browser.Classify.Laws.{shows_protected, shows_only, classify_iff}
use booksaver_agent.Browser.Diagnosis.{
  CodeVerificationReceipt, PageStateResolution, check_receipt, check_proof, check_page_resolution,
}

abbrev search_evidence : EvidenceCategory → Bool
search_evidence EvidenceCategory.supported_search_results_structure = true
search_evidence _ = false

abbrev search_page : FreshPageObservation
search_page = record {
  observation_id = text_of "page-1";
  observed_at = 5;
  evidence = search_evidence;
  evidence_references = [];
}

is_accepted : check_observation search_page ≡ ok tt
unfolding check_observation is_safe_code has_duplicate
is_accepted = refl

classify_iff_example :
    (c : PageStateClassification) × (classify search_page none ≡ ok c)
    × ((is_protected c.state ≡ true) ↔ (shows_protected search_evidence ≡ true))
    × ((s : PageState)
        → is_code_verifiable s ≡ true
        → (c.state ≡ s) ↔ (
            (shows_protected search_evidence ≡ false) × (shows_only search_evidence none s ≡ true)))
classify_iff_example = classify_iff search_page none is_accepted

abbrev search_receipt : CodeVerificationReceipt
search_receipt = record {
  step_id = DomStepId.price_search_results;
  verified_state = PageState.search_results;
  observation_id = text_of "page-1";
  verified_at = 6;
  verifier = text_of "results";
}

abbrev search_resolution : PageStateResolution
search_resolution = record {
  classification = some (record {
    state = PageState.search_results;
    confidence = 100;
    evidence = search_evidence;
    evidence_references = [];
    operator_action = OperatorAction.none;
    source = PageStateSource.deterministic;
    observation_id = text_of "page-1";
  });
  terminal_reason = TerminalBrowserReason.postcondition_satisfied;
  verification_receipt = some search_receipt;
  model_stop_reason = none;
}

receipt_accepted : check_receipt search_receipt ≡ ok tt
unfolding check_receipt is_safe_code is_code_verifiable
receipt_accepted = refl

resolution_accepted : check_page_resolution search_resolution ≡ ok tt
unfolding check_page_resolution check_proof text_eq state_number
resolution_accepted = refl
