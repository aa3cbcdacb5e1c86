-- ===== src/Browser.antt =====
-- The closed vocabulary of the resilient browser steps (src/booksaver/domain/browser_resilience.py
-- and the stops of src/booksaver/domain/model_policy.py). A frozen set is its membership test, and
-- the members of an enumeration are told apart by their number in it.
mod Tests
pub mod Members
pub mod Steps
pub mod Registry
pub mod Classify
pub mod Diagnosis
use Prim.Native.Char.{code}
use Prim.Native.String.{String}
use booksaver_agent.Base.{
  ℕ, Bool, true, false, ◌&&◌, ◌||◌, List, [], ◌∷◌, leb, ◌==◌, length, all, any,
}
use booksaver_agent.Base.Text.{Text}

-- A text constant of the source.
abbrev pub text_of : String → Text
text_of String.[] = []
text_of (String.◌∷◌ c s) = code c ∷ text_of s

abbrev pub is_alnum : ℕ → Bool
is_alnum c = (leb 48 c && leb c 57) || ((leb 65 c && leb c 90) || (leb 97 c && leb c 122))

-- `_SAFE_CODE.fullmatch`
unfoldable pub is_safe_code : Text → Bool
is_safe_code [] = false
is_safe_code (c ∷ s) =
    is_alnum c
    && (leb (length s) 127
        && all (λ d. is_alnum d || (d == 46 || (d == 95 || (d == 58 || d == 45)))) s)

pub data DomJourney : Type 0 where
  remote_auth session_validation account_inventory : DomJourney
  price_search : DomJourney

pub data DomStepId : Type 0 where
  remote_auth_session_capture session_validation inventory_entry : DomStepId
  inventory_readiness inventory_scope inventory_pagination : DomStepId
  inventory_detail inventory_extraction inventory_completeness : DomStepId
  price_search_query_submission price_search_results price_consent_overlay : DomStepId
  price_property_locate price_property_open price_context_verify : DomStepId
  price_room_rate_readiness price_currency_align price_snapshot : DomStepId
  price_offer_extraction : DomStepId

pub data PageState : Type 0 where
  observation_unavailable authentication_required mfa_required : PageState
  captcha bot_wall external : PageState
  prohibited authenticated_candidate verified_authenticated : PageState
  inventory search_results property : PageState
  unsupported ambiguous : PageState

pub data PageStateSource : Type 0 where
  deterministic sonnet opus : PageStateSource

pub data EvidenceCategory : Type 0 where
  observation_unavailable external_destination prohibited_or_mutating_destination : EvidenceCategory
  captcha_challenge bot_wall mfa_control : EvidenceCategory
  credential_control weak_account_chrome supported_account_structure : EvidenceCategory
  supported_inventory_structure supported_search_results_structure supported_property_structure :
      EvidenceCategory
  unsupported_page_structure : EvidenceCategory

pub data DomCapability : Type 0 where
  inspect_visible_structure navigate_approved_read_only activate_read_only_control : DomCapability
  dismiss_consent adopt_approved_read_only_popup interpret_visible_facts : DomCapability

pub data OperatorAction : Type 0 where
  none connect complete_mfa : OperatorAction
  retry_later maintain_code : OperatorAction

pub data AdaptiveRecoveryPolicy : Type 0 where
  none diagnosis_only guarded_read_only : AdaptiveRecoveryPolicy

pub data SemanticSchema : Type 0 where
  none page_state inventory_structure : SemanticSchema
  inventory_reservations search_structure property_context : SemanticSchema
  room_rate_structure currency_state offer_facts : SemanticSchema

pub data DiagnosisProvenance : Type 0 where
  deterministic code_verifier_diagnosed sonnet_recovered : DiagnosisProvenance
  opus_recovered sonnet_diagnosed opus_diagnosed : DiagnosisProvenance
  policy_stop provider_stop budget_stop : DiagnosisProvenance
  infrastructure_stop : DiagnosisProvenance

pub data ModelStopReason : Type 0 where
  authentication_required mfa_required captcha : ModelStopReason
  bot_wall protected_destination prohibited_action : ModelStopReason
  deterministic_rejection observation_unavailable provider_authentication : ModelStopReason
  provider_unavailable provider_rate_limit caller_revoked : ModelStopReason
  time_limit job_cost_limit daily_cost_limit : ModelStopReason
  model_pricing_unavailable model_profile_unqualified model_not_approved : ModelStopReason
  invalid_provider_response opus_exhausted cost_accounting_error : ModelStopReason
  clock_rollback : ModelStopReason

unfoldable pub step_number : DomStepId → ℕ
step_number DomStepId.remote_auth_session_capture = 0
step_number DomStepId.session_validation = 1
step_number DomStepId.inventory_entry = 2
step_number DomStepId.inventory_readiness = 3
step_number DomStepId.inventory_scope = 4
step_number DomStepId.inventory_pagination = 5
step_number DomStepId.inventory_detail = 6
step_number DomStepId.inventory_extraction = 7
step_number DomStepId.inventory_completeness = 8
step_number DomStepId.price_search_query_submission = 9
step_number DomStepId.price_search_results = 10
step_number DomStepId.price_consent_overlay = 11
step_number DomStepId.price_property_locate = 12
step_number DomStepId.price_property_open = 13
step_number DomStepId.price_context_verify = 14
step_number DomStepId.price_room_rate_readiness = 15
step_number DomStepId.price_currency_align = 16
step_number DomStepId.price_snapshot = 17
step_number DomStepId.price_offer_extraction = 18

abbrev pub all_steps : List DomStepId
all_steps =
    DomStepId.remote_auth_session_capture ∷ DomStepId.session_validation ∷ DomStepId.inventory_entry
    ∷ DomStepId.inventory_readiness ∷ DomStepId.inventory_scope ∷ DomStepId.inventory_pagination
    ∷ DomStepId.inventory_detail ∷ DomStepId.inventory_extraction ∷ DomStepId.inventory_completeness
    ∷ DomStepId.price_search_query_submission ∷ DomStepId.price_search_results
    ∷ DomStepId.price_consent_overlay ∷ DomStepId.price_property_locate
    ∷ DomStepId.price_property_open ∷ DomStepId.price_context_verify
    ∷ DomStepId.price_room_rate_readiness ∷ DomStepId.price_currency_align
    ∷ DomStepId.price_snapshot ∷ DomStepId.price_offer_extraction ∷ []

unfoldable pub state_number : PageState → ℕ
state_number PageState.observation_unavailable = 0
state_number PageState.authentication_required = 1
state_number PageState.mfa_required = 2
state_number PageState.captcha = 3
state_number PageState.bot_wall = 4
state_number PageState.external = 5
state_number PageState.prohibited = 6
state_number PageState.authenticated_candidate = 7
state_number PageState.verified_authenticated = 8
state_number PageState.inventory = 9
state_number PageState.search_results = 10
state_number PageState.property = 11
state_number PageState.unsupported = 12
state_number PageState.ambiguous = 13

abbrev pub all_states : List PageState
all_states =
    PageState.observation_unavailable ∷ PageState.authentication_required ∷ PageState.mfa_required
    ∷ PageState.captcha ∷ PageState.bot_wall ∷ PageState.external ∷ PageState.prohibited
    ∷ PageState.authenticated_candidate ∷ PageState.verified_authenticated ∷ PageState.inventory
    ∷ PageState.search_results ∷ PageState.property ∷ PageState.unsupported ∷ PageState.ambiguous
    ∷ []

unfoldable pub capability_number : DomCapability → ℕ
capability_number DomCapability.inspect_visible_structure = 0
capability_number DomCapability.navigate_approved_read_only = 1
capability_number DomCapability.activate_read_only_control = 2
capability_number DomCapability.dismiss_consent = 3
capability_number DomCapability.adopt_approved_read_only_popup = 4
capability_number DomCapability.interpret_visible_facts = 5

abbrev pub all_capabilities : List DomCapability
all_capabilities =
    DomCapability.inspect_visible_structure ∷ DomCapability.navigate_approved_read_only
    ∷ DomCapability.activate_read_only_control ∷ DomCapability.dismiss_consent
    ∷ DomCapability.adopt_approved_read_only_popup ∷ DomCapability.interpret_visible_facts ∷ []

unfoldable pub stop_number : ModelStopReason → ℕ
stop_number ModelStopReason.authentication_required = 0
stop_number ModelStopReason.mfa_required = 1
stop_number ModelStopReason.captcha = 2
stop_number ModelStopReason.bot_wall = 3
stop_number ModelStopReason.protected_destination = 4
stop_number ModelStopReason.prohibited_action = 5
stop_number ModelStopReason.deterministic_rejection = 6
stop_number ModelStopReason.observation_unavailable = 7
stop_number ModelStopReason.provider_authentication = 8
stop_number ModelStopReason.provider_unavailable = 9
stop_number ModelStopReason.provider_rate_limit = 10
stop_number ModelStopReason.caller_revoked = 11
stop_number ModelStopReason.time_limit = 12
stop_number ModelStopReason.job_cost_limit = 13
stop_number ModelStopReason.daily_cost_limit = 14
stop_number ModelStopReason.model_pricing_unavailable = 15
stop_number ModelStopReason.model_profile_unqualified = 16
stop_number ModelStopReason.model_not_approved = 17
stop_number ModelStopReason.invalid_provider_response = 18
stop_number ModelStopReason.opus_exhausted = 19
stop_number ModelStopReason.cost_accounting_error = 20
stop_number ModelStopReason.clock_rollback = 21

abbrev pub all_stops : List ModelStopReason
all_stops =
    ModelStopReason.authentication_required ∷ ModelStopReason.mfa_required ∷ ModelStopReason.captcha
    ∷ ModelStopReason.bot_wall ∷ ModelStopReason.protected_destination
    ∷ ModelStopReason.prohibited_action ∷ ModelStopReason.deterministic_rejection
    ∷ ModelStopReason.observation_unavailable ∷ ModelStopReason.provider_authentication
    ∷ ModelStopReason.provider_unavailable ∷ ModelStopReason.provider_rate_limit
    ∷ ModelStopReason.caller_revoked ∷ ModelStopReason.time_limit ∷ ModelStopReason.job_cost_limit
    ∷ ModelStopReason.daily_cost_limit ∷ ModelStopReason.model_pricing_unavailable
    ∷ ModelStopReason.model_profile_unqualified ∷ ModelStopReason.model_not_approved
    ∷ ModelStopReason.invalid_provider_response ∷ ModelStopReason.opus_exhausted
    ∷ ModelStopReason.cost_accounting_error ∷ ModelStopReason.clock_rollback ∷ []

unfoldable pub action_number : OperatorAction → ℕ
action_number OperatorAction.none = 0
action_number OperatorAction.connect = 1
action_number OperatorAction.complete_mfa = 2
action_number OperatorAction.retry_later = 3
action_number OperatorAction.maintain_code = 4

unfoldable pub category_number : EvidenceCategory → ℕ
category_number EvidenceCategory.observation_unavailable = 0
category_number EvidenceCategory.external_destination = 1
category_number EvidenceCategory.prohibited_or_mutating_destination = 2
category_number EvidenceCategory.captcha_challenge = 3
category_number EvidenceCategory.bot_wall = 4
category_number EvidenceCategory.mfa_control = 5
category_number EvidenceCategory.credential_control = 6
category_number EvidenceCategory.weak_account_chrome = 7
category_number EvidenceCategory.supported_account_structure = 8
category_number EvidenceCategory.supported_inventory_structure = 9
category_number EvidenceCategory.supported_search_results_structure = 10
category_number EvidenceCategory.supported_property_structure = 11
category_number EvidenceCategory.unsupported_page_structure = 12

-- `state in frozenset({…})`
abbrev pub state_set : List PageState → PageState → Bool
state_set states s = any (λ t. state_number t == state_number s) states

abbrev pub capability_set : List DomCapability → DomCapability → Bool
capability_set capabilities c = any (λ d. capability_number d == capability_number c) capabilities

unfoldable pub is_protected : PageState → Bool
is_protected PageState.observation_unavailable = true
is_protected PageState.authentication_required = true
is_protected PageState.mfa_required = true
is_protected PageState.captcha = true
is_protected PageState.bot_wall = true
is_protected PageState.external = true
is_protected PageState.prohibited = true
is_protected _ = false

unfoldable pub is_code_verifiable : PageState → Bool
is_code_verifiable PageState.verified_authenticated = true
is_code_verifiable PageState.inventory = true
is_code_verifiable PageState.search_results = true
is_code_verifiable PageState.property = true
is_code_verifiable _ = false

unfoldable pub operator_action_for : PageState → OperatorAction
operator_action_for PageState.authentication_required = OperatorAction.connect
operator_action_for PageState.mfa_required = OperatorAction.complete_mfa
operator_action_for PageState.observation_unavailable = OperatorAction.retry_later
operator_action_for PageState.captcha = OperatorAction.retry_later
operator_action_for PageState.bot_wall = OperatorAction.retry_later
operator_action_for PageState.external = OperatorAction.maintain_code
operator_action_for PageState.prohibited = OperatorAction.maintain_code
operator_action_for PageState.unsupported = OperatorAction.maintain_code
operator_action_for _ = OperatorAction.none
