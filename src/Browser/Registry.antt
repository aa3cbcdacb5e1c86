-- ===== src/Browser/Registry.antt =====
-- The registry of the production steps (DomStepRegistry of
-- src/booksaver/domain/browser_resilience.py, DOM_STEP_REGISTRY of
-- src/booksaver/application/browser_resilience.py).
pub mod Faithful
pub mod Laws
use booksaver_agent.Base.{
  ℕ, Bool, true, false, not, ◌||◌, Option, List, [], ◌∷◌, ◌++◌, map, ◌==◌, find_first, Result, ok,
  err, value_error, raise_if, ◌>>◌, ◌>>=◌,
}
use booksaver_agent.Browser.{
  DomStepId, DomJourney, DomCapability, PageState, SemanticSchema, AdaptiveRecoveryPolicy,
  step_number, all_steps, state_set, capability_set, text_of,
}
use booksaver_agent.Browser.Steps.{DomStepDefinition, is_unique, is_total, step}

pub record DomStepRegistry : Type 0 where
  pub definitions : List DomStepDefinition

-- `DomStepRegistry.__init__`
unfoldable pub new_registry : List DomStepDefinition → Result DomStepRegistry
new_registry definitions =
    let identifiers = map (λ d. step_number d.step_id) definitions in
    raise_if (not (is_unique identifiers)) value_error
    >> raise_if (not (is_total (map step_number all_steps) identifiers)) value_error
    >> ok (record { definitions = definitions })

-- `definition`; a missing key raises.
unfoldable pub definition : DomStepId → DomStepRegistry → Option DomStepDefinition
definition step_id registry =
    find_first (λ d. step_number d.step_id == step_number step_id) registry.definitions

-- The elements of a tuple, whose construction may raise.
unfoldable pub collect : List (Result DomStepDefinition) → Result (List DomStepDefinition)
collect [] = ok []
collect (built ∷ others) = let rest = collect others in built >>= λ d. rest >>= λ ds. ok (d ∷ ds)

abbrev pub auth_states : PageState → Bool
auth_states = state_set (PageState.verified_authenticated ∷ PageState.inventory ∷ [])

abbrev pub inventory_state : PageState → Bool
inventory_state = state_set (PageState.inventory ∷ [])

abbrev pub results_state : PageState → Bool
results_state = state_set (PageState.search_results ∷ [])

abbrev pub property_state : PageState → Bool
property_state = state_set (PageState.property ∷ [])

abbrev pub read : DomCapability → Bool
read = capability_set (DomCapability.inspect_visible_structure ∷ [])

abbrev pub navigate : DomCapability → Bool
navigate =
    capability_set
      (DomCapability.inspect_visible_structure ∷ DomCapability.navigate_approved_read_only ∷ [])

abbrev pub activate : DomCapability → Bool
activate =
    capability_set
      (DomCapability.inspect_visible_structure ∷ DomCapability.activate_read_only_control ∷ [])

abbrev pub interpret : DomCapability → Bool
interpret =
    capability_set
      (DomCapability.inspect_visible_structure ∷ DomCapability.interpret_visible_facts ∷ [])

abbrev pub no_capabilities : DomCapability → Bool
no_capabilities _ = false

-- The calls of `_step` for the account, and for the price search, in their order.
unfoldable pub account_steps : List (Result DomStepDefinition)
account_steps =
    step DomStepId.remote_auth_session_capture DomJourney.remote_auth
      (text_of "fresh_supported_account_proof") auth_states SemanticSchema.page_state
      AdaptiveRecoveryPolicy.diagnosis_only no_capabilities
    ∷ step DomStepId.session_validation DomJourney.session_validation
        (text_of "fresh_supported_session_proof") auth_states SemanticSchema.page_state
        AdaptiveRecoveryPolicy.diagnosis_only no_capabilities
    ∷ step DomStepId.inventory_entry DomJourney.account_inventory
        (text_of "approved_inventory_destination") inventory_state SemanticSchema.page_state
        AdaptiveRecoveryPolicy.guarded_read_only navigate
    ∷ step DomStepId.inventory_readiness DomJourney.account_inventory
        (text_of "inventory_structure_ready") inventory_state SemanticSchema.inventory_structure
        AdaptiveRecoveryPolicy.guarded_read_only read
    ∷ step DomStepId.inventory_scope DomJourney.account_inventory
        (text_of "inventory_scope_verified") inventory_state SemanticSchema.inventory_structure
        AdaptiveRecoveryPolicy.guarded_read_only activate
    ∷ step DomStepId.inventory_pagination DomJourney.account_inventory
        (text_of "inventory_page_progress_verified") inventory_state
        SemanticSchema.inventory_structure AdaptiveRecoveryPolicy.guarded_read_only activate
    ∷ step DomStepId.inventory_detail DomJourney.account_inventory
        (text_of "inventory_detail_verified") inventory_state SemanticSchema.inventory_structure
        AdaptiveRecoveryPolicy.guarded_read_only
        (capability_set (
          DomCapability.inspect_visible_structure ∷ DomCapability.navigate_approved_read_only
          ∷ DomCapability.adopt_approved_read_only_popup ∷ []))
    ∷ step DomStepId.inventory_extraction DomJourney.account_inventory
        (text_of "inventory_observations_validated") inventory_state
        SemanticSchema.inventory_reservations AdaptiveRecoveryPolicy.guarded_read_only interpret
    ∷ step DomStepId.inventory_completeness DomJourney.account_inventory
        (text_of "inventory_completeness_proven_by_code") inventory_state
        SemanticSchema.inventory_structure AdaptiveRecoveryPolicy.diagnosis_only no_capabilities
    ∷ []

unfoldable pub price_steps : List (Result DomStepDefinition)
price_steps =
    step DomStepId.price_search_query_submission DomJourney.price_search
      (text_of "trusted_results_query_submitted") results_state SemanticSchema.search_structure
      AdaptiveRecoveryPolicy.guarded_read_only navigate
    ∷ step DomStepId.price_search_results DomJourney.price_search (text_of "search_results_ready")
        results_state SemanticSchema.search_structure AdaptiveRecoveryPolicy.guarded_read_only read
    ∷ step DomStepId.price_consent_overlay DomJourney.price_search
        (text_of "consent_overlay_not_blocking")
        (state_set (PageState.search_results ∷ PageState.property ∷ [])) SemanticSchema.page_state
        AdaptiveRecoveryPolicy.guarded_read_only
        (capability_set
          (DomCapability.inspect_visible_structure ∷ DomCapability.dismiss_consent ∷ []))
    ∷ step DomStepId.price_property_locate DomJourney.price_search
        (text_of "trusted_property_result_identified") results_state SemanticSchema.search_structure
        AdaptiveRecoveryPolicy.guarded_read_only interpret
    ∷ step DomStepId.price_property_open DomJourney.price_search
        (text_of "approved_property_destination") property_state SemanticSchema.property_context
        AdaptiveRecoveryPolicy.guarded_read_only
        (capability_set (
          DomCapability.inspect_visible_structure ∷ DomCapability.activate_read_only_control
          ∷ DomCapability.adopt_approved_read_only_popup ∷ []))
    ∷ step DomStepId.price_context_verify DomJourney.price_search
        (text_of "trusted_property_context_verified") property_state SemanticSchema.property_context
        AdaptiveRecoveryPolicy.diagnosis_only no_capabilities
    ∷ step DomStepId.price_room_rate_readiness DomJourney.price_search
        (text_of "room_rate_content_ready") property_state SemanticSchema.room_rate_structure
        AdaptiveRecoveryPolicy.guarded_read_only activate
    ∷ step DomStepId.price_currency_align DomJourney.price_search
        (text_of "requested_currency_verified") property_state SemanticSchema.currency_state
        AdaptiveRecoveryPolicy.guarded_read_only activate
    ∷ step DomStepId.price_snapshot DomJourney.price_search
        (text_of "fresh_property_observation_available") property_state SemanticSchema.page_state
        AdaptiveRecoveryPolicy.guarded_read_only read
    ∷ step DomStepId.price_offer_extraction DomJourney.price_search
        (text_of "offer_facts_validated") property_state SemanticSchema.offer_facts
        AdaptiveRecoveryPolicy.guarded_read_only interpret
    ∷ []

unfoldable pub production_steps : List (Result DomStepDefinition)
production_steps = account_steps ++ price_steps

unfoldable pub dom_step_registry : Result DomStepRegistry
dom_step_registry = collect production_steps >>= new_registry
