-- ===== src/Browser/Steps.antt =====
-- The definition of a browser step with the checks of its constructor, and the mappings that
-- src/booksaver/application/browser_resilience.py gives to every step.
use booksaver_agent.Base.{
  ℕ, Bool, true, false, not, ◌&&◌, ◌||◌, Option, none, some, List, [], ◌∷◌, map, ◌==◌, any, all,
  if◌then◌else◌, find_first, Result, ok, value_error, raise_if, ◌>>◌,
}
use booksaver_agent.Base.Text.{Text}
use booksaver_agent.Monitor.FailureCodes.{TerminalBrowserReason}
use booksaver_agent.Browser.{
  DomStepId, DomJourney, DomCapability, PageState, SemanticSchema, AdaptiveRecoveryPolicy,
  ModelStopReason, state_number, stop_number, all_states, all_stops, all_capabilities, is_protected,
  is_code_verifiable, is_safe_code,
}

pub record StateTerminalMapping : Type 0 where
  pub state : PageState
  pub reason : TerminalBrowserReason

pub record ModelStopTerminalMapping : Type 0 where
  pub stop : ModelStopReason
  pub reason : TerminalBrowserReason

pub record DomStepDefinition : Type 0 where
  pub step_id : DomStepId
  pub journey : DomJourney
  pub deterministic_postcondition : Text
  pub safe_capabilities : DomCapability → Bool
  pub protected_states : PageState → Bool
  pub supported_states : PageState → Bool
  pub semantic_schema : SemanticSchema
  pub recovery_policy : AdaptiveRecoveryPolicy
  pub state_mappings : List StateTerminalMapping
  pub model_stop_mappings : List ModelStopTerminalMapping

-- `len(set(keys)) == len(keys)`
unfoldable pub is_unique : List ℕ → Bool
is_unique [] = true
is_unique (key ∷ keys) = not (any (λ k. k == key) keys) && is_unique keys

-- `set(keys) != set(Enumeration)` is false: every member is a key.
abbrev pub is_total : List ℕ → List ℕ → Bool
is_total members keys = all (λ m. any (λ k. k == m) keys) members

abbrev pub is_guarded : AdaptiveRecoveryPolicy → Bool
is_guarded AdaptiveRecoveryPolicy.guarded_read_only = true
is_guarded _ = false

-- `DomStepDefinition.__post_init__`
unfoldable pub check_definition : DomStepDefinition → Result (Unit {0})
check_definition d =
    let states = map (λ m. state_number m.state) d.state_mappings in
    let stops = map (λ m. stop_number m.stop) d.model_stop_mappings in
    raise_if (not (is_safe_code d.deterministic_postcondition)) value_error
    >> raise_if (not (all (λ s. not (is_protected s) || d.protected_states s) all_states))
        value_error
    >> raise_if
        (not (any d.supported_states all_states)
          || not (all (λ s. not (d.supported_states s) || is_code_verifiable s) all_states))
        value_error
    >> raise_if (not (is_guarded d.recovery_policy) && any d.safe_capabilities all_capabilities)
        value_error
    >> raise_if (not (is_unique states) || not (is_total (map state_number all_states) states))
        value_error
    >> raise_if (not (is_unique stops) || not (is_total (map stop_number all_stops) stops))
        value_error

-- `reason_for_state`; `next` raises where no mapping fits.
unfoldable pub reason_for_state : PageState → DomStepDefinition → Option TerminalBrowserReason
reason_for_state s d =
    elim (find_first (λ m. state_number m.state == state_number s) d.state_mappings) [
      | none ↦ none
      | some m ↦ some m.reason
    ]

unfoldable pub reason_for_model_stop :
    ModelStopReason → DomStepDefinition → Option TerminalBrowserReason
reason_for_model_stop stop d =
    elim (find_first (λ m. stop_number m.stop == stop_number stop) d.model_stop_mappings) [
      | none ↦ none
      | some m ↦ some m.reason
    ]

-- `exact` of `_state_mappings`
unfoldable pub exact_reason : (PageState → Bool) → PageState → TerminalBrowserReason
exact_reason supported PageState.observation_unavailable =
    TerminalBrowserReason.observation_unavailable
exact_reason supported PageState.authentication_required =
    TerminalBrowserReason.authentication_required
exact_reason supported PageState.mfa_required = TerminalBrowserReason.mfa_required
exact_reason supported PageState.captcha = TerminalBrowserReason.bot_wall
exact_reason supported PageState.bot_wall = TerminalBrowserReason.bot_wall
exact_reason supported PageState.external = TerminalBrowserReason.blocked_destination
exact_reason supported PageState.prohibited = TerminalBrowserReason.prohibited_action
exact_reason supported PageState.authenticated_candidate =
    TerminalBrowserReason.code_verification_required
exact_reason supported PageState.unsupported = TerminalBrowserReason.unsupported_page
exact_reason supported PageState.ambiguous = TerminalBrowserReason.unresolved_ambiguity
exact_reason supported s =
    if supported s
    then TerminalBrowserReason.postcondition_satisfied
    else TerminalBrowserReason.unsupported_page

unfoldable pub state_mappings_of : (PageState → Bool) → List StateTerminalMapping
state_mappings_of supported =
    map (λ s. record { state = s; reason = exact_reason supported s }) all_states

-- `_MODEL_STOP_REASONS`
unfoldable pub model_stop_reason : ModelStopReason → TerminalBrowserReason
model_stop_reason ModelStopReason.authentication_required =
    TerminalBrowserReason.authentication_required
model_stop_reason ModelStopReason.mfa_required = TerminalBrowserReason.mfa_required
model_stop_reason ModelStopReason.captcha = TerminalBrowserReason.bot_wall
model_stop_reason ModelStopReason.bot_wall = TerminalBrowserReason.bot_wall
model_stop_reason ModelStopReason.protected_destination = TerminalBrowserReason.blocked_destination
model_stop_reason ModelStopReason.prohibited_action = TerminalBrowserReason.prohibited_action
model_stop_reason ModelStopReason.deterministic_rejection =
    TerminalBrowserReason.deterministic_rejection
model_stop_reason ModelStopReason.observation_unavailable =
    TerminalBrowserReason.observation_unavailable
model_stop_reason ModelStopReason.provider_authentication =
    TerminalBrowserReason.provider_authentication
model_stop_reason ModelStopReason.provider_unavailable = TerminalBrowserReason.provider_unavailable
model_stop_reason ModelStopReason.provider_rate_limit = TerminalBrowserReason.provider_rate_limit
model_stop_reason ModelStopReason.caller_revoked = TerminalBrowserReason.caller_revoked
model_stop_reason ModelStopReason.time_limit = TerminalBrowserReason.time_limit
model_stop_reason ModelStopReason.job_cost_limit = TerminalBrowserReason.job_cost_limit
model_stop_reason ModelStopReason.daily_cost_limit = TerminalBrowserReason.daily_cost_limit
model_stop_reason ModelStopReason.model_pricing_unavailable =
    TerminalBrowserReason.model_pricing_unavailable
model_stop_reason ModelStopReason.model_profile_unqualified =
    TerminalBrowserReason.model_profile_unqualified
model_stop_reason ModelStopReason.model_not_approved = TerminalBrowserReason.model_not_approved
model_stop_reason ModelStopReason.invalid_provider_response =
    TerminalBrowserReason.invalid_provider_response
model_stop_reason ModelStopReason.opus_exhausted = TerminalBrowserReason.unresolved_ambiguity
model_stop_reason ModelStopReason.cost_accounting_error =
    TerminalBrowserReason.cost_accounting_error
model_stop_reason ModelStopReason.clock_rollback = TerminalBrowserReason.clock_rollback

-- `_model_stop_mappings`, whose check for a missing stop is met by the clauses above
unfoldable pub model_stop_mappings_of : List ModelStopTerminalMapping
model_stop_mappings_of =
    map (λ stop. record { stop = stop; reason = model_stop_reason stop }) all_stops

-- `_step`
unfoldable pub step :
    DomStepId
    → DomJourney
    → Text
    → (PageState → Bool)
    → SemanticSchema
    → AdaptiveRecoveryPolicy
    → (DomCapability → Bool)
    → Result DomStepDefinition
step step_id journey postcondition supported schema policy capabilities =
    let d : DomStepDefinition = record {
      step_id = step_id;
      journey = journey;
      deterministic_postcondition = postcondition;
      safe_capabilities = capabilities;
      protected_states = is_protected;
      supported_states = supported;
      semantic_schema = schema;
      recovery_policy = policy;
      state_mappings = state_mappings_of supported;
      model_stop_mappings = model_stop_mappings_of;
    } in
    check_definition d >> ok d
