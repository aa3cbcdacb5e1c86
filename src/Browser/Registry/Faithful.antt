-- ===== src/Browser/Registry/Faithful.antt =====
-- A step that passes the checks of its constructor answers every state and every stop.
use booksaver_agent.Base.{
  ◌≡◌, ◌↔◌, refl, Bool, true, false, not, ◌||◌, some, List, [], ◌∷◌, arith, all, All, ok,
  value_error, raise_if, ◌>>◌, ok-injective, >>=-eq-ok,
}
use mathlib.Core.Path.{subst}
use booksaver_agent.Base.Text.{Text}
use booksaver_agent.Monitor.FailureCodes.{TerminalBrowserReason, is_under_way}
use booksaver_agent.Browser.{
  DomStepId, DomJourney, DomCapability, PageState, SemanticSchema, AdaptiveRecoveryPolicy,
  ModelStopReason, state_number, stop_number, all_states, is_protected, is_code_verifiable,
}
use booksaver_agent.Browser.Members.{each_state}
use booksaver_agent.Browser.Steps.{
  DomStepDefinition, step, check_definition, reason_for_state, reason_for_model_stop, exact_reason,
  state_mappings_of, model_stop_reason, model_stop_mappings_of,
}

-- A definition that answers every state and every stop: a state satisfies the step exactly where the
-- step supports it, no protected state is supported, and a stop of the model ends the run.
pub record IsFaithful (d : DomStepDefinition) : Type 0 where
  pub states :
      (s : PageState)
      → (reason : TerminalBrowserReason) × (reason_for_state s d ≡ some reason)
        × ((reason ≡ TerminalBrowserReason.postcondition_satisfied) ↔ (d.supported_states s ≡ true))
  pub protected : (s : PageState) → is_protected s ≡ true → d.supported_states s ≡ false
  pub stops :
      (stop : ModelStopReason)
      → (reason : TerminalBrowserReason) × (reason_for_model_stop stop d ≡ some reason)
        × (is_under_way reason ≡ false)

pub all-All : {A : Type 0} (p : A → Bool) (xs : List A) → all p xs ≡ true → All (λ x. p x ≡ true) xs
all-All p [] h = tt
all-All p (x ∷ xs) h = (ground (arith, h), all-All p xs (ground (arith, h)))

pub verifiable_only :
    (supported : PageState → Bool) (s : PageState)
    → all (λ t. not (supported t) || is_code_verifiable t) all_states ≡ true
    → (not (supported s) || is_code_verifiable s) ≡ true
verifiable_only supported s h =
    let verifiable : PageState → Bool = λ t. not (supported t) || is_code_verifiable t in
    each_state (λ t. verifiable t ≡ true) s (all-All verifiable all_states h)

pub exact_satisfied :
    (supported : PageState → Bool) (s : PageState)
    → (not (supported s) || is_code_verifiable s) ≡ true
    → (exact_reason supported s ≡ TerminalBrowserReason.postcondition_satisfied)
      ↔ (supported s ≡ true)
unfolding exact_reason is_code_verifiable
exact_satisfied supported s h = (λ e. ground (arith, h, e), λ e. ground (arith, h, e))

pub stop_ends : (stop : ModelStopReason) → is_under_way (model_stop_reason stop) ≡ false
unfolding is_under_way model_stop_reason
stop_ends stop = ground arith

pub found_state :
    (supported : PageState → Bool) (d : DomStepDefinition) (s : PageState)
    → d.state_mappings ≡ state_mappings_of supported
    → reason_for_state s d ≡ some (exact_reason supported s)
unfolding reason_for_state state_mappings_of state_number
found_state supported d s e = ground (arith, e)

pub found_stop :
    (d : DomStepDefinition) (stop : ModelStopReason)
    → d.model_stop_mappings ≡ model_stop_mappings_of
    → reason_for_model_stop stop d ≡ some (model_stop_reason stop)
unfolding reason_for_model_stop model_stop_mappings_of stop_number
found_stop d stop e = ground (arith, e)

-- Where a chain of six checks passes, the third of them does.
pub third_passed :
    (a b c good d e f : Bool)
    → (raise_if a value_error
        >> raise_if b value_error
        >> raise_if (c || not good) value_error
        >> raise_if d value_error
        >> raise_if e value_error
        >> raise_if f value_error)
      ≡ ok tt
    → good ≡ true
third_passed true b c good d e f h = cc
third_passed false true c good d e f h = cc
third_passed false false true good d e f h = cc
third_passed false false false false d e f h = cc
third_passed false false false true d e f h = refl

pub checked_supported :
    (d : DomStepDefinition)
    → check_definition d ≡ ok tt
    → all (λ s. not (d.supported_states s) || is_code_verifiable s) all_states ≡ true
unfolding check_definition
checked_supported d h = third_passed _ _ _ _ _ _ _ h

pub protected_only : (s : PageState) → is_protected s ≡ true → is_code_verifiable s ≡ false
unfolding is_protected is_code_verifiable
protected_only s h = ground (arith, h)

pub mapped-IsFaithful :
    (d : DomStepDefinition)
    → d.state_mappings ≡ state_mappings_of d.supported_states
    → d.model_stop_mappings ≡ model_stop_mappings_of
    → check_definition d ≡ ok tt
    → IsFaithful d
mapped-IsFaithful d states stops h =
    let supported = checked_supported d h in
    record {
      states = λ s. (
        exact_reason d.supported_states s,
        found_state d.supported_states d s states,
        exact_satisfied d.supported_states s (verifiable_only d.supported_states s supported),
      );
      protected = λ s k.
          let no_proof = protected_only s k in
          let only = verifiable_only d.supported_states s supported in
          ground (arith, no_proof, only);
      stops = λ stop. (model_stop_reason stop, found_stop d stop stops, stop_ends stop);
    }

pub step-IsFaithful :
    (step_id : DomStepId) (journey : DomJourney) (postcondition : Text)
    (supported : PageState → Bool) (schema : SemanticSchema) (policy : AdaptiveRecoveryPolicy)
    (capabilities : DomCapability → Bool) (d : DomStepDefinition)
    → step step_id journey postcondition supported schema policy capabilities ≡ ok d
    → IsFaithful d
unfolding step
step-IsFaithful step_id journey postcondition supported schema policy capabilities d h =
    let (done, checked, same) = >>=-eq-ok _ _ h in
    subst IsFaithful (ok-injective same) (mapped-IsFaithful _ refl refl checked)
