-- ===== src/Browser/Registry/Laws.antt =====
-- What the registry promises to the workflows that look their steps up.
use booksaver_agent.Base.{
  ℕ, ◌≡◌, refl, sym, ◌∙◌, ap, Bool, true, false, not, some, List, [], ◌∷◌, map, ◌==◌, arith, inl,
  inr, any, All, find_first, Result, ok, value_error, raise_if, ◌>>◌, ok-injective, >>=-eq-ok,
  Bool-cases,
}
use mathlib.Core.Path.{subst}
use booksaver_agent.Browser.{
  DomStepId, step_number, state_number, stop_number, all_steps, capability_number, is_protected,
  is_code_verifiable, is_safe_code,
}
use booksaver_agent.Browser.Members.{each_step, step_number-injective}
use booksaver_agent.Browser.Steps.{
  DomStepDefinition, step, check_definition, state_mappings_of, model_stop_mappings_of, is_unique,
  is_total,
}
use booksaver_agent.Browser.Registry.{
  DomStepRegistry, new_registry, definition, collect, production_steps, account_steps, price_steps,
  dom_step_registry,
}
use booksaver_agent.Browser.Registry.Faithful.{IsFaithful, all-All, step-IsFaithful}

collect-All :
    (P : DomStepDefinition → Type 0) (built : List (Result DomStepDefinition))
    (ds : List DomStepDefinition)
    → All (λ r. (d : DomStepDefinition) → r ≡ ok d → P d) built
    → collect built ≡ ok ds
    → All P ds
unfolding collect
collect-All P [] ds h e = subst (All P) (ok-injective e) tt
collect-All P (r ∷ built) ds h e =
    let (d, made, rest) = >>=-eq-ok r _ e in
    let (others, collected, same) = >>=-eq-ok (collect built) _ rest in
    subst (All P) (ok-injective same) (h.0 d made, collect-All P built others h.1 collected)

production-IsFaithful :
    All (λ r. (d : DomStepDefinition) → r ≡ ok d → IsFaithful d) production_steps
unfolding production_steps account_steps price_steps
production-IsFaithful = (
  step-IsFaithful _ _ _ _ _ _ _,
  (
    step-IsFaithful _ _ _ _ _ _ _,
    (
      step-IsFaithful _ _ _ _ _ _ _,
      (
        step-IsFaithful _ _ _ _ _ _ _,
        (
          step-IsFaithful _ _ _ _ _ _ _,
          (
            step-IsFaithful _ _ _ _ _ _ _,
            (
              step-IsFaithful _ _ _ _ _ _ _,
              (
                step-IsFaithful _ _ _ _ _ _ _,
                (
                  step-IsFaithful _ _ _ _ _ _ _,
                  (
                    step-IsFaithful _ _ _ _ _ _ _,
                    (
                      step-IsFaithful _ _ _ _ _ _ _,
                      (
                        step-IsFaithful _ _ _ _ _ _ _,
                        (
                          step-IsFaithful _ _ _ _ _ _ _,
                          (
                            step-IsFaithful _ _ _ _ _ _ _,
                            (
                              step-IsFaithful _ _ _ _ _ _ _,
                              (
                                step-IsFaithful _ _ _ _ _ _ _,
                                (
                                  step-IsFaithful _ _ _ _ _ _ _,
                                  (
                                    step-IsFaithful _ _ _ _ _ _ _,
                                    (step-IsFaithful _ _ _ _ _ _ _, tt),
                                  ),
                                ),
                              ),
                            ),
                          ),
                        ),
                      ),
                    ),
                  ),
                ),
              ),
            ),
          ),
        ),
      ),
    ),
  ),
)

found_in :
    (P : DomStepDefinition → Type 0) (m : ℕ) (ds : List DomStepDefinition)
    → All P ds
    → any (λ k. k == m) (map (λ d. step_number d.step_id) ds) ≡ true
    → (d : DomStepDefinition) × (find_first (λ e. step_number e.step_id == m) ds ≡ some d)
      × (step_number d.step_id ≡ m)
      × P d
found_in P m [] h k = cc
found_in P m (d ∷ ds) h k = elim (Bool-cases (step_number d.step_id == m)) [
  | inl e ↦ (d, ground (arith, e), ground (arith, e), h.0)
  | inr e ↦
      let (found, first, same, holds) = found_in P m ds h.1 (ground (arith, k, e)) in
      (found, ground (arith, first, e), same, holds)
]

totally :
    (keys : List ℕ) (step_id : DomStepId)
    → is_total (map step_number all_steps) keys ≡ true
    → any (λ k. k == step_number step_id) keys ≡ true
unfolding step_number
totally keys step_id h =
    each_step (λ s. any (λ k. k == step_number s) keys ≡ true) step_id
      (all-All (λ m. any (λ k. k == m) keys) (map step_number all_steps) h)

registry_checks :
    (shared total : Bool) (made : DomStepRegistry) {registry : DomStepRegistry}
    → (raise_if shared value_error >> raise_if (not total) value_error >> ok made) ≡ ok registry
    → (total ≡ true) × (made ≡ registry)
registry_checks true total made h = cc
registry_checks false true made h = (refl, cc)
registry_checks false false made h = cc

looked_up :
    (ds : List DomStepDefinition) (registry : DomStepRegistry) (step_id : DomStepId)
    → All IsFaithful ds
    → new_registry ds ≡ ok registry
    → (d : DomStepDefinition) × (definition step_id registry ≡ some d)
      × (d.step_id ≡ step_id)
      × IsFaithful d
unfolding new_registry definition
looked_up ds registry step_id faithful h =
    let (complete, same) = registry_checks _ _ _ h in
    let (d, found, number, holds) =
      found_in IsFaithful (step_number step_id) ds faithful
        (totally (map (λ d. step_number d.step_id) ds) step_id complete) in
    (
      d,
      ap (λ r. find_first (λ e. step_number e.step_id == step_number step_id) r.definitions)
            (sym same)
          ∙ found,
      step_number-injective d.step_id step_id number,
      holds,
    )

built_steps : (ds : List DomStepDefinition) × (collect production_steps ≡ ok ds)
unfolding production_steps account_steps price_steps collect step check_definition is_safe_code
    is_unique is_protected is_code_verifiable state_number step_number stop_number capability_number
    state_mappings_of model_stop_mappings_of
built_steps = (_, refl)

built_registry : (registry : DomStepRegistry) × (new_registry built_steps.0 ≡ ok registry)
unfolding built_steps new_registry is_unique step_number
built_registry = (_, refl)

-- The registry of the production steps passes every check of its constructors, and whatever step is
-- looked up has a definition of that step, which answers every page state and every stop of the
-- model: a state satisfies the step exactly where the step supports it, no protected state (a login,
-- a challenge, a foreign or mutating page, or no observation) is supported by any step, and no stop
-- of the model counts as a success or as something left to verify.
pub dom_step_registry-IsFaithful :
    (registry : DomStepRegistry) × (dom_step_registry ≡ ok registry)
    × ((step_id : DomStepId)
        → (d : DomStepDefinition) × (definition step_id registry ≡ some d)
          × (d.step_id ≡ step_id)
          × IsFaithful d)
unfolding dom_step_registry
dom_step_registry-IsFaithful = (
  built_registry.0,
  ground (arith, built_steps.1, built_registry.1),
  λ step_id.
      looked_up built_steps.0 built_registry.0 step_id
        (collect-All IsFaithful production_steps built_steps.0 production-IsFaithful built_steps.1)
        built_registry.1,
)
