-- ===== src/Browser/Classify/Laws.antt =====
-- What a classification says of the page.
use booksaver_agent.Base.{
  ℕ, ◌≡◌, ◌↔◌, ◌∙◌, refl, sym, Bool, true, false, not, ◌&&◌, ◌||◌, Option, none, some, List, [],
  ◌∷◌, ◌==◌, any, all, if◌then◌else◌, ltb, ok, value_error, raise_if, ◌>>◌, arith, inl, inr,
  Bool-cases,
}
use booksaver_agent.Browser.{
  PageState, PageStateSource, EvidenceCategory, action_number, state_number, is_safe_code,
  operator_action_for, is_protected, is_code_verifiable,
}
use booksaver_agent.Browser.Classify.{
  FreshPageObservation, PageStateClassification, check_observation, check_classification,
  candidates, structural_state, page_state, is_ambiguous, classify, names_unobserved,
}

-- A sign of a page that the program must not act on.
unfoldable pub shows_protected : (EvidenceCategory → Bool) → Bool
shows_protected evidence = any evidence (
    EvidenceCategory.observation_unavailable ∷ EvidenceCategory.external_destination
    ∷ EvidenceCategory.prohibited_or_mutating_destination ∷ EvidenceCategory.captcha_challenge
    ∷ EvidenceCategory.bot_wall ∷ EvidenceCategory.mfa_control ∷ EvidenceCategory.credential_control
    ∷ [])

-- The structure of the page is that of the state, and the step supports the state.
unfoldable pub shows : (EvidenceCategory → Bool) → Option (PageState → Bool) → PageState → Bool
shows evidence supported s = structure s && expected supported s
  where
    structure : PageState → Bool
    structure PageState.verified_authenticated =
        evidence EvidenceCategory.supported_account_structure
    structure PageState.inventory = evidence EvidenceCategory.supported_inventory_structure
    structure PageState.search_results =
        evidence EvidenceCategory.supported_search_results_structure
    structure PageState.property = evidence EvidenceCategory.supported_property_structure
    structure _ = false

    expected : Option (PageState → Bool) → PageState → Bool
    expected none t = true
    expected (some states) t = states t

abbrev pub verifiable_states : List PageState
verifiable_states =
    PageState.verified_authenticated ∷ PageState.inventory ∷ PageState.search_results
    ∷ PageState.property ∷ []

-- The page shows that state and no other.
unfoldable pub shows_only : (EvidenceCategory → Bool) → Option (PageState → Bool) → PageState → Bool
shows_only evidence supported s =
    shows evidence supported s
    && all (λ t. state_number t == state_number s || not (shows evidence supported t))
        verifiable_states

unprotected :
    (evidence : EvidenceCategory → Bool) (supported : Option (PageState → Bool))
    → shows_protected evidence ≡ false
    → page_state evidence supported ≡ structural_state evidence supported
unfolding shows_protected page_state
unprotected evidence supported h = ground (arith, h)

protected_first :
    (evidence : EvidenceCategory → Bool) (supported : Option (PageState → Bool))
    → shows_protected evidence ≡ true
    → is_protected (page_state evidence supported) ≡ true
unfolding shows_protected page_state is_protected
protected_first evidence supported h = ground (arith, h)

structural_unprotected :
    (evidence : EvidenceCategory → Bool) (supported : Option (PageState → Bool))
    → is_protected (structural_state evidence supported) ≡ false
unfolding structural_state candidates is_protected
structural_unprotected evidence none = ground arith
structural_unprotected evidence (some states) = ground arith

structural_only :
    (evidence : EvidenceCategory → Bool) (supported : Option (PageState → Bool)) (s : PageState)
    → is_code_verifiable s ≡ true
    → (structural_state evidence supported ≡ s) ↔ (shows_only evidence supported s ≡ true)
unfolding structural_state candidates is_code_verifiable shows shows_only state_number
structural_only evidence none s h = (λ e. ground (arith, h, e), λ e. ground (arith, h, e))
structural_only evidence (some states) s h = (λ e. ground (arith, h, e), λ e. ground (arith, h, e))

protected_iff :
    (evidence : EvidenceCategory → Bool) (supported : Option (PageState → Bool))
    → (is_protected (page_state evidence supported) ≡ true) ↔ (shows_protected evidence ≡ true)
protected_iff evidence supported = elim (Bool-cases (shows_protected evidence)) [
  | inl e ↦ (λ _. e, λ _. protected_first evidence supported e)
  | inr e ↦
      let same = unprotected evidence supported e in
      let free = structural_unprotected evidence supported in
      (λ h. cc (h, same, free), λ h. cc (h, e))
]

not_protected : (s : PageState) → is_protected s ≡ true → is_code_verifiable s ≡ false
unfolding is_protected is_code_verifiable
not_protected s h = ground (arith, h)

verifiable_iff :
    (evidence : EvidenceCategory → Bool) (supported : Option (PageState → Bool)) (s : PageState)
    → is_code_verifiable s ≡ true
    → (page_state evidence supported ≡ s)
      ↔ ((shows_protected evidence ≡ false) × (shows_only evidence supported s ≡ true))
verifiable_iff evidence supported s h = elim (Bool-cases (shows_protected evidence)) [
  | inl e ↦
      let stop =
        not_protected (page_state evidence supported) (protected_first evidence supported e) in
      (λ k. cc (h, k, stop), λ k. cc (e, k.0))
  | inr e ↦
      let same = unprotected evidence supported e in
      let only = structural_only evidence supported s h in
      (λ k. (e, only.0 (sym same ∙ k)), λ k. same ∙ only.1 k.1)
]

observed :
    (a b c : Bool)
    → (raise_if (not a) value_error >> raise_if b value_error >> raise_if c value_error) ≡ ok tt
    → (a ≡ true) × (b ≡ false)
observed true false c h = (refl, refl)
observed true true c h = cc
observed false b c h = cc

same_number : (n : ℕ) → (n == n) ≡ true
same_number n = ground arith

confident : (s : PageState) → ltb 100 (if is_ambiguous s then 0 else 100) ≡ false
confident s = ground arith

passes :
    (c : PageStateClassification)
    → ltb 100 c.confidence ≡ false
    → is_safe_code c.observation_id ≡ true
    → names_unobserved c.evidence c.evidence_references ≡ false
    → c.source ≡ PageStateSource.deterministic
    → c.operator_action ≡ operator_action_for c.state
    → check_classification c ≡ ok tt
unfolding check_classification
passes c bounded safe named source action =
    let same = same_number (action_number (operator_action_for c.state)) in
    ground (arith, bounded, safe, named, source, action, same)

-- An observation that its constructor accepts is always classified. The state is a protected one
-- exactly where a protected sign was observed, whatever else the page shows; and it is one of the
-- states that code can verify exactly where no protected sign was observed and the page has the
-- structure of that state and of no other, of those alone that the step supports where it names them.
pub classify_iff :
    (o : FreshPageObservation) (supported : Option (PageState → Bool))
    → check_observation o ≡ ok tt
    → (c : PageStateClassification) × (classify o supported ≡ ok c)
      × ((is_protected c.state ≡ true) ↔ (shows_protected o.evidence ≡ true))
      × ((s : PageState)
          → is_code_verifiable s ≡ true
          → (c.state ≡ s)
            ↔ ((shows_protected o.evidence ≡ false) × (shows_only o.evidence supported s ≡ true)))
unfolding check_observation classify
classify_iff o supported h =
    let (safe, named) = observed _ _ _ h in
    let state = page_state o.evidence supported in
    let c : PageStateClassification = record {
      state = state;
      confidence = if is_ambiguous state then 0 else 100;
      evidence = o.evidence;
      evidence_references = o.evidence_references;
      operator_action = operator_action_for state;
      source = PageStateSource.deterministic;
      observation_id = o.observation_id;
    } in
    let passed = passes c (confident state) safe named refl refl in
    (
      c,
      ground (arith, passed),
      protected_iff o.evidence supported,
      verifiable_iff o.evidence supported,
    )
