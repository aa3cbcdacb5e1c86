-- ===== src/Browser/Classify.antt =====
-- DeterministicPageClassifier of src/booksaver/application/browser_resilience.py on a fresh
-- observation, with the checks of the observation and of the classification. An instant is a number,
-- so that the checks for an aware one are met; a confidence is a number of hundredths.
pub mod Laws
use booksaver_agent.Base.{
  ℕ, Bool, true, false, not, ◌&&◌, ◌||◌, Option, none, some, List, [], ◌∷◌, ◌==◌, any, all, filter,
  if◌then◌else◌, is_nil, ltb, Result, ok, err, value_error, raise_if, ◌>>◌, ◌>>=◌,
}
use booksaver_agent.Base.Text.{Text, text_eq}
use booksaver_agent.Browser.{
  PageState, PageStateSource, EvidenceCategory, OperatorAction, action_number, category_number,
  is_safe_code, operator_action_for,
}

pub record EvidenceReference : Type 0 where
  pub category : EvidenceCategory
  pub reference : Text

-- `EvidenceReference.__post_init__`
unfoldable pub check_reference : EvidenceReference → Result (Unit {0})
check_reference r = raise_if (not (is_safe_code r.reference)) value_error

pub record FreshPageObservation : Type 0 where
  pub observation_id : Text
  pub observed_at : ℕ
  pub evidence : EvidenceCategory → Bool
  pub evidence_references : List EvidenceReference

abbrev pub same_reference : EvidenceReference → EvidenceReference → Bool
same_reference a b =
    category_number a.category == category_number b.category && text_eq a.reference b.reference

pub record PageStateClassification : Type 0 where
  pub state : PageState
  pub confidence : ℕ
  pub evidence : EvidenceCategory → Bool
  pub evidence_references : List EvidenceReference
  pub operator_action : OperatorAction
  pub source : PageStateSource
  pub observation_id : Text

-- A reference whose category was not observed.
abbrev pub names_unobserved : (EvidenceCategory → Bool) → List EvidenceReference → Bool
names_unobserved evidence references = any (λ r. not (evidence r.category)) references

unfoldable pub has_duplicate : List EvidenceReference → Bool
has_duplicate [] = false
has_duplicate (r ∷ references) = any (same_reference r) references || has_duplicate references

-- `FreshPageObservation.__post_init__`
unfoldable pub check_observation : FreshPageObservation → Result (Unit {0})
check_observation o =
    raise_if (not (is_safe_code o.observation_id)) value_error
    >> raise_if (names_unobserved o.evidence o.evidence_references) value_error
    >> raise_if (has_duplicate o.evidence_references) value_error

abbrev pub is_deterministic : PageStateSource → Bool
is_deterministic PageStateSource.deterministic = true
is_deterministic _ = false

abbrev pub is_verified : PageState → Bool
is_verified PageState.verified_authenticated = true
is_verified _ = false

-- `PageStateClassification.__post_init__`
unfoldable pub check_classification : PageStateClassification → Result (Unit {0})
check_classification c =
    raise_if (ltb 100 c.confidence) value_error
    >> raise_if (not (is_safe_code c.observation_id)) value_error
    >> raise_if (names_unobserved c.evidence c.evidence_references) value_error
    >> raise_if (not (is_deterministic c.source) && is_verified c.state) value_error
    >> raise_if
        (not (action_number c.operator_action == action_number (operator_action_for c.state)))
        value_error

-- The structural markers, in the order of the dictionary.
unfoldable pub candidates : (EvidenceCategory → Bool) → List PageState
candidates evidence =
    if evidence EvidenceCategory.supported_account_structure
    then PageState.verified_authenticated ∷ rest1
    else rest1
  where
    rest3 : List PageState
    rest3 =
        if evidence EvidenceCategory.supported_property_structure
        then PageState.property ∷ []
        else []

    rest2 : List PageState
    rest2 =
        if evidence EvidenceCategory.supported_search_results_structure
        then PageState.search_results ∷ rest3
        else rest3

    rest1 : List PageState
    rest1 =
        if evidence EvidenceCategory.supported_inventory_structure
        then PageState.inventory ∷ rest2
        else rest2

-- The state where exactly one is left; several are ambiguous.
abbrev pub only_state : PageState → List PageState → PageState
only_state otherwise [] = otherwise
only_state otherwise (s ∷ []) = s
only_state otherwise (s ∷ t ∷ states) = PageState.ambiguous

-- The part of `_state` after the protected markers.
unfoldable pub structural_state : (EvidenceCategory → Bool) → Option (PageState → Bool) → PageState
structural_state evidence none = only_state PageState.ambiguous (candidates evidence)
structural_state evidence (some supported) =
    only_state (if is_nil (candidates evidence) then PageState.ambiguous else PageState.unsupported)
      (filter supported (candidates evidence))

-- `_state`
unfoldable pub page_state : (EvidenceCategory → Bool) → Option (PageState → Bool) → PageState
page_state evidence supported =
    if evidence EvidenceCategory.observation_unavailable
    then PageState.observation_unavailable
    else if evidence EvidenceCategory.external_destination
    then PageState.external
    else if evidence EvidenceCategory.prohibited_or_mutating_destination
    then PageState.prohibited
    else if evidence EvidenceCategory.bot_wall
    then PageState.bot_wall
    else if evidence EvidenceCategory.captcha_challenge
    then PageState.captcha
    else if evidence EvidenceCategory.mfa_control
    then PageState.mfa_required
    else if evidence EvidenceCategory.credential_control
    then PageState.authentication_required
    else structural_state evidence supported

abbrev pub is_ambiguous : PageState → Bool
is_ambiguous PageState.ambiguous = true
is_ambiguous _ = false

unfoldable pub classify :
    FreshPageObservation → Option (PageState → Bool) → Result PageStateClassification
classify o supported =
    let state = page_state o.evidence supported in
    let c : PageStateClassification = record {
      state = state;
      confidence = if is_ambiguous state then 0 else 100;
      evidence = o.evidence;
      evidence_references = o.evidence_references;
      operator_action = operator_action_for state;
      source = PageStateSource.deterministic;
      observation_id = o.observation_id;
    } in
    check_classification c >> ok c
