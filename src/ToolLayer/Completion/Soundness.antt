-- ===== src/ToolLayer/Completion/Soundness.antt =====
-- The evaluation as its callers see it: which requests it refuses, that an accepted request gets
-- a sound answer, and when a broader fallback is open.
use vertical_ai_research_act.Prelude.{
  ◌≡◌, ◌≢◌, refl, ◌↔◌, String, Bool, true, false, not, ◌&&◌, ◌||◌, Option, none, some, List, [],
  ◌∷◌, arith, is_empty, filter, contains, contains-filter, ◌==◌, ◌∙◌, if◌then◌else◌, ◌≤◌, ◌+◌,
}
use vertical_ai_research_act.Prelude.Int.{ℤ, pos, pos_part, neg_part}
use vertical_ai_research_act.Text.{is_blank}
use vertical_ai_research_act.Domain.Enums.{FamilyName, family_eq, AcquisitionStatus, success}
use vertical_ai_research_act.Domain.Requests.{
  RequestCompletionEvaluationRequest, evaluated, fallback_to_broader_search,
}
use vertical_ai_research_act.ToolLayer.Family.{
  find_member, not_empty_of_member, Admits, contains-restrict,
}
use vertical_ai_research_act.ToolLayer.Completion.{answer, validated, evaluate}
use vertical_ai_research_act.ToolLayer.Completion.Verdict.{
  supported_families, normalize_request, validate_request, same_family_fallback_available,
  cross_family_fallback_available, broader_candidates, is_timeout_exhausted,
}
use vertical_ai_research_act.ToolLayer.Completion.Laws.{IsSound, answer-IsSound}

abbrev AtLeast : ℤ → ℤ → Type 0
AtLeast low n = pos_part low + neg_part n ≤ pos_part n + neg_part low

abbrev Bounded : ℤ → Option ℤ → Type 0
Bounded low none = Unit
Bounded low (some n) = AtLeast low n

-- The requests that the evaluation is meant for.
pub record IsValidRequest (r : RequestCompletionEvaluationRequest) : Type 0 where
  pub problem_given : is_blank r.target_problem ≡ false
  pub budget_bounded : AtLeast (pos 0) r.retry_budget
  pub count_bounded : AtLeast (pos 0) r.retry_count
  pub results_bounded : Bounded (pos 1) r.max_results
  pub timeout_bounded : Bounded (pos 1) r.timeout_limit_ms
  pub elapsed_bounded : Bounded (pos 0) r.request_elapsed_ms
  pub family_agrees : r.selected_family ≡ r.execution_outcome.selected_family

validate_request_sound :
    (r : RequestCompletionEvaluationRequest) → validate_request r ≡ none → IsValidRequest r
unfolding validate_request
validate_request_sound r h =
    ground (arith, family_eq.beq_iff r.selected_family r.execution_outcome.selected_family)

validate_request_complete :
    (r : RequestCompletionEvaluationRequest) → IsValidRequest r → validate_request r ≡ none
unfolding validate_request
validate_request_complete r v =
    ground (arith, family_eq.beq_iff r.selected_family r.execution_outcome.selected_family)

-- `answer` is always an evaluated result without an error.
answer-evaluated :
    (r : RequestCompletionEvaluationRequest) (a : AcquisitionStatus) (late same cross : Bool)
    → ((answer r a late same cross).evaluation_status ≡ evaluated)
      × ((answer r a late same cross).error_info ≡ none)
unfolding answer
answer-evaluated r success late same cross = ground arith
answer-evaluated r _ late same cross = ground arith

validated-status :
    (r : RequestCompletionEvaluationRequest) (o : Option String)
    → ((validated r o).evaluation_status ≡ evaluated) ↔ (o ≡ none)
unfolding validated
validated-status r none = (
  λ _. refl,
  λ _.
      (answer-evaluated r _ (is_timeout_exhausted r) (same_family_fallback_available r)
        (cross_family_fallback_available r)).0,
)
validated-status r (some e) = (λ h. cc, λ h. cc)

-- The evaluation succeeds exactly on the valid requests, read after normalisation.
pub evaluate-accepts_iff :
    (request : RequestCompletionEvaluationRequest)
    → ((evaluate request).evaluation_status ≡ evaluated)
      ↔ IsValidRequest (normalize_request request)
unfolding evaluate
evaluate-accepts_iff request =
    let n = normalize_request request in
    let (there, back) = validated-status n (validate_request n) in
    (λ h. validate_request_sound n (there h), λ v. back (validate_request_complete n v))

-- The evaluation of a request that is valid after normalisation names an action. It continues only a
-- partial success with a continuation, before the timeout; it retries only a failed outcome with retry
-- budget left, before the timeout, and for neither an authentication error nor an invalid request; it
-- falls back only where a fallback is open, within the family first, before the timeout, and for no
-- authentication error unless there was no result; it stops as complete only on a success or partial
-- success, and as unrecoverable only on a failure or no result. Status, flags and hint agree with the
-- action.
pub evaluate-IsSound :
    (request : RequestCompletionEvaluationRequest)
    → IsValidRequest (normalize_request request)
    → IsSound
        (normalize_request request)
        (is_timeout_exhausted (normalize_request request))
        (same_family_fallback_available (normalize_request request))
        (cross_family_fallback_available (normalize_request request))
        (evaluate request)
unfolding evaluate validated
evaluate-IsSound request v =
    let n = normalize_request request in
    rw (validate_request_complete n v) (
      answer-IsSound n _ (is_timeout_exhausted n) (same_family_fallback_available n)
        (cross_family_fallback_available n) refl)

-- A family that a broader search may turn to.
pub record IsOpen (r : RequestCompletionEvaluationRequest) (f : FamilyName) : Type 0 where
  pub available : Admits r.available_families f
  pub allowed : Admits r.allowed_source_families f
  pub not_blocked : contains r.blocked_source_families f ≡ false
  pub not_selected : f ≢ r.selected_family

supported_all : (f : FamilyName) → contains supported_families f ≡ true
supported_all f = ground arith

contains-supported :
    (available : List FamilyName) (f : FamilyName)
    → contains
        (filter
          (λ g. contains supported_families g)
          (if is_empty available then supported_families else available))
        f
      ≡ (is_empty available || contains available f)
contains-supported [] f =
    contains-filter (λ g. contains supported_families g) supported_families f
    ∙ ground (arith, supported_all f)
contains-supported (a ∷ available) f =
    contains-filter (λ g. contains supported_families g) (a ∷ available) f
    ∙ ground (arith, supported_all f)

contains-broader_candidates :
    (r : RequestCompletionEvaluationRequest) (f : FamilyName)
    → contains (broader_candidates r) f ≡ (
        ((is_empty r.available_families || contains r.available_families f)
          && (is_empty r.allowed_source_families || contains r.allowed_source_families f))
        && (not (contains r.blocked_source_families f) && not (f == r.selected_family)))
unfolding broader_candidates
contains-broader_candidates r f =
    rw
      (contains-filter
        (λ g. not (contains r.blocked_source_families g) && not (g == r.selected_family)) _ f)
      (rw (contains-restrict r.allowed_source_families _ f)
        (rw (contains-supported r.available_families f)))

broader_candidates_sound :
    (r : RequestCompletionEvaluationRequest) (f : FamilyName)
    → contains (broader_candidates r) f ≡ true
    → IsOpen r f
broader_candidates_sound r f h =
    ground (arith, contains-broader_candidates r f, family_eq.beq_iff f r.selected_family)

broader_candidates_complete :
    (r : RequestCompletionEvaluationRequest) (f : FamilyName)
    → IsOpen r f
    → contains (broader_candidates r) f ≡ true
broader_candidates_complete r f o =
    ground (arith, contains-broader_candidates r f, family_eq.beq_iff f r.selected_family)

-- A broader fallback is open exactly if the policy asks for it and there is a family that is
-- available, allowed, not blocked, and not the one that was just run.
pub cross_family_fallback_iff :
    (r : RequestCompletionEvaluationRequest)
    → (cross_family_fallback_available r ≡ true)
      ↔ ((r.fallback_policy ≡ fallback_to_broader_search) × (f : FamilyName) × IsOpen r f)
unfolding cross_family_fallback_available
cross_family_fallback_iff r = (
  λ h. let (f, o) = open_family r (ground arith) in (ground arith, f, o),
  λ (p, f, o). rw p (
      ground
        (arith, not_empty_of_member (broader_candidates r) f (broader_candidates_complete r f o))),
)
  where
    open_family :
        (r : RequestCompletionEvaluationRequest)
        → is_empty (broader_candidates r) ≡ false
        → (f : FamilyName) × IsOpen r f
    open_family r h =
        let (f, m) = find_member (broader_candidates r) h in (f, broader_candidates_sound r f m)
