-- ===== src/ToolLayer/Completion/Verdict.antt =====
-- The parts of the evaluation: normalisation and validation of the request, which recoveries are
-- open, and the results that the service builds.
use vertical_ai_research_act.Prelude.{
  String, Bool, true, false, not, ◌&&◌, Option, none, some, List, [], ◌∷◌, length, is_empty,
  is_some, filter, contains, ◌==◌, ltb, if◌then◌else◌,
}
use vertical_ai_research_act.Prelude.Int.{ℤ, pos, ltb_ℤ, leb_ℤ}
use vertical_ai_research_act.Text.{is_blank, strip, strip_or_none}
use vertical_ai_research_act.Domain.Enums.{
  FamilyName, research_knowledge_recall, docs_search, paper_search, web_search, family_eq,
  family_value, acquisition_value,
}
use vertical_ai_research_act.Domain.Value.{
  Value, null, bool, int, str, list, Items, nil, item, Dict, empty, entry, str_value, str_items,
}
use vertical_ai_research_act.Domain.Requests.{
  RequestCompletionEvaluationRequest, RequestCompletionEvaluationResult, FallbackPolicy,
  no_fallback, fallback_within_same_family, fallback_to_broader_search, fallback_policy_value,
  failure_reason_value, FailureReason, evaluated, evaluation_failed, RequestCompletionStatus,
  completion_status_value, RecoveryAction, recovery_action_value, NextStepHint,
}
use vertical_ai_research_act.ToolLayer.Family.{normalize_family_list}

abbrev policy_name : String
policy_name = "request_completion_recovery_evaluator_v1"

-- `sorted(self._SUPPORTED_FAMILIES)`: by wire value.
abbrev pub supported_families : List FamilyName
supported_families = docs_search ∷ paper_search ∷ research_knowledge_recall ∷ web_search ∷ []

unfoldable pub normalize_request :
    RequestCompletionEvaluationRequest → RequestCompletionEvaluationRequest
unfolding strip strip_or_none normalize_family_list
normalize_request request = record {
  target_problem = strip request.target_problem;
  selected_family = request.selected_family;
  generated_query = strip_or_none request.generated_query;
  execution_outcome = request.execution_outcome;
  failure_reason = request.failure_reason;
  continuation_available = request.continuation_available;
  retry_budget = request.retry_budget;
  retry_count = request.retry_count;
  fallback_policy = request.fallback_policy;
  fallback_applied = request.fallback_applied;
  max_results = request.max_results;
  timeout_limit_ms = request.timeout_limit_ms;
  request_elapsed_ms = request.request_elapsed_ms;
  available_families = normalize_family_list request.available_families;
  allowed_source_families = normalize_family_list request.allowed_source_families;
  blocked_source_families = normalize_family_list request.blocked_source_families;
}

-- A bound that an absent value meets.
abbrev present_and : (ℤ → Bool) → Option ℤ → Bool
present_and test none = false
present_and test (some n) = test n

unfoldable pub validate_request : RequestCompletionEvaluationRequest → Option String
validate_request request =
    if is_blank request.target_problem
    then some "target_problem must not be empty."
    else if ltb_ℤ request.retry_budget (pos 0)
    then some "retry_budget must be greater than or equal to 0."
    else if ltb_ℤ request.retry_count (pos 0)
    then some "retry_count must be greater than or equal to 0."
    else if present_and (λ n. ltb_ℤ n (pos 1)) request.max_results
    then some "max_results must be greater than or equal to 1."
    else if present_and (λ n. leb_ℤ n (pos 0)) request.timeout_limit_ms
    then some "timeout_limit_ms must be greater than 0."
    else if present_and (λ n. ltb_ℤ n (pos 0)) request.request_elapsed_ms
    then some "request_elapsed_ms must be greater than or equal to 0."
    else if not (request.selected_family == request.execution_outcome.selected_family)
    then some "selected_family must match execution_outcome.selected_family."
    else none

abbrev pub is_within_same_family : FallbackPolicy → Bool
is_within_same_family fallback_within_same_family = true
is_within_same_family _ = false

abbrev pub is_broader_search : FallbackPolicy → Bool
is_broader_search fallback_to_broader_search = true
is_broader_search _ = false

abbrev is_no_fallback : FallbackPolicy → Bool
is_no_fallback no_fallback = true
is_no_fallback _ = false

unfoldable pub same_family_fallback_available : RequestCompletionEvaluationRequest → Bool
same_family_fallback_available request =
    not (is_no_fallback request.fallback_policy)
    && (is_within_same_family request.fallback_policy
        && (ltb 1 (length request.execution_outcome.candidate_tools)
            && is_some request.execution_outcome.selected_tool))

-- The families that a broader search may still use.
unfoldable pub broader_candidates : RequestCompletionEvaluationRequest → List FamilyName
unfolding filter
broader_candidates request =
    let candidates =
      if is_empty request.available_families
      then supported_families
      else request.available_families in
    let filtered = filter (λ f. contains supported_families f) candidates in
    let allowed =
      if is_empty request.allowed_source_families
      then filtered
      else filter (λ f. contains request.allowed_source_families f) filtered in
    filter
      (λ f. not (contains request.blocked_source_families f) && not (f == request.selected_family))
      allowed

unfoldable pub cross_family_fallback_available : RequestCompletionEvaluationRequest → Bool
unfolding broader_candidates
cross_family_fallback_available request =
    if not (is_broader_search request.fallback_policy)
    then false
    else not (is_empty (broader_candidates request))

unfoldable pub has_reached_max_results : RequestCompletionEvaluationRequest → Bool
has_reached_max_results request =
    present_and (λ n. leb_ℤ n (pos (length request.execution_outcome.normalized_items)))
      request.max_results

abbrev elapsed_reaches : Option ℤ → Option ℤ → Bool
elapsed_reaches (some elapsed) (some limit) = leb_ℤ limit elapsed
elapsed_reaches (some elapsed) none = false
elapsed_reaches none limit = false

unfoldable pub is_timeout_exhausted : RequestCompletionEvaluationRequest → Bool
is_timeout_exhausted request = elapsed_reaches request.request_elapsed_ms request.timeout_limit_ms

abbrev families_value : List FamilyName → Items
families_value [] = nil
families_value (f ∷ r) = item (str (family_value f)) (families_value r)

abbrev int_or_null : Option ℤ → Value
int_or_null none = null
int_or_null (some n) = int n

abbrev reason_or_null : Option FailureReason → Value
reason_or_null none = null
reason_or_null (some r) = str (failure_reason_value r)

abbrev status_or_null : Option RequestCompletionStatus → Value
status_or_null none = null
status_or_null (some s) = str (completion_status_value s)

abbrev action_or_null : Option RecoveryAction → Value
action_or_null none = null
action_or_null (some a) = str (recovery_action_value a)

evaluation_summary :
    RequestCompletionEvaluationRequest
    → Option RequestCompletionStatus
    → Option RecoveryAction
    → Dict
evaluation_summary request status action =
    entry "selected_family" (str (family_value request.selected_family)) (
      entry "selected_tool" (str_value request.execution_outcome.selected_tool) (
        entry "acquisition_status"
          (str (acquisition_value request.execution_outcome.acquisition_status))
          (entry "request_completion_status" (status_or_null status) (
            entry "recovery_action" (action_or_null action)
              (entry "policy" (str policy_name) empty)))))

evaluation_trace : RequestCompletionEvaluationRequest → Bool → Bool → Dict
evaluation_trace request same_family cross_family =
    entry "target_problem" (str request.target_problem) (
      entry "generated_query" (str_value request.generated_query) (
        entry "selected_family" (str (family_value request.selected_family)) (
          entry "selected_tool" (str_value request.execution_outcome.selected_tool) (
            entry "candidate_tools" (list (str_items request.execution_outcome.candidate_tools)) (
              entry "acquisition_status"
                (str (acquisition_value request.execution_outcome.acquisition_status))
                (entry "failure_reason" (reason_or_null request.failure_reason) (
                  entry "continuation_available" (bool request.continuation_available)
                    (budget_part request same_family cross_family))))))))
  where
    limits : RequestCompletionEvaluationRequest → Dict
    limits r = entry "max_results" (int_or_null r.max_results) (
        entry "timeout_limit_ms" (int_or_null r.timeout_limit_ms)
          (entry "request_elapsed_ms" (int_or_null r.request_elapsed_ms) empty))

    budget_part : RequestCompletionEvaluationRequest → Bool → Bool → Dict
    budget_part r same cross = entry "retry_budget" (int r.retry_budget) (
        entry "retry_count" (int r.retry_count) (
          entry "fallback_policy" (str (fallback_policy_value r.fallback_policy)) (
            entry "fallback_applied" (bool r.fallback_applied) (
              entry "available_families" (list (families_value r.available_families)) (
                entry "allowed_source_families" (list (families_value r.allowed_source_families)) (
                  entry "blocked_source_families" (list (families_value r.blocked_source_families))
                    (entry "same_family_fallback_available" (bool same)
                      (entry "cross_family_fallback_available" (bool cross) (limits r)))))))))

unfoldable pub failed_result :
    RequestCompletionEvaluationRequest → String → RequestCompletionEvaluationResult
unfolding evaluation_summary evaluation_trace
failed_result request error_info = record {
  evaluation_status = evaluation_failed;
  request_completion_status = none;
  request_completed = false;
  needs_recovery = false;
  recovery_action = none;
  recovery_reason = none;
  next_step_hint = none;
  evaluation_summary = evaluation_summary request none none;
  evaluation_trace = evaluation_trace request false false;
  error_info = some error_info;
}

unfoldable pub evaluated_result :
    RequestCompletionEvaluationRequest
    → RequestCompletionStatus
    → Bool
    → Bool
    → RecoveryAction
    → String
    → NextStepHint
    → Bool
    → Bool
    → RequestCompletionEvaluationResult
unfolding evaluation_summary evaluation_trace
evaluated_result request status request_completed needs_recovery action reason hint same cross =
    record {
      evaluation_status = evaluated;
      request_completion_status = some status;
      request_completed = request_completed;
      needs_recovery = needs_recovery;
      recovery_action = some action;
      recovery_reason = some reason;
      next_step_hint = some hint;
      evaluation_summary = evaluation_summary request (some status) (some action);
      evaluation_trace = evaluation_trace request same cross;
      error_info = none;
    }
