-- ===== src/ToolLayer/Service/Readiness.antt =====
-- What an attempt works out from its request: the query that a caller provided, the queries of little
-- value, whether it is ready, and the failure reason of its family.
use vertical_ai_research_act.Prelude.{
  String, ◌<>◌, Bool, true, false, not, ◌&&◌, ◌||◌, Option, none, some, List, [], ◌++◌, filter, map,
  take, is_some, string_eq, ◌==◌, if◌then◌else◌,
}
use vertical_ai_research_act.Prelude.Result.{Result, ok, require}
use vertical_ai_research_act.Text.{or_blank, text_or, is_given, unique_non_empty_strings}
use vertical_ai_research_act.Domain.Enums.{
  FamilyName, research_knowledge_recall, family_eq, family_value, AcquisitionStatus,
  partial_success, is_failed, is_failed_or_empty, RetrievalResultUtility, not_useful,
}
use vertical_ai_research_act.Domain.Value.{Value, null, str, empty, entry, get, value_or, nat_value}
use vertical_ai_research_act.Domain.Retrieval.{RecentRetrievalAttempt}
use vertical_ai_research_act.Domain.Families.{BaseFamilyExecutionResult}
use vertical_ai_research_act.Domain.Requests.{
  RetrievalQueryGenerationResult, GenerationStatus, succeeded, FailureReason, failure_reason_of,
  ToolExecutionLayerRequest,
}
use vertical_ai_research_act.ToolLayer.Service.State.{ToolExecutionLayerAttemptOutcome}

abbrev pub no_outcome : ToolExecutionLayerAttemptOutcome
no_outcome = record {
  selected_family = none;
  query_generation_result = none;
  family_result = none;
  evaluation_result = none;
  execution_failure_reason = none;
  error_info = none;
}

-- An outcome that has a family and a query.
abbrev pub ready_outcome :
    FamilyName → RetrievalQueryGenerationResult → ToolExecutionLayerAttemptOutcome
ready_outcome family query = record no_outcome {
  selected_family = some family;
  query_generation_result = some query;
}

abbrev pub error_outcome : String → ToolExecutionLayerAttemptOutcome
error_outcome error_info = record no_outcome { error_info = some error_info }

abbrev pub is_success_partial : AcquisitionStatus → Bool
is_success_partial partial_success = true
is_success_partial _ = false

abbrev pub is_not_useful : RetrievalResultUtility → Bool
is_not_useful not_useful = true
is_not_useful _ = false

-- A past attempt on the same problem and family whose query was of little value.
unfoldable pub is_low_value : ToolExecutionLayerRequest → FamilyName → RecentRetrievalAttempt → Bool
is_low_value request family attempt =
    attempt.selected_family == family
    && (attempt.target_problem == request.target_problem
        && (is_some attempt.generated_query
            && (is_failed_or_empty attempt.result_status
                || (not (is_success_partial attempt.result_status)
                    && is_not_useful attempt.result_utility))))

-- `_recent_low_value_queries_for_selected_family`
unfoldable pub recent_low_value_queries : ToolExecutionLayerRequest → FamilyName → List String
unfolding filter is_low_value unique_non_empty_strings
recent_low_value_queries request family = take 3 (
    unique_non_empty_strings (
      request.recent_low_value_queries
      ++ map (λ attempt. or_blank attempt.generated_query)
          (filter (λ attempt. is_low_value request family attempt)
            request.recent_retrieval_attempts)))

-- The result that stands for a query that the caller provided.
unfoldable pub provided_query_result :
    ToolExecutionLayerRequest → FamilyName → String → RetrievalQueryGenerationResult
provided_query_result request family query = record {
  selected_family = some family;
  generated_query = some query;
  query_focus = some (text_or request.evidence_goal request.target_problem);
  preserved_terms = [];
  generation_status = succeeded;
  generation_summary = entry "selected_family" (str (family_value family)) (
      entry "status" (str "succeeded") (
        entry "policy" (str "upstream_assessment_query_v1") (
          entry "query_source" (str "upstream_assessment")
            (entry "recent_low_value_query_count" (nat_value 0) empty))));
  generation_trace = entry "selected_family" (str (family_value family)) (
      entry "target_problem" (str request.target_problem) (
        entry "query_source" (str "upstream_assessment")
          (entry "llm_output_format" null (entry "parser" null empty))));
  error_info = none;
}

-- `_validate_attempt_ready`, for the service table `has_service`.
unfoldable pub validate_attempt_ready :
    (FamilyName → Bool)
    → ToolExecutionLayerRequest
    → Option FamilyName
    → Option RetrievalQueryGenerationResult
    → Option String
validate_attempt_ready has_service request none query =
    some "No selected family is available for Tool Execution Layer attempt."
validate_attempt_ready has_service request (some family) none =
    some "Retry requested without a generated query."
validate_attempt_ready has_service request (some family) (some query) =
    if not (has_service family)
    then some ("No family service registered for selected family '" <> family_value family <> "'.")
    else if not (is_succeeded query.generation_status && is_given query.generated_query)
    then some (text_or query.error_info "Query generation did not produce a usable query.")
    else if family == research_knowledge_recall && not (is_given request.owner_user_id)
    then some "owner_user_id is required for research_knowledge_recall family."
    else none
  where
    is_succeeded : GenerationStatus → Bool
    is_succeeded succeeded = true
    is_succeeded _ = false

abbrev pub is_text : Value → Option String
is_text (str s) = some s
is_text _ = none

-- The reason that a failed family reported, where the execution itself did not raise.
unfoldable pub observed_failure_reason : BaseFamilyExecutionResult → Option String → Option String
unfolding get
observed_failure_reason result (some reason) = some reason
observed_failure_reason result none =
    if is_failed result.acquisition_status
    then is_text (
        value_or (get result.retrieval_trace.observability "failure_reason")
          (get result.execution_summary.observability "failure_reason"))
    else none

-- pydantic admits only the literals of `FailureReason`.
unfoldable pub read_failure_reason : Option String → Result (Option FailureReason)
read_failure_reason none = ok none
read_failure_reason (some reason) =
    require "RequestCompletionEvaluationRequest"
      (elim (failure_reason_of reason) [ none ↦ none | some r ↦ some (some r) ])
