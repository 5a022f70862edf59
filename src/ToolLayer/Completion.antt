-- ===== src/ToolLayer/Completion.antt =====
-- Request completion evaluation (app/services/tool_execution_layer/
-- request_completion_evaluation_service.py): what to do after one family execution.
pub mod Verdict
pub mod Outcome
pub mod Laws
pub mod Soundness
use package.vertical_ai_research_act.Prelude.{
  String, Bool, true, false, ◌&&◌, not, Option, none, some, if◌then◌else◌,
}
use package.vertical_ai_research_act.Domain.Enums.{
  AcquisitionStatus, success, partial_success, no_result, failed,
}
use package.vertical_ai_research_act.Domain.Requests.{
  RequestCompletionEvaluationRequest, RequestCompletionEvaluationResult, complete,
  incomplete_recoverable, incomplete_unrecoverable, continue, fallback, stop, hint_none,
  hint_continue, hint_same_family, hint_broader, hint_stop,
}
use vertical_ai_research_act.ToolLayer.Completion.Verdict.{
  normalize_request, validate_request, same_family_fallback_available,
  cross_family_fallback_available, has_reached_max_results, is_timeout_exhausted, failed_result,
  evaluated_result,
}
use vertical_ai_research_act.ToolLayer.Completion.Outcome.{evaluate_failed_outcome}

-- The chain of tests on `acquisition_status`, for a request that is normalised and valid.
pub answer :
    RequestCompletionEvaluationRequest
    → AcquisitionStatus
    → Bool
    → Bool
    → Bool
    → RequestCompletionEvaluationResult
unfolding evaluate_failed_outcome evaluated_result has_reached_max_results
answer request success timeout_exhausted same cross =
    evaluated_result request complete true false stop
      "Execution produced a successful acquisition result." hint_none same cross
answer request partial_success timeout_exhausted same cross =
    if request.continuation_available
      && (not (has_reached_max_results request) && not timeout_exhausted)
    then evaluated_result request incomplete_recoverable false true continue
        "Partial success left continuation available within the current request." hint_continue same
        cross
    else evaluated_result request complete true false stop
        "Partial success is treated as complete because no continuation path should be used."
        hint_none same cross
answer request no_result timeout_exhausted same cross =
    if timeout_exhausted
    then evaluated_result request incomplete_unrecoverable false false stop
        "Timeout budget exhausted before any recovery path could be attempted." hint_stop same cross
    else if same
    then evaluated_result request incomplete_recoverable false true fallback
        "No result was returned and another tool remains in the same family." hint_same_family same
        cross
    else if cross
    then evaluated_result request incomplete_recoverable false true fallback
        "No result was returned and a broader family fallback path is available." hint_broader same
        cross
    else evaluated_result request incomplete_unrecoverable false false stop
        "No result was returned and no recovery path is available." hint_stop same cross
answer request failed timeout_exhausted same cross =
    evaluate_failed_outcome request timeout_exhausted same cross

-- The answer, or the failure that validation found.
pub validated :
    RequestCompletionEvaluationRequest → Option String → RequestCompletionEvaluationResult
unfolding answer failed_result is_timeout_exhausted same_family_fallback_available
    cross_family_fallback_available
validated request (some validation_error) = failed_result request validation_error
validated request none =
    answer request request.execution_outcome.acquisition_status (is_timeout_exhausted request)
      (same_family_fallback_available request) (cross_family_fallback_available request)

-- `evaluate`
unfoldable pub evaluate : RequestCompletionEvaluationRequest → RequestCompletionEvaluationResult
unfolding validated normalize_request validate_request
evaluate request =
    let normalized_request = normalize_request request in
    validated normalized_request (validate_request normalized_request)
