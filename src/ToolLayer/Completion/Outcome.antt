-- ===== src/ToolLayer/Completion/Outcome.antt =====
-- What the evaluation answers: the recovery results, and the branch for a failed acquisition.
use vertical_ai_research_act.Prelude.{String, Bool, true, false, ◌||◌, get_or, if◌then◌else◌}
use vertical_ai_research_act.Prelude.Int.{ltb_ℤ}
use vertical_ai_research_act.Domain.Requests.{
  RequestCompletionEvaluationRequest, RequestCompletionEvaluationResult, FailureReason, timeout,
  tool_error, rate_limited, malformed_response, tool_unavailable, auth_error, invalid_request,
  unknown_error, incomplete_recoverable, incomplete_unrecoverable, retry_same_tool, fallback, stop,
  hint_retry, hint_same_family, hint_broader, hint_stop,
}
use vertical_ai_research_act.ToolLayer.Completion.Verdict.{evaluated_result}

unfoldable pub retry_result :
    RequestCompletionEvaluationRequest → String → Bool → Bool → RequestCompletionEvaluationResult
unfolding evaluated_result
retry_result request reason same cross =
    evaluated_result request incomplete_recoverable false true retry_same_tool reason hint_retry
      same cross

unfoldable pub fallback_result :
    RequestCompletionEvaluationRequest → String → Bool → Bool → RequestCompletionEvaluationResult
unfolding evaluated_result
fallback_result request reason same cross =
    evaluated_result request incomplete_recoverable false true fallback reason
      (if same then hint_same_family else hint_broader) same cross

unfoldable pub stop_unrecoverable_result :
    RequestCompletionEvaluationRequest → String → Bool → Bool → RequestCompletionEvaluationResult
unfolding evaluated_result
stop_unrecoverable_result request reason same cross =
    evaluated_result request incomplete_unrecoverable false false stop reason hint_stop same cross

-- The sets of reasons that the branches test. "server_error" stands in the first of them in the
-- source and is no `FailureReason`.
abbrev pub is_transient : FailureReason → Bool
is_transient timeout = true
is_transient rate_limited = true
is_transient _ = false

abbrev pub is_tool_error : FailureReason → Bool
is_tool_error tool_error = true
is_tool_error _ = false

abbrev pub prefers_fallback : FailureReason → Bool
prefers_fallback malformed_response = true
prefers_fallback tool_unavailable = true
prefers_fallback _ = false

abbrev pub is_unrecoverable : FailureReason → Bool
is_unrecoverable auth_error = true
is_unrecoverable invalid_request = true
is_unrecoverable _ = false

unfoldable pub evaluate_failed_outcome :
    RequestCompletionEvaluationRequest → Bool → Bool → Bool → RequestCompletionEvaluationResult
unfolding retry_result fallback_result stop_unrecoverable_result evaluated_result
evaluate_failed_outcome request timeout_exhausted same cross =
    let retry_available = ltb_ℤ request.retry_count request.retry_budget in
    let fallback_available = same || cross in
    let failure_reason = get_or request.failure_reason unknown_error in
    if timeout_exhausted
    then stop_unrecoverable_result request "Timeout budget exhausted before recovery could proceed."
        same cross
    else if is_transient failure_reason
    then (if retry_available
        then retry_result request
            "Execution failed but retry budget remains for a transient failure." same cross
        else if fallback_available
        then fallback_result request
            "Transient execution failure exhausted retries, so fallback should be used." same cross
        else stop_unrecoverable_result request
            "Transient execution failure has no retry budget and no fallback path." same cross)
    else if is_tool_error failure_reason
    then (if fallback_available
        then fallback_result request
            "Tool error prefers a fallback path over repeating the same tool." same cross
        else if retry_available
        then retry_result request
            "Tool error has no fallback path, so one conservative retry is allowed." same cross
        else stop_unrecoverable_result request
            "Tool error has neither fallback nor retry budget available." same cross)
    else if prefers_fallback failure_reason
    then (if fallback_available
        then fallback_result request
            "Execution failure should move to fallback because retrying the same tool is not preferred."
            same cross
        else stop_unrecoverable_result request "Execution failure has no fallback path available."
            same cross)
    else if is_unrecoverable failure_reason
    then stop_unrecoverable_result request
        "Execution failed with a non-recoverable request or authorization error." same cross
    else if retry_available
    then retry_result request "Unknown execution failure still has retry budget available." same
        cross
    else if fallback_available
    then fallback_result request
        "Unknown execution failure exhausted retries, so fallback should be used." same cross
    else stop_unrecoverable_result request
        "Unknown execution failure has no retry budget and no fallback path." same cross
