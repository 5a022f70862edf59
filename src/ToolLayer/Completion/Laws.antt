-- ===== src/ToolLayer/Completion/Laws.antt =====
-- The answers of the evaluation are coherent, and a recovery is asked for only where it is open.
use vertical_ai_research_act.Prelude.{
  ◌≡◌, ◌≢◌, ◌⊎◌, Bool, true, false, ◌||◌, Option, none, some, arith, if◌then◌else◌,
}
use vertical_ai_research_act.Prelude.Int.{ltb_ℤ}
use vertical_ai_research_act.Domain.Enums.{
  family_eq, AcquisitionStatus, success, partial_success, no_result, failed, is_failed_or_empty,
}
use vertical_ai_research_act.Domain.Requests.{
  RequestCompletionEvaluationRequest, RequestCompletionEvaluationResult, auth_error,
  invalid_request, RequestCompletionStatus, complete, incomplete_recoverable,
  incomplete_unrecoverable, RecoveryAction, continue, retry_same_tool, fallback, stop, NextStepHint,
  hint_none, hint_continue, hint_retry, hint_same_family, hint_broader, hint_stop,
}
use vertical_ai_research_act.ToolLayer.Completion.{answer}
use vertical_ai_research_act.ToolLayer.Completion.Outcome.{evaluate_failed_outcome}

-- What each recovery action says with it, and when it may be asked for: `acquired` is the
-- acquisition status of the outcome, `same` and `cross` the fallbacks that are open.
abbrev pub ActionFits :
    RequestCompletionEvaluationRequest
    → Bool
    → Bool
    → Bool
    → Option RecoveryAction
    → Option RequestCompletionStatus
    → Bool
    → Bool
    → Option NextStepHint
    → Type 0
ActionFits r late same cross none s done needs h = ⊥
ActionFits r late same cross (some continue) s done needs h =
    (r.execution_outcome.acquisition_status ≡ partial_success)
    × (r.continuation_available ≡ true)
    × (late ≡ false)
    × (s ≡ some incomplete_recoverable)
    × (done ≡ false)
    × (needs ≡ true)
    × (h ≡ some hint_continue)
ActionFits r late same cross (some retry_same_tool) s done needs h =
    (r.execution_outcome.acquisition_status ≡ failed)
    × (ltb_ℤ r.retry_count r.retry_budget ≡ true)
    × (late ≡ false)
    × (r.failure_reason ≢ some auth_error)
    × (r.failure_reason ≢ some invalid_request)
    × (s ≡ some incomplete_recoverable)
    × (done ≡ false)
    × (needs ≡ true)
    × (h ≡ some hint_retry)
ActionFits r late same cross (some fallback) s done needs h =
    ((same || cross) ≡ true)
    × (late ≡ false)
    × (h ≡ some (if same then hint_same_family else hint_broader))
    × (r.failure_reason ≢ some auth_error ⊎ r.execution_outcome.acquisition_status ≡ no_result)
    × (s ≡ some incomplete_recoverable)
    × (done ≡ false)
    × (needs ≡ true)
ActionFits r late same cross (some stop) s done needs h =
    ((s ≡ some complete)
      × (done ≡ true)
      × (needs ≡ false)
      × (h ≡ some hint_none)
      × (is_failed_or_empty r.execution_outcome.acquisition_status ≡ false))
    ⊎ ((s ≡ some incomplete_unrecoverable)
        × (done ≡ false)
        × (needs ≡ false)
        × (h ≡ some hint_stop)
        × (is_failed_or_empty r.execution_outcome.acquisition_status ≡ true))

abbrev pub IsSound :
    RequestCompletionEvaluationRequest
    → Bool
    → Bool
    → Bool
    → RequestCompletionEvaluationResult
    → Type 0
IsSound r late same cross e =
    ActionFits r late same cross e.recovery_action e.request_completion_status e.request_completed
      e.needs_recovery e.next_step_hint

evaluate_failed_outcome-IsSound :
    (r : RequestCompletionEvaluationRequest) (late same cross : Bool)
    → r.execution_outcome.acquisition_status ≡ failed
    → IsSound r late same cross (evaluate_failed_outcome r late same cross)
unfolding evaluate_failed_outcome
evaluate_failed_outcome-IsSound r late same cross f = ground arith

pub answer-IsSound :
    (r : RequestCompletionEvaluationRequest) (a : AcquisitionStatus) (late same cross : Bool)
    → r.execution_outcome.acquisition_status ≡ a
    → IsSound r late same cross (answer r a late same cross)
unfolding answer
answer-IsSound r success late same cross e = ground arith
answer-IsSound r partial_success late same cross e = ground arith
answer-IsSound r no_result late same cross e = ground arith
answer-IsSound r failed late same cross e = evaluate_failed_outcome-IsSound r late same cross e
