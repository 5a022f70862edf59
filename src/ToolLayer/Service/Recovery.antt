-- ===== src/ToolLayer/Service/Recovery.antt =====
-- What the service does with an evaluation: schedule a retry, apply the one fallback, or complete.
use vertical_ai_research_act.Prelude.{
  ℕ, ◌+◌, String, true, Option, some, [], ◌∷◌, ◌++◌, contains, leb, ◌==◌, if◌then◌else◌,
}
use vertical_ai_research_act.Domain.Enums.{FamilyName, family_eq}
use vertical_ai_research_act.Domain.Requests.{
  RetrievalQueryGenerationResult, RequestCompletionEvaluationResult, RecoveryAction,
  retry_same_tool, fallback, stop, NextStepHint, hint_continue, hint_same_family, hint_broader,
  ToolExecutionLayerRequest,
}
use vertical_ai_research_act.ToolLayer.Service.State.{
  ToolExecutionLayerRunState, ToolExecutionLayerAttemptOutcome,
}

pub data ExecutionDirective : Type 0 where
  go_on complete : ExecutionDirective

abbrev pub exhausted :
    String → ToolExecutionLayerRunState → ToolExecutionLayerRunState × ExecutionDirective
exhausted reason state = (record state { recovery_exhausted_reason = some reason }, complete)

-- `counts[family] = count`
abbrev pub set_count : (FamilyName → ℕ) → FamilyName → ℕ → FamilyName → ℕ
set_count counts family count f = if f == family then count else counts f

unfoldable pub schedule_retry :
    ToolExecutionLayerRequest
    → ToolExecutionLayerRunState
    → FamilyName
    → RetrievalQueryGenerationResult
    → ToolExecutionLayerRunState × ExecutionDirective
schedule_retry request state family query =
    let family_retry_count = state.retry_counts_by_family family in
    if leb request.retry_budget family_retry_count
    then exhausted "retry_budget_exhausted" state
    else (
      record state {
        retry_counts_by_family =
            set_count state.retry_counts_by_family family (family_retry_count + 1);
        retry_count = state.retry_count + 1;
        recovery_attempt_count = state.recovery_attempt_count + 1;
        retry_context = some (family, query);
      },
      go_on,
    )

unfoldable pub apply_fallback :
    ToolExecutionLayerRunState → FamilyName → ToolExecutionLayerRunState × ExecutionDirective
apply_fallback state0 family =
    let state : ToolExecutionLayerRunState = record state0 {
      blocked_families =
          if contains state0.blocked_families family
          then state0.blocked_families
          else state0.blocked_families ++ family ∷ [];
    } in
    if state0.fallback_applied then exhausted "fallback_already_applied" state else (
      record state {
        fallback_applied = true;
        recovery_attempt_count = state0.recovery_attempt_count + 1;
      },
      go_on,
    )

-- Why an action that is none of the executable ones ends the request.
abbrev inexecutable_reason : Option NextStepHint → String
inexecutable_reason (some hint_same_family) = "same_family_fallback_not_executable"
inexecutable_reason (some hint_continue) = "continuation_not_supported"
inexecutable_reason _ = "recovery_action_not_executable"

-- The chain of tests on the action and the hint.
unfoldable pub apply_action :
    ToolExecutionLayerRequest
    → ToolExecutionLayerRunState
    → FamilyName
    → RetrievalQueryGenerationResult
    → Option RecoveryAction
    → Option NextStepHint
    → ToolExecutionLayerRunState × ExecutionDirective
unfolding schedule_retry apply_fallback
apply_action request state family query (some stop) hint = (state, complete)
apply_action request state family query (some retry_same_tool) hint =
    schedule_retry request state family query
apply_action request state family query (some fallback) (some hint_broader) =
    apply_fallback state family
apply_action request state family query action hint = exhausted (inexecutable_reason hint) state

unfoldable pub apply_present :
    ToolExecutionLayerRequest
    → ToolExecutionLayerRunState
    → Option FamilyName
    → Option RetrievalQueryGenerationResult
    → Option RequestCompletionEvaluationResult
    → ToolExecutionLayerRunState × ExecutionDirective
unfolding apply_action
apply_present request state (some family) (some query) (some evaluation) =
    apply_action request state family query evaluation.recovery_action evaluation.next_step_hint
apply_present request state _ _ _ = exhausted "recovery_action_not_executable" state

-- `_apply_evaluation_result`
unfoldable pub apply_evaluation_result :
    ToolExecutionLayerRequest
    → ToolExecutionLayerRunState
    → ToolExecutionLayerAttemptOutcome
    → ToolExecutionLayerRunState × ExecutionDirective
unfolding apply_present
apply_evaluation_result request state outcome =
    apply_present request state outcome.selected_family outcome.query_generation_result
      outcome.evaluation_result
