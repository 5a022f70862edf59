-- ===== src/Tests/Service.antt =====
-- Runs of the service.
use vertical_ai_research_act.Prelude.{ℕ, ◌≡◌, refl, none, some, [], ◌∷◌}
use vertical_ai_research_act.Prelude.Result.{Result, ok, raised, validation_error}
use vertical_ai_research_act.Prelude.Act.{Ensures}
use vertical_ai_research_act.Domain.Enums.{web_search}
use vertical_ai_research_act.Domain.Value.{get}
use vertical_ai_research_act.Domain.Requests.{ToolExecutionLayerResult}
use vertical_ai_research_act.ToolLayer.Service.{
  execute, normalize_request, effective_available_families,
}
use vertical_ai_research_act.ToolLayer.Service.State.{
  ToolExecutionLayerAttemptOutcome, create_execution_state,
}
use vertical_ai_research_act.ToolLayer.Service.Families.{execute_family, failed_family_result}
use vertical_ai_research_act.ToolLayer.Completion.{evaluate}
use vertical_ai_research_act.ToolLayer.Service.Attempt.{run_attempt, run_family_and_evaluate}
use vertical_ai_research_act.ToolLayer.Service.Recovery.{apply_evaluation_result}
use vertical_ai_research_act.ToolLayer.Service.Record.{record_attempt}
use vertical_ai_research_act.ToolLayer.Service.Frame.{IsAttemptOf, run_attempt-IsAttemptOf}
use vertical_ai_research_act.ToolLayer.Service.Budget.{left_for}
use vertical_ai_research_act.ToolLayer.Service.Spending.{IsStep, apply_evaluation_result-IsStep}
use vertical_ai_research_act.ToolLayer.Service.Progress.{create_execution_state-IsOnBudget}
use vertical_ai_research_act.ToolLayer.Service.Rounds.{IsRun, execute-returns}
use vertical_ai_research_act.ToolLayer.Service.Reporting.{IsAccount, execute-IsAccount}
use vertical_ai_research_act.ToolLayer.Service.Refusal.{run_family_and_evaluate-refuses}
use vertical_ai_research_act.Tests.Data.{
  layer_request, services, release_query, failed_search, result_of, evaluation_request,
}

execute-returns_example :
    (r : Result ToolExecutionLayerResult × ℕ) × (execute services layer_request 0 ≡ some r)
    × IsRun services
        (normalize_request layer_request)
        (effective_available_families services (normalize_request layer_request))
        0
        r
execute-returns_example = execute-returns services layer_request 0

run_attempt-IsAttemptOf_example :
    Ensures
      (IsAttemptOf
        (create_execution_state layer_request)
        (create_execution_state layer_request).retry_context)
      (run_attempt services layer_request (web_search ∷ []) (create_execution_state layer_request))
run_attempt-IsAttemptOf_example =
    run_attempt-IsAttemptOf services layer_request (web_search ∷ [])
      (create_execution_state layer_request)

run_family_and_evaluate-refuses_example :
    run_family_and_evaluate services layer_request
      (web_search ∷ [])
      (create_execution_state layer_request)
      web_search
      release_query
      (λ request w. (ok failed_search, w))
      3
    ≡ (raised (validation_error "RequestCompletionEvaluationRequest"), 3)
unfolding execute_family failed_family_result get
run_family_and_evaluate-refuses_example =
    run_family_and_evaluate-refuses services layer_request (web_search ∷ [])
      (create_execution_state layer_request) web_search release_query
      (λ request w. (ok failed_search, w)) failed_search "server_error" 3 3 refl refl refl refl

-- Two attempts: a search and its retry; there is no other family to fall back on.
abbrev ran : ToolExecutionLayerResult
unfolding execute services
ran = result_of (execute services layer_request 0)

execute-IsAccount_example : IsAccount 1 ran
unfolding execute services
execute-IsAccount_example = execute-IsAccount services layer_request 0 2 ran refl

-- An attempt whose evaluation asks for a broader search.
abbrev tried : ToolExecutionLayerAttemptOutcome
unfolding evaluate
tried = record {
  selected_family = some web_search;
  query_generation_result = some release_query;
  family_result = some failed_search;
  evaluation_result = some (evaluate evaluation_request);
  execution_failure_reason = some "timeout";
  error_info = none;
}

apply_evaluation_result-IsStep_example :
    IsStep 1 (left_for 1 none (create_execution_state layer_request)) (
      apply_evaluation_result layer_request
        (record_attempt services (create_execution_state layer_request) tried)
        tried)
unfolding create_execution_state
apply_evaluation_result-IsStep_example =
    apply_evaluation_result-IsStep services layer_request none
      (create_execution_state layer_request) tried (create_execution_state-IsOnBudget layer_request)
      tt refl
