-- ===== src/ToolLayer/Service/Attempt.antt =====
-- One attempt: select a family and a query, or take both from a scheduled retry; check that the
-- attempt can run; run the family; have the outcome evaluated.
use vertical_ai_research_act.Prelude.{
  String, false, Option, none, some, List, ◌++◌, is_some, string_eq,
}
use vertical_ai_research_act.Prelude.Int.{pos}
use vertical_ai_research_act.Prelude.Result.{raised, external}
use vertical_ai_research_act.Prelude.Act.{Act, ◌>>=◌, pure, lift}
use vertical_ai_research_act.Text.{or_blank, text_or}
use vertical_ai_research_act.Domain.Enums.{FamilyName, family_eq}
use vertical_ai_research_act.Domain.Families.{BaseFamilyExecutionResult, FamilyRequest}
use vertical_ai_research_act.Domain.Requests.{
  FamilySelectionResult, SelectionStatus, selected, RetrievalQueryGenerationResult,
  RequestCompletionEvaluationResult, EvaluationStatus, evaluation_failed, FailureReason,
  ToolExecutionLayerRequest,
}
use vertical_ai_research_act.ToolLayer.Family.{normalize_family_list}
use vertical_ai_research_act.ToolLayer.Service.State.{
  Services, ToolExecutionLayerRunState, ToolExecutionLayerAttemptOutcome,
}
use vertical_ai_research_act.ToolLayer.Service.Families.{execute_family}
use vertical_ai_research_act.ToolLayer.Service.Readiness.{
  ready_outcome, error_outcome, recent_low_value_queries, provided_query_result,
  validate_attempt_ready, observed_failure_reason, read_failure_reason,
}

module _ {W : Type 0} (services : Services W) where
  -- `_select_family`
  unfoldable pub select_family :
      ToolExecutionLayerRequest → List FamilyName → List FamilyName → Act W FamilySelectionResult
  unfolding normalize_family_list
  select_family request available blocked = services.select_family (record {
    target_problem = request.target_problem;
    action_mode = request.action_mode;
    evidence_goal = request.evidence_goal;
    evidence_shape = request.evidence_shape;
    task_type = none;
    task_framing = request.task_framing;
    evidence_strategy = none;
    allowed_source_families = request.allowed_source_families;
    preferred_source_families = request.preferred_source_families;
    blocked_source_families = normalize_family_list (request.blocked_source_families ++ blocked);
    available_families = available;
  })

  -- `_query_for_selected_family`, with `_generate_query`
  unfoldable pub query_for_selected_family :
      ToolExecutionLayerRequest → FamilyName → Act W RetrievalQueryGenerationResult
  unfolding provided_query_result recent_low_value_queries
  query_for_selected_family request family = elim request.provided_query [
    | some query ↦ pure (provided_query_result request family query)
    | none ↦ services.generate_query (record {
      selected_family = family;
      target_problem = request.target_problem;
      evidence_goal = request.evidence_goal;
      evidence_shape = request.evidence_shape;
      success_hint = request.success_hint;
      task_framing = request.task_framing;
      recent_low_value_queries = recent_low_value_queries request family;
    })
  ]

  -- After selection: a query for the selected family, or the error of the selection.
  unfoldable pub with_selection :
      ToolExecutionLayerRequest
      → ToolExecutionLayerRunState
      → Option String
      → SelectionStatus
      → Option FamilyName
      → Act W (ToolExecutionLayerRunState × ToolExecutionLayerAttemptOutcome)
  unfolding query_for_selected_family
  with_selection request state error selected (some family) = do
    query ← query_for_selected_family request family
    pure (record state { latest_query_generation = some query }, ready_outcome family query)
  with_selection request state error _ _ = pure (
    state,
    error_outcome (text_or error "No family was selected for Tool Execution Layer request."),
  )

  -- `_prepare_attempt_family_and_query`, by the retry that is scheduled.
  unfoldable pub prepare_from :
      ToolExecutionLayerRequest
      → List FamilyName
      → ToolExecutionLayerRunState
      → Option (FamilyName × RetrievalQueryGenerationResult)
      → Act W (ToolExecutionLayerRunState × ToolExecutionLayerAttemptOutcome)
  unfolding select_family with_selection
  prepare_from request available state (some (family, query)) =
      pure (record state { retry_context = none }, ready_outcome family query)
  prepare_from request available state none = do
    selection ← select_family request available state.blocked_families
    with_selection request (record state { latest_selection = some selection }) selection.error_info
        selection.selection_status selection.selected_family

  unfoldable pub prepare_attempt :
      ToolExecutionLayerRequest
      → List FamilyName
      → ToolExecutionLayerRunState
      → Act W (ToolExecutionLayerRunState × ToolExecutionLayerAttemptOutcome)
  unfolding prepare_from
  prepare_attempt request available state = prepare_from request available state state.retry_context

  -- `_evaluate_completion`
  unfoldable pub evaluate_completion :
      ToolExecutionLayerRequest
      → List FamilyName
      → ToolExecutionLayerRunState
      → FamilyName
      → String
      → BaseFamilyExecutionResult
      → Option FailureReason
      → Act W RequestCompletionEvaluationResult
  unfolding normalize_family_list
  evaluate_completion request available state family query result reason =
      services.evaluate (record {
        target_problem = request.target_problem;
        selected_family = family;
        generated_query = some query;
        execution_outcome = result;
        failure_reason = reason;
        continuation_available = false;
        retry_budget = pos request.retry_budget;
        retry_count = pos (state.retry_counts_by_family family);
        fallback_policy = request.fallback_policy;
        fallback_applied = state.fallback_applied;
        max_results = none;
        timeout_limit_ms = elim request.timeout_limit_ms [ none ↦ none | some n ↦ some (pos n) ];
        request_elapsed_ms = none;
        available_families = available;
        allowed_source_families = request.allowed_source_families;
        blocked_source_families =
            normalize_family_list (request.blocked_source_families ++ state.blocked_families);
      })

  evaluation_error : EvaluationStatus → Option String → Option String
  evaluation_error evaluation_failed error =
      some (text_or error "Request completion evaluation failed.")
  evaluation_error _ error = none

  -- `_run_family_and_evaluate`, once family, query and service are known to be there.
  unfoldable pub run_family_and_evaluate :
      ToolExecutionLayerRequest
      → List FamilyName
      → ToolExecutionLayerRunState
      → FamilyName
      → RetrievalQueryGenerationResult
      → (FamilyRequest → Act W BaseFamilyExecutionResult)
      → Act W (ToolExecutionLayerRunState × ToolExecutionLayerAttemptOutcome)
  unfolding execute_family evaluate_completion evaluation_error observed_failure_reason
      read_failure_reason
  run_family_and_evaluate request available state family query service = do
    executed ← execute_family services request family (or_blank query.generated_query) service
    let result = executed.0
    let reason = observed_failure_reason result executed.1
    literal ← lift (read_failure_reason reason)
    evaluation ←
        evaluate_completion request available state family (or_blank query.generated_query) result
          literal
    pure (
      record state { latest_family_result = some result; latest_evaluation = some evaluation },
      record {
        selected_family = some family;
        query_generation_result = some query;
        family_result = some result;
        evaluation_result = some evaluation;
        execution_failure_reason = reason;
        error_info = evaluation_error evaluation.evaluation_status evaluation.error_info;
      },
    )

  -- `_run_family_and_evaluate` by what it first tests: the family, its query and its service.
  unfoldable pub run_present :
      ToolExecutionLayerRequest
      → List FamilyName
      → ToolExecutionLayerRunState
      → ToolExecutionLayerAttemptOutcome
      → Option FamilyName
      → Option RetrievalQueryGenerationResult
      → Option (FamilyRequest → Act W BaseFamilyExecutionResult)
      → Act W (ToolExecutionLayerRunState × ToolExecutionLayerAttemptOutcome)
  unfolding run_family_and_evaluate
  run_present request available state outcome (some family) (some query) (some service) =
      run_family_and_evaluate request available state family query service
  run_present request available state outcome (some family) (some query) none =
      lift (raised (external "KeyError"))
  run_present request available state outcome _ _ _ = pure (
    state,
    record outcome {
      error_info = some "Attempt cannot run without selected family and generated query.";
    },
  )

  service_of : Option FamilyName → Option (FamilyRequest → Act W BaseFamilyExecutionResult)
  service_of none = none
  service_of (some family) = services.family_service family

  -- The attempt behind the check: its error, or the run of its family.
  unfoldable pub run_checked :
      ToolExecutionLayerRequest
      → List FamilyName
      → ToolExecutionLayerRunState
      → ToolExecutionLayerAttemptOutcome
      → Option String
      → Act W (ToolExecutionLayerRunState × ToolExecutionLayerAttemptOutcome)
  unfolding run_present service_of
  run_checked request available state outcome (some error) =
      pure (state, record outcome { error_info = some error })
  run_checked request available state outcome none =
      run_present request available state outcome outcome.selected_family
        outcome.query_generation_result (service_of outcome.selected_family)

  unfoldable pub after_preparation :
      ToolExecutionLayerRequest
      → List FamilyName
      → ToolExecutionLayerRunState
      → ToolExecutionLayerAttemptOutcome
      → Option String
      → Act W (ToolExecutionLayerRunState × ToolExecutionLayerAttemptOutcome)
  unfolding run_checked validate_attempt_ready
  after_preparation request available state outcome (some error) = pure (state, outcome)
  after_preparation request available state outcome none =
      run_checked request available state outcome (
        validate_attempt_ready (λ f. is_some (services.family_service f)) request
          outcome.selected_family outcome.query_generation_result)

  -- `_run_attempt`
  unfoldable pub run_attempt :
      ToolExecutionLayerRequest
      → List FamilyName
      → ToolExecutionLayerRunState
      → Act W (ToolExecutionLayerRunState × ToolExecutionLayerAttemptOutcome)
  unfolding prepare_attempt after_preparation
  run_attempt request available state = do
    prepared ← prepare_attempt request available state
    after_preparation request available prepared.0 prepared.1 prepared.1.error_info
