-- ===== src/ToolLayer/Service/Frame.antt =====
-- What an attempt leaves alone: the counters, the traces and the blocked families change only when
-- its outcome is applied.
use vertical_ai_research_act.Prelude.{◌≡◌, refl, ◌∙◌, String, Option, none, some, List}
use vertical_ai_research_act.Prelude.Act.{
  Act, Ensures, Ensures-bind, Ensures-pure, pure, Ensures-then, lift, Ensures-lift,
}
use vertical_ai_research_act.Text.{or_blank}
use vertical_ai_research_act.ToolLayer.Service.Families.{execute_family}
use vertical_ai_research_act.Domain.Enums.{FamilyName}
use vertical_ai_research_act.Domain.Families.{BaseFamilyExecutionResult, FamilyRequest}
use vertical_ai_research_act.Domain.Requests.{
  FamilySelectionResult, SelectionStatus, selected, RetrievalQueryGenerationResult,
  ToolExecutionLayerRequest, RequestCompletionEvaluationResult,
}
use vertical_ai_research_act.ToolLayer.Service.State.{
  Services, ToolExecutionLayerRunState, ToolExecutionLayerAttemptOutcome,
}
use vertical_ai_research_act.ToolLayer.Service.Readiness.{
  read_failure_reason, observed_failure_reason,
}
use vertical_ai_research_act.ToolLayer.Service.Attempt.{
  with_selection, prepare_from, prepare_attempt, run_family_and_evaluate, run_checked,
  after_preparation, run_attempt, select_family, query_for_selected_family, evaluate_completion,
  run_present,
}

pub record IsFrame (before after : ToolExecutionLayerRunState) : Type 0 where
  pub blocked_same : after.blocked_families ≡ before.blocked_families
  pub attempts_same : after.attempts ≡ before.attempts
  pub retries_same : after.retry_count ≡ before.retry_count
  pub counts_same : after.retry_counts_by_family ≡ before.retry_counts_by_family
  pub fallback_same : after.fallback_applied ≡ before.fallback_applied
  pub recoveries_same : after.recovery_attempt_count ≡ before.recovery_attempt_count
  pub reason_same : after.recovery_exhausted_reason ≡ before.recovery_exhausted_reason
  pub context_consumed : after.retry_context ≡ none

-- A scheduled retry decides the family of the attempt.
abbrev pub Resumes :
    Option (FamilyName × RetrievalQueryGenerationResult) → ToolExecutionLayerAttemptOutcome → Type 0
Resumes none outcome = Unit
Resumes (some (family, query)) outcome =
    (outcome.selected_family ≡ some family) × (outcome.query_generation_result ≡ some query)

Resumes-cong :
    (context : Option (FamilyName × RetrievalQueryGenerationResult))
    (outcome outcome' : ToolExecutionLayerAttemptOutcome)
    → outcome'.selected_family ≡ outcome.selected_family
    → outcome'.query_generation_result ≡ outcome.query_generation_result
    → Resumes context outcome
    → Resumes context outcome'
Resumes-cong none outcome outcome' p q h = tt
Resumes-cong (some (family, query)) outcome outcome' p q h = (p ∙ h.0, q ∙ h.1)

-- The state and outcome of an attempt from `before`, after preparation or in the end.
abbrev pub IsAttemptOf :
    ToolExecutionLayerRunState
    → Option (FamilyName × RetrievalQueryGenerationResult)
    → ToolExecutionLayerRunState × ToolExecutionLayerAttemptOutcome
    → Type 0
IsAttemptOf before context (after, outcome) = IsFrame before after × Resumes context outcome

-- The latest results are not part of the frame.
latest-IsFrame :
    (before state : ToolExecutionLayerRunState) (selection : Option FamilySelectionResult)
    (query : Option RetrievalQueryGenerationResult) (result : Option BaseFamilyExecutionResult)
    (evaluation : Option RequestCompletionEvaluationResult)
    → IsFrame before state
    → IsFrame before (record state {
      latest_selection = selection;
      latest_query_generation = query;
      latest_family_result = result;
      latest_evaluation = evaluation;
    })
latest-IsFrame before state selection query result evaluation h = record {
  blocked_same = h.blocked_same;
  attempts_same = h.attempts_same;
  retries_same = h.retries_same;
  counts_same = h.counts_same;
  fallback_same = h.fallback_same;
  recoveries_same = h.recoveries_same;
  reason_same = h.reason_same;
  context_consumed = h.context_consumed;
}

-- To take up the scheduled retry changes nothing else.
consumed-IsFrame :
    (state : ToolExecutionLayerRunState) → IsFrame state (record state { retry_context = none })
consumed-IsFrame state = record {
  blocked_same = refl;
  attempts_same = refl;
  retries_same = refl;
  counts_same = refl;
  fallback_same = refl;
  recoveries_same = refl;
  reason_same = refl;
  context_consumed = refl;
}

same-IsFrame :
    (state : ToolExecutionLayerRunState) → state.retry_context ≡ none → IsFrame state state
same-IsFrame state h = record {
  blocked_same = refl;
  attempts_same = refl;
  retries_same = refl;
  counts_same = refl;
  fallback_same = refl;
  recoveries_same = refl;
  reason_same = refl;
  context_consumed = h;
}

module _ {W : Type 0} (services : Services W) (request : ToolExecutionLayerRequest)
    (available : List FamilyName) where
  with_selection-IsAttemptOf :
      (before state : ToolExecutionLayerRunState) (error : Option String) (status : SelectionStatus)
      (family : Option FamilyName)
      → IsFrame before state
      → Ensures
          (IsAttemptOf before none)
          (with_selection services request state error status family)
  unfolding with_selection
  with_selection-IsAttemptOf before state error selected (some family) h =
      Ensures-then (IsAttemptOf before none) (query_for_selected_family services request family) _
        (λ query. Ensures-pure (IsAttemptOf before none) _ (
          latest-IsFrame before state state.latest_selection (some query) state.latest_family_result
              state.latest_evaluation h,
          tt,
        ))
  with_selection-IsAttemptOf before state error _ _ h =
      Ensures-pure (IsAttemptOf before none) _ (h, tt)

  prepare_from-IsAttemptOf :
      (state : ToolExecutionLayerRunState)
      (context : Option (FamilyName × RetrievalQueryGenerationResult))
      → state.retry_context ≡ context
      → Ensures (IsAttemptOf state context) (prepare_from services request available state context)
  unfolding prepare_from
  prepare_from-IsAttemptOf state (some (family, query)) h =
      Ensures-pure (IsAttemptOf state (some (family, query))) _
        (consumed-IsFrame state, (refl, refl))
  prepare_from-IsAttemptOf state none h =
      Ensures-then (IsAttemptOf state none)
        (select_family services request available state.blocked_families) _
        (λ selection. with_selection-IsAttemptOf state _ _ _ _ (
          latest-IsFrame state state (some selection) state.latest_query_generation
            state.latest_family_result state.latest_evaluation (same-IsFrame state h)))

  module _ (before : ToolExecutionLayerRunState)
      (context : Option (FamilyName × RetrievalQueryGenerationResult)) where
    run_family_and_evaluate-IsAttemptOf :
        (state : ToolExecutionLayerRunState) (outcome : ToolExecutionLayerAttemptOutcome)
        (family : FamilyName) (query : RetrievalQueryGenerationResult)
        (service : FamilyRequest → Act W BaseFamilyExecutionResult)
        → some family ≡ outcome.selected_family
        → some query ≡ outcome.query_generation_result
        → IsAttemptOf before context (state, outcome)
        → Ensures
            (IsAttemptOf before context)
            (run_family_and_evaluate services request available state family query service)
    unfolding run_family_and_evaluate
    run_family_and_evaluate-IsAttemptOf state outcome family query service p q h =
        let generated_query = or_blank query.generated_query in
        Ensures-then (IsAttemptOf before context)
          (execute_family services request family generated_query service) _
          (λ executed.
            Ensures-then (IsAttemptOf before context)
              (lift (read_failure_reason (observed_failure_reason executed.0 executed.1))) _
              (λ literal.
                Ensures-then (IsAttemptOf before context)
                  (evaluate_completion services request available state family generated_query
                    executed.0 literal)
                  _
                  (λ evaluation. Ensures-pure (IsAttemptOf before context) _ (
                    latest-IsFrame before state state.latest_selection state.latest_query_generation
                        (some executed.0) (some evaluation) h.0,
                    Resumes-cong context outcome _ p q h.1,
                  ))))

    -- An outcome that only gets an error.
    refused-IsAttemptOf :
        (state : ToolExecutionLayerRunState) (outcome : ToolExecutionLayerAttemptOutcome)
        (error : String)
        → IsAttemptOf before context (state, outcome)
        → Ensures {W = W}
            (IsAttemptOf before context)
            (pure (state, record outcome { error_info = some error }))
    refused-IsAttemptOf state outcome error h =
        Ensures-pure (IsAttemptOf before context) _
          (h.0, Resumes-cong context outcome _ refl refl h.1)

    run_present-IsAttemptOf :
        (state : ToolExecutionLayerRunState) (outcome : ToolExecutionLayerAttemptOutcome)
        (family : Option FamilyName) (query : Option RetrievalQueryGenerationResult)
        (service : Option (FamilyRequest → Act W BaseFamilyExecutionResult))
        → family ≡ outcome.selected_family
        → query ≡ outcome.query_generation_result
        → IsAttemptOf before context (state, outcome)
        → Ensures
            (IsAttemptOf before context)
            (run_present services request available state outcome family query service)
    unfolding run_present
    run_present-IsAttemptOf state outcome (some family) (some query) (some service) p q h =
        run_family_and_evaluate-IsAttemptOf state outcome family query service p q h
    run_present-IsAttemptOf state outcome none query service p q h =
        refused-IsAttemptOf state outcome _ h
    run_present-IsAttemptOf state outcome (some family) none service p q h =
        refused-IsAttemptOf state outcome _ h
    run_present-IsAttemptOf state outcome (some family) (some query) none p q h =
        Ensures-lift (IsAttemptOf before context) _ tt

    run_checked-IsAttemptOf :
        (state : ToolExecutionLayerRunState) (outcome : ToolExecutionLayerAttemptOutcome)
        (error : Option String)
        → IsAttemptOf before context (state, outcome)
        → Ensures
            (IsAttemptOf before context)
            (run_checked services request available state outcome error)
    unfolding run_checked
    run_checked-IsAttemptOf state outcome (some error) h = refused-IsAttemptOf state outcome error h
    run_checked-IsAttemptOf state outcome none h =
        run_present-IsAttemptOf state outcome _ _ _ refl refl h

    after_preparation-IsAttemptOf :
        (state : ToolExecutionLayerRunState) (outcome : ToolExecutionLayerAttemptOutcome)
        (error : Option String)
        → IsAttemptOf before context (state, outcome)
        → Ensures
            (IsAttemptOf before context)
            (after_preparation services request available state outcome error)
    unfolding after_preparation
    after_preparation-IsAttemptOf state outcome (some error) h =
        Ensures-pure (IsAttemptOf before context) _ h
    after_preparation-IsAttemptOf state outcome none h = run_checked-IsAttemptOf state outcome _ h

  -- An attempt that returns has changed no counter, no trace and no blocked family, has taken up the
  -- scheduled retry, and its outcome has the family and the query of that retry.
  pub run_attempt-IsAttemptOf :
      (state : ToolExecutionLayerRunState)
      → Ensures
          (IsAttemptOf state state.retry_context)
          (run_attempt services request available state)
  unfolding run_attempt prepare_attempt
  run_attempt-IsAttemptOf state =
      Ensures-bind (IsAttemptOf state state.retry_context) (IsAttemptOf state state.retry_context)
        (prepare_attempt services request available state) _
        (prepare_from-IsAttemptOf state state.retry_context refl)
        (λ prepared h.
          after_preparation-IsAttemptOf state state.retry_context prepared.0 prepared.1
            prepared.1.error_info h)
