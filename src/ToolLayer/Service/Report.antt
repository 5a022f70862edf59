-- ===== src/ToolLayer/Service/Report.antt =====
-- What the service reports: the result of the request.
use vertical_ai_research_act.Prelude.{ℕ, String, false, Option, none, some, [], length}
use vertical_ai_research_act.Prelude.Result.{Result, ok, ◌>>=◌}
use vertical_ai_research_act.Domain.Enums.{FamilyName, AcquisitionStatus, failed, acquisition_value}
use vertical_ai_research_act.Domain.Value.{
  null, bool, str, list, dict, Dict, empty, entry, put, update, str_value, nat_value, dict_items,
}
use vertical_ai_research_act.Domain.Families.{BaseFamilyExecutionResult}
use vertical_ai_research_act.Domain.Retrieval.SourceSummary
use vertical_ai_research_act.Domain.Retrieval.SourceSummary.{RetrievalSourceSummary, family_or_null}
use vertical_ai_research_act.Domain.Retrieval.ExecutionSummary
use vertical_ai_research_act.Domain.Retrieval.ExecutionSummary.{RetrievalExecutionSummary}
use vertical_ai_research_act.Domain.Retrieval.Trace
use vertical_ai_research_act.Domain.Retrieval.Trace.{RetrievalTrace}
use vertical_ai_research_act.Domain.Requests.{
  FamilySelectionResult, selection_status_value, RetrievalQueryGenerationResult,
  generation_status_value, RequestCompletionEvaluationResult, evaluation_status_value,
  ToolExecutionLayerRequest, ToolExecutionLayerResult, ExecutionStatus, completed, execution_failed,
  execution_status_value,
}
use vertical_ai_research_act.ToolLayer.Service.State.{Services, ToolExecutionLayerRunState}
use vertical_ai_research_act.ToolLayer.Service.Record.{
  value_of, action_value, hint_value, status_value,
}

abbrev legacy_source : Option BaseFamilyExecutionResult → Dict
unfolding SourceSummary.to_legacy_dict
legacy_source none = empty
legacy_source (some result) = SourceSummary.to_legacy_dict result.source_summary

abbrev pub legacy_execution : Option BaseFamilyExecutionResult → Dict
unfolding ExecutionSummary.to_legacy_dict
legacy_execution none = empty
legacy_execution (some result) = ExecutionSummary.to_legacy_dict result.execution_summary

abbrev legacy_trace : Option BaseFamilyExecutionResult → Dict
unfolding Trace.to_legacy_dict
legacy_trace none = empty
legacy_trace (some result) = Trace.to_legacy_dict result.retrieval_trace

-- The family of the execution, or else the one that was selected.
abbrev reported_family :
    Option BaseFamilyExecutionResult → Option FamilySelectionResult → Option FamilyName
reported_family (some result) selection = some result.selected_family
reported_family none (some selection) = selection.selected_family
reported_family none none = none

abbrev items_of : Option BaseFamilyExecutionResult → ℕ
items_of none = 0
items_of (some result) = length result.normalized_items

-- What the service itself writes over the family's execution summary.
unfoldable pub execution_overlay : ToolExecutionLayerRunState → ExecutionStatus → Dict
execution_overlay state status = entry "policy" (str "tool_execution_layer_single_request_v1") (
    entry "execution_status" (str (execution_status_value status)) (
      entry "family_selection_status"
        (value_of (λ (s : FamilySelectionResult). str (selection_status_value s.selection_status))
          state.latest_selection)
        (entry "query_generation_status"
          (value_of
            (λ (q : RetrievalQueryGenerationResult).
              str (generation_status_value q.generation_status))
            state.latest_query_generation)
          (entry "evaluation_status"
            (value_of
              (λ (e : RequestCompletionEvaluationResult).
                str (evaluation_status_value e.evaluation_status))
              state.latest_evaluation)
            (entry "request_completion_status"
              (value_of
                (λ (e : RequestCompletionEvaluationResult).
                  status_value e.request_completion_status)
                state.latest_evaluation)
              (evaluation_part state.latest_evaluation (counters state)))))))
  where
    counters : ToolExecutionLayerRunState → Dict
    counters s = entry "retry_count" (nat_value s.retry_count) (
        entry "fallback_applied" (bool s.fallback_applied) (
          entry "recovery_attempt_count" (nat_value s.recovery_attempt_count)
            (entry "recovery_exhausted_reason" (str_value s.recovery_exhausted_reason) empty)))

    evaluation_part : Option RequestCompletionEvaluationResult → Dict → Dict
    evaluation_part none rest =
        entry "needs_recovery" (bool false)
          (entry "recovery_action" null (entry "next_step_hint" null rest))
    evaluation_part (some e) rest = entry "needs_recovery" (bool e.needs_recovery) (
        entry "recovery_action" (action_value e.recovery_action)
          (entry "next_step_hint" (hint_value e.next_step_hint) rest))

-- What the service itself writes over the family's trace.
unfoldable pub trace_overlay :
    ToolExecutionLayerRequest → ToolExecutionLayerRunState → AcquisitionStatus → Dict
trace_overlay request state status = entry "target_problem" (str request.target_problem) (
    entry "selected_family"
      (family_or_null (reported_family state.latest_family_result state.latest_selection))
      (entry "generated_query"
        (value_of (λ (q : RetrievalQueryGenerationResult). str_value q.generated_query)
          state.latest_query_generation)
        (entry "query_focus"
          (value_of (λ (q : RetrievalQueryGenerationResult). str_value q.query_focus)
            state.latest_query_generation)
          (entry "acquisition_status" (str (acquisition_value status))
            (entry "attempts" (list (dict_items state.attempts)) (rest_of state))))))
  where
    rest_of : ToolExecutionLayerRunState → Dict
    rest_of s = entry "retry_count" (nat_value s.retry_count) (
        entry "fallback_applied" (bool s.fallback_applied) (
          entry "recovery_exhausted_reason" (str_value s.recovery_exhausted_reason) (
            entry "family_selection_summary"
              (value_of (λ (r : FamilySelectionResult). dict r.selection_summary)
                s.latest_selection)
              (entry "query_generation_summary"
                (value_of (λ (q : RetrievalQueryGenerationResult). dict q.generation_summary)
                  s.latest_query_generation)
                (entry "completion_evaluation_summary"
                  (value_of (λ (e : RequestCompletionEvaluationResult). dict e.evaluation_summary)
                    s.latest_evaluation)
                  empty)))))

module _ {W : Type 0} (services : Services W) where
  -- The parts of the result that are read again as models.
  unfoldable pub source_summary_of : ToolExecutionLayerRunState → Result RetrievalSourceSummary
  unfolding SourceSummary.to_legacy_dict SourceSummary.model_validate put
  source_summary_of state = SourceSummary.model_validate services.pydantic (
      put
        (put (legacy_source state.latest_family_result) "selected_family"
          (family_or_null (reported_family state.latest_family_result state.latest_selection)))
        "normalized_count" (nat_value (items_of state.latest_family_result)))

  unfoldable pub execution_summary_of :
      ToolExecutionLayerRunState → ExecutionStatus → Result RetrievalExecutionSummary
  unfolding ExecutionSummary.to_legacy_dict ExecutionSummary.model_validate update execution_overlay
  execution_summary_of state status =
      ExecutionSummary.model_validate services.pydantic
        (update (legacy_execution state.latest_family_result) (execution_overlay state status))

  unfoldable pub retrieval_trace_of :
      ToolExecutionLayerRequest
      → ToolExecutionLayerRunState
      → AcquisitionStatus
      → Result RetrievalTrace
  unfolding Trace.to_legacy_dict Trace.model_validate update trace_overlay
  retrieval_trace_of request state acquisition =
      Trace.model_validate services.pydantic
        (update (legacy_trace state.latest_family_result) (trace_overlay request state acquisition))

  -- `_result`: the family's summaries with the service's entries over them, read again as models.
  unfoldable pub build_result :
      ToolExecutionLayerRequest
      → ToolExecutionLayerRunState
      → ExecutionStatus
      → AcquisitionStatus
      → Option String
      → Result ToolExecutionLayerResult
  unfolding source_summary_of execution_summary_of retrieval_trace_of
  build_result request state status acquisition error_info = do
    source_summary ← source_summary_of state
    execution_summary ← execution_summary_of state status
    retrieval_trace ← retrieval_trace_of request state acquisition
    ok (record {
      execution_status = status;
      normalized_items = elim state.latest_family_result [
        | none ↦ []
        | some result ↦ result.normalized_items
      ];
      acquisition_status = acquisition;
      dropped_item_count = elim state.latest_family_result [
        | none ↦ 0
        | some result ↦ result.dropped_item_count
      ];
      source_summary = source_summary;
      execution_summary = execution_summary;
      retrieval_trace = retrieval_trace;
      error_info = error_info;
    })

  -- `_failed_from_state`
  unfoldable pub failed_from_state :
      ToolExecutionLayerRequest
      → ToolExecutionLayerRunState
      → String
      → Result ToolExecutionLayerResult
  unfolding build_result
  failed_from_state request state error_info =
      build_result request state execution_failed failed (some error_info)

  unfoldable pub completed_with :
      ToolExecutionLayerRequest
      → ToolExecutionLayerRunState
      → Option BaseFamilyExecutionResult
      → Result ToolExecutionLayerResult
  unfolding build_result failed_from_state
  completed_with request state none =
      failed_from_state request state "No family execution result available."
  completed_with request state (some result) =
      build_result request state completed result.acquisition_status none

  -- `_completed_from_state`
  unfoldable pub completed_from_state :
      ToolExecutionLayerRequest → ToolExecutionLayerRunState → Result ToolExecutionLayerResult
  unfolding completed_with
  completed_from_state request state = completed_with request state state.latest_family_result
