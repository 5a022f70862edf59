-- ===== src/ToolLayer/Service/Record.antt =====
-- The trace that the service keeps of each attempt.
use vertical_ai_research_act.Prelude.{
  ℕ, String, Bool, false, not, ◌&&◌, Option, none, some, [], ◌∷◌, ◌++◌, if◌then◌else◌,
}
use vertical_ai_research_act.Text.{is_blank, strip}
use vertical_ai_research_act.Observability.{sanitize_sensitive_text}
use vertical_ai_research_act.Domain.Enums.{
  FamilyName, family_value, AcquisitionStatus, acquisition_value, is_failed,
}
use vertical_ai_research_act.Domain.Value.{
  Value, null, bool, str, Dict, empty, entry, get, update, collect, value_or, is_null, str_value,
  nat_value,
}
use vertical_ai_research_act.Domain.Families.{BaseFamilyExecutionResult}
use vertical_ai_research_act.Domain.Requests.{
  RetrievalQueryGenerationResult, RequestCompletionEvaluationResult, evaluation_status_value,
  RequestCompletionStatus, completion_status_value, RecoveryAction, recovery_action_value,
  NextStepHint, next_step_value,
}
use vertical_ai_research_act.ToolLayer.Service.State.{
  Services, ToolExecutionLayerRunState, ToolExecutionLayerAttemptOutcome,
}

abbrev pub value_of {ℓ} : {A : Type ℓ} → (A → Value) → Option A → Value
value_of f none = null
value_of f (some a) = f a

abbrev pub action_value : Option RecoveryAction → Value
action_value o = value_of (λ a. str (recovery_action_value a)) o

abbrev pub hint_value : Option NextStepHint → Value
hint_value o = value_of (λ h. str (next_step_value h)) o

abbrev pub status_value : Option RequestCompletionStatus → Value
status_value o = value_of (λ s. str (completion_status_value s)) o

abbrev pub is_spoken : Value → Bool
is_spoken (str s) = not (is_blank (strip s))
is_spoken _ = false

-- `next((v for v in errors.values() if isinstance(v, str) and v.strip()), None)`
first_spoken : Dict → Value
first_spoken empty = null
first_spoken (entry k v d) = let rest = first_spoken d in if is_spoken v then v else rest

-- A failed acquisition without a value says "unknown_error".
abbrev pub or_unknown : AcquisitionStatus → Value → Value
or_unknown status v = if is_failed status && is_null v then str "unknown_error" else v

module _ {W : Type 0} (services : Services W) where
  sanitized : Value → Value
  unfolding sanitize_sensitive_text
  sanitized v =
      if is_null v
      then null
      else str (sanitize_sensitive_text services.redact (services.value_text v) (some 500))

  -- `_attempt_diagnostic_fields`: the entries that have a value.
  unfoldable pub attempt_diagnostic_fields : BaseFamilyExecutionResult → Option String → Dict
  unfolding get collect first_spoken sanitized
  attempt_diagnostic_fields result execution_failure_reason =
      let observability = result.retrieval_trace.observability in
      let attempt_error_info = value_or (str_value result.error_info) (
        value_or (get observability "attempt_error_info")
          (first_spoken result.retrieval_trace.errors)) in
      let failure_reason =
        value_or (get observability "failure_reason") (str_value execution_failure_reason) in
      collect (λ k v. not (is_null v)) empty
        (entry "failure_stage" (get observability "failure_stage") (
          entry "failure_reason" (or_unknown result.acquisition_status failure_reason) (
            entry "error_category"
              (or_unknown result.acquisition_status (get observability "error_category"))
              (entry "attempt_error_info" (sanitized attempt_error_info) (
                entry "provider_http_status" (get observability "provider_http_status") (
                  entry "retryable" (get observability "retryable") (
                    entry "retry_after_seconds" (get observability "retry_after_seconds")
                      (entry "exception_type" (get observability "exception_type") empty))))))))

  -- `_attempt_trace`
  unfoldable pub attempt_trace :
      FamilyName
      → RetrievalQueryGenerationResult
      → BaseFamilyExecutionResult
      → RequestCompletionEvaluationResult
      → Option String
      → ℕ
      → Bool
      → Dict
  unfolding attempt_diagnostic_fields update
  attempt_trace family query result evaluation reason retry_count fallback_applied =
      update
        (entry "selected_family" (str (family_value family)) (
          entry "selected_tool" (str_value result.selected_tool) (
            entry "generated_query" (str_value query.generated_query) (
              entry "query_focus" (str_value query.query_focus) (
                entry "acquisition_status" (str (acquisition_value result.acquisition_status)) (
                  entry "evaluation_status"
                    (str (evaluation_status_value evaluation.evaluation_status))
                    (entry "recovery_action" (action_value evaluation.recovery_action) (
                      entry "next_step_hint" (hint_value evaluation.next_step_hint) (
                        entry "retry_count" (nat_value retry_count)
                          (entry "fallback_applied" (bool fallback_applied) empty))))))))))
        (attempt_diagnostic_fields result reason)

  unfoldable pub record_present :
      ToolExecutionLayerRunState
      → Option FamilyName
      → Option RetrievalQueryGenerationResult
      → Option BaseFamilyExecutionResult
      → Option RequestCompletionEvaluationResult
      → Option String
      → ToolExecutionLayerRunState
  unfolding attempt_trace
  record_present state (some family) (some query) (some result) (some evaluation) reason =
      record state {
        attempts =
            state.attempts
            ++ attempt_trace family query result evaluation reason
                (state.retry_counts_by_family family) state.fallback_applied
              ∷ [];
      }
  record_present state _ _ _ _ reason = state

  -- `_record_attempt`
  unfoldable pub record_attempt :
      ToolExecutionLayerRunState → ToolExecutionLayerAttemptOutcome → ToolExecutionLayerRunState
  unfolding record_present
  record_attempt state outcome =
      record_present state outcome.selected_family outcome.query_generation_result
        outcome.family_result outcome.evaluation_result outcome.execution_failure_reason
