-- ===== src/Domain/Requests.antt =====
-- The requests and results of the tool execution layer and its sub-services
-- (app/domain/models/tool_execution_layer).
use package.vertical_ai_research_act.Prelude.{
  ℕ, String, Bool, Option, none, some, List, string_eq, ◌==◌, if◌then◌else◌,
}
use package.vertical_ai_research_act.Prelude.Int.{ℤ}
use package.vertical_ai_research_act.Domain.Enums.{FamilyName, AcquisitionStatus, ActionMode}
use package.vertical_ai_research_act.Domain.Value.{Float, Dict}
use package.vertical_ai_research_act.Domain.Retrieval.{
  NormalizedRetrievalItem, RecentRetrievalAttempt,
}
use package.vertical_ai_research_act.Domain.Retrieval.SourceSummary.{RetrievalSourceSummary}
use package.vertical_ai_research_act.Domain.Retrieval.ExecutionSummary.{RetrievalExecutionSummary}
use package.vertical_ai_research_act.Domain.Retrieval.Trace.{RetrievalTrace}
use package.vertical_ai_research_act.Domain.Families.{BaseFamilyExecutionResult}

pub data DesiredEvidenceKind : Type 0 where
  direct_fact supporting_evidence disambiguating_evidence comparison_evidence status_evidence :
      DesiredEvidenceKind

abbrev pub kind_value : DesiredEvidenceKind → String
kind_value direct_fact = "direct_fact"
kind_value supporting_evidence = "supporting_evidence"
kind_value disambiguating_evidence = "disambiguating_evidence"
kind_value comparison_evidence = "comparison_evidence"
kind_value status_evidence = "status_evidence"

pub data FreshnessRequirement : Type 0 where
  normal_freshness fresh_preferred fresh_required : FreshnessRequirement

abbrev pub freshness_value : FreshnessRequirement → String
freshness_value normal_freshness = "normal"
freshness_value fresh_preferred = "fresh_preferred"
freshness_value fresh_required = "fresh_required"

pub data EvidenceBreadth : Type 0 where
  narrow normal_breadth broad : EvidenceBreadth

abbrev pub breadth_value : EvidenceBreadth → String
breadth_value narrow = "narrow"
breadth_value normal_breadth = "normal"
breadth_value broad = "broad"

pub record EvidenceShape : Type 0 where
  pub desired_evidence_kind : DesiredEvidenceKind
  pub freshness_requirement : FreshnessRequirement
  pub breadth : EvidenceBreadth

pub record FamilySelectionRequest : Type 0 where
  pub target_problem : String
  pub action_mode : ActionMode
  pub evidence_goal : Option String
  pub evidence_shape : Option EvidenceShape
  pub task_type : Option String
  pub task_framing : Option String
  pub evidence_strategy : Option String
  pub allowed_source_families : List FamilyName
  pub preferred_source_families : List FamilyName
  pub blocked_source_families : List FamilyName
  pub available_families : List FamilyName

pub data SelectionStatus : Type 0 where
  selected no_match selection_failed : SelectionStatus

abbrev pub selection_status_value : SelectionStatus → String
selection_status_value selected = "selected"
selection_status_value no_match = "no_match"
selection_status_value selection_failed = "failed"

pub record FamilySelectionResult : Type 0 where
  pub candidate_families : List FamilyName
  pub ranked_candidate_families : List FamilyName
  pub selected_family : Option FamilyName
  pub selection_status : SelectionStatus
  pub selection_summary : Dict
  pub selection_trace : Dict
  pub error_info : Option String

pub record RetrievalQueryGenerationRequest : Type 0 where
  pub selected_family : FamilyName
  pub target_problem : String
  pub evidence_goal : Option String
  pub evidence_shape : Option EvidenceShape
  pub success_hint : Option String
  pub task_framing : Option String
  pub recent_low_value_queries : List String

pub data GenerationStatus : Type 0 where
  succeeded generation_failed : GenerationStatus

abbrev pub generation_status_value : GenerationStatus → String
generation_status_value succeeded = "succeeded"
generation_status_value generation_failed = "failed"

pub record RetrievalQueryGenerationResult : Type 0 where
  pub selected_family : Option FamilyName
  pub generated_query : Option String
  pub query_focus : Option String
  pub preserved_terms : List String
  pub generation_status : GenerationStatus
  pub generation_summary : Dict
  pub generation_trace : Dict
  pub error_info : Option String

pub data FailureReason : Type 0 where
  timeout tool_error rate_limited malformed_response tool_unavailable auth_error invalid_request
        unknown_error :
      FailureReason

-- `FailureReason` validation: any other text is refused.
abbrev pub failure_reason_of : String → Option FailureReason
failure_reason_of s =
    if s == "timeout"
    then some timeout
    else if s == "tool_error"
    then some tool_error
    else if s == "rate_limited"
    then some rate_limited
    else if s == "malformed_response"
    then some malformed_response
    else if s == "tool_unavailable"
    then some tool_unavailable
    else if s == "auth_error"
    then some auth_error
    else if s == "invalid_request"
    then some invalid_request
    else if s == "unknown_error"
    then some unknown_error
    else none

abbrev pub failure_reason_value : FailureReason → String
failure_reason_value timeout = "timeout"
failure_reason_value tool_error = "tool_error"
failure_reason_value rate_limited = "rate_limited"
failure_reason_value malformed_response = "malformed_response"
failure_reason_value tool_unavailable = "tool_unavailable"
failure_reason_value auth_error = "auth_error"
failure_reason_value invalid_request = "invalid_request"
failure_reason_value unknown_error = "unknown_error"

pub data FallbackPolicy : Type 0 where
  no_fallback fallback_within_same_family fallback_to_broader_search : FallbackPolicy

abbrev pub fallback_policy_value : FallbackPolicy → String
fallback_policy_value no_fallback = "no_fallback"
fallback_policy_value fallback_within_same_family = "fallback_within_same_family"
fallback_policy_value fallback_to_broader_search = "fallback_to_broader_search"

pub record RequestCompletionEvaluationRequest : Type 0 where
  pub target_problem : String
  pub selected_family : FamilyName
  pub generated_query : Option String
  pub execution_outcome : BaseFamilyExecutionResult
  pub failure_reason : Option FailureReason
  pub continuation_available : Bool
  pub retry_budget : ℤ
  pub retry_count : ℤ
  pub fallback_policy : FallbackPolicy
  pub fallback_applied : Bool
  pub max_results : Option ℤ
  pub timeout_limit_ms : Option ℤ
  pub request_elapsed_ms : Option ℤ
  pub available_families : List FamilyName
  pub allowed_source_families : List FamilyName
  pub blocked_source_families : List FamilyName

pub data EvaluationStatus : Type 0 where
  evaluated evaluation_failed : EvaluationStatus

abbrev pub evaluation_status_value : EvaluationStatus → String
evaluation_status_value evaluated = "evaluated"
evaluation_status_value evaluation_failed = "failed"

pub data RequestCompletionStatus : Type 0 where
  complete incomplete_recoverable incomplete_unrecoverable : RequestCompletionStatus

abbrev pub completion_status_value : RequestCompletionStatus → String
completion_status_value complete = "complete"
completion_status_value incomplete_recoverable = "incomplete_recoverable"
completion_status_value incomplete_unrecoverable = "incomplete_unrecoverable"

pub data RecoveryAction : Type 0 where
  continue retry_same_tool fallback stop : RecoveryAction

abbrev pub recovery_action_value : RecoveryAction → String
recovery_action_value continue = "continue"
recovery_action_value retry_same_tool = "retry_same_tool"
recovery_action_value fallback = "fallback"
recovery_action_value stop = "stop"

pub data NextStepHint : Type 0 where
  hint_none hint_continue hint_retry hint_same_family hint_broader hint_stop : NextStepHint

abbrev pub next_step_value : NextStepHint → String
next_step_value hint_none = "none"
next_step_value hint_continue = "continue_current_request"
next_step_value hint_retry = "retry_same_tool"
next_step_value hint_same_family = "fallback_within_same_family"
next_step_value hint_broader = "fallback_to_broader_search"
next_step_value hint_stop = "stop_request"

pub record RequestCompletionEvaluationResult : Type 0 where
  pub evaluation_status : EvaluationStatus
  pub request_completion_status : Option RequestCompletionStatus
  pub request_completed : Bool
  pub needs_recovery : Bool
  pub recovery_action : Option RecoveryAction
  pub recovery_reason : Option String
  pub next_step_hint : Option NextStepHint
  pub evaluation_summary : Dict
  pub evaluation_trace : Dict
  pub error_info : Option String

-- A field declared `ge=0`, `ge=1` or `gt=0` is a natural number; that 0 is refused for some of them
-- is not part of the record.
pub record ToolExecutionLayerRequest : Type 0 where
  pub target_problem : String
  pub action_mode : ActionMode
  pub evidence_goal : Option String
  pub evidence_shape : Option EvidenceShape
  pub task_framing : Option String
  pub allowed_source_families : List FamilyName
  pub preferred_source_families : List FamilyName
  pub blocked_source_families : List FamilyName
  pub available_families : List FamilyName
  pub success_hint : Option String
  pub provided_query : Option String
  pub recent_low_value_queries : List String
  pub recent_retrieval_attempts : List RecentRetrievalAttempt
  pub preferred_tool : Option String
  pub source_names : List String
  pub include_domains : List String
  pub exclude_domains : List String
  pub max_search_results : ℕ
  pub max_content_fetches : ℕ
  pub min_score_threshold : Float
  pub owner_user_id : Option String
  pub query_embedding : Option (List Float)
  pub project_scope_id : Option String
  pub allowed_visibility_scopes : List String
  pub knowledge_types : List String
  pub topic_tags : List String
  pub source_types : List String
  pub memory_recall_limit : ℕ
  pub retry_budget : ℕ
  pub fallback_policy : FallbackPolicy
  pub timeout_limit_ms : Option ℕ

pub data ExecutionStatus : Type 0 where
  completed execution_failed : ExecutionStatus

abbrev pub execution_status_value : ExecutionStatus → String
execution_status_value completed = "completed"
execution_status_value execution_failed = "failed"

pub record ToolExecutionLayerResult : Type 0 where
  pub execution_status : ExecutionStatus
  pub normalized_items : List NormalizedRetrievalItem
  pub acquisition_status : AcquisitionStatus
  pub dropped_item_count : ℕ
  pub source_summary : RetrievalSourceSummary
  pub execution_summary : RetrievalExecutionSummary
  pub retrieval_trace : RetrievalTrace
  pub error_info : Option String
