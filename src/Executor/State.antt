-- ===== src/Executor/State.antt =====
-- The state of a research run (app/services/executor/models): the coverage map, the iteration under
-- way and what accumulates over the iterations.
use vertical_ai_research_act.Prelude.{
  ℕ, String, Bool, Option, none, some, List, [], ◌∷◌, string_eq, ◌==◌, if◌then◌else◌,
}
use vertical_ai_research_act.Prelude.Result.{Result, ok, raised, value_error}
use vertical_ai_research_act.Domain.Enums.{FamilyName}
use vertical_ai_research_act.Domain.Retrieval.{NormalizedRetrievalItem, RecentRetrievalAttempt}
use vertical_ai_research_act.Domain.Requests.{ToolExecutionLayerRequest, ToolExecutionLayerResult}
use vertical_ai_research_act.Domain.Evidence.{
  EvidenceProcessingRequest, EvidenceProcessingResult, ProcessedEvidenceUnit,
}
use vertical_ai_research_act.Executor.Enums.{
  ResearchActionMode, ResearchCoverageStatus, ResearchCoverageTargetType, ResearchEvidenceGain,
  ResearchFindingProgress, ResearchIterationOutcome, ResearchResidualUncertainty,
  ResearchTopGapProgress,
}
use vertical_ai_research_act.Executor.Payloads.{
  LlmResearchAssessmentPayload, LlmResearchGapPayload, LlmNextEvidenceNeedPayload,
}

pub record EvidenceCoverageEntry : Type 0 where
  pub target_type : ResearchCoverageTargetType
  pub target_text : String
  pub coverage_status : ResearchCoverageStatus
  pub retrieved_evidence_keys : List String
  pub supporting_evidence_keys : List String
  pub uncovered_aspects : List String
  pub coverage_summary : String

-- The dictionary from target keys to entries, in insertion order.
abbrev pub EvidenceCoverageMap : Type 0
EvidenceCoverageMap = List (String × EvidenceCoverageEntry)

-- `list(coverage_map)`
abbrev pub target_keys : EvidenceCoverageMap → List String
target_keys [] = []
target_keys ((k, e) ∷ entries) = k ∷ target_keys entries

-- `coverage_map.get(key)`
unfoldable pub find_entry : EvidenceCoverageMap → String → Option EvidenceCoverageEntry
find_entry [] key = none
find_entry ((k, e) ∷ entries) key = if k == key then some e else find_entry entries key

-- `coverage_map[key] = entry`: a key that is there keeps its place.
unfoldable pub put_entry :
    EvidenceCoverageMap → String → EvidenceCoverageEntry → EvidenceCoverageMap
put_entry [] key entry = (key, entry) ∷ []
put_entry ((k, e) ∷ entries) key entry =
    if k == key then (k, entry) ∷ entries else (k, e) ∷ put_entry entries key entry

pub record ResearchIterationEvaluationState : Type 0 where
  pub short_circuit_reason : Option String
  pub top_gap_progress : Option ResearchTopGapProgress
  pub evidence_gain : Option ResearchEvidenceGain
  pub finding_progress : Option ResearchFindingProgress
  pub residual_uncertainty : Option ResearchResidualUncertainty

pub record ResearchExecutorIterationState : Type 0 where
  pub iteration_index : ℕ
  pub remaining_iteration_budget : ℕ
  pub action_mode : Option ResearchActionMode
  pub preferred_family : Option FamilyName
  pub retrieval_query : Option String
  pub action_rationale : Option String
  pub tool_execution_request : Option ToolExecutionLayerRequest
  pub tool_execution_result : Option ToolExecutionLayerResult
  pub candidate_materials : List NormalizedRetrievalItem
  pub evidence_processing_request : Option EvidenceProcessingRequest
  pub evidence_processing_result : Option EvidenceProcessingResult
  pub processed_evidence_units : List ProcessedEvidenceUnit
  pub evaluation_state : Option ResearchIterationEvaluationState
  pub proposed_iteration_outcome : Option ResearchIterationOutcome
  pub iteration_outcome : Option ResearchIterationOutcome
  pub outcome_rationale : Option String
  pub outcome_decision_source : Option String
  pub outcome_guardrail_applied : Bool

pub record ResearchExecutorRunState : Type 0 where
  pub evidence_coverage_map : EvidenceCoverageMap
  pub processed_evidence_units : List ProcessedEvidenceUnit
  pub current_assessment : Option LlmResearchAssessmentPayload
  pub identified_gaps : List LlmResearchGapPayload
  pub top_gap : Option LlmResearchGapPayload
  pub next_evidence_need : Option LlmNextEvidenceNeedPayload
  pub prioritization_summary : Option String
  pub intermediate_findings : List String
  pub finding_caveats : List String
  pub recent_retrieval_attempts : List RecentRetrievalAttempt
  pub tool_execution_results : List ToolExecutionLayerResult
  pub evidence_processing_results : List EvidenceProcessingResult
  pub current_iteration : Option ResearchExecutorIterationState

unfoldable pub require_current_iteration :
    ResearchExecutorRunState → Result ResearchExecutorIterationState
require_current_iteration state = elim state.current_iteration [
  | none ↦ raised (value_error "current_iteration is required for this research step.")
  | some iteration ↦ ok iteration
]
