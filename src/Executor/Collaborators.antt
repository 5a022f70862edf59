-- ===== src/Executor/Collaborators.antt =====
-- The services outside the executor that its steps await, as actions over a world. An answer of the
-- language model is given as the record that pydantic reads from it, before the program's own
-- validator; the prompt is made from the arguments.
use vertical_ai_research_act.Prelude.{ℕ, String, Option, List}
use vertical_ai_research_act.Prelude.Int.{ℤ}
use vertical_ai_research_act.Prelude.Act.{Act}
use vertical_ai_research_act.Domain.Enums.{FamilyName}
use vertical_ai_research_act.Domain.Retrieval.{SourceReference, RecentRetrievalAttempt}
use vertical_ai_research_act.Domain.Requests.{ToolExecutionLayerRequest, ToolExecutionLayerResult}
use vertical_ai_research_act.Domain.Evidence.{
  EvidenceProcessingRequest, EvidenceProcessingResult, ProcessedEvidenceUnit,
}
use vertical_ai_research_act.Domain.ResearchStage.{ContextItem, ResearchStageInput}
use vertical_ai_research_act.Executor.Payloads.{
  LlmResearchGapPayload, LlmNextEvidenceNeedPayload, LlmResearchAssessmentAndGapsPayload,
  LlmIntermediateFindingsPayload, LlmIterationOutcomePayload,
}
use vertical_ai_research_act.Executor.State.{EvidenceCoverageMap, ResearchExecutorRunState}

pub record ResearchStateAssessorInput : Type 0 where
  pub original_query : String
  pub task_type : Option String
  pub user_goal : Option String
  pub task_framing : Option String
  pub constraints : List String
  pub project_context_summary : Option String
  pub current_bottleneck_summary : Option String
  pub active_decision_summary : Option String
  pub current_action_status : Option String
  pub plan : List String
  pub sub_questions : List String
  pub comparison_candidates : List String
  pub initial_evidence_strategy : List String
  pub research_support : List ContextItem
  pub decision_support : List ContextItem
  pub action_support : List ContextItem
  pub iteration_index : ℕ
  pub remaining_iteration_budget : ℕ
  pub latency_budget_ms : Option ℤ
  pub available_families : List FamilyName
  pub processed_evidence_units : List ProcessedEvidenceUnit
  pub evidence_coverage_map : EvidenceCoverageMap
  pub intermediate_findings : List String
  pub identified_gaps : List LlmResearchGapPayload
  pub top_gap : Option LlmResearchGapPayload
  pub next_evidence_need : Option LlmNextEvidenceNeedPayload
  pub recent_retrieval_attempts : List RecentRetrievalAttempt

pub record Collaborators (W : Type 0) : Type 0 where
  pub answer_assessment : ResearchStateAssessorInput → Act W LlmResearchAssessmentAndGapsPayload
  pub execute_tools : ToolExecutionLayerRequest → Act W ToolExecutionLayerResult
  pub process_evidence : EvidenceProcessingRequest → Act W EvidenceProcessingResult
  pub answer_findings :
      ResearchStageInput → ResearchExecutorRunState → Act W LlmIntermediateFindingsPayload
  pub answer_outcome :
      ResearchStageInput → ResearchExecutorRunState → Act W LlmIterationOutcomePayload
  -- the hash of a query
  pub fingerprint : String → String
  -- `json.dumps` of a reference
  pub json_text : SourceReference → String
