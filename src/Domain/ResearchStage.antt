-- ===== src/Domain/ResearchStage.antt =====
-- What goes into a research stage and what comes out of it (app/domain/models/research_stage).
use package.vertical_ai_research_act.Prelude.{ℕ, String, Bool, Option, List}
use package.vertical_ai_research_act.Prelude.Int.{ℤ}
use package.vertical_ai_research_act.Domain.Enums.{FamilyName}
use package.vertical_ai_research_act.Domain.Retrieval.{SourceReference}

pub record ContextItem : Type 0 where
  pub id : String
  pub source_type : String
  pub scope_id : Option String
  pub summary : String
  pub priority : ℤ
  pub freshness_tag : Option String
  pub confidence : Option String
  pub can_assimilate_to_state : Bool
  pub usage_hint : Option String

pub record ResearchStageInput : Type 0 where
  pub original_query : String
  pub task_type : Option String
  pub user_goal : Option String
  pub task_framing : Option String
  pub constraints : List String
  pub project_scope_id : Option String
  pub owner_user_id : Option String
  pub project_context_summary : Option String
  pub plan : List String
  pub sub_questions : List String
  pub comparison_candidates : List String
  pub initial_evidence_strategy : List String
  pub active_decision_summary : Option String
  pub current_action_status : Option String
  pub current_bottleneck_summary : Option String
  pub existing_intermediate_findings : List String
  pub research_support : List ContextItem
  pub decision_support : List ContextItem
  pub action_support : List ContextItem
  pub available_families : List FamilyName
  pub latency_budget_ms : Option ℤ
  pub iteration_budget : Option ℤ

pub data ResearchStageStatus : Type 0 where
  completed partial_success no_result failed : ResearchStageStatus

pub record ResearchStageResult : Type 0 where
  pub research_status : ResearchStageStatus
  pub retrieved_evidence_refs : List SourceReference
  pub evidence_summary : Option String
  pub intermediate_findings : List String
  pub open_questions : List String
  pub executed_iteration_count : ℕ
  pub error_info : Option String
