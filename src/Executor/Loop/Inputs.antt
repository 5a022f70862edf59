-- ===== src/Executor/Loop/Inputs.antt =====
-- The states and inputs that the executor builds for its collaborators.
use vertical_ai_research_act.Prelude.{
  ℕ, suc, ◌-◌, String, false, Option, none, some, List, [], filter, is_none, dedupe, if◌then◌else◌,
}
use vertical_ai_research_act.Prelude.Result.{Result, ok, raised, value_error}
use vertical_ai_research_act.Domain.Enums.{FamilyName, family_eq}
use vertical_ai_research_act.Domain.ResearchStage.{ResearchStageInput}
use vertical_ai_research_act.Executor.Enums.{ResearchActionMode}
use vertical_ai_research_act.Executor.Payloads.{
  LlmResearchGapPayload, LlmNextEvidenceNeedPayload, is_external_family,
}
use vertical_ai_research_act.Executor.State.{
  EvidenceCoverageMap, ResearchExecutorIterationState, ResearchExecutorRunState,
}
use vertical_ai_research_act.Executor.Support.{max_iterations}
use vertical_ai_research_act.Executor.Collaborators.{ResearchStateAssessorInput}
use vertical_ai_research_act.Executor.Assessor.{ResearchStateAssessorOutput}
use vertical_ai_research_act.Executor.Acquirer.{ResearchMaterialAcquireInput}

-- `_effective_available_families`: `list(dict.fromkeys(...))`, without the recall of research
-- knowledge when there is no owner.
unfoldable pub effective_available_families : ResearchStageInput → List FamilyName
unfolding dedupe filter
effective_available_families stage_input =
    let families = dedupe stage_input.available_families in
    if is_none stage_input.owner_user_id then filter is_external_family families else families

-- The state that `execute` begins with.
unfoldable pub initial_run_state :
    ResearchStageInput → EvidenceCoverageMap → ResearchExecutorRunState
initial_run_state stage_input coverage = record {
  evidence_coverage_map = coverage;
  processed_evidence_units = [];
  current_assessment = none;
  identified_gaps = [];
  top_gap = none;
  next_evidence_need = none;
  prioritization_summary = none;
  intermediate_findings = stage_input.existing_intermediate_findings;
  finding_caveats = [];
  recent_retrieval_attempts = [];
  tool_execution_results = [];
  evidence_processing_results = [];
  current_iteration = none;
}

-- The iteration after `count` of them.
unfoldable pub new_iteration : ResearchStageInput → ℕ → ResearchExecutorIterationState
unfolding max_iterations
new_iteration stage_input count = record {
  iteration_index = suc count;
  remaining_iteration_budget = max_iterations stage_input - count;
  action_mode = none;
  preferred_family = none;
  retrieval_query = none;
  action_rationale = none;
  tool_execution_request = none;
  tool_execution_result = none;
  candidate_materials = [];
  evidence_processing_request = none;
  evidence_processing_result = none;
  processed_evidence_units = [];
  evaluation_state = none;
  proposed_iteration_outcome = none;
  iteration_outcome = none;
  outcome_rationale = none;
  outcome_decision_source = none;
  outcome_guardrail_applied = false;
}

-- The snapshot that the assessor gets.
unfoldable pub assessor_input :
    ResearchStageInput
    → ResearchExecutorRunState
    → ResearchExecutorIterationState
    → ResearchStateAssessorInput
unfolding effective_available_families
assessor_input stage_input state iteration = record {
  original_query = stage_input.original_query;
  task_type = stage_input.task_type;
  user_goal = stage_input.user_goal;
  task_framing = stage_input.task_framing;
  constraints = stage_input.constraints;
  project_context_summary = stage_input.project_context_summary;
  current_bottleneck_summary = stage_input.current_bottleneck_summary;
  active_decision_summary = stage_input.active_decision_summary;
  current_action_status = stage_input.current_action_status;
  plan = stage_input.plan;
  sub_questions = stage_input.sub_questions;
  comparison_candidates = stage_input.comparison_candidates;
  initial_evidence_strategy = stage_input.initial_evidence_strategy;
  research_support = stage_input.research_support;
  decision_support = stage_input.decision_support;
  action_support = stage_input.action_support;
  iteration_index = iteration.iteration_index;
  remaining_iteration_budget = iteration.remaining_iteration_budget;
  latency_budget_ms = stage_input.latency_budget_ms;
  available_families = effective_available_families stage_input;
  processed_evidence_units = state.processed_evidence_units;
  evidence_coverage_map = state.evidence_coverage_map;
  intermediate_findings = state.intermediate_findings;
  identified_gaps = state.identified_gaps;
  top_gap = state.top_gap;
  next_evidence_need = state.next_evidence_need;
  recent_retrieval_attempts = state.recent_retrieval_attempts;
}

-- What the assessment writes.
unfoldable pub assessed_state :
    ResearchExecutorRunState
    → ResearchExecutorIterationState
    → ResearchStateAssessorOutput
    → ResearchExecutorRunState
assessed_state state iteration output = record state {
  current_assessment = some output.assessment;
  identified_gaps = output.identified_gaps;
  top_gap = some output.top_gap;
  next_evidence_need = some output.next_evidence_need;
  evidence_coverage_map = output.evidence_coverage_map;
  prioritization_summary = some output.prioritization_summary;
  current_iteration = some (record iteration {
    action_mode = some output.action_mode;
    preferred_family = output.preferred_family;
    retrieval_query = output.retrieval_query;
    action_rationale = some output.action_rationale;
  });
}

-- The input of an acquisition, from the parts that the assessment must have left.
unfoldable pub acquire_input :
    ResearchStageInput
    → ResearchExecutorRunState
    → ResearchExecutorIterationState
    → Result ResearchMaterialAcquireInput
unfolding effective_available_families
acquire_input stage_input state iteration =
    acquire_input_of iteration.action_mode iteration.preferred_family iteration.retrieval_query
      state.top_gap state.next_evidence_need
  where
    acquire_input_of :
        Option ResearchActionMode
        → Option FamilyName
        → Option String
        → Option LlmResearchGapPayload
        → Option LlmNextEvidenceNeedPayload
        → Result ResearchMaterialAcquireInput
    acquire_input_of (some mode) (some family) (some query) (some gap) (some need) = ok (record {
      original_query = stage_input.original_query;
      user_goal = stage_input.user_goal;
      task_framing = stage_input.task_framing;
      owner_user_id = stage_input.owner_user_id;
      project_scope_id = stage_input.project_scope_id;
      latency_budget_ms = stage_input.latency_budget_ms;
      iteration_index = iteration.iteration_index;
      action_mode = mode;
      preferred_family = family;
      retrieval_query = query;
      available_families = effective_available_families stage_input;
      top_gap = gap;
      next_evidence_need = need;
      recent_retrieval_attempts = state.recent_retrieval_attempts;
    })
    acquire_input_of (some mode) (some family) (some query) _ _ =
        raised (value_error "assessment decision is required before material acquisition.")
    acquire_input_of _ _ _ _ _ = raised (
        value_error
          "assessment action, preferred family, and query are required before material acquisition.")
