-- ===== src/Tests/ExecutorData.antt =====
-- A research stage and collaborators for the runs of the executor.
use vertical_ai_research_act.Prelude.{ℕ, ◌+◌, false, none, some, [], ◌∷◌}
use vertical_ai_research_act.Prelude.Int.{pos}
use vertical_ai_research_act.Prelude.Result.{ok}
use vertical_ai_research_act.Domain.Enums.{web_search, docs_search}
use vertical_ai_research_act.Domain.Value.{empty}
use vertical_ai_research_act.Domain.Evidence.{
  EvidenceProcessingResult, ProcessedEvidenceUnit, direct_fact, processed,
}
use vertical_ai_research_act.Domain.ResearchStage.{ResearchStageInput}
use vertical_ai_research_act.Executor.Enums.{
  external_acquisition, not_covered, partially_covered, weak_support, tentative, objective_level,
  missing, important, establish_coverage, fresh_preferred, moderate_support_required, not_advanced,
  failed_acquisition, no_material_change, high, continue, objective,
}
use vertical_ai_research_act.Executor.Enums
use vertical_ai_research_act.Executor.Payloads.{
  LlmResearchGapPayload, LlmNextEvidenceNeedPayload, LlmResearchAssessmentAndGapsPayload,
  LlmIterationOutcomePayload,
}
use vertical_ai_research_act.Executor.State.{
  EvidenceCoverageEntry, EvidenceCoverageMap, ResearchExecutorIterationState,
  ResearchExecutorRunState,
}
use vertical_ai_research_act.Executor.Collaborators.{Collaborators}
use vertical_ai_research_act.Executor.Acquirer.{ResearchMaterialAcquireInput}
use vertical_ai_research_act.Tests.Data.{no_result}

abbrev pub stage_input : ResearchStageInput
stage_input = record {
  original_query = "which release added the flag";
  task_type = none;
  user_goal = none;
  task_framing = none;
  constraints = [];
  project_scope_id = none;
  owner_user_id = none;
  project_context_summary = none;
  plan = [];
  sub_questions = [];
  comparison_candidates = [];
  initial_evidence_strategy = [];
  active_decision_summary = none;
  current_action_status = none;
  current_bottleneck_summary = none;
  existing_intermediate_findings = [];
  research_support = [];
  decision_support = [];
  action_support = [];
  available_families = docs_search ∷ web_search ∷ [];
  latency_budget_ms = none;
  iteration_budget = some (pos 2);
}

abbrev pub gap : LlmResearchGapPayload
gap = record {
  gap_scope = objective_level;
  gap_nature = missing;
  gap_severity = important;
  gap_summary = "no release is named";
  gap_target = none;
  gap_actionability = none;
}

abbrev pub need : LlmNextEvidenceNeedPayload
need = record {
  need_scope = objective_level;
  need_target = none;
  need_purpose = establish_coverage;
  desired_evidence_kind = Enums.direct_fact;
  freshness_requirement = fresh_preferred;
  minimum_support_requirement = moderate_support_required;
  need_summary = "the release notes";
  coverage_target_key = "objective";
}

-- An assessment that asks for a web search.
abbrev pub assessment_answer : LlmResearchAssessmentAndGapsPayload
assessment_answer = record {
  assessment = record {
    coverage_status = not_covered;
    support_strength = weak_support;
    finding_maturity = tentative;
    assessment_summary = "nothing is known yet";
  };
  identified_gaps = gap ∷ [];
  top_gap = gap;
  next_evidence_need = need;
  evidence_coverage_snapshot =
      record {
        target_key = "objective";
        coverage_status = partially_covered;
        supporting_evidence_keys = "iteration_1:a" ∷ [];
        uncovered_aspects = [];
        coverage_summary = "one note found";
      }
      ∷ [];
  prioritization_summary = "the release comes first";
  action_mode = external_acquisition;
  preferred_family = some web_search;
  retrieval_query = some "release notes";
  action_rationale = "the notes are on the web";
}

abbrev pub outcome_answer : LlmIterationOutcomePayload
outcome_answer = record {
  top_gap_progress = not_advanced;
  evidence_gain = failed_acquisition;
  finding_progress = no_material_change;
  residual_uncertainty = high;
  proposed_iteration_outcome = continue;
  proposed_outcome_rationale = "once more";
}

abbrev pub unit : ProcessedEvidenceUnit
unit = record {
  evidence_unit_id = "iteration_1:a";
  source_references = [];
  source_family = some web_search;
  content = "added in 2.1";
  evidence_type = direct_fact;
  target_problem = none;
  target_scope = none;
  evidence_goal = none;
  sub_question = none;
  comparison_candidate = none;
  gap = none;
  metadata = empty;
}

abbrev pub nothing_found : EvidenceProcessingResult
nothing_found = record {
  processed_evidence_units = [];
  evidence_summary = record {
    new_evidence_count = 0;
    evidence_type_breakdown = empty;
    source_coverage_summary = empty;
    metadata = empty;
  };
  evidence_processing_summary = record {
    policy = none;
    input_material_count = 0;
    deduped_material_count = 0;
    removed_duplicate_count = 0;
    exact_duplicate_removed = 0;
    high_overlap_removed = 0;
    dropped_material_count = 0;
    structured_evidence_count = 0;
    merged_evidence_count = 0;
    output_evidence_count = 0;
    llm_invalid_output_count = 0;
    upstream_acquisition_status = none;
    upstream_dropped_item_count = 0;
    short_circuit_reason = none;
    observability = empty;
  };
  processing_status = processed;
  error_info = none;
}

-- Collaborators that answer the same each time; the world counts the calls.
abbrev pub collaborators : Collaborators ℕ
collaborators = record {
  answer_assessment = λ input w. (ok assessment_answer, w + 1);
  execute_tools = λ request w. (ok no_result, w + 1);
  process_evidence = λ request w. (ok nothing_found, w + 1);
  answer_findings = λ input state w.
      (ok (record { intermediate_findings = "a flag" ∷ []; finding_caveats = [] }), w + 1);
  answer_outcome = λ input state w. (ok outcome_answer, w + 1);
  fingerprint = λ s. "f00d";
  json_text = λ r. "json";
}

abbrev pub entry_of_objective : EvidenceCoverageEntry
entry_of_objective = record {
  target_type = objective;
  target_text = "which release added the flag";
  coverage_status = not_covered;
  retrieved_evidence_keys = "iteration_1:a" ∷ [];
  supporting_evidence_keys = [];
  uncovered_aspects = [];
  coverage_summary = "nothing yet";
}

abbrev pub coverage : EvidenceCoverageMap
coverage = ("objective", entry_of_objective) ∷ []

abbrev pub first_iteration : ResearchExecutorIterationState
first_iteration = record {
  iteration_index = 1;
  remaining_iteration_budget = 2;
  action_mode = none;
  preferred_family = none;
  retrieval_query = none;
  action_rationale = none;
  tool_execution_request = none;
  tool_execution_result = none;
  candidate_materials = [];
  evidence_processing_request = none;
  evidence_processing_result = none;
  processed_evidence_units = [];
  evaluation_state = none;
  proposed_iteration_outcome = none;
  iteration_outcome = none;
  outcome_rationale = none;
  outcome_decision_source = none;
  outcome_guardrail_applied = false;
}

abbrev pub first_state : ResearchExecutorRunState
first_state = record {
  evidence_coverage_map = coverage;
  processed_evidence_units = unit ∷ [];
  current_assessment = none;
  identified_gaps = [];
  top_gap = some gap;
  next_evidence_need = some need;
  prioritization_summary = none;
  intermediate_findings = [];
  finding_caveats = [];
  recent_retrieval_attempts = [];
  tool_execution_results = [];
  evidence_processing_results = [];
  current_iteration = some first_iteration;
}

abbrev pub search_input : ResearchMaterialAcquireInput
search_input = record {
  original_query = "which release added the flag";
  user_goal = none;
  task_framing = none;
  owner_user_id = none;
  project_scope_id = none;
  latency_budget_ms = none;
  iteration_index = 1;
  action_mode = external_acquisition;
  preferred_family = web_search;
  retrieval_query = "release notes";
  available_families = docs_search ∷ web_search ∷ [];
  top_gap = gap;
  next_evidence_need = need;
  recent_retrieval_attempts = [];
}
