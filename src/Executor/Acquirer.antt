-- ===== src/Executor/Acquirer.antt =====
-- The material acquirer (app/services/executor/research_material_acquirer.py): requests to the tool
-- execution layer and to evidence processing.
pub mod Wiring
use vertical_ai_research_act.Prelude.{
  ℕ, String, ◌<>◌, Option, none, some, List, [], ◌∷◌, ◌++◌, map, filter, if◌then◌else◌,
}
use vertical_ai_research_act.Prelude.Int.{ℤ, pos}
use vertical_ai_research_act.Prelude.Result.{Result, ok, raised, value_error, ◌>>=◌}
use vertical_ai_research_act.Prelude.Act
use vertical_ai_research_act.Prelude.Act.{Act}
use vertical_ai_research_act.Text.{is_given, text_or}
use vertical_ai_research_act.Text.Decimal.{decimal}
use vertical_ai_research_act.Domain.Enums.{FamilyName, research_knowledge_recall, ActionMode}
use vertical_ai_research_act.Domain.Enums
use vertical_ai_research_act.Domain.Retrieval.{NormalizedRetrievalItem, RecentRetrievalAttempt}
use vertical_ai_research_act.Domain.Requests
use vertical_ai_research_act.Domain.Requests.{
  EvidenceShape, FallbackPolicy, fallback_within_same_family, fallback_to_broader_search,
  ToolExecutionLayerRequest, ToolExecutionLayerResult,
}
use vertical_ai_research_act.Domain.Evidence.{
  EvidenceProcessingResult, ProcessedEvidenceUnit, from_tool_execution_result,
}
use vertical_ai_research_act.Executor.Enums.{
  ResearchActionMode, refine_from_existing_state, memory_backed_acquisition, external_acquisition,
  is_memory_backed, ResearchDesiredEvidenceKind, direct_fact, stronger_supporting_evidence,
  disambiguating_evidence, comparison_evidence, fresh_status_evidence, decision_supporting_evidence,
  no_evidence_kind, ResearchFreshnessRequirement, normal, fresh_preferred, fresh_required,
  no_freshness, purpose_value,
}
use vertical_ai_research_act.Executor.Payloads.{
  LlmResearchGapPayload, LlmNextEvidenceNeedPayload, is_external_family,
}
use vertical_ai_research_act.Executor.State.{
  ResearchExecutorIterationState, ResearchExecutorRunState, require_current_iteration,
}
use vertical_ai_research_act.Executor.Support.{required_text, positive_optional_int}
use vertical_ai_research_act.Executor.RetrievalHistory.{attempts_for_target}
use vertical_ai_research_act.Executor.Collaborators.{Collaborators}

pub record ResearchMaterialAcquireInput : Type 0 where
  pub original_query : String
  pub user_goal : Option String
  pub task_framing : Option String
  pub owner_user_id : Option String
  pub project_scope_id : Option String
  pub latency_budget_ms : Option ℤ
  pub iteration_index : ℕ
  pub action_mode : ResearchActionMode
  pub preferred_family : FamilyName
  pub retrieval_query : String
  pub available_families : List FamilyName
  pub top_gap : LlmResearchGapPayload
  pub next_evidence_need : LlmNextEvidenceNeedPayload
  pub recent_retrieval_attempts : List RecentRetrievalAttempt

pub record ResearchMaterialAcquireOutput : Type 0 where
  pub tool_execution_request : ToolExecutionLayerRequest
  pub tool_execution_result : ToolExecutionLayerResult
  pub candidate_materials : List NormalizedRetrievalItem

-- `_tel_action_mode`
unfoldable pub tel_action_mode : ResearchActionMode → Result ActionMode
tel_action_mode memory_backed_acquisition = ok Enums.memory_backed_acquisition
tel_action_mode external_acquisition = ok Enums.external_acquisition
tel_action_mode refine_from_existing_state = raised (
    value_error
      "Unsupported acquisition action mode: <ResearchActionMode.REFINE_FROM_EXISTING_STATE: 'refine_from_existing_state'>.")

-- `_tel_desired_evidence_kind`
unfoldable pub tel_desired_evidence_kind :
    ResearchDesiredEvidenceKind → Result Requests.DesiredEvidenceKind
tel_desired_evidence_kind direct_fact = ok Requests.direct_fact
tel_desired_evidence_kind stronger_supporting_evidence = ok Requests.supporting_evidence
tel_desired_evidence_kind disambiguating_evidence = ok Requests.disambiguating_evidence
tel_desired_evidence_kind comparison_evidence = ok Requests.comparison_evidence
tel_desired_evidence_kind fresh_status_evidence = ok Requests.status_evidence
tel_desired_evidence_kind decision_supporting_evidence = ok Requests.supporting_evidence
tel_desired_evidence_kind no_evidence_kind = raised (
    value_error (
      "desired_evidence_kind must identify an acquisition evidence kind "
      <> "before entering Tool Execution Layer."))

abbrev tel_freshness : ResearchFreshnessRequirement → Requests.FreshnessRequirement
tel_freshness normal = Requests.normal_freshness
tel_freshness fresh_preferred = Requests.fresh_preferred
tel_freshness fresh_required = Requests.fresh_required
tel_freshness no_freshness = Requests.normal_freshness

-- `_tel_evidence_shape`
unfoldable pub tel_evidence_shape : LlmNextEvidenceNeedPayload → Result EvidenceShape
unfolding tel_desired_evidence_kind
tel_evidence_shape need = do
  kind ← tel_desired_evidence_kind need.desired_evidence_kind
  ok (record {
    desired_evidence_kind = kind;
    freshness_requirement = tel_freshness need.freshness_requirement;
    breadth = Requests.normal_breadth;
  })

-- `_allowed_source_families`, of an action mode and the available families.
unfoldable pub families_for : ResearchActionMode → List FamilyName → Result (List FamilyName)
unfolding filter
families_for memory_backed_acquisition available = ok (research_knowledge_recall ∷ [])
families_for external_acquisition available = ok (filter is_external_family available)
families_for refine_from_existing_state available =
    raised (value_error "refine_from_existing_state must not enter material acquisition.")

unfoldable pub allowed_source_families : ResearchMaterialAcquireInput → Result (List FamilyName)
unfolding families_for
allowed_source_families acquire_input =
    families_for acquire_input.action_mode acquire_input.available_families

-- `_allowed_visibility_scopes`
unfoldable pub allowed_visibility_scopes : Option String → List String
allowed_visibility_scopes project_scope_id =
    if is_given project_scope_id then "user" ∷ "project" ∷ [] else "user" ∷ []

-- `value or other`, where the empty text is false.
abbrev text_or_else : String → Option String → Option String
text_or_else value other = if is_given (some value) then some value else other

-- `target_problem` of the request.
unfoldable pub target_problem_of : ResearchMaterialAcquireInput → Result String
unfolding required_text
target_problem_of acquire_input =
    required_text
      (text_or_else acquire_input.next_evidence_need.need_summary
        (some acquire_input.top_gap.gap_summary))
      (some (text_or acquire_input.user_goal acquire_input.original_query)) "target_problem"

-- The request of its computed parts; the fields that the source leaves out have their defaults.
unfoldable pub request_of :
    ResearchMaterialAcquireInput
    → List FamilyName
    → String
    → ActionMode
    → EvidenceShape
    → ToolExecutionLayerRequest
unfolding allowed_visibility_scopes positive_optional_int attempts_for_target
request_of acquire_input allowed_families problem action_mode shape =
    let need = acquire_input.next_evidence_need in
    let gap = acquire_input.top_gap in
    record {
      target_problem = problem;
      action_mode = action_mode;
      evidence_goal = some (purpose_value need.need_purpose);
      evidence_shape = some shape;
      task_framing = acquire_input.task_framing;
      allowed_source_families = allowed_families;
      preferred_source_families = acquire_input.preferred_family ∷ [];
      blocked_source_families = [];
      available_families = acquire_input.available_families;
      success_hint = text_or_else need.need_summary gap.gap_actionability;
      provided_query = some acquire_input.retrieval_query;
      recent_low_value_queries = [];
      recent_retrieval_attempts =
          attempts_for_target acquire_input.recent_retrieval_attempts need.coverage_target_key;
      preferred_tool = none;
      source_names = [];
      include_domains = [];
      exclude_domains = [];
      max_search_results = 5;
      max_content_fetches = 3;
      min_score_threshold = record { mantissa = pos 1; scale = 1 };
      owner_user_id = acquire_input.owner_user_id;
      query_embedding = none;
      project_scope_id = acquire_input.project_scope_id;
      allowed_visibility_scopes = allowed_visibility_scopes acquire_input.project_scope_id;
      knowledge_types = [];
      topic_tags = [];
      source_types = [];
      memory_recall_limit = 5;
      retry_budget = 1;
      fallback_policy =
          if is_memory_backed acquire_input.action_mode
          then fallback_within_same_family
          else fallback_to_broader_search;
      timeout_limit_ms = positive_optional_int acquire_input.latency_budget_ms;
    }

-- `_tool_execution_layer_request`
unfoldable pub tool_execution_layer_request :
    ResearchMaterialAcquireInput → Result ToolExecutionLayerRequest
unfolding allowed_source_families target_problem_of tel_action_mode tel_evidence_shape request_of
tool_execution_layer_request acquire_input = do
  allowed_families ← allowed_source_families acquire_input
  problem ← target_problem_of acquire_input
  action_mode ← tel_action_mode acquire_input.action_mode
  shape ← tel_evidence_shape acquire_input.next_evidence_need
  ok (request_of acquire_input allowed_families problem action_mode shape)

-- `_scope_evidence_units_for_iteration`
unfoldable pub scope_evidence_units : ℕ → List ProcessedEvidenceUnit → List ProcessedEvidenceUnit
unfolding decimal
scope_evidence_units index units =
    map
      (λ (unit : ProcessedEvidenceUnit). record unit {
        evidence_unit_id = "iteration_" <> decimal index <> ":" <> unit.evidence_unit_id;
      })
      units

-- What `process` writes, once the result is there.
unfoldable pub processed_state :
    ResearchExecutorRunState
    → ResearchExecutorIterationState
    → ToolExecutionLayerResult
    → EvidenceProcessingResult
    → ResearchExecutorRunState
unfolding scope_evidence_units from_tool_execution_result
processed_state state iteration tool_result result =
    let scoped = scope_evidence_units iteration.iteration_index result.processed_evidence_units in
    record state {
      evidence_processing_results = state.evidence_processing_results ++ result ∷ [];
      processed_evidence_units = state.processed_evidence_units ++ scoped;
      current_iteration = some (record iteration {
        evidence_processing_request = some (from_tool_execution_result tool_result);
        evidence_processing_result = some result;
        processed_evidence_units = scoped;
      });
    }

module _ {W : Type 0} (collaborators : Collaborators W) where
  -- `acquire`
  unfoldable pub acquire : ResearchMaterialAcquireInput → Act W ResearchMaterialAcquireOutput
  unfolding tool_execution_layer_request
  acquire acquire_input =
      Act.◌>>=◌ (Act.lift (tool_execution_layer_request acquire_input)) λ request.
        Act.◌>>=◌ (collaborators.execute_tools request) λ result. Act.pure (record {
          tool_execution_request = request;
          tool_execution_result = result;
          candidate_materials = result.normalized_items;
        })

  unfoldable pub process_result :
      ResearchExecutorRunState
      → ResearchExecutorIterationState
      → Option ToolExecutionLayerResult
      → Act W ResearchExecutorRunState
  unfolding processed_state from_tool_execution_result
  process_result state iteration none =
      Act.lift
        (raised (value_error "tool_execution_result is required before evidence processing."))
  process_result state iteration (some tool_result) =
      Act.◌>>=◌ (collaborators.process_evidence (from_tool_execution_result tool_result))
        λ result. Act.pure (processed_state state iteration tool_result result)

  -- `process`
  unfoldable pub process : ResearchExecutorRunState → Act W ResearchExecutorRunState
  unfolding process_result require_current_iteration
  process state =
      Act.◌>>=◌ (Act.lift (require_current_iteration state))
        λ iteration. process_result state iteration iteration.tool_execution_result
