-- ===== src/ToolLayer/Service.antt =====
-- The tool execution layer service (app/services/tool_execution_layer/
-- tool_execution_layer_service.py): `execute` runs attempts until an error or a directive to
-- complete. What a service call changes outside is the world `W`; a raised exception ends the call.
pub mod State
pub mod Families
pub mod Readiness
pub mod Attempt
pub mod Recovery
pub mod Record
pub mod Report
pub mod Frame
pub mod Budget
pub mod Spending
pub mod Progress
pub mod Rounds
pub mod Counters
pub mod Reporting
pub mod Refusal
use vertical_ai_research_act.Prelude.{
  ℕ, zero, suc, ◌+◌, ◌*◌, String, Bool, Option, none, some, List, [], ◌∷◌, is_empty, is_some,
  filter, contains, if◌then◌else◌,
}
use vertical_ai_research_act.Prelude.Result.{Result, ok, raised, ◌>>=◌}
use vertical_ai_research_act.Prelude.Act
use vertical_ai_research_act.Prelude.Act.{Act}
use vertical_ai_research_act.Text.{strip, strip_or_none, unique_non_empty_strings}
use vertical_ai_research_act.Domain.Enums.{
  FamilyName, docs_search, paper_search, web_search, research_knowledge_recall, family_eq,
}
use vertical_ai_research_act.Domain.Requests.{ToolExecutionLayerRequest, ToolExecutionLayerResult}
use vertical_ai_research_act.ToolLayer.Family.{normalize_family_list}
use vertical_ai_research_act.ToolLayer.Service.State.{
  Services, ToolExecutionLayerRunState, ToolExecutionLayerAttemptOutcome, create_execution_state,
}
use vertical_ai_research_act.ToolLayer.Service.Attempt.{run_attempt}
use vertical_ai_research_act.ToolLayer.Service.Recovery.{
  ExecutionDirective, go_on, complete, apply_evaluation_result,
}
use vertical_ai_research_act.ToolLayer.Service.Record.{record_attempt}
use vertical_ai_research_act.ToolLayer.Service.Report.{failed_from_state, completed_from_state}

-- `_normalize_request`
unfoldable pub normalize_request : ToolExecutionLayerRequest → ToolExecutionLayerRequest
unfolding strip strip_or_none unique_non_empty_strings normalize_family_list
normalize_request request = record request {
  target_problem = strip request.target_problem;
  evidence_goal = strip_or_none request.evidence_goal;
  task_framing = strip_or_none request.task_framing;
  allowed_source_families = normalize_family_list request.allowed_source_families;
  preferred_source_families = normalize_family_list request.preferred_source_families;
  blocked_source_families = normalize_family_list request.blocked_source_families;
  available_families = normalize_family_list request.available_families;
  success_hint = strip_or_none request.success_hint;
  provided_query = strip_or_none request.provided_query;
  recent_low_value_queries = unique_non_empty_strings request.recent_low_value_queries;
  preferred_tool = strip_or_none request.preferred_tool;
  source_names = unique_non_empty_strings request.source_names;
  include_domains = unique_non_empty_strings request.include_domains;
  exclude_domains = unique_non_empty_strings request.exclude_domains;
  owner_user_id = strip_or_none request.owner_user_id;
  project_scope_id = strip_or_none request.project_scope_id;
  allowed_visibility_scopes = unique_non_empty_strings request.allowed_visibility_scopes;
  knowledge_types = unique_non_empty_strings request.knowledge_types;
  topic_tags = unique_non_empty_strings request.topic_tags;
  source_types = unique_non_empty_strings request.source_types;
}

-- What one round of the loop leads to.
pub data Next : Type 0 where
  again : ToolExecutionLayerRunState → Next
  finish : ToolExecutionLayerResult → Next

-- How many rounds are enough: two families with the first run and the retries of each.
abbrev pub enough_rounds : ToolExecutionLayerRequest → ℕ
enough_rounds request = 2 * (request.retry_budget + 1)

module _ {W : Type 0} (services : Services W) where
  -- `_injected_families`, in the order of the service table.
  unfoldable pub injected_families : List FamilyName
  unfolding filter
  injected_families =
      filter (λ f. is_some (services.family_service f))
        (docs_search ∷ paper_search ∷ web_search ∷ research_knowledge_recall ∷ [])

  -- `_effective_available_families`
  unfoldable pub effective_available_families : ToolExecutionLayerRequest → List FamilyName
  unfolding filter injected_families
  effective_available_families request =
      if is_empty request.available_families
      then injected_families
      else filter (λ f. contains injected_families f) request.available_families

  finish_with : Result ToolExecutionLayerResult → Result Next
  finish_with r = do result ← r; ok (finish result)

  directed :
      ToolExecutionLayerRequest → ToolExecutionLayerRunState × ExecutionDirective → Result Next
  unfolding finish_with completed_from_state
  directed request (state, go_on) = ok (again state)
  directed request (state, complete) = finish_with (completed_from_state services request state)

  -- The part of a round behind the attempt.
  settle :
      ToolExecutionLayerRequest
      → ToolExecutionLayerRunState
      → ToolExecutionLayerAttemptOutcome
      → Option String
      → Result Next
  unfolding directed finish_with failed_from_state record_attempt apply_evaluation_result
  settle request state outcome (some error) =
      finish_with (failed_from_state services request state error)
  settle request state outcome none =
      directed request
        (apply_evaluation_result request (record_attempt services state outcome) outcome)

  unfoldable pub round :
      ToolExecutionLayerRequest → List FamilyName → ToolExecutionLayerRunState → Act W Next
  unfolding run_attempt settle
  round request available state =
      Act.◌>>=◌ (run_attempt services request available state)
        λ (after, outcome). Act.lift (settle request after outcome outcome.error_info)

  -- What follows a round: the next one, if it asks for that.
  follow :
      (ToolExecutionLayerRunState → W → Option (Result ToolExecutionLayerResult × W))
      → Result Next × W
      → Option (Result ToolExecutionLayerResult × W)
  follow rest (raised e, w) = some (raised e, w)
  follow rest (ok (finish result), w) = some (ok result, w)
  follow rest (ok (again state), w) = rest state w

  -- `while True`, on fuel; `none` means that the fuel ran out.
  run_loop :
      ToolExecutionLayerRequest
      → List FamilyName
      → ℕ
      → ToolExecutionLayerRunState
      → W
      → Option (Result ToolExecutionLayerResult × W)
  unfolding round follow
  run_loop request available zero state w = none
  run_loop request available (suc fuel) state w =
      follow (run_loop request available fuel) (round request available state w)

  -- `execute`
  unfoldable pub execute :
      ToolExecutionLayerRequest → W → Option (Result ToolExecutionLayerResult × W)
  unfolding normalize_request effective_available_families create_execution_state run_loop
  execute request w =
      let normalized_request = normalize_request request in
      run_loop normalized_request (effective_available_families normalized_request)
        (enough_rounds normalized_request) (create_execution_state normalized_request) w
