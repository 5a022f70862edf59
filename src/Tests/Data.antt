-- ===== src/Tests/Data.antt =====
-- Requests, results and services that the runs share.
use vertical_ai_research_act.Prelude.{ℕ, ◌+◌, false, Option, none, some, [], ◌∷◌}
use vertical_ai_research_act.Prelude.Int.{pos}
use vertical_ai_research_act.Prelude.Result.{Result, ok}
use vertical_ai_research_act.Domain.Enums.{
  docs_search, paper_search, web_search, external_acquisition, failed,
}
use vertical_ai_research_act.Domain.Value.{str, empty, entry}
use vertical_ai_research_act.Domain.Families.{BaseFamilyExecutionResult}
use vertical_ai_research_act.Domain.Requests.{
  FamilySelectionRequest, RetrievalQueryGenerationResult, succeeded,
  RequestCompletionEvaluationRequest, fallback_to_broader_search, timeout,
  ToolExecutionLayerRequest, ToolExecutionLayerResult, execution_failed,
}
use vertical_ai_research_act.ToolLayer.Selection
use vertical_ai_research_act.ToolLayer.Completion
use vertical_ai_research_act.ToolLayer.Service.State.{Services}
use vertical_ai_research_act.ToolLayer.Service.Families.{failed_family_result}

abbrev pub selection_request : FamilySelectionRequest
selection_request = record {
  target_problem = " which release added the flag ";
  action_mode = external_acquisition;
  evidence_goal = none;
  evidence_shape = none;
  task_type = none;
  task_framing = none;
  evidence_strategy = none;
  allowed_source_families = [];
  preferred_source_families = paper_search ∷ web_search ∷ [];
  blocked_source_families = paper_search ∷ [];
  available_families = docs_search ∷ paper_search ∷ web_search ∷ [];
}

-- A failed web search whose client reports the reason "server_error".
abbrev pub failed_search : BaseFamilyExecutionResult
unfolding failed_family_result
failed_search =
    let result = failed_family_result web_search "release notes" "HTTP 503" in
    record result {
      execution_summary = record result.execution_summary {
        observability = entry "failure_reason" (str "server_error") empty;
      };
    }

abbrev pub evaluation_request : RequestCompletionEvaluationRequest
evaluation_request = record {
  target_problem = "which release added the flag";
  selected_family = web_search;
  generated_query = some "release notes";
  execution_outcome = failed_search;
  failure_reason = some timeout;
  continuation_available = false;
  retry_budget = pos 1;
  retry_count = pos 1;
  fallback_policy = fallback_to_broader_search;
  fallback_applied = false;
  max_results = none;
  timeout_limit_ms = none;
  request_elapsed_ms = none;
  available_families = docs_search ∷ web_search ∷ [];
  allowed_source_families = [];
  blocked_source_families = [];
}

abbrev pub layer_request : ToolExecutionLayerRequest
layer_request = record {
  target_problem = "which release added the flag";
  action_mode = external_acquisition;
  evidence_goal = none;
  evidence_shape = none;
  task_framing = none;
  allowed_source_families = [];
  preferred_source_families = web_search ∷ [];
  blocked_source_families = [];
  available_families = [];
  success_hint = none;
  provided_query = some "release notes";
  recent_low_value_queries = [];
  recent_retrieval_attempts = [];
  preferred_tool = none;
  source_names = [];
  include_domains = [];
  exclude_domains = [];
  max_search_results = 5;
  max_content_fetches = 2;
  min_score_threshold = record { mantissa = pos 0; scale = 0 };
  owner_user_id = none;
  query_embedding = none;
  project_scope_id = none;
  allowed_visibility_scopes = [];
  knowledge_types = [];
  topic_tags = [];
  source_types = [];
  memory_recall_limit = 5;
  retry_budget = 1;
  fallback_policy = fallback_to_broader_search;
  timeout_limit_ms = none;
}

abbrev pub release_query : RetrievalQueryGenerationResult
release_query = record {
  selected_family = some web_search;
  generated_query = some "release notes";
  query_focus = none;
  preserved_terms = [];
  generation_status = succeeded;
  generation_summary = empty;
  generation_trace = empty;
  error_info = none;
}

-- The two rule-based services of the layer, and a web search that always fails for want of a key;
-- the world counts the searches.
unfoldable pub services : Services ℕ
unfolding Selection.select_family Completion.evaluate failed_family_result
services = record {
  select_family = λ request w. (ok (Selection.select_family (λ s. s) request), w);
  generate_query = λ request w. (ok release_query, w);
  evaluate = λ request w. (ok (Completion.evaluate request), w);
  family_service = λ f. elim f [
    | web_search ↦
        some (λ request w. (ok (failed_family_result web_search "release notes" "no key"), w + 1))
    | _ ↦ none
  ];
  pydantic = record { lax_int = λ v. none; lax_bool = λ v. none };
  exception_text = λ e. "exception";
  value_text = λ v. "value";
  redact = λ s. s;
}

-- A result to fall back on where none was returned.
abbrev pub no_result : ToolExecutionLayerResult
no_result = record {
  execution_status = execution_failed;
  normalized_items = [];
  acquisition_status = failed;
  dropped_item_count = 0;
  source_summary = failed_search.source_summary;
  execution_summary = failed_search.execution_summary;
  retrieval_trace = failed_search.retrieval_trace;
  error_info = none;
}

abbrev pub result_of : Option (Result ToolExecutionLayerResult × ℕ) → ToolExecutionLayerResult
result_of (some (ok result, w)) = result
result_of _ = no_result
