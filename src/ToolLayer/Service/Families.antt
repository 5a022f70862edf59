-- ===== src/ToolLayer/Service/Families.antt =====
-- How the service runs one family: the request that each family takes, and the result that stands
-- for a family that raised.
use vertical_ai_research_act.Prelude.{
  String, Bool, true, false, ◌&&◌, not, Option, none, some, List, [], ◌∷◌, ltb,
}
use vertical_ai_research_act.Prelude.Result.{validation_error, Result, ok, raised}
use vertical_ai_research_act.Prelude.Act.{Act}
use vertical_ai_research_act.Text.{is_blank, or_blank}
use vertical_ai_research_act.Domain.Enums.{
  FamilyName, docs_search, paper_search, web_search, research_knowledge_recall, failed,
}
use vertical_ai_research_act.Domain.Value.{str, empty, entry}
use vertical_ai_research_act.Domain.Families.{
  BaseFamilyExecutionResult, FamilyRequest, docs_request, paper_request, web_request,
  recall_request,
}
use vertical_ai_research_act.Domain.Requests.{ToolExecutionLayerRequest, freshness_value}
use vertical_ai_research_act.ToolLayer.Service.State.{Services}

-- `_freshness_requirement`
unfoldable pub freshness_requirement : ToolExecutionLayerRequest → Option String
freshness_requirement request = elim request.evidence_shape [
  | none ↦ none
  | some shape ↦ some (freshness_value shape.freshness_requirement)
]

-- `Field(min_length=1)` for a text, `Field(ge=1)` for a number.
abbrev checked {ℓ} : {A : Type ℓ} → Bool → String → A → Result A
checked true model a = ok a
checked false model a = raised (validation_error model)

abbrev has_embedding {ℓ} : {A : Type ℓ} → Option (List A) → Bool
has_embedding none = true
has_embedding (some []) = false
has_embedding (some (x ∷ r)) = true

-- `_build_family_request`
unfoldable pub build_family_request :
    ToolExecutionLayerRequest → FamilyName → String → Result FamilyRequest
unfolding freshness_requirement
build_family_request request docs_search generated_query =
    checked (not (is_blank generated_query) && ltb 0 request.max_search_results)
      "DocsSearchFamilyRequest"
      (docs_request (record {
        query_text = generated_query;
        target_problem = some request.target_problem;
        freshness_requirement = freshness_requirement request;
        sub_source_types = request.source_names;
        max_search_results = request.max_search_results;
        preferred_tool = request.preferred_tool;
      }))
build_family_request request paper_search generated_query =
    checked (not (is_blank generated_query) && ltb 0 request.max_search_results)
      "PaperSearchFamilyRequest"
      (paper_request (record {
        query_text = generated_query;
        max_search_results = request.max_search_results;
        max_content_fetches = request.max_content_fetches;
        preferred_tool = request.preferred_tool;
      }))
build_family_request request web_search generated_query =
    checked (not (is_blank generated_query) && ltb 0 request.max_search_results)
      "WebSearchFamilyRequest"
      (web_request (record {
        query_text = generated_query;
        target_problem = some request.target_problem;
        freshness_requirement = freshness_requirement request;
        include_domains = request.include_domains;
        exclude_domains = request.exclude_domains;
        max_search_results = request.max_search_results;
        max_content_fetches = request.max_content_fetches;
        min_score_threshold = request.min_score_threshold;
        preferred_tool = request.preferred_tool;
      }))
build_family_request request research_knowledge_recall generated_query =
    checked
      (not (is_blank (or_blank request.owner_user_id))
        && (has_embedding request.query_embedding && ltb 0 request.memory_recall_limit))
      "ResearchKnowledgeRecallFamilyRequest"
      (recall_request (record {
        owner_user_id = or_blank request.owner_user_id;
        query_text = some generated_query;
        query_embedding = request.query_embedding;
        project_scope_id = request.project_scope_id;
        allowed_visibility_scopes = request.allowed_visibility_scopes;
        knowledge_types = request.knowledge_types;
        topic_tags = request.topic_tags;
        source_types = request.source_types;
        limit = request.memory_recall_limit;
        preferred_tool = request.preferred_tool;
      }))

-- `_failed_family_result`
unfoldable pub failed_family_result : FamilyName → String → String → BaseFamilyExecutionResult
failed_family_result selected_family generated_query error_info = record {
  normalized_items = [];
  acquisition_status = failed;
  dropped_item_count = 0;
  source_summary = record {
    selected_family = some selected_family;
    selected_tool = none;
    normalized_count = 0;
    metadata = empty;
  };
  execution_summary = record {
    policy = none;
    execution_status = none;
    normalized_count = some 0;
    dropped_item_count = none;
    retry_count = 0;
    fallback_applied = false;
    recovery_attempt_count = 0;
    recovery_exhausted_reason = none;
    metrics = empty;
    observability = entry "family_exception" (str error_info) empty;
  };
  retrieval_trace = record {
    target_problem = none;
    selected_family = some selected_family;
    selected_tool = none;
    generated_query = some generated_query;
    query_focus = none;
    acquisition_status = none;
    attempts = [];
    returned_refs = [];
    errors = entry "family_exception" (str error_info) empty;
    context = empty;
    observability = empty;
  };
  error_info = some error_info;
  selected_family = selected_family;
  candidate_tools = [];
  selected_tool = none;
}

module _ {W : Type 0} (services : Services W) where
  -- The `except` clause: whatever was raised becomes a failed result with the reason "tool_error".
  caught :
      FamilyName
      → String
      → Result BaseFamilyExecutionResult × W
      → Result (BaseFamilyExecutionResult × Option String) × W
  unfolding failed_family_result
  caught family query (ok result, w) = (ok (result, none), w)
  caught family query (raised exc, w) =
      (ok (failed_family_result family query (services.exception_text exc), some "tool_error"), w)

  run_service :
      (FamilyRequest → Act W BaseFamilyExecutionResult)
      → Result FamilyRequest
      → Act W BaseFamilyExecutionResult
  run_service service (ok family_request) w = service family_request w
  run_service service (raised exc) w = (raised exc, w)

  -- `_execute_family`
  unfoldable pub execute_family :
      ToolExecutionLayerRequest
      → FamilyName
      → String
      → (FamilyRequest → Act W BaseFamilyExecutionResult)
      → Act W (BaseFamilyExecutionResult × Option String)
  unfolding caught run_service build_family_request
  execute_family request family query service w =
      caught family query (run_service service (build_family_request request family query) w)
