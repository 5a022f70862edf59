-- ===== src/Families/WebSearch.antt =====
-- The web search family (app/services/families/web_search_family_service.py, _selection.py). The tool
-- is a parameter: none, or an action on a world.
pub mod Laws
use vertical_ai_research_act.Prelude.{
  ℕ, String, ◌<>◌, Bool, true, false, not, ◌&&◌, Option, none, some, List, [], ◌∷◌, map, filter,
  ltb, length, contains, string_eq, if◌then◌else◌,
}
use vertical_ai_research_act.Prelude.Result.{Result, ok, raised, validation_error, require}
use vertical_ai_research_act.Prelude.Act.{Act, ◌>>=◌, lift, pure}
use vertical_ai_research_act.Text.{is_blank, strip, strip_or_none}
use vertical_ai_research_act.Domain.Enums.{FamilyName, web_search, AcquisitionStatus, failed}
use vertical_ai_research_act.Domain.Value.{
  Float, Dict, empty, entry, put, str, list, str_items, str_value, nat_value,
}
use vertical_ai_research_act.Domain.Retrieval.{NormalizedRetrievalItem}
use vertical_ai_research_act.Domain.Retrieval.SourceSummary.{RetrievalSourceSummary}
use vertical_ai_research_act.Domain.Retrieval.ExecutionSummary.{RetrievalExecutionSummary}
use vertical_ai_research_act.Domain.Retrieval.Trace.{RetrievalTrace}
use vertical_ai_research_act.Domain.Families.{WebSearchFamilyRequest, BaseFamilyExecutionResult}

pub record TavilyWebSearchToolRequest : Type 0 where
  pub query_text : String
  pub target_problem : Option String
  pub freshness_requirement : Option String
  pub include_domains : List String
  pub exclude_domains : List String
  pub max_search_results : ℕ
  pub max_content_fetches : ℕ
  pub min_score_threshold : Float

pub record TavilyWebSearchToolResult : Type 0 where
  pub normalized_items : List NormalizedRetrievalItem
  pub acquisition_status : AcquisitionStatus
  pub dropped_item_count : ℕ
  pub source_summary : RetrievalSourceSummary
  pub execution_summary : RetrievalExecutionSummary
  pub retrieval_trace : RetrievalTrace
  pub error_info : Option String

-- `select_preferred_or_default_tool`
unfoldable pub select_preferred_or_default_tool :
    Option String → String → List String → Option String
select_preferred_or_default_tool none default_tool_id candidate_tools =
    if contains candidate_tools default_tool_id then some default_tool_id else none
select_preferred_or_default_tool (some preferred_tool) default_tool_id candidate_tools =
    if contains candidate_tools preferred_tool then some preferred_tool else none

abbrev pub default_tool_id : String
default_tool_id = "tavily_web_search_v1"

abbrev stripped_texts : List String → List String
stripped_texts values = map strip (filter (λ value. not (is_blank (strip value))) values)

-- `_normalize_request`: the model refuses a query that is empty once it is stripped.
unfoldable normalize_request : WebSearchFamilyRequest → Result WebSearchFamilyRequest
unfolding strip strip_or_none filter
normalize_request request =
    if is_blank (strip request.query_text)
    then raised (validation_error "WebSearchFamilyRequest")
    else ok (record {
      query_text = strip request.query_text;
      target_problem = strip_or_none request.target_problem;
      freshness_requirement = strip_or_none request.freshness_requirement;
      include_domains = stripped_texts request.include_domains;
      exclude_domains = stripped_texts request.exclude_domains;
      max_search_results = request.max_search_results;
      max_content_fetches = request.max_content_fetches;
      min_score_threshold = request.min_score_threshold;
      preferred_tool = strip_or_none request.preferred_tool;
    })

unfoldable tool_request : WebSearchFamilyRequest → TavilyWebSearchToolRequest
tool_request request = record {
  query_text = request.query_text;
  target_problem = request.target_problem;
  freshness_requirement = request.freshness_requirement;
  include_domains = request.include_domains;
  exclude_domains = request.exclude_domains;
  max_search_results = request.max_search_results;
  max_content_fetches = request.max_content_fetches;
  min_score_threshold = request.min_score_threshold;
}

-- `_wrap_tool_result`
unfoldable wrap_tool_result :
    WebSearchFamilyRequest
    → List String
    → String
    → TavilyWebSearchToolResult
    → BaseFamilyExecutionResult
unfolding put
wrap_tool_result request candidate_tools selected_tool result = record {
  normalized_items = result.normalized_items;
  acquisition_status = result.acquisition_status;
  dropped_item_count = result.dropped_item_count;
  source_summary = record result.source_summary {
    selected_family = some web_search;
    selected_tool = some selected_tool;
  };
  execution_summary = record result.execution_summary {
    metrics =
        put result.execution_summary.metrics "candidate_tool_count"
          (nat_value (length candidate_tools));
    observability =
        put result.execution_summary.observability "preferred_tool_requested"
          (str_value request.preferred_tool);
  };
  retrieval_trace = record result.retrieval_trace {
    selected_family = some web_search;
    selected_tool = some selected_tool;
    context =
        put
          (put result.retrieval_trace.context "candidate_tools" (list (str_items candidate_tools)))
          "preferred_tool" (str_value request.preferred_tool);
  };
  error_info = result.error_info;
  selected_family = web_search;
  candidate_tools = candidate_tools;
  selected_tool = some selected_tool;
}

-- `_failed_result`
unfoldable failed_result :
    WebSearchFamilyRequest → List String → Option String → String → BaseFamilyExecutionResult
failed_result request candidate_tools selected_tool error_info = record {
  normalized_items = [];
  acquisition_status = failed;
  dropped_item_count = 0;
  source_summary = record {
    selected_family = some web_search;
    selected_tool = selected_tool;
    normalized_count = 0;
    metadata = empty;
  };
  execution_summary = record {
    policy = none;
    execution_status = none;
    normalized_count = some 0;
    dropped_item_count = none;
    retry_count = 0;
    fallback_applied = false;
    recovery_attempt_count = 0;
    recovery_exhausted_reason = none;
    metrics = entry "candidate_tool_count" (nat_value (length candidate_tools)) empty;
    observability = entry "preferred_tool_requested" (str_value request.preferred_tool) empty;
  };
  retrieval_trace = record {
    target_problem = none;
    selected_family = some web_search;
    selected_tool = selected_tool;
    generated_query = none;
    query_focus = none;
    acquisition_status = none;
    attempts = [];
    returned_refs = [];
    errors = entry "family_error" (str error_info) empty;
    context = entry "candidate_tools" (list (str_items candidate_tools)) (
        entry "preferred_tool" (str_value request.preferred_tool) (
          entry "query_text" (str request.query_text) (
            entry "target_problem" (str_value request.target_problem) (
              entry "freshness_requirement" (str_value request.freshness_requirement) (
                entry "include_domains" (list (str_items request.include_domains))
                  (entry "exclude_domains" (list (str_items request.exclude_domains)) empty))))));
    observability = empty;
  };
  error_info = some error_info;
  selected_family = web_search;
  candidate_tools = candidate_tools;
  selected_tool = selected_tool;
}

-- An optional text in an f-string.
abbrev shown : Option String → String
shown none = "None"
shown (some text) = text

module _ {W : Type 0} where
  unfoldable run_tool :
      (TavilyWebSearchToolRequest → Act W TavilyWebSearchToolResult)
      → WebSearchFamilyRequest
      → List String
      → Option String
      → Act W BaseFamilyExecutionResult
  unfolding failed_result wrap_tool_result tool_request
  run_tool tool request candidate_tools none = pure (
      failed_result request candidate_tools none (
        "Preferred tool '"
        <> shown request.preferred_tool
        <> "' is not available in web_search family."))
  run_tool tool request candidate_tools (some selected_tool) =
      tool (tool_request request) >>= λ result.
      pure (wrap_tool_result request candidate_tools selected_tool result)

  unfoldable run_normalized :
      Option (TavilyWebSearchToolRequest → Act W TavilyWebSearchToolResult)
      → WebSearchFamilyRequest
      → Act W BaseFamilyExecutionResult
  unfolding run_tool failed_result select_preferred_or_default_tool
  run_normalized none request =
      pure (failed_result request [] none "No available tools registered for web_search family.")
  run_normalized (some tool) request =
      let candidate_tools = default_tool_id ∷ [] in
      run_tool tool request candidate_tools
        (select_preferred_or_default_tool request.preferred_tool default_tool_id candidate_tools)

  unfoldable pub run :
      Option (TavilyWebSearchToolRequest → Act W TavilyWebSearchToolResult)
      → WebSearchFamilyRequest
      → Act W BaseFamilyExecutionResult
  unfolding normalize_request run_normalized
  run tool request = lift (normalize_request request) >>= run_normalized tool
