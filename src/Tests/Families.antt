-- ===== src/Tests/Families.antt =====
-- Runs of the web search family, with a tool that counts its calls.
use vertical_ai_research_act.Prelude.{ℕ, suc, ◌≡◌, refl, none, some, []}
use vertical_ai_research_act.Prelude.Int.{pos}
use vertical_ai_research_act.Prelude.Result.{ok}
use vertical_ai_research_act.Prelude.Act.{Act, Ensures}
use vertical_ai_research_act.Domain.Enums.{failed}
use vertical_ai_research_act.Domain.Families.{WebSearchFamilyRequest, BaseFamilyExecutionResult}
use vertical_ai_research_act.Families.WebSearch.{
  TavilyWebSearchToolRequest, TavilyWebSearchToolResult, run,
}
use vertical_ai_research_act.Families.WebSearch.Laws.{IsLabelled, run-IsLabelled, run-refuses_tool}
use vertical_ai_research_act.Tests.Data.{failed_search}

abbrev counted_tool : TavilyWebSearchToolRequest → Act ℕ TavilyWebSearchToolResult
counted_tool request calls = (
  ok (record {
    normalized_items = failed_search.normalized_items;
    acquisition_status = failed_search.acquisition_status;
    dropped_item_count = failed_search.dropped_item_count;
    source_summary = failed_search.source_summary;
    execution_summary = failed_search.execution_summary;
    retrieval_trace = failed_search.retrieval_trace;
    error_info = failed_search.error_info;
  }),
  suc calls,
)

abbrev search_request : WebSearchFamilyRequest
search_request = record {
  query_text = " release notes ";
  target_problem = none;
  freshness_requirement = none;
  include_domains = [];
  exclude_domains = [];
  max_search_results = 5;
  max_content_fetches = 2;
  min_score_threshold = record { mantissa = pos 0; scale = 0 };
  preferred_tool = none;
}

abbrev other_request : WebSearchFamilyRequest
other_request = record search_request { preferred_tool = some " another_tool" }

run-IsLabelled_example : Ensures IsLabelled (run (some counted_tool) search_request)
run-IsLabelled_example = run-IsLabelled (some counted_tool) search_request

run-refuses_tool_example :
    (r : BaseFamilyExecutionResult) × (run (some counted_tool) other_request 0 ≡ (ok r, 0))
    × (r.acquisition_status ≡ failed)
    × (r.selected_tool ≡ none)
unfolding run
run-refuses_tool_example =
    run-refuses_tool (some counted_tool) other_request "another_tool" 0 refl refl refl
