-- ===== src/Families/WebSearch/Laws.antt =====
-- What the web search family returns, and when its tool is not called.
use vertical_ai_research_act.Prelude.{
  ◌≡◌, refl, ap, ◌⊎◌, inl, inr, String, ◌<>◌, false, Option, none, some, List, [], ◌∷◌, ◌==◌,
  string_eq, eq_of_==, ==-refl, Bool-cases,
}
use vertical_ai_research_act.Prelude.Result.{ok}
use vertical_ai_research_act.Prelude.Act.{Act, Ensures, Ensures-then, Ensures-pure}
use vertical_ai_research_act.Text.{is_blank, strip, strip_or_none}
use vertical_ai_research_act.Domain.Enums.{web_search, failed}
use vertical_ai_research_act.Domain.Families.{WebSearchFamilyRequest, BaseFamilyExecutionResult}
use vertical_ai_research_act.Families.WebSearch.{
  TavilyWebSearchToolRequest, TavilyWebSearchToolResult, select_preferred_or_default_tool,
  default_tool_id, normalize_request, tool_request, wrap_tool_result, failed_result, run_tool,
  run_normalized, run, shown,
}

-- The family and the tool are the same in every part of the result, and without a tool the result is
-- a failure with no items.
pub record IsLabelled (r : BaseFamilyExecutionResult) : Type 0 where
  pub family : r.selected_family ≡ web_search
  pub summary_family : r.source_summary.selected_family ≡ some web_search
  pub trace_family : r.retrieval_trace.selected_family ≡ some web_search
  pub summary_tool : r.source_summary.selected_tool ≡ r.selected_tool
  pub trace_tool : r.retrieval_trace.selected_tool ≡ r.selected_tool
  pub tool :
      ((r.selected_tool ≡ some default_tool_id) × (r.candidate_tools ≡ default_tool_id ∷ []))
      ⊎ ((r.selected_tool ≡ none) × (r.acquisition_status ≡ failed) × (r.normalized_items ≡ []))

failed_result-IsLabelled :
    (request : WebSearchFamilyRequest) (candidate_tools : List String) (error_info : String)
    → IsLabelled (failed_result request candidate_tools none error_info)
unfolding failed_result
failed_result-IsLabelled request candidate_tools error_info = record {
  family = refl;
  summary_family = refl;
  trace_family = refl;
  summary_tool = refl;
  trace_tool = refl;
  tool = inr (refl, refl, refl);
}

wrap_tool_result-IsLabelled :
    (request : WebSearchFamilyRequest) (result : TavilyWebSearchToolResult)
    → IsLabelled (wrap_tool_result request (default_tool_id ∷ []) default_tool_id result)
unfolding wrap_tool_result
wrap_tool_result-IsLabelled request result = record {
  family = refl;
  summary_family = refl;
  trace_family = refl;
  summary_tool = refl;
  trace_tool = refl;
  tool = inl (refl, refl);
}

-- One registered tool is chosen, or none.
chosen_only :
    (preferred_tool : Option String) (only : String)
    → let chosen = select_preferred_or_default_tool preferred_tool only (only ∷ []) in
      (chosen ≡ none) ⊎ (chosen ≡ some only)
unfolding select_preferred_or_default_tool
chosen_only none only = rw (==-refl only) (inr refl)
chosen_only (some preferred_tool) only = elim (Bool-cases (preferred_tool == only)) [
  | inl same ↦ rw same (inr (ap some (eq_of_== same)))
  | inr other ↦ rw other (inl refl)
]

chosen_other :
    (preferred_tool only : String)
    → (preferred_tool == only) ≡ false
    → select_preferred_or_default_tool (some preferred_tool) only (only ∷ []) ≡ none
unfolding select_preferred_or_default_tool
chosen_other preferred_tool only other = rw other refl

module _ {W : Type 0} where
  run_tool-IsLabelled :
      (tool : TavilyWebSearchToolRequest → Act W TavilyWebSearchToolResult)
      (request : WebSearchFamilyRequest) (chosen : Option String)
      → (chosen ≡ none) ⊎ (chosen ≡ some default_tool_id)
      → Ensures IsLabelled (run_tool tool request (default_tool_id ∷ []) chosen)
  unfolding run_tool
  run_tool-IsLabelled tool request chosen (inl e) =
      let message =
        "Preferred tool '"
        <> shown request.preferred_tool
        <> "' is not available in web_search family." in
      rw e (
        Ensures-pure IsLabelled (failed_result request (default_tool_id ∷ []) none message)
          (failed_result-IsLabelled request (default_tool_id ∷ []) message))
  run_tool-IsLabelled tool request chosen (inr e) = rw e (
      Ensures-then IsLabelled (tool (tool_request request)) _
        (λ result. Ensures-pure IsLabelled _ (wrap_tool_result-IsLabelled request result)))

  run_normalized-IsLabelled :
      (tool : Option (TavilyWebSearchToolRequest → Act W TavilyWebSearchToolResult))
      (request : WebSearchFamilyRequest)
      → Ensures IsLabelled (run_normalized tool request)
  unfolding run_normalized
  run_normalized-IsLabelled none request =
      Ensures-pure IsLabelled
        (failed_result request [] none "No available tools registered for web_search family.")
        (failed_result-IsLabelled request [] "No available tools registered for web_search family.")
  run_normalized-IsLabelled (some tool) request =
      run_tool-IsLabelled tool request _ (chosen_only request.preferred_tool default_tool_id)

  run_normalized-refuses :
      (tool : Option (TavilyWebSearchToolRequest → Act W TavilyWebSearchToolResult))
      (request : WebSearchFamilyRequest) (preferred_tool : String) (w : W)
      → request.preferred_tool ≡ some preferred_tool
      → (preferred_tool == default_tool_id) ≡ false
      → (r : BaseFamilyExecutionResult) × (run_normalized tool request w ≡ (ok r, w))
        × (r.acquisition_status ≡ failed)
        × (r.selected_tool ≡ none)
  unfolding run_normalized run_tool failed_result
  run_normalized-refuses none request preferred_tool w preferred other = (_, refl, refl, refl)
  run_normalized-refuses (some tool) request preferred_tool w preferred other =
      rw (preferred, chosen_other preferred_tool default_tool_id other) (_, refl, refl, refl)

module _ {W : Type 0} (tool : Option (TavilyWebSearchToolRequest → Act W TavilyWebSearchToolResult))
    (request : WebSearchFamilyRequest) where
  -- Whatever the tool answers, and whatever the world is: a result that the family returns names the
  -- web search family, and the same tool, in the result, its source summary and its trace; that tool
  -- is the registered one, or there is none and the result is a failure without items.
  pub run-IsLabelled : Ensures IsLabelled (run tool request)
  unfolding run
  run-IsLabelled =
      Ensures-then IsLabelled (λ w. (normalize_request request, w)) _
        (run_normalized-IsLabelled tool)

  -- With a query that is not blank and a preferred tool, stripped, that is not the registered one, the
  -- family returns a failed result without a tool, and the tool is not called.
  pub run-refuses_tool :
      (preferred_tool : String) (w : W)
      → is_blank (strip request.query_text) ≡ false
      → strip_or_none request.preferred_tool ≡ some preferred_tool
      → (preferred_tool == default_tool_id) ≡ false
      → (r : BaseFamilyExecutionResult) × (run tool request w ≡ (ok r, w))
        × (r.acquisition_status ≡ failed)
        × (r.selected_tool ≡ none)
  unfolding run normalize_request
  run-refuses_tool preferred_tool w given preferred other =
      rw given (run_normalized-refuses tool _ preferred_tool w preferred other)
