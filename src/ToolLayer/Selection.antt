-- ===== src/ToolLayer/Selection.antt =====
-- Family selection (app/services/tool_execution_layer/family_selection_service.py): filters the
-- families by mode, availability, allowance and blocking, and ranks what is left.
pub mod Ranking
pub mod Order
pub mod Laws
pub mod Choice
pub mod Priority
use vertical_ai_research_act.Prelude.{
  ℕ, String, Bool, true, false, not, Option, none, some, List, [], ◌∷◌, length, is_empty, filter,
  contains, if◌then◌else◌,
}
use vertical_ai_research_act.Text.{is_blank, strip, strip_or_none}
use vertical_ai_research_act.Domain.Enums.{
  FamilyName, research_knowledge_recall, docs_search, paper_search, web_search, family_eq,
  family_value, ActionMode, memory_backed_acquisition, external_acquisition, any_acquisition,
  action_mode_value,
}
use vertical_ai_research_act.Domain.Value.{
  Value, null, str, list, dict, Items, nil, item, Dict, empty, entry, str_value, nat_value,
}
use vertical_ai_research_act.Domain.Requests.{
  FamilySelectionRequest, FamilySelectionResult, EvidenceShape, selected, no_match,
  selection_failed, freshness_value, kind_value, breadth_value,
}
use vertical_ai_research_act.ToolLayer.Family.{normalize_family_list}
use vertical_ai_research_act.ToolLayer.Selection.Ranking.{rank_families}

abbrev policy_name : String
policy_name = "deterministic_family_ranking_v1"

unfoldable pub normalize_request : FamilySelectionRequest → FamilySelectionRequest
unfolding strip strip_or_none normalize_family_list
normalize_request request = record {
  target_problem = strip request.target_problem;
  action_mode = request.action_mode;
  evidence_goal = strip_or_none request.evidence_goal;
  evidence_shape = request.evidence_shape;
  task_type = strip_or_none request.task_type;
  task_framing = strip_or_none request.task_framing;
  evidence_strategy = strip_or_none request.evidence_strategy;
  allowed_source_families = normalize_family_list request.allowed_source_families;
  preferred_source_families = normalize_family_list request.preferred_source_families;
  blocked_source_families = normalize_family_list request.blocked_source_families;
  available_families = normalize_family_list request.available_families;
}

unfoldable pub initial_scope : ActionMode → List FamilyName
initial_scope memory_backed_acquisition = research_knowledge_recall ∷ []
initial_scope any_acquisition =
    research_knowledge_recall ∷ docs_search ∷ paper_search ∷ web_search ∷ []
initial_scope external_acquisition = docs_search ∷ paper_search ∷ web_search ∷ []

-- `_filter_available` and `_filter_allowed`: an empty list restricts nothing.
unfoldable pub filter_by : List FamilyName → List FamilyName → List FamilyName
unfolding filter
filter_by restriction families =
    if is_empty restriction then families else filter (λ f. contains restriction f) families

unfoldable pub candidates : FamilySelectionRequest → List FamilyName
unfolding initial_scope filter_by filter
candidates request =
    filter (λ f. not (contains request.blocked_source_families f))
      (filter_by request.allowed_source_families
        (filter_by request.available_families (initial_scope request.action_mode)))

abbrev pub families_value : List FamilyName → Value
families_value families = list (items families)
  where
    items : List FamilyName → Items
    items [] = nil
    items (f ∷ r) = item (str (family_value f)) (items r)

selection_summary : FamilySelectionRequest → Option FamilyName → ℕ → Dict
selection_summary request family count =
    entry "selected_family" (elim family [ none ↦ null | some f ↦ str (family_value f) ])
      (entry "candidate_count" (nat_value count) (
        entry "action_mode" (str (action_mode_value request.action_mode))
          (entry "policy" (str policy_name) empty)))

trace_head : FamilySelectionRequest → Dict → Dict
trace_head request rest =
    entry "target_problem" (str request.target_problem)
      (entry "action_mode" (str (action_mode_value request.action_mode)) rest)

-- The entries of the filters, which a match and a missing match both report.
filter_part : FamilySelectionRequest → List FamilyName → Dict → Dict
unfolding initial_scope filter_by
filter_part request candidate_families rest =
    let scope = initial_scope request.action_mode in
    let available = filter_by request.available_families scope in
    entry "initial_scope" (families_value scope) (
      entry "available_families" (families_value request.available_families) (
        entry "after_available_filter" (families_value available) (
          entry "allowed_source_families" (families_value request.allowed_source_families) (
            entry "after_allowed_filter"
              (families_value (filter_by request.allowed_source_families available))
              (entry "blocked_source_families" (families_value request.blocked_source_families)
                (entry "candidate_families" (families_value candidate_families) rest))))))

shape_value : Option EvidenceShape → Value
shape_value none = null
shape_value (some s) = dict (
    entry "desired_evidence_kind" (str (kind_value s.desired_evidence_kind)) (
      entry "freshness_requirement" (str (freshness_value s.freshness_requirement))
        (entry "breadth" (str (breadth_value s.breadth)) empty)))

intent_part : FamilySelectionRequest → List FamilyName → Dict
unfolding shape_value
intent_part request ranked =
    entry "preferred_source_families" (families_value request.preferred_source_families) (
      entry "evidence_goal" (str_value request.evidence_goal) (
        entry "evidence_shape" (shape_value request.evidence_shape) (
          entry "task_type" (str_value request.task_type) (
            entry "task_framing" (str_value request.task_framing) (
              entry "evidence_strategy" (str_value request.evidence_strategy)
                (entry "ranked_candidate_families" (families_value ranked) empty))))))

pub failed_result : FamilySelectionRequest → String → FamilySelectionResult
unfolding selection_summary trace_head
failed_result request error_info = record {
  candidate_families = [];
  ranked_candidate_families = [];
  selected_family = none;
  selection_status = selection_failed;
  selection_summary = selection_summary request none 0;
  selection_trace = trace_head request (entry "family_selection_error" (str error_info) empty);
  error_info = some error_info;
}

pub no_match_result : FamilySelectionRequest → FamilySelectionResult
unfolding selection_summary trace_head filter_part
no_match_result request =
    let error_info : String = "No matching source family is available for this request." in
    record {
      candidate_families = [];
      ranked_candidate_families = [];
      selected_family = none;
      selection_status = no_match;
      selection_summary = selection_summary request none 0;
      selection_trace =
          trace_head request
            (filter_part request [] (entry "family_selection_error" (str error_info) empty));
      error_info = some error_info;
    }

-- The result for candidates in ranked order; the source reads the first of the ranked list.
pub ranked_result :
    FamilySelectionRequest → List FamilyName → List FamilyName → FamilySelectionResult
unfolding selection_summary trace_head filter_part intent_part no_match_result
ranked_result request candidate_families [] = no_match_result request
ranked_result request candidate_families (first ∷ rest) = record {
  candidate_families = candidate_families;
  ranked_candidate_families = first ∷ rest;
  selected_family = some first;
  selection_status = selected;
  selection_summary = selection_summary request (some first) (length candidate_families);
  selection_trace =
      trace_head request
        (filter_part request candidate_families (intent_part request (first ∷ rest)));
  error_info = none;
}

-- `lower` is `str.lower`, whose Unicode tables are not part of the repository.
module _ (lower : String → String) where
  -- `select_family`, after normalisation.
  pub select_normalized : FamilySelectionRequest → FamilySelectionResult
  unfolding candidates rank_families failed_result no_match_result ranked_result
  select_normalized request =
      if is_blank request.target_problem
      then failed_result request "target_problem must not be empty."
      else if is_empty (candidates request)
      then no_match_result request
      else ranked_result request (candidates request)
          (rank_families lower (candidates request) request)

  unfoldable pub select_family : FamilySelectionRequest → FamilySelectionResult
  unfolding select_normalized normalize_request
  select_family request = select_normalized (normalize_request request)
