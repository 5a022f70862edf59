-- ===== src/Domain/Retrieval/Trace.antt =====
-- RetrievalTrace (app/domain/models/retrieval/retrieval_trace.py).
use package.vertical_ai_research_act.Prelude.{
  String, Option, List, [], ◌∷◌, string_eq, contains, Bool, not, ◌&&◌, ◌||◌, map, ◌==◌,
}
use package.vertical_ai_research_act.Prelude.Result.{
  Result, ok, raised, validation_error, require, ◌>>=◌,
}
use package.vertical_ai_research_act.Text.{ends_with}
use package.vertical_ai_research_act.Domain.Enums.{FamilyName}
use package.vertical_ai_research_act.Domain.Value.{
  Value, list, dict, Items, nil, item, Dict, empty, entry, get, update, collect, str_value,
  value_or, str_items, dict_items,
}
use package.vertical_ai_research_act.Domain.Retrieval.Pydantic.{
  Pydantic, read_texts, read_text_or_none, read_family_or_none, mapping_or_empty,
}
use package.vertical_ai_research_act.Domain.Retrieval.SourceSummary.{family_or_null}
use package.vertical_ai_research_act.Domain.Retrieval.AttemptTrace
use package.vertical_ai_research_act.Domain.Retrieval.AttemptTrace.{RetrievalAttemptTrace}

pub record RetrievalTrace : Type 0 where
  pub target_problem : Option String
  pub selected_family : Option FamilyName
  pub selected_tool : Option String
  pub generated_query : Option String
  pub query_focus : Option String
  pub acquisition_status : Option String
  pub attempts : List RetrievalAttemptTrace
  pub returned_refs : List String
  pub errors : Dict
  pub context : Dict
  pub observability : Dict

unfoldable pub to_legacy_dict : RetrievalTrace → Dict
unfolding update AttemptTrace.to_legacy_dict
to_legacy_dict t =
    update
      (update
        (update
          (entry "target_problem" (str_value t.target_problem) (
            entry "selected_family" (family_or_null t.selected_family) (
              entry "selected_tool" (str_value t.selected_tool) (
                entry "generated_query" (str_value t.generated_query) (
                  entry "query_focus" (str_value t.query_focus) (
                    entry "acquisition_status" (str_value t.acquisition_status) (
                      entry "attempts"
                        (list (dict_items (map AttemptTrace.to_legacy_dict t.attempts)))
                        (entry "returned_refs" (list (str_items t.returned_refs)) empty))))))))
          t.context)
        t.errors)
      t.observability

abbrev known_keys : List String
known_keys =
    "target_problem" ∷ "selected_family" ∷ "selected_tool" ∷ "generated_query" ∷ "query_focus"
    ∷ "acquisition_status" ∷ "attempts" ∷ "returned_refs" ∷ "errors" ∷ "context" ∷ "observability"
    ∷ []

abbrev context_keys : List String
context_keys =
    "query_text" ∷ "target_scope" ∷ "evidence_goal" ∷ "sub_question" ∷ "comparison_candidate"
    ∷ "gap" ∷ "freshness_requirement" ∷ "source_names" ∷ "sub_source_types" ∷ "include_domains"
    ∷ "exclude_domains" ∷ "owner_user_id" ∷ "project_scope_id" ∷ "allowed_visibility_scopes"
    ∷ "knowledge_types" ∷ "topic_tags" ∷ "source_types" ∷ "selected_sources"
    ∷ "selected_sub_source_types" ∷ "preferred_tool" ∷ "candidate_tools" ∷ "used_query_embedding"
    ∷ []

unfoldable pub is_error_key : String → Bool
unfolding ends_with
is_error_key k = ends_with k "_error" || k == "family_exception" || k == "family_error"

-- Each attempt of the list is itself read from its legacy mapping.
read_attempt_items : Pydantic → Items → Result (List RetrievalAttemptTrace)
unfolding AttemptTrace.model_validate
read_attempt_items p nil = ok []
read_attempt_items p (item (dict d) r) = do
  attempt ← AttemptTrace.model_validate p d
  rest ← read_attempt_items p r
  ok (attempt ∷ rest)
read_attempt_items p (item _ r) = raised (validation_error "RetrievalAttemptTrace")

read_attempts : Pydantic → Value → Result (List RetrievalAttemptTrace)
unfolding read_attempt_items
read_attempts p (list items) = read_attempt_items p items
read_attempts p _ = raised (validation_error "RetrievalTrace")

unfoldable pub model_validate : Pydantic → Dict → Result RetrievalTrace
unfolding get collect is_error_key read_attempts
model_validate p d = do
  target_problem ← require "RetrievalTrace" (read_text_or_none (get d "target_problem"))
  selected_family ← require "RetrievalTrace" (read_family_or_none (get d "selected_family"))
  selected_tool ← require "RetrievalTrace" (read_text_or_none (get d "selected_tool"))
  generated_query ← require "RetrievalTrace" (read_text_or_none (get d "generated_query"))
  query_focus ← require "RetrievalTrace" (read_text_or_none (get d "query_focus"))
  acquisition_status ← require "RetrievalTrace" (read_text_or_none (get d "acquisition_status"))
  attempts ← read_attempts p (value_or (get d "attempts") (list nil))
  returned_refs ←
      require "RetrievalTrace" (read_texts (value_or (get d "returned_refs") (list nil)))
  ok (record {
    target_problem = target_problem;
    selected_family = selected_family;
    selected_tool = selected_tool;
    generated_query = generated_query;
    query_focus = query_focus;
    acquisition_status = acquisition_status;
    attempts = attempts;
    returned_refs = returned_refs;
    errors =
        collect (λ k v. not (contains known_keys k) && is_error_key k)
          (mapping_or_empty (get d "errors")) d;
    context =
        collect
          (λ k v. not (contains known_keys k) && not (is_error_key k) && contains context_keys k)
          (mapping_or_empty (get d "context")) d;
    observability =
        collect
          (λ k v.
            not (contains known_keys k) && not (is_error_key k) && not (contains context_keys k))
          (mapping_or_empty (get d "observability")) d;
  })
