-- ===== src/Domain/Retrieval/AttemptTrace.antt =====
-- RetrievalAttemptTrace (app/domain/models/retrieval/retrieval_attempt_trace.py).
use package.vertical_ai_research_act.Prelude.{
  ℕ, String, Option, none, some, List, [], ◌∷◌, string_eq, contains, Bool, false, not,
}
use package.vertical_ai_research_act.Prelude.Result.{Result, ok, require, ◌>>=◌}
use package.vertical_ai_research_act.Domain.Enums.{FamilyName, AcquisitionStatus, acquisition_value}
use package.vertical_ai_research_act.Domain.Value.{
  Value, null, bool, str, Dict, empty, entry, get, update, collect, present_or, str_value,
  nat_value,
}
use package.vertical_ai_research_act.Domain.Retrieval.Pydantic.{
  Pydantic, read_count, read_bool, read_text_or_none, read_family_or_none, read_acquisition_or_none,
  mapping_or_empty,
}
use package.vertical_ai_research_act.Domain.Retrieval.SourceSummary.{family_or_null}

pub record RetrievalAttemptTrace : Type 0 where
  pub selected_family : Option FamilyName
  pub selected_tool : Option String
  pub generated_query : Option String
  pub query_focus : Option String
  pub acquisition_status : Option AcquisitionStatus
  pub evaluation_status : Option String
  pub recovery_action : Option String
  pub next_step_hint : Option String
  pub retry_count : ℕ
  pub fallback_applied : Bool
  pub metadata : Dict

abbrev pub acquisition_or_null : Option AcquisitionStatus → Value
acquisition_or_null none = null
acquisition_or_null (some a) = str (acquisition_value a)

unfoldable pub to_legacy_dict : RetrievalAttemptTrace → Dict
unfolding update
to_legacy_dict t =
    update
      (entry "selected_family" (family_or_null t.selected_family) (
        entry "selected_tool" (str_value t.selected_tool) (
          entry "generated_query" (str_value t.generated_query) (
            entry "query_focus" (str_value t.query_focus) (
              entry "acquisition_status" (acquisition_or_null t.acquisition_status) (
                entry "evaluation_status" (str_value t.evaluation_status) (
                  entry "recovery_action" (str_value t.recovery_action) (
                    entry "next_step_hint" (str_value t.next_step_hint) (
                      entry "retry_count" (nat_value t.retry_count)
                        (entry "fallback_applied" (bool t.fallback_applied) empty))))))))))
      t.metadata

abbrev known_keys : List String
known_keys =
    "selected_family" ∷ "selected_tool" ∷ "generated_query" ∷ "query_focus" ∷ "acquisition_status"
    ∷ "evaluation_status" ∷ "recovery_action" ∷ "next_step_hint" ∷ "retry_count"
    ∷ "fallback_applied" ∷ "metadata" ∷ []

unfoldable pub model_validate : Pydantic → Dict → Result RetrievalAttemptTrace
unfolding get collect
model_validate p d = do
  selected_family ← require "RetrievalAttemptTrace" (read_family_or_none (get d "selected_family"))
  selected_tool ← require "RetrievalAttemptTrace" (read_text_or_none (get d "selected_tool"))
  generated_query ← require "RetrievalAttemptTrace" (read_text_or_none (get d "generated_query"))
  query_focus ← require "RetrievalAttemptTrace" (read_text_or_none (get d "query_focus"))
  acquisition_status ←
      require "RetrievalAttemptTrace" (read_acquisition_or_none (get d "acquisition_status"))
  evaluation_status ←
      require "RetrievalAttemptTrace" (read_text_or_none (get d "evaluation_status"))
  recovery_action ← require "RetrievalAttemptTrace" (read_text_or_none (get d "recovery_action"))
  next_step_hint ← require "RetrievalAttemptTrace" (read_text_or_none (get d "next_step_hint"))
  retry_count ← require "RetrievalAttemptTrace" (present_or d "retry_count" (some 0) (read_count p))
  fallback_applied ←
      require "RetrievalAttemptTrace" (present_or d "fallback_applied" (some false) (read_bool p))
  ok (record {
    selected_family = selected_family;
    selected_tool = selected_tool;
    generated_query = generated_query;
    query_focus = query_focus;
    acquisition_status = acquisition_status;
    evaluation_status = evaluation_status;
    recovery_action = recovery_action;
    next_step_hint = next_step_hint;
    retry_count = retry_count;
    fallback_applied = fallback_applied;
    metadata = collect (λ k v. not (contains known_keys k)) (mapping_or_empty (get d "metadata")) d;
  })
