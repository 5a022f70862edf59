-- ===== src/Domain/Retrieval/ExecutionSummary.antt =====
-- RetrievalExecutionSummary (app/domain/models/retrieval/retrieval_execution_summary.py).
use package.vertical_ai_research_act.Prelude.{
  ℕ, String, Option, List, [], ◌∷◌, string_eq, contains, Bool, not, ◌&&◌, ◌||◌,
}
use package.vertical_ai_research_act.Prelude.Result.{Result, ok, require, ◌>>=◌}
use package.vertical_ai_research_act.Text.{ends_with}
use package.vertical_ai_research_act.Domain.Value.{
  Value, bool, Dict, empty, entry, get, update, collect, str_value, nat_value, nat_value_or_null,
  value_or, truthy, is_number,
}
use package.vertical_ai_research_act.Domain.Retrieval.Pydantic.{
  Pydantic, read_count, read_count_or_none, read_text_or_none, mapping_or_empty,
}

pub record RetrievalExecutionSummary : Type 0 where
  pub policy : Option String
  pub execution_status : Option String
  pub normalized_count : Option ℕ
  pub dropped_item_count : Option ℕ
  pub retry_count : ℕ
  pub fallback_applied : Bool
  pub recovery_attempt_count : ℕ
  pub recovery_exhausted_reason : Option String
  pub metrics : Dict
  pub observability : Dict

unfoldable pub to_legacy_dict : RetrievalExecutionSummary → Dict
unfolding update
to_legacy_dict s =
    update
      (update
        (entry "policy" (str_value s.policy) (
          entry "execution_status" (str_value s.execution_status) (
            entry "normalized_count" (nat_value_or_null s.normalized_count) (
              entry "dropped_item_count" (nat_value_or_null s.dropped_item_count) (
                entry "retry_count" (nat_value s.retry_count) (
                  entry "fallback_applied" (bool s.fallback_applied) (
                    entry "recovery_attempt_count" (nat_value s.recovery_attempt_count) (
                      entry "recovery_exhausted_reason" (str_value s.recovery_exhausted_reason)
                        empty))))))))
        s.metrics)
      s.observability

abbrev pub known_keys : List String
known_keys =
    "policy" ∷ "execution_status" ∷ "normalized_count" ∷ "dropped_item_count" ∷ "retry_count"
    ∷ "fallback_applied" ∷ "recovery_attempt_count" ∷ "recovery_exhausted_reason" ∷ "metrics"
    ∷ "observability" ∷ []

-- Which of the unknown keys count as metrics.
unfoldable pub is_metric : String → Value → Bool
unfolding ends_with
is_metric k v = ends_with k "_count" || ends_with k "_ms" || is_number v

unfoldable pub model_validate : Pydantic → Dict → Result RetrievalExecutionSummary
unfolding get collect is_metric
model_validate p d = do
  policy ← require "RetrievalExecutionSummary" (read_text_or_none (get d "policy"))
  execution_status ←
      require "RetrievalExecutionSummary" (read_text_or_none (get d "execution_status"))
  normalized_count ←
      require "RetrievalExecutionSummary" (read_count_or_none p (get d "normalized_count"))
  dropped_item_count ←
      require "RetrievalExecutionSummary" (read_count_or_none p (get d "dropped_item_count"))
  retry_count ←
      require "RetrievalExecutionSummary"
        (read_count p (value_or (get d "retry_count") (nat_value 0)))
  recovery_attempt_count ←
      require "RetrievalExecutionSummary"
        (read_count p (value_or (get d "recovery_attempt_count") (nat_value 0)))
  recovery_exhausted_reason ←
      require "RetrievalExecutionSummary" (read_text_or_none (get d "recovery_exhausted_reason"))
  ok (record {
    policy = policy;
    execution_status = execution_status;
    normalized_count = normalized_count;
    dropped_item_count = dropped_item_count;
    retry_count = retry_count;
    fallback_applied = truthy (get d "fallback_applied");
    recovery_attempt_count = recovery_attempt_count;
    recovery_exhausted_reason = recovery_exhausted_reason;
    metrics =
        collect (λ k v. not (contains known_keys k) && is_metric k v)
          (mapping_or_empty (get d "metrics")) d;
    observability =
        collect (λ k v. not (contains known_keys k) && not (is_metric k v))
          (mapping_or_empty (get d "observability")) d;
  })
