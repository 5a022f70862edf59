-- ===== src/ToolLayer/Service/Counters.antt =====
-- What the execution summary of a result says of the counters of the final state.
use vertical_ai_research_act.Prelude.{
  ℕ, zero, suc, not, ◌&&◌, contains, string_eq, ◌≡◌, refl, sym, ◌∙◌, ap, String, Option, none, some,
}
use vertical_ai_research_act.Prelude.Result.{ok, require, read_parts, ◌>>=◌}
use vertical_ai_research_act.Domain.Value.{
  Value, null, bool, str, Dict, get, update, lookup-update, lookup_last, nat_value, str_value,
  value_or, collect, collect,
}
use vertical_ai_research_act.Domain.Retrieval.ExecutionSummary
use vertical_ai_research_act.Domain.Retrieval.ExecutionSummary.{RetrievalExecutionSummary}
use vertical_ai_research_act.Domain.Retrieval.Pydantic.{
  Pydantic, read_text_or_none, read_count_or_none, mapping_or_empty,
}
use vertical_ai_research_act.Domain.Requests.{
  RequestCompletionEvaluationResult, ExecutionStatus, execution_status_value,
}
use vertical_ai_research_act.ToolLayer.Service.State.{ToolExecutionLayerRunState}
use vertical_ai_research_act.ToolLayer.Service.Report.{execution_overlay}

-- The summary repeats the counters of the state.
pub record IsCount (state : ToolExecutionLayerRunState) (status : ExecutionStatus)
    (summary : RetrievalExecutionSummary) : Type 0 where
  pub status_told : summary.execution_status ≡ some (execution_status_value status)
  pub retries_told : summary.retry_count ≡ state.retry_count
  pub fallback_told : summary.fallback_applied ≡ state.fallback_applied
  pub recoveries_told : summary.recovery_attempt_count ≡ state.recovery_attempt_count
  pub reason_told : summary.recovery_exhausted_reason ≡ state.recovery_exhausted_reason

-- What the mapping has to say for that.
pub record Tells (d : Dict) (state : ToolExecutionLayerRunState) (status : ExecutionStatus)
    : Type 0 where
  pub status_there : get d "execution_status" ≡ str (execution_status_value status)
  pub retries_there : get d "retry_count" ≡ nat_value state.retry_count
  pub fallback_there : get d "fallback_applied" ≡ bool state.fallback_applied
  pub recoveries_there : get d "recovery_attempt_count" ≡ nat_value state.recovery_attempt_count
  pub reason_there : get d "recovery_exhausted_reason" ≡ str_value state.recovery_exhausted_reason

get-update :
    (d other : Dict) (k : String) (v : Value)
    → lookup_last other k ≡ some v
    → get (update d other) k ≡ v
unfolding get
get-update d other k v h =
    ap (λ (o : Option Value). elim o as (λ _. Value) [ none ↦ null | some u ↦ u ])
      (lookup-update d other k)
    ∙ rw h

pub overlay-Tells :
    (d : Dict) (state : ToolExecutionLayerRunState) (status : ExecutionStatus)
    (evaluation : Option RequestCompletionEvaluationResult)
    → state.latest_evaluation ≡ evaluation
    → Tells (update d (execution_overlay state status)) state status
unfolding lookup_last execution_overlay
overlay-Tells d state status none h = record {
  status_there = get-update d (execution_overlay state status) "execution_status" _ (rw h);
  retries_there = get-update d (execution_overlay state status) "retry_count" _ (rw h);
  fallback_there = get-update d (execution_overlay state status) "fallback_applied" _ (rw h);
  recoveries_there =
      get-update d (execution_overlay state status) "recovery_attempt_count" _ (rw h);
  reason_there = get-update d (execution_overlay state status) "recovery_exhausted_reason" _ (rw h);
}
overlay-Tells d state status (some e) h = record {
  status_there = get-update d (execution_overlay state status) "execution_status" _ (rw h);
  retries_there = get-update d (execution_overlay state status) "retry_count" _ (rw h);
  fallback_there = get-update d (execution_overlay state status) "fallback_applied" _ (rw h);
  recoveries_there =
      get-update d (execution_overlay state status) "recovery_attempt_count" _ (rw h);
  reason_there = get-update d (execution_overlay state status) "recovery_exhausted_reason" _ (rw h);
}

value_or-nat : (n : ℕ) → value_or (nat_value n) (nat_value 0) ≡ nat_value n
value_or-nat zero = refl
value_or-nat (suc n) = refl

read_text-str_value : (o : Option String) → read_text_or_none (str_value o) ≡ some o
read_text-str_value none = refl
read_text-str_value (some s) = refl

-- What is read from such a mapping, by the three entries that come from the family.
summary_of :
    Dict
    → ToolExecutionLayerRunState
    → ExecutionStatus
    → Option String
    → Option ℕ
    → Option ℕ
    → RetrievalExecutionSummary
unfolding ExecutionSummary.is_metric collect get
summary_of d state status policy normalized dropped = record {
  policy = policy;
  execution_status = some (execution_status_value status);
  normalized_count = normalized;
  dropped_item_count = dropped;
  retry_count = state.retry_count;
  fallback_applied = state.fallback_applied;
  recovery_attempt_count = state.recovery_attempt_count;
  recovery_exhausted_reason = state.recovery_exhausted_reason;
  metrics =
      collect
        (λ k v. not (contains ExecutionSummary.known_keys k) && ExecutionSummary.is_metric k v)
        (mapping_or_empty (get d "metrics")) d;
  observability =
      collect
        (λ k v.
          not (contains ExecutionSummary.known_keys k) && not (ExecutionSummary.is_metric k v))
        (mapping_or_empty (get d "observability")) d;
}

model_validate-Tells :
    (p : Pydantic) (d : Dict) (state : ToolExecutionLayerRunState) (status : ExecutionStatus)
    → Tells d state status
    → ExecutionSummary.model_validate p d ≡ (
        require "RetrievalExecutionSummary" (read_text_or_none (get d "policy")) >>= λ policy.
        require "RetrievalExecutionSummary" (read_count_or_none p (get d "normalized_count"))
        >>= λ normalized.
            require "RetrievalExecutionSummary" (read_count_or_none p (get d "dropped_item_count"))
            >>= λ dropped. ok (summary_of d state status policy normalized dropped))
unfolding ExecutionSummary.model_validate summary_of
model_validate-Tells p d state status t = rw (
  t.status_there,
  t.retries_there,
  t.fallback_there,
  t.recoveries_there,
  t.reason_there,
  value_or-nat state.retry_count,
  value_or-nat state.recovery_attempt_count,
  read_text-str_value state.recovery_exhausted_reason,
)

pub model_validate-IsCount :
    (p : Pydantic) (d : Dict) (state : ToolExecutionLayerRunState) (status : ExecutionStatus)
    (summary : RetrievalExecutionSummary)
    → Tells d state status
    → ExecutionSummary.model_validate p d ≡ ok summary
    → IsCount state status summary
unfolding summary_of
model_validate-IsCount p d state status summary t h =
    let (policy, normalized, dropped, q) =
      read_parts "RetrievalExecutionSummary" (read_text_or_none (get d "policy"))
        (read_count_or_none p (get d "normalized_count"))
        (read_count_or_none p (get d "dropped_item_count")) (summary_of d state status) summary
        (sym (model_validate-Tells p d state status t) ∙ h) in
    record {
      status_told = cc;
      retries_told = cc;
      fallback_told = cc;
      recoveries_told = cc;
      reason_told = cc;
    }
