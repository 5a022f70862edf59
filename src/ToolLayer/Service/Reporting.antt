-- ===== src/ToolLayer/Service/Reporting.antt =====
-- What the result of a request says: its error, its status and its counters.
use vertical_ai_research_act.Prelude.{
  ℕ, ◌≤◌, ◌*◌, ◌+◌, string_eq, ◌≡◌, refl, sym, ◌∙◌, ap, ◌↔◌, inl, inr, String, true, Option, none,
  some, is_some,
}
use mathlib.Core.Path.{subst}
use vertical_ai_research_act.Prelude.Act.{Returned}
use vertical_ai_research_act.Prelude.Result.{Result, ok, raised, returned_parts}
use vertical_ai_research_act.Domain.Enums.{AcquisitionStatus, failed}
use vertical_ai_research_act.Domain.Value.{update}
use vertical_ai_research_act.Domain.Retrieval.ExecutionSummary.{RetrievalExecutionSummary}
use vertical_ai_research_act.Domain.Requests.{
  ToolExecutionLayerRequest, ToolExecutionLayerResult, ExecutionStatus, completed, execution_failed,
  execution_status_value,
}
use vertical_ai_research_act.Domain.Families.{BaseFamilyExecutionResult}
use vertical_ai_research_act.ToolLayer.Service.{execute, normalize_request}
use vertical_ai_research_act.ToolLayer.Service.Budget.{IsWithinBudget, fallback_count}
use vertical_ai_research_act.ToolLayer.Service.Progress.{IsReport}
use vertical_ai_research_act.ToolLayer.Service.Rounds.{execute-reports}
use vertical_ai_research_act.ToolLayer.Service.State.{Services, ToolExecutionLayerRunState}
use vertical_ai_research_act.ToolLayer.Service.Report.{
  legacy_execution, execution_overlay, source_summary_of, execution_summary_of, retrieval_trace_of,
  build_result, failed_from_state, completed_with, completed_from_state,
}
use vertical_ai_research_act.ToolLayer.Service.Counters.{
  IsCount, overlay-Tells, model_validate-IsCount,
}

-- What `_result` puts together from its arguments.
record IsBuilt (state : ToolExecutionLayerRunState) (status : ExecutionStatus)
    (error_info : Option String) (result : ToolExecutionLayerResult) : Type 0 where
  pub status_kept : status ≡ result.execution_status
  pub error_kept : error_info ≡ result.error_info
  pub counted : IsCount state status result.execution_summary

ok_injective : {A : Type 0} {a b : A} → ok a ≡ ok b → a ≡ b
ok_injective h = cc

-- What a result tells of the request's retry budget.
pub record IsAccount (budget : ℕ) (result : ToolExecutionLayerResult) : Type 0 where
  pub retries_told : result.execution_summary.retry_count ≤ 2 * budget
  pub recoveries_told :
      result.execution_summary.recovery_attempt_count
      ≡ result.execution_summary.retry_count
        + fallback_count result.execution_summary.fallback_applied
  pub status_told :
      result.execution_summary.execution_status
      ≡ some (execution_status_value result.execution_status)
  pub error_told : (result.execution_status ≡ execution_failed) ↔ (is_some result.error_info ≡ true)

module _ {W : Type 0} (services : Services W) (request : ToolExecutionLayerRequest) where
  build_result-IsBuilt :
      (state : ToolExecutionLayerRunState) (status : ExecutionStatus)
      (acquisition : AcquisitionStatus) (error_info : Option String)
      (result : ToolExecutionLayerResult)
      → build_result services request state status acquisition error_info ≡ ok result
      → IsBuilt state status error_info result
  unfolding build_result execution_summary_of
  build_result-IsBuilt state status acquisition error_info result h =
      let (source, p, h0) = returned_parts (source_summary_of services state) _ result h in
      let (summary, q, h1) =
        returned_parts (execution_summary_of services state status) _ result h0 in
      let (trace, r, h2) =
        returned_parts (retrieval_trace_of services request state acquisition) _ result h1 in
      let e = ok_injective h2 in
      record {
        status_kept = ap (λ (x : ToolExecutionLayerResult). x.execution_status) e;
        error_kept = ap (λ (x : ToolExecutionLayerResult). x.error_info) e;
        counted =
            subst (λ (s : RetrievalExecutionSummary). IsCount state status s)
              (ap (λ (x : ToolExecutionLayerResult). x.execution_summary) e)
              (model_validate-IsCount services.pydantic
                (update (legacy_execution state.latest_family_result)
                  (execution_overlay state status))
                state status summary
                (overlay-Tells (legacy_execution state.latest_family_result) state status
                  state.latest_evaluation refl)
                q);
      }

  IsAccount-of :
      (budget : ℕ) (state : ToolExecutionLayerRunState) (status : ExecutionStatus)
      (error_info : Option String) (result : ToolExecutionLayerResult)
      → IsWithinBudget budget state
      → (status ≡ execution_failed) ↔ (is_some error_info ≡ true)
      → IsBuilt state status error_info result
      → IsAccount budget result
  IsAccount-of budget state status error_info result within agrees built =
      let c = built.counted in
      record {
        retries_told = rw c.retries_told within.retries_bounded;
        recoveries_told =
            rw (c.recoveries_told, c.retries_told, c.fallback_told) within.recoveries_counted;
        status_told = c.status_told ∙ ap (λ s. some (execution_status_value s)) built.status_kept;
        error_told = rw (sym built.status_kept, sym built.error_kept) agrees;
      }

  failed_from_state-IsAccount :
      (state : ToolExecutionLayerRunState) (error : String) (result : ToolExecutionLayerResult)
      → IsWithinBudget request.retry_budget state
      → failed_from_state services request state error ≡ ok result
      → IsAccount request.retry_budget result
  unfolding failed_from_state
  failed_from_state-IsAccount state error result within h =
      IsAccount-of request.retry_budget state execution_failed (some error) result within
        (λ _. refl, λ _. refl)
        (build_result-IsBuilt state execution_failed failed (some error) result h)

  completed_with-IsAccount :
      (state : ToolExecutionLayerRunState) (latest : Option BaseFamilyExecutionResult)
      (result : ToolExecutionLayerResult)
      → IsWithinBudget request.retry_budget state
      → completed_with services request state latest ≡ ok result
      → IsAccount request.retry_budget result
  unfolding completed_with
  completed_with-IsAccount state none result within h =
      failed_from_state-IsAccount state _ result within h
  completed_with-IsAccount state (some latest) result within h =
      IsAccount-of request.retry_budget state completed none result within (λ p. cc, λ p. cc)
        (build_result-IsBuilt state completed latest.acquisition_status none result h)

  IsReport-IsAccount :
      (result : ToolExecutionLayerResult)
      → IsReport services request result
      → IsAccount request.retry_budget result
  unfolding completed_from_state
  IsReport-IsAccount result report = elim report.reports [
    | inl (error, p) ↦ failed_from_state-IsAccount report.state error result report.within p
    | inr p ↦
        completed_with-IsAccount report.state report.state.latest_family_result result report.within
          p
  ]

returned_result :
    {A W : Type 0} (P : A → Type 0) (o : Option (Result A × W)) (a : A) (w : W)
    → ((r : Result A × W) × (o ≡ some r) × Returned P r.0)
    → o ≡ some (ok a, w)
    → P a
returned_result P o a w ((ok b, v), p, h) q = let e : b ≡ a = cc in subst P e h
returned_result P o a w ((raised e, v), p, h) q = cc

-- A result that `execute` returns counts at most two retries per unit of the retry budget, as many
-- recoveries as retries and the fallback together, states its own execution status in the execution
-- summary, and has an error exactly if the execution failed.
pub execute-IsAccount :
    {W : Type 0} (services : Services W) (request : ToolExecutionLayerRequest) (w w' : W)
    (result : ToolExecutionLayerResult)
    → execute services request w ≡ some (ok result, w')
    → IsAccount request.retry_budget result
unfolding normalize_request
execute-IsAccount services request w w' result h =
    let n = normalize_request request in
    IsReport-IsAccount services n result (
      returned_result (IsReport services n) (execute services request w) result w'
        (execute-reports services request w) h)
