-- ===== src/ToolLayer/Service/Refusal.antt =====
-- What happens when a family reports a failure reason that the evaluation request does not know.
use vertical_ai_research_act.Prelude.{◌≡◌, String, true, none, some, List}
use vertical_ai_research_act.Prelude.Result.{ok, raised, validation_error}
use vertical_ai_research_act.Prelude.Act.{Act}
use vertical_ai_research_act.Text.{or_blank}
use vertical_ai_research_act.Domain.Enums.{FamilyName, is_failed}
use vertical_ai_research_act.Domain.Value.{str, get, value_or}
use vertical_ai_research_act.Domain.Families.{BaseFamilyExecutionResult, FamilyRequest}
use vertical_ai_research_act.Domain.Requests.{
  RetrievalQueryGenerationResult, ToolExecutionLayerRequest, failure_reason_of,
}
use vertical_ai_research_act.ToolLayer.Service.State.{Services, ToolExecutionLayerRunState}
use vertical_ai_research_act.ToolLayer.Service.Families.{execute_family}
use vertical_ai_research_act.ToolLayer.Service.Readiness.{
  observed_failure_reason, read_failure_reason,
}
use vertical_ai_research_act.ToolLayer.Service.Attempt.{run_family_and_evaluate}

reported-reason :
    (result : BaseFamilyExecutionResult) (reason : String)
    → is_failed result.acquisition_status ≡ true
    → value_or
        (get result.retrieval_trace.observability "failure_reason")
        (get result.execution_summary.observability "failure_reason")
      ≡ str reason
    → observed_failure_reason result none ≡ some reason
unfolding observed_failure_reason
reported-reason result reason f h = rw f (rw h)

-- If a family returns a failed result whose reported failure reason is none of the literals of
-- FailureReason, the attempt raises the validation error of the evaluation request, in the world
-- that the family left, and no evaluation takes place.
pub run_family_and_evaluate-refuses :
    {W : Type 0} (services : Services W) (request : ToolExecutionLayerRequest)
    (available : List FamilyName) (state : ToolExecutionLayerRunState) (family : FamilyName)
    (query : RetrievalQueryGenerationResult)
    (service : FamilyRequest → Act W BaseFamilyExecutionResult) (result : BaseFamilyExecutionResult)
    (reason : String) (w w' : W)
    → execute_family services request family (or_blank query.generated_query) service w
      ≡ (ok (result, none), w')
    → is_failed result.acquisition_status ≡ true
    → value_or
        (get result.retrieval_trace.observability "failure_reason")
        (get result.execution_summary.observability "failure_reason")
      ≡ str reason
    → failure_reason_of reason ≡ none
    → run_family_and_evaluate services request available state family query service w
      ≡ (raised (validation_error "RequestCompletionEvaluationRequest"), w')
unfolding run_family_and_evaluate read_failure_reason
run_family_and_evaluate-refuses services request available state family query service result reason
      w w' ran failed reported unknown =
    rw ran (rw (reported-reason result reason failed reported) (rw unknown))
