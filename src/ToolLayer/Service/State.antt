-- ===== src/ToolLayer/Service/State.antt =====
-- The state of one `execute` call and of one attempt, and the services that a call uses
-- (app/services/tool_execution_layer/models, and the protocols that the constructor takes).
use vertical_ai_research_act.Prelude.{ℕ, String, Bool, false, Option, none, List, []}
use vertical_ai_research_act.Prelude.Result.{Exception}
use vertical_ai_research_act.Prelude.Act.{Act}
use vertical_ai_research_act.Domain.Enums.{FamilyName}
use vertical_ai_research_act.Domain.Value.{Value, Dict}
use vertical_ai_research_act.Domain.Families.{BaseFamilyExecutionResult, FamilyRequest}
use vertical_ai_research_act.Domain.Retrieval.Pydantic.{Pydantic}
use vertical_ai_research_act.Domain.Requests.{
  FamilySelectionRequest, FamilySelectionResult, RetrievalQueryGenerationRequest,
  RetrievalQueryGenerationResult, RequestCompletionEvaluationRequest,
  RequestCompletionEvaluationResult, ToolExecutionLayerRequest,
}

-- The collaborators of the service. `W` is the world that LLM and network calls read and change;
-- `exception_text` and `value_text` are `str`, `redact` the credential patterns.
pub record Services (W : Type 0) : Type 0 where
  pub select_family : FamilySelectionRequest → Act W FamilySelectionResult
  pub generate_query : RetrievalQueryGenerationRequest → Act W RetrievalQueryGenerationResult
  pub evaluate : RequestCompletionEvaluationRequest → Act W RequestCompletionEvaluationResult
  pub family_service : FamilyName → Option (FamilyRequest → Act W BaseFamilyExecutionResult)
  pub pydantic : Pydantic
  pub exception_text : Exception → String
  pub value_text : Value → String
  pub redact : String → String

-- `retry_counts_by_family` is read only by `.get(family, 0)`: a function, 0 where no key is.
pub record ToolExecutionLayerRunState : Type 0 where
  pub blocked_families : List FamilyName
  pub attempts : List Dict
  pub latest_selection : Option FamilySelectionResult
  pub latest_query_generation : Option RetrievalQueryGenerationResult
  pub latest_family_result : Option BaseFamilyExecutionResult
  pub latest_evaluation : Option RequestCompletionEvaluationResult
  pub retry_count : ℕ
  pub retry_counts_by_family : FamilyName → ℕ
  pub fallback_applied : Bool
  pub recovery_attempt_count : ℕ
  pub recovery_exhausted_reason : Option String
  pub retry_context : Option (FamilyName × RetrievalQueryGenerationResult)

pub record ToolExecutionLayerAttemptOutcome : Type 0 where
  pub selected_family : Option FamilyName
  pub query_generation_result : Option RetrievalQueryGenerationResult
  pub family_result : Option BaseFamilyExecutionResult
  pub evaluation_result : Option RequestCompletionEvaluationResult
  pub execution_failure_reason : Option String
  pub error_info : Option String

-- `_create_execution_state`
unfoldable pub create_execution_state : ToolExecutionLayerRequest → ToolExecutionLayerRunState
create_execution_state request = record {
  blocked_families = request.blocked_source_families;
  attempts = [];
  latest_selection = none;
  latest_query_generation = none;
  latest_family_result = none;
  latest_evaluation = none;
  retry_count = 0;
  retry_counts_by_family = λ family. 0;
  fallback_applied = false;
  recovery_attempt_count = 0;
  recovery_exhausted_reason = none;
  retry_context = none;
}
