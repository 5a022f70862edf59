-- ===== src/Executor/StageResult.antt =====
-- The result builder (app/services/executor/research_stage_result_builder.py): the public result of
-- a research stage from the final state of the run.
pub mod Evidence
pub mod Questions
pub mod References
pub mod Status
pub mod Built
use Prim.Native.Nat.{Ordering}
use Prim.Native.String as Str
use vertical_ai_research_act.Prelude.{
  ℕ, String, ◌<>◌, Bool, true, false, not, ◌&&◌, ◌||◌, Option, none, some, List, [], ◌∷◌, ◌++◌, map,
  length, filter, any, is_empty, contains, dedupe, string_eq, ◌==◌, leb, if◌then◌else◌,
}
use vertical_ai_research_act.Prelude.Result.{Result, ok, ◌>>=◌}
use vertical_ai_research_act.Text.{
  is_blank, is_given, text_or, or_blank, join, strip_or_none, unique_non_empty_strings,
}
use vertical_ai_research_act.Text.Decimal.{decimal}
use vertical_ai_research_act.Domain.Enums.{FamilyName, family_value, is_failed, acquisition_value}
use vertical_ai_research_act.Domain.Retrieval.{SourceReference}
use vertical_ai_research_act.Domain.Requests.{ToolExecutionLayerResult, execution_status_value}
use vertical_ai_research_act.Domain.Evidence.{
  ProcessedEvidenceUnit, EvidenceProcessingResult, EvidenceProcessingStatus, evidence_type_value,
  processing_status_value, processing_failed, nothing_processed, is_processing_failed,
}
use vertical_ai_research_act.Domain.ResearchStage.{
  ResearchStageInput, ResearchStageStatus, completed, partial_success, no_result, failed,
  ResearchStageResult,
}
use vertical_ai_research_act.Executor.Enums.{ResearchIterationOutcome, is_degrade, is_continue}
use vertical_ai_research_act.Executor.State.{
  ResearchExecutorIterationState, ResearchExecutorRunState, require_current_iteration,
}
use vertical_ai_research_act.Executor.Support.{
  max_iterations, brought_nothing, is_execution_failed, latest_evidence_processing_result,
  prompt_text_list,
}
use vertical_ai_research_act.Executor.StageResult.Evidence.{
  source_references_from_processed_evidence, evidence_summary_from_run_state,
}
use vertical_ai_research_act.Executor.StageResult.Questions.{
  reason_or, rationale_or, open_questions_from_run_state,
}

-- A hard failure of the tool execution layer.
abbrev pub tools_failed : ToolExecutionLayerResult → Bool
tools_failed result =
    is_execution_failed result.execution_status || is_failed result.acquisition_status

abbrev pub processing_broke : EvidenceProcessingResult → Bool
processing_broke result = is_processing_failed result.processing_status

-- `_has_hard_failure`
unfoldable pub has_hard_failure : ResearchExecutorRunState → Bool
has_hard_failure state =
    any tools_failed state.tool_execution_results
    || any processing_broke state.evidence_processing_results

-- `_research_status_from_run_state`
unfoldable pub research_status_from_run_state :
    ResearchExecutorRunState
    → List ProcessedEvidenceUnit
    → List String
    → List String
    → ResearchIterationOutcome
    → ResearchStageStatus
unfolding has_hard_failure
research_status_from_run_state state units findings questions outcome =
    let has_research_output = not (is_empty units) || not (is_empty findings) in
    if is_degrade outcome
    then (if has_research_output then partial_success else failed)
    else if has_research_output
    then (if is_empty questions then completed else partial_success)
    else if has_hard_failure state
    then failed
    else no_result

-- The error of the first result that fails the test.
unfoldable first_tools_error : List ToolExecutionLayerResult → Option String
first_tools_error [] = none
first_tools_error (result ∷ results) =
    let later = first_tools_error results in
    if tools_failed result
    then some (reason_or result.error_info "Tool Execution Layer failed.")
    else later

unfoldable first_processing_error : List EvidenceProcessingResult → Option String
first_processing_error [] = none
first_processing_error (result ∷ results) =
    let later = first_processing_error results in
    if processing_broke result
    then some (reason_or result.error_info "Evidence Processing failed.")
    else later

-- The error of a degraded run.
unfoldable degrade_error :
    ResearchExecutorRunState → ResearchIterationOutcome → Result (Option String)
unfolding require_current_iteration strip_or_none
degrade_error state outcome =
    if is_degrade outcome
    then (do
      iteration ← require_current_iteration state
      ok (
          some (
            rationale_or iteration.outcome_rationale
              "Research iteration degraded without producing usable research output.")))
    else ok none

abbrev pub is_failed_status : ResearchStageStatus → Bool
is_failed_status failed = true
is_failed_status _ = false

-- The first error there is: of the tools, of the processing, or of the degraded run.
abbrev first_error : Option String → Option String → Result (Option String) → Result (Option String)
first_error (some error) processing degraded = ok (some error)
first_error none (some error) degraded = ok (some error)
first_error none none degraded = degraded

-- `_error_info_from_run_state`
unfoldable pub error_info_from_run_state :
    ResearchExecutorRunState
    → ResearchStageStatus
    → ResearchIterationOutcome
    → Result (Option String)
unfolding first_tools_error first_processing_error degrade_error
error_info_from_run_state state status outcome =
    if is_failed_status status
    then first_error (first_tools_error state.tool_execution_results)
        (first_processing_error state.evidence_processing_results) (degrade_error state outcome)
    else ok none

-- The result with its open questions and its error.
unfoldable pub stage_result :
    (SourceReference → String)
    → ResearchExecutorRunState
    → ℕ
    → ResearchIterationOutcome
    → List String
    → Option String
    → ResearchStageResult
unfolding prompt_text_list research_status_from_run_state source_references_from_processed_evidence
    evidence_summary_from_run_state
stage_result json_text state executed_iteration_count outcome questions error =
    let units = state.processed_evidence_units in
    let findings = prompt_text_list state.intermediate_findings in
    record {
      research_status = research_status_from_run_state state units findings questions outcome;
      retrieved_evidence_refs = source_references_from_processed_evidence json_text units;
      evidence_summary = evidence_summary_from_run_state state units;
      intermediate_findings = findings;
      open_questions = questions;
      executed_iteration_count = executed_iteration_count;
      error_info = error;
    }

-- `build`
unfoldable pub build :
    (SourceReference → String)
    → ResearchStageInput
    → ResearchExecutorRunState
    → ℕ
    → ResearchIterationOutcome
    → Result ResearchStageResult
unfolding prompt_text_list open_questions_from_run_state research_status_from_run_state
    error_info_from_run_state stage_result
build json_text stage_input state executed_iteration_count outcome = do
  questions ← open_questions_from_run_state stage_input state executed_iteration_count outcome
  error ←
      error_info_from_run_state state
        (research_status_from_run_state state state.processed_evidence_units
          (prompt_text_list state.intermediate_findings) questions outcome)
        outcome
  ok (stage_result json_text state executed_iteration_count outcome questions error)
