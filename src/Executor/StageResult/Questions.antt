-- ===== src/Executor/StageResult/Questions.antt =====
-- The questions that a research stage leaves open.
use vertical_ai_research_act.Prelude.{
  ℕ, String, ◌<>◌, Bool, true, false, ◌&&◌, Option, List, [], ◌∷◌, ◌++◌, map, string_eq, leb,
  if◌then◌else◌,
}
use vertical_ai_research_act.Prelude.Result.{Result, ok, ◌>>=◌}
use vertical_ai_research_act.Text.{text_or, strip_or_none, unique_non_empty_strings}
use vertical_ai_research_act.Domain.Enums.{acquisition_value}
use vertical_ai_research_act.Domain.Requests.{ToolExecutionLayerResult, execution_status_value}
use vertical_ai_research_act.Domain.Evidence.{
  EvidenceProcessingResult, EvidenceProcessingStatus, processing_status_value, processing_failed,
  nothing_processed,
}
use vertical_ai_research_act.Domain.ResearchStage.{ResearchStageInput}
use vertical_ai_research_act.Executor.Enums.{ResearchIterationOutcome, is_degrade, is_continue}
use vertical_ai_research_act.Executor.State.{ResearchExecutorRunState, require_current_iteration}
use vertical_ai_research_act.Executor.Support.{max_iterations, brought_nothing, prompt_text_list}

-- `value or other`, for optional texts.
abbrev pub reason_or : Option String → String → String
reason_or error_info other = text_or error_info other

-- The questions that unsuccessful requests leave open.
unfoldable tool_questions : List ToolExecutionLayerResult → List String
unfolding brought_nothing
tool_questions [] = []
tool_questions (result ∷ results) =
    let rest = tool_questions results in
    if brought_nothing result
    then ("Tool Execution Layer 未形成可用材料："
        <> reason_or result.error_info (
            "execution_status="
            <> execution_status_value result.execution_status
            <> ", acquisition_status="
            <> acquisition_value result.acquisition_status))
      ∷ rest
    else rest

abbrev is_unproductive : EvidenceProcessingStatus → Bool
is_unproductive processing_failed = true
is_unproductive nothing_processed = true
is_unproductive _ = false

unfoldable processing_questions : List EvidenceProcessingResult → List String
processing_questions [] = []
processing_questions (result ∷ results) =
    let rest = processing_questions results in
    if is_unproductive result.processing_status
    then ("Evidence Processing 未形成可用 evidence："
        <> reason_or result.error_info
            ("processing_status=" <> processing_status_value result.processing_status))
      ∷ rest
    else rest

abbrev pub rationale_or : Option String → String → String
rationale_or rationale other = text_or (strip_or_none rationale) other

-- The question of a degraded run, which reads the iteration.
unfoldable pub degrade_questions :
    ResearchExecutorRunState → ResearchIterationOutcome → Result (List String)
unfolding require_current_iteration strip_or_none
degrade_questions state outcome =
    if is_degrade outcome
    then (do
      iteration ← require_current_iteration state
      ok (rationale_or iteration.outcome_rationale "Research iteration 进入 degrade 收束。" ∷ []))
    else ok []

abbrev budget_questions : ResearchStageInput → ℕ → ResearchIterationOutcome → List String
budget_questions stage_input executed_iteration_count outcome =
    if is_continue outcome && leb (max_iterations stage_input) executed_iteration_count
    then "Research iteration budget 已用尽，仍存在未完成的后续研究需求。" ∷ []
    else []

-- All questions, in their order.
unfoldable pub all_questions :
    ResearchStageInput
    → ResearchExecutorRunState
    → ℕ
    → ResearchIterationOutcome
    → List String
    → List String
unfolding tool_questions processing_questions max_iterations prompt_text_list
all_questions stage_input state executed_iteration_count outcome degraded =
    tool_questions state.tool_execution_results
    ++ processing_questions state.evidence_processing_results
    ++ degraded
    ++ budget_questions stage_input executed_iteration_count outcome
    ++ map (λ caveat. "Finding caveat: " <> caveat) (prompt_text_list state.finding_caveats)

-- `_open_questions_from_run_state`
unfoldable pub open_questions_from_run_state :
    ResearchStageInput
    → ResearchExecutorRunState
    → ℕ
    → ResearchIterationOutcome
    → Result (List String)
unfolding all_questions degrade_questions unique_non_empty_strings
open_questions_from_run_state stage_input state executed_iteration_count outcome = do
  degraded ← degrade_questions state outcome
  ok (
      unique_non_empty_strings
        (all_questions stage_input state executed_iteration_count outcome degraded))
