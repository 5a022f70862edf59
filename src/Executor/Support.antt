-- ===== src/Executor/Support.antt =====
-- What the collaborators of the executor share (app/services/executor/
-- research_executor_collaborator_support.py): budgets, texts and readings of the state.
use vertical_ai_research_act.Prelude.{
  ℕ, zero, suc, ◌-◌, String, ◌<>◌, Bool, true, false, not, ◌||◌, Option, none, some, List, [], ◌∷◌,
  or_else, is_empty, leb, if◌then◌else◌,
}
use vertical_ai_research_act.Prelude.Int.{ℤ, pos, negsuc, leb_ℤ}
use vertical_ai_research_act.Prelude.Result.{Result, ok, raised, value_error}
use vertical_ai_research_act.Text.{strip_or_none, unique_non_empty_strings}
use vertical_ai_research_act.Domain.Enums.{is_failed_or_empty}
use vertical_ai_research_act.Domain.Requests.{
  ToolExecutionLayerResult, ExecutionStatus, completed, execution_failed,
}
use vertical_ai_research_act.Domain.Evidence.{EvidenceProcessingResult}
use vertical_ai_research_act.Domain.ResearchStage.{ResearchStageInput}
use vertical_ai_research_act.Executor.Enums.{
  is_no_gap, is_no_severity, is_no_purpose, is_no_evidence_kind,
}
use vertical_ai_research_act.Executor.Payloads.{LlmResearchGapPayload, LlmNextEvidenceNeedPayload}
use vertical_ai_research_act.Executor.State.{
  ResearchExecutorIterationState, ResearchExecutorRunState,
}

-- A number of iterations, at least one.
abbrev pub positive_or_one : Option ℤ → ℕ
positive_or_one none = 1
positive_or_one (some (negsuc n)) = 1
positive_or_one (some (pos zero)) = 1
positive_or_one (some (pos (suc n))) = suc n

-- `_max_iterations`
unfoldable pub max_iterations : ResearchStageInput → ℕ
max_iterations stage_input = positive_or_one stage_input.iteration_budget

-- `_has_no_actionable_evidence_need`
unfoldable pub has_no_actionable_evidence_need :
    Option LlmResearchGapPayload → Option LlmNextEvidenceNeedPayload → Bool
has_no_actionable_evidence_need none need = true
has_no_actionable_evidence_need (some gap) none = true
has_no_actionable_evidence_need (some gap) (some need) =
    is_no_gap gap.gap_nature
    || is_no_severity gap.gap_severity
    || is_no_purpose need.need_purpose
    || is_no_evidence_kind need.desired_evidence_kind

-- `_positive_optional_int`
unfoldable pub positive_optional_int : Option ℤ → Option ℕ
positive_optional_int (some (pos (suc n))) = some (suc n)
positive_optional_int _ = none

-- `_required_text`
unfoldable pub required_text : Option String → Option String → String → Result String
unfolding strip_or_none
required_text value fallback field_name =
    elim (or_else (strip_or_none value) (strip_or_none fallback)) [
      | none ↦ raised (value_error (field_name <> " is required for material acquisition."))
      | some text ↦ ok text
    ]

pub data BudgetPressure : Type 0 where
  high medium low : BudgetPressure

abbrev pub is_high : BudgetPressure → Bool
is_high high = true
is_high _ = false

-- `latency_budget_ms is not None and latency_budget_ms <= limit`
abbrev pub within_latency : Option ℤ → ℕ → Bool
within_latency none limit = false
within_latency (some latency) limit = leb_ℤ latency (pos limit)

-- `_remaining_iteration_budget_after_current`; the subtraction stops at 0.
unfoldable pub remaining_iteration_budget_after_current :
    ResearchStageInput → ResearchExecutorIterationState → ℕ
unfolding max_iterations
remaining_iteration_budget_after_current stage_input iteration =
    max_iterations stage_input - iteration.iteration_index

-- `_iteration_input_budget_pressure`
unfoldable pub iteration_input_budget_pressure :
    ResearchStageInput → ResearchExecutorIterationState → BudgetPressure
unfolding remaining_iteration_budget_after_current
iteration_input_budget_pressure stage_input iteration =
    if leb (remaining_iteration_budget_after_current stage_input iteration) 0
    then high
    else if within_latency stage_input.latency_budget_ms 1000
    then high
    else if within_latency stage_input.latency_budget_ms 3000
    then medium
    else low

-- `_did_new_evidence_arrive`
abbrev pub did_new_evidence_arrive : ResearchExecutorIterationState → Bool
did_new_evidence_arrive iteration = not (is_empty iteration.processed_evidence_units)

-- `execution_status == "failed"`
abbrev pub is_execution_failed : ExecutionStatus → Bool
is_execution_failed execution_failed = true
is_execution_failed completed = false

-- A result of the tool execution layer that brought nothing.
unfoldable pub brought_nothing : ToolExecutionLayerResult → Bool
brought_nothing result =
    is_execution_failed result.execution_status || is_failed_or_empty result.acquisition_status

-- `_did_tel_fail_or_return_no_result`
unfoldable pub did_tel_fail_or_return_no_result : ResearchExecutorIterationState → Bool
unfolding brought_nothing
did_tel_fail_or_return_no_result iteration = elim iteration.tool_execution_result [
  | none ↦ false
  | some result ↦ brought_nothing result
]

-- `results[-1]` if there is one
abbrev last_or :
    Option EvidenceProcessingResult
    → List EvidenceProcessingResult
    → Option EvidenceProcessingResult
last_or default [] = default
last_or default (r ∷ results) = last_or (some r) results

-- `_latest_evidence_processing_result`
unfoldable pub latest_evidence_processing_result :
    ResearchExecutorRunState → Option EvidenceProcessingResult
latest_evidence_processing_result state =
    last_or
      (elim state.current_iteration [
        | none ↦ none
        | some iteration ↦ iteration.evidence_processing_result
      ])
      state.evidence_processing_results

-- `_prompt_text_list`
unfoldable pub prompt_text_list : List String → List String
unfolding unique_non_empty_strings
prompt_text_list values = unique_non_empty_strings values
